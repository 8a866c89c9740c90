-- ===== src/Chain/Tests.antt =====
-- The indexer on a chain of forty blocks, read in ranges of ten behind five confirmations.
use mathlib.Core.List.{Perm}
use mathlib.Core.Path.{subst}
use numera_backend.Prelude.{
  ◌+◌, ◌-◌, ◌≤◌, ◌<◌, ◌≡◌, refl, ◌⊎◌, inl, inr, none, some, List, [], ◌∷◌, ◌++◌, codes, arith, All,
  ◌==◌, if◌then◌else◌,
}
use numera_backend.Events.Data.{NormalizedLog, ls_lmsr, other_engine_event}
use numera_backend.Events.State.{Run, done}
use numera_backend.Chain.Order.{Place, sort}
use numera_backend.Chain.Order.Laws.{sort_lem, Ascending}
use numera_backend.Chain.Plan.{Range, plan, last_block}
use numera_backend.Chain.Plan.Coverage.{blocks_from, blocks_of, blocks_of-plan}
use numera_backend.Chain.Indexer.{Config, Node, Indexer, next_from_block}
use numera_backend.Chain.Indexer.Cursor.{run}
use numera_backend.Chain.Indexer.Delivered.{Chain, IsHonest, logs_in}
use numera_backend.Chain.Indexer.Complete.{IsProcessor, SeenIn, run-SeenIn}

abbrev swapped : List Place
swapped = (3, 2) ∷ (3, 1) ∷ (2, 9) ∷ []

sort_lem_example :
    Perm (sort (λ (p : Place). p) swapped) swapped
    × Ascending (λ (p : Place). p) (sort (λ (p : Place). p) swapped)
sort_lem_example = sort_lem (λ (p : Place). p) swapped

blocks_of-plan_example : blocks_of (plan 10 2 35 8) ≡ blocks_from 8 28
unfolding numera_backend.Chain.Plan.max_ranges
blocks_of-plan_example = blocks_of-plan 10 2 35 8 (omega arith)

abbrev config : Config
config = record {
  start_block = 8;
  batch_blocks = 10;
  confirmations = 5;
  poll_interval_ms = 500;
  streams = codes "0xa" ∷ [];
}

-- One log, in block 12.
abbrev chain : Chain
chain = record {
  logs_at = λ address b.
      if b == 12
      then record {
        payload = ls_lmsr other_engine_event;
        block_number = 12;
        tx_hash = codes "0x1";
        log_index = 0;
      }
        ∷ []
      else [];
  time_of = λ b. b + 1;
}

abbrev node : Node
node = record {
  head = some 40;
  get_logs = λ address r. some (logs_in chain address (blocks_from r.first (r.last + 1 - r.first)));
  block_time = λ b. some (b + 1);
}

abbrev silent_node : Node
silent_node = record node { head = none }

node-IsHonest : IsHonest chain node
node-IsHonest = (λ address r logs h. cc, λ b t h. cc)

abbrev Holds : NormalizedLog → List NormalizedLog → Type 0
Holds l [] = ⊥
Holds l (x ∷ xs) = (l ≡ x) ⊎ Holds l xs

abbrev keep_logs : List NormalizedLog → List NormalizedLog → Run (List NormalizedLog)
keep_logs logs kept = done (logs ++ kept)

Holds_left : (l : NormalizedLog) (xs ys : List NormalizedLog) → Holds l xs → Holds l (xs ++ ys)
Holds_left l [] ys h = absurd h
Holds_left l (x ∷ xs) ys (inl e) = inl e
Holds_left l (x ∷ xs) ys (inr h) = inr (Holds_left l xs ys h)

Holds_right : (l : NormalizedLog) (xs ys : List NormalizedLog) → Holds l ys → Holds l (xs ++ ys)
Holds_right l [] ys h = h
Holds_right l (x ∷ xs) ys h = inr (Holds_right l xs ys h)

Holds-All :
    (xs : List NormalizedLog) (P : NormalizedLog → Type 0)
    → ((l : NormalizedLog) → Holds l xs → P l)
    → All P xs
Holds-All [] P f = tt
Holds-All (x ∷ xs) P f = (f x (inl refl), Holds-All xs P (λ l h. f l (inr h)))

keeps : IsProcessor keep_logs Holds
keeps = (
  λ logs s s' h.
      let same : logs ++ s ≡ s' = cc in
      Holds-All logs (λ l. Holds l s') (λ l held. subst (Holds l) same (Holds_left l logs s held)),
  λ logs s l h. Holds_right l logs s h,
)

abbrev fresh : Indexer (List NormalizedLog)
fresh = record { cursor = none; store = [] }

wide : 0 < config.batch_blocks
wide = omega arith

abbrev end : Indexer (List NormalizedLog)
end = run keep_logs config wide (silent_node ∷ node ∷ []) fresh

run-SeenIn_example :
    (8 ≤ next_from_block config end.cursor)
    × SeenIn keep_logs Holds chain config wide keeps
        (blocks_from 8 (next_from_block config end.cursor - 8))
        end.store
unfolding next_from_block
run-SeenIn_example =
    run-SeenIn keep_logs Holds chain config wide keeps (silent_node ∷ node ∷ []) fresh
      (node-IsHonest, (node-IsHonest, tt))
