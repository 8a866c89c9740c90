-- ===== src/Chain/Indexer/Delivered.antt =====
-- What `collectLogs` reads over the ranges of a tick (src/chain/indexer.service.ts), against the logs of
-- the chain.
use mathlib.Core.List.{append_assoc}
use mathlib.Core.Path.{subst}
use numera_backend.Prelude.{
  ℕ, ◌+◌, ◌-◌, ◌*◌, ◌≡◌, refl, sym, inl, inr, Bool-cases, Option, none, some, List, [], ◌∷◌, ◌++◌,
  Text, All,
}
use numera_backend.Events.Data.{NormalizedLog}
use numera_backend.Chain.Order.{Place, in_order, insert, sort}
use numera_backend.Chain.Plan.{Range}
use numera_backend.Chain.Plan.Coverage.{blocks_from, blocks_of}
use numera_backend.Chain.Indexer.{
  RawLog, Node, both, place, normalize, attach_times, stream_logs, collect_logs, collect_ranges,
}

both-eq-some :
    {A : Type 0} (x y : Option (List A)) {zs : List A}
    → both x y ≡ some zs
    → (xs : List A) × (ys : List A) × (x ≡ some xs) × (y ≡ some ys) × (zs ≡ xs ++ ys)
both-eq-some none y h = absurd (cc)
both-eq-some (some xs) none h = absurd (cc)
both-eq-some (some xs) (some ys) h = (xs, ys, refl, refl, cc)

module _ {A : Type 0} (Q : A → Type 0) where
  All-append : (xs ys : List A) → All Q xs → All Q ys → All Q (xs ++ ys)
  All-append [] ys h k = k
  All-append (x ∷ xs) ys h k = (h.0, All-append xs ys h.1 k)

  All-append_parts : (xs ys : List A) → All Q (xs ++ ys) → All Q xs × All Q ys
  All-append_parts [] ys h = (tt, h)
  All-append_parts (x ∷ xs) ys h =
      let (left, right) = All-append_parts xs ys h.1 in ((h.0, left), right)

  module _ (at : A → Place) where
    All-insert_parts : (x : A) (ys : List A) → All Q (insert at x ys) → Q x × All Q ys
    unfolding insert
    All-insert_parts x [] h = h
    All-insert_parts x (y ∷ ys) h = elim (Bool-cases (in_order (at x) (at y))) [
      | inl e ↦ let k = rw e at h in (k.0, k.1)
      | inr e ↦ let k = rw e at h in let (a, b) = All-insert_parts x ys k.1 in (a, (k.0, b))
    ]

    pub All-sort : (xs : List A) → All Q (sort at xs) → All Q xs
    unfolding sort
    All-sort [] h = tt
    All-sort (x ∷ xs) h = let (a, b) = All-insert_parts x (sort at xs) h in (a, All-sort xs b)

module _ {A : Type 0} {P R : A → Type 0} where
  All-map : (xs : List A) → ((x : A) → P x → R x) → All P xs → All R xs
  All-map [] f h = tt
  All-map (x ∷ xs) f h = (f x h.0, All-map xs f h.1)

-- The logs of the chain at an address and in a block, and the times of blocks.
pub record Chain : Type 0 where
  pub logs_at : Text → ℕ → List RawLog
  pub time_of : ℕ → ℕ

module _ (chain : Chain) where
  -- The logs at an address in some blocks.
  unfoldable pub logs_in : Text → List ℕ → List RawLog
  logs_in address [] = []
  logs_in address (b ∷ bs) = chain.logs_at address b ++ logs_in address bs

  -- What the node answers, where it answers, is the chain's.
  abbrev pub IsHonest : Node → Type 0
  IsHonest node =
      ((address : Text) (r : Range) (logs : List RawLog)
        → node.get_logs address r ≡ some logs
        → logs ≡ logs_in address (blocks_from r.first (r.last + 1 - r.first)))
      × ((b t : ℕ) → node.block_time b ≡ some t → t ≡ chain.time_of b)

  -- A log of the chain as the processor is to get it.
  abbrev pub delivered : Text → RawLog → NormalizedLog
  delivered address l = record {
    address = address;
    payload = l.payload;
    block_number = l.block_number;
    tx_hash = l.tx_hash;
    log_index = l.log_index;
    timestamp = chain.time_of l.block_number * 1000;
  }

  -- A property of all logs of the streams in some blocks.
  abbrev pub Everywhere : (NormalizedLog → Type 0) → List Text → List ℕ → Type 0
  Everywhere Q streams blocks =
      All (λ address. All (λ l. Q (delivered address l)) (logs_in address blocks)) streams

  logs_in-append :
      (address : Text) (bs cs : List ℕ)
      → logs_in address (bs ++ cs) ≡ logs_in address bs ++ logs_in address cs
  unfolding logs_in
  logs_in-append address [] cs = refl
  logs_in-append address (b ∷ bs) cs = simp (logs_in-append address bs cs, append_assoc)

  pub Everywhere-map :
      (Q R : NormalizedLog → Type 0) (streams : List Text) (blocks : List ℕ)
      → ((l : NormalizedLog) → Q l → R l)
      → Everywhere Q streams blocks
      → Everywhere R streams blocks
  Everywhere-map Q R streams blocks f =
      All-map streams (λ address. All-map (logs_in address blocks) (λ l. f (delivered address l)))

  module _ (Q : NormalizedLog → Type 0) where
    pub Everywhere-nil : (streams : List Text) → Everywhere Q streams []
    unfolding logs_in
    Everywhere-nil [] = tt
    Everywhere-nil (address ∷ streams) = (tt, Everywhere-nil streams)

    pub Everywhere-append :
        (streams : List Text) (bs cs : List ℕ)
        → Everywhere Q streams bs
        → Everywhere Q streams cs
        → Everywhere Q streams (bs ++ cs)
    Everywhere-append [] bs cs h k = tt
    Everywhere-append (address ∷ streams) bs cs h k = (
      subst (All (λ l. Q (delivered address l))) (sym (logs_in-append address bs cs)) (
          All-append (λ l. Q (delivered address l)) (logs_in address bs) (logs_in address cs) h.0
            k.0),
      Everywhere-append streams bs cs h.1 k.1,
    )

    module _ (node : Node) (honest : IsHonest node) where
      attach_times-All :
          (address : Text) (ls : List RawLog) {out : List NormalizedLog}
          → attach_times node.block_time address ls ≡ some out
          → All Q out
          → All (λ l. Q (delivered address l)) ls
      unfolding attach_times normalize
      attach_times-All address [] e h = tt
      attach_times-All address (l ∷ ls) e h =
          let (xs, ys, first, later, parts) = both-eq-some _ _ e in
          let (a, b) = All-append_parts Q xs ys (subst (All Q) parts h) in
          (
            one l xs (node.block_time l.block_number) refl first a,
            attach_times-All address ls later b,
          )
        where
          one :
              (l : RawLog) (xs : List NormalizedLog) (o : Option ℕ)
              → node.block_time l.block_number ≡ o
              → ◌≡◌ {A = Option (List NormalizedLog)}
                  (elim o [ none ↦ none | some time ↦ some (normalize address l time ∷ []) ])
                  (some xs)
              → All Q xs
              → Q (delivered address l)
          one l xs none t e h = absurd (cc)
          one l xs (some time) t e h =
              let same : normalize address l time ∷ [] ≡ xs = cc in
              let got = subst (All Q) (sym same) h in
              subst (λ n. Q (normalize address l n)) (honest.1 l.block_number time t) got.0

      stream_logs-All :
          (r : Range) (streams : List Text) {out : List NormalizedLog}
          → stream_logs node r streams ≡ some out
          → All Q out
          → Everywhere Q streams (blocks_from r.first (r.last + 1 - r.first))
      unfolding stream_logs
      stream_logs-All r [] e h = tt
      stream_logs-All r (address ∷ streams) e h =
          let (xs, ys, first, later, parts) = both-eq-some _ _ e in
          let (a, b) = All-append_parts Q xs ys (subst (All Q) parts h) in
          (one address xs (node.get_logs address r) refl first a, stream_logs-All r streams later b)
        where
          one :
              (address : Text) (xs : List NormalizedLog) (o : Option (List RawLog))
              → node.get_logs address r ≡ o
              → ◌≡◌ {A = Option (List NormalizedLog)}
                  (elim o [ none ↦ none | some logs ↦ attach_times node.block_time address logs ])
                  (some xs)
              → All Q xs
              → All
                  (λ l. Q (delivered address l))
                  (logs_in address (blocks_from r.first (r.last + 1 - r.first)))
          one address xs none t e h = absurd (cc)
          one address xs (some logs) t e h =
              subst (All (λ l. Q (delivered address l))) (honest.0 address r logs t)
                (attach_times-All address logs e h)

      collect_logs-All :
          (r : Range) (streams : List Text) (o : Option (List NormalizedLog))
          {out : List NormalizedLog}
          → stream_logs node r streams ≡ o
          → ◌≡◌ {A = Option (List NormalizedLog)}
              (elim o [ none ↦ none | some logs ↦ some (sort place logs) ])
              (some out)
          → All Q out
          → Everywhere Q streams (blocks_from r.first (r.last + 1 - r.first))
      collect_logs-All r streams none t e h = absurd (cc)
      collect_logs-All r streams (some logs) {out} t e h =
          let same : sort place logs ≡ out = cc in
          stream_logs-All r streams t (All-sort Q place logs (subst (All Q) (sym same) h))

      pub collect_ranges-All :
          (streams : List Text) (rs : List Range) {out : List NormalizedLog}
          → collect_ranges node streams rs ≡ some out
          → All Q out
          → Everywhere Q streams (blocks_of rs)
      unfolding collect_ranges collect_logs blocks_of
      collect_ranges-All streams [] e h = Everywhere-nil streams
      collect_ranges-All streams (r ∷ rs) e h =
          let (xs, ys, first, later, parts) = both-eq-some _ _ e in
          let (a, b) = All-append_parts Q xs ys (subst (All Q) parts h) in
          Everywhere-append streams _ _ (collect_logs-All r streams _ refl first a)
            (collect_ranges-All streams rs later b)
