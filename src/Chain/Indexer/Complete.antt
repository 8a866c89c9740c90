-- ===== src/Chain/Indexer/Complete.antt =====
-- A run of ticks loses no log: `tick` of src/chain/indexer.service.ts with any processor.
use mathlib.Core.Path.{subst}
use numera_backend.Prelude.{
  ℕ, ◌-◌, ◌≤◌, ◌<◌, ◌≡◌, refl, inl, inr, Bool-cases, Option, none, some, List, [], ◌∷◌, All, ltb,
}
use numera_backend.Events.Data.{NormalizedLog}
use numera_backend.Events.State.{Run, done, threw, after}
use numera_backend.Chain.Order.{sort}
use numera_backend.Chain.Plan.{Range, plan}
use numera_backend.Chain.Plan.Coverage.{blocks_from, blocks_of}
use numera_backend.Chain.Indexer.{
  Config, Node, Indexer, Tick, place, collect_ranges, next_from_block, after_tick, length_of,
  safe_head_of, process, commit, tick_to, tick_at, tick,
}
use numera_backend.Chain.Indexer.Cursor.{ranges_of, run, committed_blocks, committed_blocks-run}
use numera_backend.Chain.Indexer.Delivered.{
  All-sort, Chain, IsHonest, Everywhere, Everywhere-map, Everywhere-nil, Everywhere-append,
  collect_ranges-All,
}

module _ {S : Type 0} (process_batch : List NormalizedLog → S → Run S)
    (Seen : NormalizedLog → S → Type 0) where
  -- A batch that goes through was seen whole, and what was seen stays so, whether it goes through or
  -- not.
  abbrev pub IsProcessor : Type 0
  IsProcessor =
      ((logs : List NormalizedLog) (s s' : S)
        → process_batch logs s ≡ done s'
        → All (λ l. Seen l s') logs)
      × ((logs : List NormalizedLog) (s : S) (l : NormalizedLog)
          → Seen l s
          → Seen l (after (process_batch logs s)))

  module _ (chain : Chain) (cfg : Config) (wide : 0 < cfg.batch_blocks)
      (processor : IsProcessor) where
    -- All logs of the configured streams in some blocks were seen.
    abbrev pub SeenIn : List ℕ → S → Type 0
    SeenIn blocks s = Everywhere chain (λ l. Seen l s) cfg.streams blocks

    process-seen :
        (logs : List NormalizedLog) (s s' : S)
        → process process_batch logs s ≡ done s'
        → All (λ l. Seen l s') logs
    unfolding process
    process-seen [] s s' h = tt
    process-seen (l ∷ ls) s s' h = processor.0 (l ∷ ls) s s' h

    process-keeps :
        (logs : List NormalizedLog) (s : S) (l : NormalizedLog)
        → Seen l s
        → Seen l (after (process process_batch logs s))
    unfolding process
    process-keeps [] s l h = h
    process-keeps (x ∷ xs) s l h = processor.1 (x ∷ xs) s l h

    -- What a tick owes: its blocks' logs were seen, and what was seen before still is.
    abbrev Owes : Indexer S → Tick S → Type 0
    Owes x t =
        SeenIn (blocks_of (ranges_of t)) (after_tick t).store
        × ((l : NormalizedLog) → Seen l x.store → Seen l (after_tick t).store)

    nothing_owed :
        (x : Indexer S)
        → SeenIn (blocks_of []) x.store × ((l : NormalizedLog) → Seen l x.store → Seen l x.store)
    unfolding blocks_of
    nothing_owed x = (Everywhere-nil chain (λ l. Seen l x.store) cfg.streams, λ l h. h)

    commit-Owes :
        (node : Node) (ranges : List Range) (safe_head : ℕ) (x : Indexer S)
        (logs : List NormalizedLog) (r : Run S)
        → IsHonest chain node
        → collect_ranges node cfg.streams ranges ≡ some logs
        → process process_batch (sort place logs) x.store ≡ r
        → Owes x (commit process_batch ranges safe_head x r)
    unfolding commit blocks_of
    commit-Owes node ranges safe_head x logs (threw s) honest read e = (
      Everywhere-nil chain (λ l. Seen l s) cfg.streams,
      λ l h. subst (λ q. Seen l (after q)) e (process-keeps (sort place logs) x.store l h),
    )
    commit-Owes node ranges safe_head x logs (done s) honest read e = (
      collect_ranges-All chain (λ l. Seen l s) node honest cfg.streams ranges read
          (All-sort (λ l. Seen l s) place logs (process-seen (sort place logs) x.store s e)),
      λ l h. subst (λ q. Seen l (after q)) e (process-keeps (sort place logs) x.store l h),
    )

    read-Owes :
        (node : Node) (ranges : List Range) (safe_head : ℕ) (x : Indexer S)
        (o : Option (List NormalizedLog))
        → IsHonest chain node
        → collect_ranges node cfg.streams ranges ≡ o
        → Owes x (elim o as (λ _. Tick S) [
          | none ↦ Tick.failed x
          | some logs ↦
              commit process_batch ranges safe_head x
                (process process_batch (sort place logs) x.store)
        ])
    read-Owes node ranges safe_head x none honest e = nothing_owed x
    read-Owes node ranges safe_head x (some logs) honest e =
        commit-Owes node ranges safe_head x logs _ honest e refl

    tick_to-Owes :
        (node : Node) (safe_head : ℕ) (x : Indexer S)
        → IsHonest chain node
        → Owes x (tick_to process_batch cfg node safe_head x)
    unfolding tick_to
    tick_to-Owes node safe_head x honest =
        let from : ℕ = next_from_block cfg x.cursor in
        let ranges = plan cfg.batch_blocks (length_of cfg.streams) safe_head from in
        elim (Bool-cases (ltb safe_head from)) [
          | inl e ↦ rw e (nothing_owed x)
          | inr e ↦ rw e (read-Owes node ranges safe_head x _ honest refl)
        ]

    tick-Owes :
        (node : Node) (x : Indexer S) → IsHonest chain node → Owes x (tick process_batch cfg node x)
    unfolding tick tick_at
    tick-Owes node x honest = at node.head
      where
        at : (o : Option ℕ) → Owes x (tick_at process_batch cfg node o x)
        at none = nothing_owed x
        at (some head) = tick_to-Owes node (safe_head_of cfg.confirmations head) x honest

    run-Owes :
        (nodes : List Node) (x : Indexer S)
        → All (IsHonest chain) nodes
        → SeenIn
            (committed_blocks process_batch cfg wide nodes x)
            (run process_batch cfg wide nodes x).store
          × ((l : NormalizedLog)
              → Seen l x.store
              → Seen l (run process_batch cfg wide nodes x).store)
    unfolding run committed_blocks
    run-Owes [] x honest = (Everywhere-nil chain (λ l. Seen l x.store) cfg.streams, λ l h. h)
    run-Owes (node ∷ nodes) x honest =
        let t = tick process_batch cfg node x in
        let end = run process_batch cfg wide nodes (after_tick t) in
        let first = tick-Owes node x honest.0 in
        let later = run-Owes nodes (after_tick t) honest.1 in
        (
          Everywhere-append chain (λ l. Seen l end.store) cfg.streams _ _
              (Everywhere-map chain (λ l. Seen l (after_tick t).store) (λ l. Seen l end.store)
                cfg.streams _ later.1 first.0)
              later.0,
          λ l h. later.1 l (first.1 l h),
        )

    -- When batches are not empty, a node's answers are the chain's where it gives any, and a
    -- processor sees a batch that goes through whole and forgets nothing: over any run of ticks,
    -- whichever of them fail at the node or in the processor, the cursor never goes back, and every log
    -- of the configured streams in the blocks that it went over was seen, with its block's time.
    pub run-SeenIn :
        (nodes : List Node) (x : Indexer S)
        → All (IsHonest chain) nodes
        → let from : ℕ = next_from_block cfg x.cursor in
          let end : Indexer S = run process_batch cfg wide nodes x in
          (from ≤ next_from_block cfg end.cursor)
          × SeenIn (blocks_from from (next_from_block cfg end.cursor - from)) end.store
    run-SeenIn nodes x honest =
        let (forward, blocks) = committed_blocks-run process_batch cfg wide nodes x in
        (
          forward,
          subst (λ bs. SeenIn bs (run process_batch cfg wide nodes x).store) blocks
              (run-Owes nodes x honest).0,
        )
