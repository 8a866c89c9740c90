-- ===== src/Chain/Indexer/Cursor.antt =====
-- The cursor over a run of ticks.
use native.Mathlib.Nat.{le_trans}
use numera_backend.Prelude.{
  ℕ, ◌+◌, ◌-◌, ◌*◌, ◌≤◌, ◌<◌, ◌≡◌, refl, ◌⊎◌, inl, inr, Bool-cases, Option-cases, ap, ◌∙◌, Option,
  none, some, List, [], ◌∷◌, ◌++◌, arith, ltb, min,
}
use numera_backend.Events.Data.{NormalizedLog}
use numera_backend.Events.State.{Run, done, threw}
use numera_backend.Chain.Plan.{Range, plan, max_ranges, last_block}
use numera_backend.Chain.Plan.Coverage.{
  blocks_from, blocks_of, blocks_of-plan, blocks_from-append, last_block-plan,
}
use numera_backend.Chain.Indexer.{
  Config, Node, Indexer, Tick, idle, committed, failed, tick, tick_at, tick_to, commit,
  next_from_block, safe_head_of, after_tick, length_of, collect_ranges,
}

abbrev pub ranges_of : {S : Type 0} → Tick S → List Range
ranges_of (idle x) = []
ranges_of (committed ranges caught_up x) = ranges
ranges_of (failed x) = []

-- What a tick may do to the cursor, for a safe head and the block that it starts from.
abbrev Moves : {S : Type 0} → Config → ℕ → Indexer S → Tick S → Type 0
Moves cfg safe_head x t =
    let from : ℕ = next_from_block cfg x.cursor in
    let to : ℕ = next_from_block cfg (after_tick t).cursor in
    (from ≤ to)
    × (blocks_of (ranges_of t) ≡ blocks_from from (to - from))
    × ((to ≡ from) ⊎ (to ≤ safe_head + 1))

module _ {S : Type 0} (process_batch : List NormalizedLog → S → Run S) (cfg : Config)
    (wide : 0 < cfg.batch_blocks) where
  unmoved :
      (safe_head : ℕ) (from : ℕ)
      → (from ≤ from)
        × ([] ≡ blocks_from from (from - from))
        × ((from ≡ from) ⊎ (from ≤ safe_head + 1))
  unfolding blocks_from
  unmoved safe_head from =
      let nothing : 0 ≡ from - from = omega arith in
      (omega arith, ap (blocks_from from) nothing, inl refl)

  -- The span of a committed plan.
  moved :
      (safe_head from streams : ℕ)
      → from ≤ safe_head
      → let ranges : List Range = plan cfg.batch_blocks streams safe_head from in
        let to : ℕ = last_block ranges + 1 in
        (from ≤ to)
        × (blocks_of ranges ≡ blocks_from from (to - from))
        × ((to ≡ from) ⊎ (to ≤ safe_head + 1))
  moved safe_head from streams h =
      let last = last_block-plan cfg.batch_blocks streams safe_head from wide h in
      let count : min (safe_head + 1 - from) (max_ranges streams * cfg.batch_blocks)
          ≡ last_block (plan cfg.batch_blocks streams safe_head from) + 1 - from =
        omega (arith, last) in
      (
        omega (arith, last),
        blocks_of-plan cfg.batch_blocks streams safe_head from wide ∙ ap (blocks_from from) count,
        inr (omega (arith, last)),
      )

  commit-Moves :
      (safe_head : ℕ) (x : Indexer S) (r : Run S)
      → next_from_block cfg x.cursor ≤ safe_head
      → Moves cfg safe_head x (
          commit process_batch
            (plan cfg.batch_blocks (length_of cfg.streams) safe_head (next_from_block cfg x.cursor))
            safe_head
            x
            r)
  unfolding commit blocks_of next_from_block
  commit-Moves safe_head x (threw s) h = unmoved safe_head (next_from_block cfg x.cursor)
  commit-Moves safe_head x (done s) h =
      moved safe_head (next_from_block cfg x.cursor) (length_of cfg.streams) h

  tick_to-Moves :
      (node : Node) (safe_head : ℕ) (x : Indexer S)
      → Moves cfg safe_head x (tick_to process_batch cfg node safe_head x)
  unfolding tick_to blocks_of
  tick_to-Moves node safe_head x =
      let from : ℕ = next_from_block cfg x.cursor in
      let ranges = plan cfg.batch_blocks (length_of cfg.streams) safe_head from in
      elim (Bool-cases (ltb safe_head from)) [
        | inl e ↦ rw e (unmoved safe_head from)
        | inr e ↦ elim (Option-cases (collect_ranges node cfg.streams ranges)) [
          | inl f ↦ rw (e, f) (unmoved safe_head from)
          | inr (logs, f) ↦ rw (e, f) (commit-Moves safe_head x _ (ground arith))
        ]
      ]

  tick_at-Moves :
      (node : Node) (head : Option ℕ) (x : Indexer S)
      → let t : Tick S = tick_at process_batch cfg node head x in
        let from : ℕ = next_from_block cfg x.cursor in
        let to : ℕ = next_from_block cfg (after_tick t).cursor in
        (from ≤ to) × (blocks_of (ranges_of t) ≡ blocks_from from (to - from))
  unfolding tick_at blocks_of
  tick_at-Moves node none x =
      let same = unmoved 0 (next_from_block cfg x.cursor) in (same.0, same.1)
  tick_at-Moves node (some head) x =
      let m = tick_to-Moves node (safe_head_of cfg.confirmations head) x in (m.0, m.1)

  -- The blocks that a tick commits are the ones between the cursors before and after it.
  tick_span :
      (node : Node) (x : Indexer S)
      → let t : Tick S = tick process_batch cfg node x in
        let from : ℕ = next_from_block cfg x.cursor in
        let to : ℕ = next_from_block cfg (after_tick t).cursor in
        (from ≤ to) × (blocks_of (ranges_of t) ≡ blocks_from from (to - from))
  unfolding tick
  tick_span node x = tick_at-Moves node node.head x

  unfoldable pub run : List Node → Indexer S → Indexer S
  run [] x = x
  run (node ∷ nodes) x = run nodes (after_tick (tick process_batch cfg node x))

  -- The blocks that a run of ticks commits, in the order of their batches.
  unfoldable pub committed_blocks : List Node → Indexer S → List ℕ
  committed_blocks [] x = []
  committed_blocks (node ∷ nodes) x =
      let t = tick process_batch cfg node x in
      blocks_of (ranges_of t) ++ committed_blocks nodes (after_tick t)

  -- When batches are not empty, over any run of ticks, whichever of them fail, the committed blocks are those between the first
  -- cursor and the last, each once and in order: none is skipped and none is committed twice.
  pub committed_blocks-run :
      (nodes : List Node) (x : Indexer S)
      → (next_from_block cfg x.cursor ≤ next_from_block cfg (run nodes x).cursor)
        × (committed_blocks nodes x
            ≡ blocks_from
                (next_from_block cfg x.cursor)
                (next_from_block cfg (run nodes x).cursor - next_from_block cfg x.cursor))
  unfolding run committed_blocks
  committed_blocks-run [] x =
      let same = unmoved 0 (next_from_block cfg x.cursor) in (same.0, same.1)
  committed_blocks-run (node ∷ nodes) x =
      let t = tick process_batch cfg node x in
      let first = tick_span node x in
      let later = committed_blocks-run nodes (after_tick t) in
      let from : ℕ = next_from_block cfg x.cursor in
      let mid : ℕ = next_from_block cfg (after_tick t).cursor in
      let end : ℕ = next_from_block cfg (run nodes (after_tick t)).cursor in
      let joined : mid ≡ from + (mid - from) = omega (arith, first.0) in
      let total : (mid - from) + (end - mid) ≡ end - from = omega (arith, first.0, later.0) in
      (
        le_trans first.0 later.0,
        rw (first.1, later.1)
            (ap (λ b. blocks_from from (mid - from) ++ blocks_from b (end - mid)) joined
              ∙ blocks_from-append from (mid - from) (end - mid)
              ∙ ap (blocks_from from) total),
      )

  tick_at-le :
      (node : Node) (answer : Option ℕ) (head : ℕ) (x : Indexer S)
      → answer ≡ some head
      → cfg.confirmations ≤ head
      → next_from_block cfg x.cursor ≤ head - cfg.confirmations + 1
      → next_from_block cfg (after_tick (tick_at process_batch cfg node answer x)).cursor
        ≤ head - cfg.confirmations + 1
  unfolding tick_at
  tick_at-le node none head x e deep behind = behind
  tick_at-le node (some h) head x e deep behind =
      let safe = safe_head_of_le cfg.confirmations h head e in
      ground (arith, (tick_to-Moves node (safe_head_of cfg.confirmations h) x).2)
    where
      safe_head_of_le :
          (c h head : ℕ) → ◌≡◌ {A = Option ℕ} (some h) (some head) → safe_head_of c h ≤ head - c
      safe_head_of_le c h head e = unfold safe_head_of in ground arith

  -- When batches are not empty and the head is at least the confirmations high, a tick never takes
  -- the cursor past the head less the confirmations, if it was not past it before.
  pub tick-cursor-le :
      (node : Node) (head : ℕ) (x : Indexer S)
      → node.head ≡ some head
      → cfg.confirmations ≤ head
      → next_from_block cfg x.cursor ≤ head - cfg.confirmations + 1
      → next_from_block cfg (after_tick (tick process_batch cfg node x)).cursor
        ≤ head - cfg.confirmations + 1
  unfolding tick
  tick-cursor-le node head x e deep behind = tick_at-le node node.head head x e deep behind
