-- ===== src/Chain/Plan/Coverage.antt =====
-- What the planned ranges cover.
use mathlib.Core.Path.{ap₂}
use native.Mathlib.Nat.{div-mul-le_self}
use numera_backend.Prelude.{
  ℕ, zero, suc, ◌+◌, ◌-◌, ◌*◌, ◌≤◌, ◌<◌, ◌≡◌, refl, ap, ◌∙◌, List, [], ◌∷◌, ◌++◌, arith, All,
  length, leb, min, Bool-cases, false, inl, inr, leb→le, le→leb,
}
use numera_backend.Chain.Plan.{Range, max_ranges, range_end, plan_from, plan, last_block}

-- The blocks from one on, as many as said.
unfoldable pub blocks_from : ℕ → ℕ → List ℕ
blocks_from first zero = []
blocks_from first (suc n) = first ∷ blocks_from (suc first) n

unfoldable pub blocks_of : List Range → List ℕ
blocks_of [] = []
blocks_of (r ∷ rs) = blocks_from r.first (r.last + 1 - r.first) ++ blocks_of rs

pub blocks_from-append :
    (a n m : ℕ) → blocks_from a n ++ blocks_from (a + n) m ≡ blocks_from a (n + m)
unfolding blocks_from
blocks_from-append a zero m = ap₂ blocks_from (omega arith) (omega arith)
blocks_from-append a (suc n) m =
    ap (◌∷◌ a) (
      ap (λ b. blocks_from (suc a) n ++ blocks_from b m) (omega arith)
      ∙ blocks_from-append (suc a) n m)
    ∙ ap (blocks_from a) (shift n m)
  where
    shift : (n m : ℕ) → suc (n + m) ≡ suc n + m
    shift n m = omega arith

-- How many blocks `n` ranges cover from a cursor on.
abbrev covered : ℕ → ℕ → ℕ → ℕ → ℕ
covered width safe_head n cursor = min (safe_head + 1 - cursor) (n * width)

module _ (width safe_head : ℕ) (wide : 0 < width) where
  end_bounds :
      (cursor : ℕ)
      → cursor ≤ safe_head
      → (cursor ≤ range_end width safe_head cursor)
        × (range_end width safe_head cursor ≤ safe_head)
        × (range_end width safe_head cursor < cursor + width)
  unfolding range_end
  end_bounds cursor h = ground arith

  covered_step :
      (n cursor : ℕ)
      → cursor ≤ safe_head
      → let end : ℕ = range_end width safe_head cursor in
        (end + 1 - cursor) + covered width safe_head n (end + 1)
        ≡ covered width safe_head (suc n) cursor
  unfolding range_end
  covered_step n cursor h = ground arith

  blocks_of-plan_from :
      (n cursor : ℕ)
      → blocks_of (plan_from width safe_head n cursor)
        ≡ blocks_from cursor (covered width safe_head n cursor)
  unfolding plan_from blocks_of blocks_from
  blocks_of-plan_from zero cursor =
      let none_covered : 0 ≡ covered width safe_head 0 cursor = omega arith in
      ap (blocks_from cursor) none_covered
  blocks_of-plan_from (suc n) cursor = elim (Bool-cases (leb cursor safe_head)) [
    | inl e ↦
        let h = leb→le cursor safe_head e in
        let end : ℕ = range_end width safe_head cursor in
        let k : ℕ = end + 1 - cursor in
        let c : ℕ = covered width safe_head n (end + 1) in
        let next : end + 1 ≡ cursor + k = omega (arith, end_bounds cursor h) in
        rw (e, blocks_of-plan_from n (end + 1))
          (ap (λ b. blocks_from cursor k ++ blocks_from b c) next
            ∙ blocks_from-append cursor k c
            ∙ ap (blocks_from cursor) (covered_step n cursor h))
    | inr e ↦ rw e (ap (blocks_from cursor) (nothing_left n cursor e))
  ]
    where
      nothing_left :
          (n cursor : ℕ) → leb cursor safe_head ≡ false → 0 ≡ covered width safe_head (suc n) cursor
      nothing_left n cursor e = ground arith

  -- A range that can be asked for: not empty, not past the safe head, no wider than allowed.
  abbrev pub IsFit : Range → Type 0
  IsFit r = (r.first ≤ r.last) × (r.last ≤ safe_head) × (r.last < r.first + width)

  plan_from-IsFit :
      (n cursor : ℕ)
      → All IsFit (plan_from width safe_head n cursor)
        × (length (plan_from width safe_head n cursor) ≤ n)
  unfolding plan_from
  plan_from-IsFit zero cursor = (tt, omega arith)
  plan_from-IsFit (suc n) cursor =
      let rest = plan_from-IsFit n (range_end width safe_head cursor + 1) in
      elim (Bool-cases (leb cursor safe_head)) [
        | inl e ↦
            rw e ((end_bounds cursor (leb→le cursor safe_head e), rest.0), omega (arith, rest.1))
        | inr e ↦ rw e (tt, omega arith)
      ]

-- One request for each stream and range stays in the budget of 14.
budget : (streams : ℕ) → 0 < streams → streams ≤ 14 → max_ranges streams * streams ≤ 14
unfolding max_ranges
budget streams h k = ground (arith, div-mul-le_self 14 streams)

-- When batches are not empty, the ranges of a tick, laid end to end, are the blocks from the cursor on, each once and in order,
-- up to the safe head or to as many as the ranges hold.
pub blocks_of-plan :
    (width streams safe_head from : ℕ)
    → 0 < width
    → blocks_of (plan width streams safe_head from)
      ≡ blocks_from from (min (safe_head + 1 - from) (max_ranges streams * width))
unfolding plan
blocks_of-plan width streams safe_head from wide =
    blocks_of-plan_from width safe_head wide (max_ranges streams) from

-- When batches are not empty and there are one to fourteen streams, every range of a tick is not
-- empty, ends by the safe head and is no wider than a batch, and the tick's requests, one for each
-- stream and range, are 14 at most.
pub plan_bounds :
    (width streams safe_head from : ℕ)
    → 0 < width
    → 0 < streams
    → streams ≤ 14
    → All
        (λ r. (r.first ≤ r.last) × (r.last ≤ safe_head) × (r.last < r.first + width))
        (plan width streams safe_head from)
      × (length (plan width streams safe_head from) * streams ≤ 14)
unfolding plan
plan_bounds width streams safe_head from wide some_stream few =
    let fit = plan_from-IsFit width safe_head wide (max_ranges streams) from in
    (fit.0, grind (arith, budget streams some_stream few, fit.1))

-- The last block of a list of ranges that follows block `d`.
last_from : ℕ → List Range → ℕ
last_from d [] = d
last_from d (r ∷ rs) = last_from r.last rs

last_block-last_from : (r : Range) (rs : List Range) → last_block (r ∷ rs) ≡ last_from r.last rs
unfolding last_block last_from
last_block-last_from r [] = refl
last_block-last_from r (q ∷ rs) = last_block-last_from q rs

module _ (width safe_head : ℕ) (wide : 0 < width) where
  last_from-plan_from :
      (n d : ℕ)
      → last_from d (plan_from width safe_head n (d + 1)) + 1
        ≡ d + 1 + covered width safe_head n (d + 1)
  unfolding plan_from last_from
  last_from-plan_from zero d = omega arith
  last_from-plan_from (suc n) d = elim (Bool-cases (leb (d + 1) safe_head)) [
    | inl e ↦
        let h = leb→le (d + 1) safe_head e in
        let end : ℕ = range_end width safe_head (d + 1) in
        rw e (
          omega (
            arith,
            last_from-plan_from n end,
            end_bounds width safe_head wide (d + 1) h,
            covered_step width safe_head wide n (d + 1) h,
          ))
    | inr e ↦ rw e (ground arith)
  ]

  pub last_block-plan_from :
      (n cursor : ℕ)
      → cursor ≤ safe_head
      → last_block (plan_from width safe_head (suc n) cursor) + 1
        ≡ cursor + covered width safe_head (suc n) cursor
  unfolding plan_from
  last_block-plan_from n cursor h =
      let end : ℕ = range_end width safe_head cursor in
      let r : Range = record { first = cursor; last = end } in
      rw (le→leb cursor safe_head h, last_block-last_from r (plan_from width safe_head n (end + 1)))
        (omega (
          arith,
          last_from-plan_from n end,
          end_bounds width safe_head wide cursor h,
          covered_step width safe_head wide n cursor h,
        ))

-- The cursor that a tick saves is the last of the blocks it covers.
max_ranges-pos : (streams : ℕ) → (n : ℕ) × (max_ranges streams ≡ suc n)
unfolding max_ranges
max_ranges-pos streams = (max_ranges streams - 1, ground arith)

-- When there is something to read and batches are not empty, the last block of the plan is the one
-- up to which the ranges cover the span: the safe head, or as far as the ranges reach.
pub last_block-plan :
    (width streams safe_head from : ℕ)
    → 0 < width
    → from ≤ safe_head
    → last_block (plan width streams safe_head from) + 1
      ≡ from + min (safe_head + 1 - from) (max_ranges streams * width)
unfolding plan
last_block-plan width streams safe_head from wide h =
    let (n, e) = max_ranges-pos streams in rw e (last_block-plan_from width safe_head wide n from h)
