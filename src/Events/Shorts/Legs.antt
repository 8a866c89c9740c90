-- ===== src/Events/Shorts/Legs.antt =====
-- The legs of a short (`onShort` of src/chain/event-processor.service.ts) and their bases.
use native.Mathlib.Nat.{mul-div-le}
use numera_backend.Prelude.{
  ltb, leb, not, ◌&&◌, ap, ℕ, zero, suc, ◌+◌, ◌-◌, ◌*◌, ◌/◌, ◌≤◌, ◌<◌, ◌≡◌, ◌≢◌, ◌==◌, refl, Bool,
  true, false, List, [], ◌∷◌, arith, length, if◌then◌else◌, ==_iff,
}
use numera_backend.Events.Shorts.{legs_from, short_legs, leg_basis, leg_parts, short_parts}

-- Whether an outcome is among the legs.
abbrev pub is_leg : List ℕ → ℕ → Bool
is_leg [] j = false
is_leg (i ∷ legs) j = if i == j then true else is_leg legs j

is_leg-legs_from :
    (shorted i n j : ℕ)
    → (is_leg (legs_from shorted i n) j ≡ true → (i ≤ j) × (j < i + n) × (j ≢ shorted))
      × (i ≤ j → j < i + n → j ≢ shorted → is_leg (legs_from shorted i n) j ≡ true)
unfolding legs_from
is_leg-legs_from shorted i zero j = (λ h. cc, λ p q r. absurd (omega arith))
is_leg-legs_from shorted i (suc n) j =
    let ih = is_leg-legs_from shorted (suc i) n j in
    (λ h. ground (arith, ih.0), λ p q r. ground (arith, ih.1))

pub sum_bases : List (ℕ × ℕ) → ℕ
sum_bases [] = 0
sum_bases ((i, basis) ∷ parts) = basis + sum_bases parts

quotient_part : (q k c : ℕ) → c * q ≤ k → q * (c - 1) ≤ k
quotient_part q k c h = grind arith

leg_basis_last :
    (cost count k : ℕ) → k + 1 ≡ count → leg_basis cost count k + (cost / count) * k ≡ cost
unfolding leg_basis
leg_basis_last cost count k e =
    let fits = quotient_part (cost / count) cost count (mul-div-le cost count) in
    let last : k ≡ count - 1 = omega arith in
    rw (last, (==_iff (count - 1) (count - 1)).1 refl) (omega arith)

leg_basis_even : (cost count k : ℕ) → k + 1 < count → leg_basis cost count k ≡ cost / count
unfolding leg_basis
leg_basis_even cost count k h = ground arith

sum_bases-leg_parts :
    (cost count k : ℕ) (legs : List ℕ)
    → 0 < length legs
    → k + length legs ≡ count
    → sum_bases (leg_parts cost count k legs) + (cost / count) * k ≡ cost
unfolding leg_parts sum_bases
sum_bases-leg_parts cost count k [] h e = elim h [ ]
sum_bases-leg_parts cost count k (i ∷ []) h e =
    omega (arith, leg_basis_last cost count k (omega arith))
sum_bases-leg_parts cost count k (i ∷ j ∷ legs) h e = omega (
  arith,
  leg_basis_even cost count k (omega arith),
  sum_bases-leg_parts cost count (suc k) (j ∷ legs) (omega arith) (omega arith),
)

-- The legs of a short of one outcome of a market: every other outcome, and nothing else.
pub is_leg-short_legs :
    (shorted outcome_count j : ℕ)
    → (is_leg (short_legs shorted outcome_count) j ≡ true → (j < outcome_count) × (j ≢ shorted))
      × (j < outcome_count → j ≢ shorted → is_leg (short_legs shorted outcome_count) j ≡ true)
is_leg-short_legs shorted n j =
    let both = is_leg-legs_from shorted 0 n j in
    (λ h. (omega (arith, both.0 h), (both.0 h).2), λ p q. both.1 (omega arith) (omega arith) q)

-- When there is a leg, the parts that a short's cost is split into add up to the cost exactly.
pub sum_bases-short_parts :
    (cost : ℕ) (legs : List ℕ) → 0 < length legs → sum_bases (short_parts cost legs) ≡ cost
sum_bases-short_parts cost legs h =
    omega (arith, sum_bases-leg_parts cost (length legs) 0 legs h (omega arith))

-- How often an outcome is credited.
unfoldable pub credits : List (ℕ × ℕ) → ℕ → ℕ
credits [] j = 0
credits ((i, basis) ∷ parts) j = (if i == j then 1 else 0) + credits parts j

times_leg : List ℕ → ℕ → ℕ
times_leg [] j = 0
times_leg (i ∷ legs) j = (if i == j then 1 else 0) + times_leg legs j

credits-leg_parts :
    (cost count k : ℕ) (legs : List ℕ) (j : ℕ)
    → credits (leg_parts cost count k legs) j ≡ times_leg legs j
unfolding credits times_leg leg_parts
credits-leg_parts cost count k [] j = refl
credits-leg_parts cost count k (i ∷ legs) j =
    ap (λ n. (if i == j then 1 else 0) + n) (credits-leg_parts cost count (suc k) legs j)

times_leg-legs_from :
    (shorted i n j : ℕ)
    → times_leg (legs_from shorted i n) j
      ≡ (if leb i j && (ltb j (i + n) && not (j == shorted)) then 1 else 0)
unfolding times_leg legs_from
times_leg-legs_from shorted i zero j = ground arith
times_leg-legs_from shorted i (suc n) j = ground (arith, times_leg-legs_from shorted (suc i) n j)

-- Each outcome but the shorted one is credited once.
pub credits-short_parts :
    (cost shorted n j : ℕ)
    → credits (short_parts cost (short_legs shorted n)) j
      ≡ (if ltb j n && not (j == shorted) then 1 else 0)
credits-short_parts cost shorted n j = ground (
  arith,
  credits-leg_parts cost (length (short_legs shorted n)) 0 (short_legs shorted n) j,
  times_leg-legs_from shorted 0 n j,
)
