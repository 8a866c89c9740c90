-- ===== src/Pool/Interleaved/Tests.antt =====
-- Two withdrawals that pin different roots, one of which gives a publication up.
use numera_backend.Prelude.{ℕ, ◌≡◌, ◌==◌, refl, [], ◌∷◌, All, arith, if◌then◌else◌}
use mathlib.Core.Logic.Or
use mathlib.Core.List.{mem-cons}
use numera_backend.Pool.Interleaved.{
  System, Reach, here, next, enter, current, publish, landed, given_up, lands_late, relay, moved,
  released, at,
}
use numera_backend.Pool.Interleaved.Pinned.{Reach-IsAccepted}

-- The first withdrawal pins the root 1, the second the root 0.
abbrev root : ℕ → ℕ
root i = if i == 0 then 1 else 0

not_current : ◌≡◌ {A = ℕ} 0 1 → ⊥
not_current e = absurd (omega (arith, e))

other : ◌≡◌ {A = ℕ} 1 0 → ⊥
other e = absurd (omega (arith, e))

-- The second enters once the first is done.
one_by_one : (s : System) × Reach root 0 s × (s.late ≡ [])
unfolding at released moved
one_by_one = (
  _,
  next
      (next
        (next
          (next
            (next
              (next (next (next here (enter 0 refl refl)) (publish 0 refl not_current))
                (landed 0 refl))
              (relay 0 refl))
            (enter 1 refl refl))
          (publish 1 refl other))
        (landed 1 refl))
      (relay 1 refl),
  refl,
)

-- The first gives its publication up, the second finds its root current, and is relayed after the
-- publication landed: its proof pins a root that is not the latest.
overtaken : (s : System) × Reach root 0 s × (s.relayed ≡ (0, 1) ∷ [])
unfolding at released moved
overtaken = (
  _,
  next
      (next
        (next
          (next
            (next (next (next here (enter 0 refl refl)) (publish 0 refl not_current))
              (given_up 0 refl))
            (enter 1 refl refl))
          (current 1 refl refl))
        (lands_late 1 (mem-cons.1 (Or.inl refl))))
      (relay 1 refl),
  refl,
)

Reach-IsAccepted_example : All (λ (x : ℕ × ℕ). x.0 ≡ x.1) one_by_one.0.relayed
Reach-IsAccepted_example = Reach-IsAccepted root one_by_one.1 one_by_one.2
