-- ===== src/Pool/Interleaved/Pinned.antt =====
-- A proof is relayed when the chain accepts the root that it pins.
use mathlib.Core.Path.{subst}
use mathlib.Core.List.{Mem, not-mem-nil}
use numera_backend.Prelude.{
  ℕ, ◌≡◌, ◌≢◌, ◌==◌, ==_iff, ◌⊎◌, inl, inr, refl, sym, ap, Bool-cases, Bool, true, false, Option,
  none, some, List, [], All, arith,
}
use numera_backend.Pool.Interleaved.{
  Pc, holding, published, ready, finished, System, moved, released, at, Step, enter, current,
  publish, landed, given_up, lands_late, relay, throws, Reach, here, next,
}

-- Whether a withdrawal is inside its job.
unfoldable pub is_inside : Pc → Bool
is_inside holding = true
is_inside published = true
is_inside ready = true
is_inside _ = false

abbrev pub IsExclusive : Option ℕ → (ℕ → Pc) → Type 0
IsExclusive holder pc = (j : ℕ) → is_inside (pc j) ≡ true → holder ≡ some j

-- Unless a publication was given up, the latest root is that of whoever is about to relay.
abbrev pub IsPinned : (ℕ → ℕ) → ℕ → List ℕ → (ℕ → Pc) → Type 0
IsPinned root latest late pc = (j : ℕ) → pc j ≡ ready → late ≡ [] → latest ≡ root j

abbrev pub IsAccepted : List ℕ → List (ℕ × ℕ) → Type 0
IsAccepted late relayed = late ≡ [] → All (λ (x : ℕ × ℕ). x.0 ≡ x.1) relayed

abbrev pub IsSound : (ℕ → ℕ) → System → Type 0
IsSound root s =
    IsExclusive s.holder s.pc
    × IsPinned root s.latest_root s.late s.pc
    × IsAccepted s.late s.relayed

moved_self : (i : ℕ) (p : Pc) (pc : ℕ → Pc) → moved i p pc i ≡ p
unfolding moved
moved_self i p pc = ground arith

moved_other : (i j : ℕ) (p : Pc) (pc : ℕ → Pc) → i ≢ j → moved i p pc j ≡ pc j
unfolding moved
moved_other i j p pc h = ground (arith, h)

nat_cases : (i j : ℕ) → (i ≡ j) ⊎ (i ≢ j)
nat_cases i j = elim (Bool-cases (i == j)) [
  | inl e ↦ inl ((==_iff i j).0 e)
  | inr e ↦ inr (λ same. cc ((==_iff i j).1 same, e))
]

-- A property of the places after one of them changed.
moved_elim :
    (P : Pc → ℕ → Type 0) (i j : ℕ) (p : Pc) (pc : ℕ → Pc)
    → P p i
    → (i ≢ j → P (pc j) j)
    → P (moved i p pc j) j
moved_elim P i j p pc own other = elim (nat_cases i j) [
  | inl e ↦ subst (λ k. P (moved i p pc k) k) e (subst (λ q. P q i) (sym (moved_self i p pc)) own)
  | inr ne ↦ subst (λ q. P q j) (sym (moved_other i j p pc ne)) (other ne)
]

stays :
    (i : ℕ) (p : Pc) (holder : Option ℕ) (pc : ℕ → Pc)
    → holder ≡ some i
    → IsExclusive holder pc
    → IsExclusive holder (moved i p pc)
stays i p holder pc h x j =
    moved_elim (λ q k. is_inside q ≡ true → holder ≡ some k) i j p pc (λ inside. h) (λ ne. x j)

leaves :
    (i : ℕ) (holder : Option ℕ) (pc : ℕ → Pc)
    → holder ≡ some i
    → IsExclusive holder pc
    → IsExclusive none (moved i finished pc)
unfolding is_inside
leaves i holder pc h x j =
    moved_elim (λ q k. is_inside q ≡ true → none ≡ some k) i j finished pc
      (λ inside. absurd (cc (inside))) (λ ne inside. absurd (ne (cc (h, x j inside))))

enters :
    (i : ℕ) (holder : Option ℕ) (pc : ℕ → Pc)
    → holder ≡ none
    → IsExclusive holder pc
    → IsExclusive (some i) (moved i holding pc)
enters i holder pc h x j =
    moved_elim (λ q k. is_inside q ≡ true → some i ≡ some k) i j holding pc (λ inside. refl)
      (λ ne inside. absurd (cc (h, x j inside)))

-- A place that is not the last before the relay pins nothing.
not_ready :
    (root : ℕ → ℕ) (latest i : ℕ) (late : List ℕ) (p : Pc) (pc : ℕ → Pc)
    → p ≢ ready
    → IsPinned root latest late pc
    → IsPinned root latest late (moved i p pc)
not_ready root latest i late p pc n x j =
    moved_elim (λ q k. q ≡ ready → late ≡ [] → latest ≡ root k) i j p pc (λ is none. absurd (n is))
      (λ ne. x j)

module _ (root : ℕ → ℕ) where
  Step-IsSound : {s t : System} → Step root s t → IsSound root s → IsSound root t
  unfolding at released is_inside
  Step-IsSound {s = s} (enter i free waits) (x, p, a) =
      (enters i s.holder s.pc free x, not_ready root _ i _ holding s.pc (λ e. cc (e)) p, a)
  Step-IsSound {s = s} (current i holds is) (x, p, a) = (
    stays i ready s.holder s.pc (x i (ap is_inside holds)) x,
    λ j.
        moved_elim (λ q k. q ≡ ready → s.late ≡ [] → s.latest_root ≡ root k) i j ready s.pc
          (λ r l. is) (λ ne. p j),
    a,
  )
  Step-IsSound {s = s} (publish i holds differs) (x, p, a) = (
    stays i published s.holder s.pc (x i (ap is_inside holds)) x,
    not_ready root _ i _ published s.pc (λ e. cc (e)) p,
    a,
  )
  Step-IsSound {s = s} (landed i waits) (x, p, a) =
      let held = x i (ap is_inside waits) in
      (
        stays i ready s.holder s.pc held x,
        λ j.
            moved_elim (λ q k. q ≡ ready → s.late ≡ [] → root i ≡ root k) i j ready s.pc
              (λ r l. refl) (λ ne r l. absurd (ne (cc (held, x j (ap is_inside r))))),
        a,
      )
  Step-IsSound {s = s} (given_up i waits) (x, p, a) = (
    leaves i s.holder s.pc (x i (ap is_inside waits)) x,
    λ j r l. absurd (cc (l)),
    λ l. absurd (cc (l)),
  )
  Step-IsSound {s = s} (lands_late r m) (x, p, a) =
      (x, λ j q l. absurd (not-mem-nil (subst (λ k. Mem r k) l m)), a)
  Step-IsSound {s = s} (relay i is) (x, p, a) = (
    leaves i s.holder s.pc (x i (ap is_inside is)) x,
    not_ready root _ i _ finished s.pc (λ e. cc (e)) p,
    λ l. (sym (p i is l), a l),
  )
  Step-IsSound {s = s} (throws i held) (x, p, a) =
      (leaves i s.holder s.pc held x, not_ready root _ i _ finished s.pc (λ e. cc (e)) p, a)

  Reach-IsSound : {start : ℕ} {s : System} → Reach root start s → IsSound root s
  unfolding is_inside
  Reach-IsSound here = (λ j inside. absurd (cc (inside)), λ j r. absurd (cc (r)), λ l. tt)
  Reach-IsSound (next r st) = Step-IsSound st (Reach-IsSound r)

  -- In whatever order the steps of any withdrawals interleave, from a start where none runs: unless
  -- a publication was given up while it could still land, every proof was relayed while the latest
  -- root was the one that it pins.
  pub Reach-IsAccepted :
      {start : ℕ} {s : System}
      → Reach root start s
      → s.late ≡ []
      → All (λ (x : ℕ × ℕ). x.0 ≡ x.1) s.relayed
  Reach-IsAccepted r l = (Reach-IsSound r).2 l
