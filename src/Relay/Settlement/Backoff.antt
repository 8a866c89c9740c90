-- ===== src/Relay/Settlement/Backoff.antt =====
-- When a proposal is tried again.
use native.Mathlib.Nat.{one-le-pow}
use numera_backend.Prelude.{
  ℕ, ◌+◌, ◌-◌, ◌≤◌, ◌<◌, ◌≡◌, refl, ap, ◌∙◌, Bool, true, false, Option, none, some, List, [], ◌∷◌,
  Text, take, All, if◌then◌else◌, arith, lt→ltb, Bool-cases, inl, inr,
}
use numera_backend.Relay.Settlement.{
  ProposalKey, proposal_key_eq, settle_cooldown_ms, base_backoff_ms, max_backoff_ms, set_time,
  or_zero, Keeper, RelayAnswers, backoff_ms, back_off, after_receipt, finalize_sent, finalize,
  is_waiting, settle_each, settle_due, batch,
}

backoff_ms-bounds : (n : ℕ) → (base_backoff_ms ≤ backoff_ms n) × (backoff_ms n ≤ max_backoff_ms)
unfolding backoff_ms
backoff_ms-bounds n = omega (arith, one-le-pow (n - 1) 2 (omega arith))

set_time_self :
    (key : ProposalKey) (v : Option ℕ) (m : ProposalKey → Option ℕ) → set_time key v m key ≡ v
unfolding set_time
set_time_self key v m = ap (λ b. if b then v else m key) ((proposal_key_eq.beq_iff key key).1 refl)

-- The next attempt is a minute off at least, and half an hour at most.
abbrev pub Booked : RelayAnswers → ProposalKey → Keeper → Type 0
Booked a key s =
    (t : ℕ) × (s.next_attempt key ≡ some t)
    × (a.now + base_backoff_ms ≤ t)
    × (t ≤ a.now + max_backoff_ms)

back_off-Booked :
    (a : RelayAnswers) (key : ProposalKey) (s : Keeper) → Booked a key (back_off a key s)
unfolding back_off
back_off-Booked a key s =
    let n : ℕ = or_zero (s.attempts key) + 1 in
    let bounds = backoff_ms-bounds n in
    (
      a.now + backoff_ms n,
      set_time_self key (some (a.now + backoff_ms n)) s.next_attempt,
      omega (arith, bounds.0),
      omega (arith, bounds.1),
    )

after_receipt-Booked :
    (a : RelayAnswers) (key : ProposalKey) (o : Option Bool) (s : Keeper)
    → Booked a key s
    → Booked a key (after_receipt a key o s)
unfolding after_receipt
after_receipt-Booked a key none s booked = booked
after_receipt-Booked a key (some false) s booked = booked
after_receipt-Booked a key (some true) s booked = back_off-Booked a key s

finalize_sent-Booked :
    (a : RelayAnswers) (key : ProposalKey) (o : Option Text) (s : Keeper)
    → Booked a key s
    → Booked a key (finalize_sent a key o s)
unfolding finalize_sent
finalize_sent-Booked a key none s booked = back_off-Booked a key s
finalize_sent-Booked a key (some hash) s booked =
    after_receipt-Booked a key (a.reverted hash) _ booked

finalize-Booked :
    (a : RelayAnswers) (key : ProposalKey) (s : Keeper) → Booked a key (finalize a key s)
unfolding finalize
finalize-Booked a key s = finalize_sent-Booked a key (a.send key) _ (
  a.now + settle_cooldown_ms,
  set_time_self key (some (a.now + settle_cooldown_ms)) s.next_attempt,
  omega arith,
  omega arith,
)

-- However an attempt to settle a proposal ends, the proposal is passed over for a minute.
pub finalize-waits :
    (a later : RelayAnswers) (key : ProposalKey) (s : Keeper)
    → later.now < a.now + base_backoff_ms
    → is_waiting later key (finalize a key s) ≡ true
unfolding is_waiting or_zero
finalize-waits a later key s early =
    let (t, booked, low, high) = finalize-Booked a key s in
    rw booked (lt→ltb later.now t (omega (arith, early, low)))

-- However an attempt to settle a proposal ends, the proposal is up again after half an hour.
pub finalize-retried :
    (a later : RelayAnswers) (key : ProposalKey) (s : Keeper)
    → a.now + max_backoff_ms ≤ later.now
    → is_waiting later key (finalize a key s) ≡ false
unfolding is_waiting or_zero
finalize-retried a later key s late =
    let (t, booked, low, high) = finalize-Booked a key s in rw booked (ground (arith, late, high))

settle_each-waiting :
    (a : RelayAnswers) (due : List ProposalKey) (s : Keeper)
    → All (λ key. is_waiting a key s ≡ true) due
    → settle_each a due s ≡ s
unfolding settle_each
settle_each-waiting a [] s all = refl
settle_each-waiting a (key ∷ due) s all =
    ap (λ b. if b then settle_each a due s else settle_each a due (finalize a key s)) all.0
    ∙ settle_each-waiting a due s all.1

-- If the ten oldest due proposals are all backing off, a pass does nothing, however many others are
-- due behind them.
pub settle_due-starved :
    (a : RelayAnswers) (due : List ProposalKey) (s : Keeper)
    → All (λ key. is_waiting a key s ≡ true) (take batch due)
    → settle_due a due s ≡ s
unfolding settle_due settle_each finalize
settle_due-starved a due s all = elim (Bool-cases a.has_resolver) [
  | inl e ↦ rw e (settle_each-waiting a (take batch due) s all)
  | inr e ↦ rw e refl
]
