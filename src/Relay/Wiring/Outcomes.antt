-- ===== src/Relay/Wiring/Outcomes.antt =====
-- What the retries of a boot check leave, from what an attempt leaves.
use mathlib.Core.Path.{subst}
use numera_backend.Prelude.{ℕ, zero, suc, ◌≡◌, Bool, true, false, Option, some, ltb, if◌then◌else◌}
use numera_backend.Relay.Wiring.{
  wiring_retries, Boot, Attempt, done, threw, sleep, next_attempt, retried,
}
use numera_backend.Relay.Wiring.Retries.{left_by}

unfoldable pub Finished : (Boot → Type 0) → Attempt → Type 0
Finished Q (done s) = Q s
Finished Q (threw s) = Unit

pub some_inj : {x y : Boot} → ◌≡◌ {A = Option Boot} (some x) (some y) → x ≡ y
some_inj e = cc

either_result :
    (Q : Boot → Type 0) (b : Bool) (later : Option Boot) (x : Boot) {s' : Boot}
    → (later ≡ some s' → Q s')
    → Q x
    → (if b then later else some x) ≡ some s'
    → Q s'
either_result Q true later x rest q h = rest h
either_result Q false later x rest q h = subst Q (some_inj h) q

module _ (body : ℕ → Boot → Attempt) (give_up : Boot → Boot) (I Q : Boot → Type 0)
    (kept : (a : ℕ) (u : Boot) → I u → I (left_by (body a u)))
    (awake : (a : ℕ) (u : Boot) → I u → I (sleep a u))
    (finished : (a : ℕ) (u : Boot) → I u → Finished Q (body a u))
    (given_up : (u : Boot) → I u → Q (give_up u)) where
  next_attempt-result :
      (a : ℕ) (rest : Boot → Option Boot) (o : Attempt) {s' : Boot}
      → I (left_by o)
      → Finished Q o
      → ((u : Boot) → I u → rest u ≡ some s' → Q s')
      → next_attempt give_up a rest o ≡ some s'
      → Q s'
  unfolding next_attempt Finished left_by
  next_attempt-result a rest (done s) i q later h = subst Q (some_inj h) q
  next_attempt-result a rest (threw s) i q later h =
      either_result Q (ltb a wiring_retries) (rest (sleep a s)) (give_up s)
        (later (sleep a s) (awake a s i)) (given_up s i) h

  -- What an attempt that ends leaves, or the one that gives up, is what the retries leave.
  pub retried-result :
      (fuel a : ℕ) (s : Boot) {s' : Boot} → I s → retried body give_up fuel a s ≡ some s' → Q s'
  unfolding retried
  retried-result zero a s i h = absurd (cc)
  retried-result (suc fuel) a s i h =
      next_attempt-result a (retried body give_up fuel (suc a)) (body a s) (kept a s i)
        (finished a s i) (λ u j k. retried-result fuel (suc a) u j k) h
