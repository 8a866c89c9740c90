-- ===== src/Relay/Submit/Counters.antt =====
-- The keys of the counters are compared, so that a table of them can be a function
-- (src/relay/relay.service.ts: `relay:rate:` and `relay:spend:`).
use numera_backend.Prelude.{◌↔◌, ◌≡◌, Bool, true, false, text_eq, text_eq_iff, arith, Eq}
use numera_backend.Relay.Submit.{CounterKey, rate, spend}

abbrev pub counter_beq : CounterKey → CounterKey → Bool
counter_beq (rate a) (rate b) = text_eq a b
counter_beq (spend a) (spend b) = text_eq a b
counter_beq _ _ = false

pub counter_beq_iff : (a b : CounterKey) → (counter_beq a b ≡ true) ↔ (a ≡ b)
counter_beq_iff (rate a) (rate b) = grind (arith, text_eq_iff a b)
counter_beq_iff (spend a) (spend b) = grind (arith, text_eq_iff a b)
counter_beq_iff (rate a) (spend b) = (λ e. absurd (cc), λ e. absurd (cc))
counter_beq_iff (spend a) (rate b) = (λ e. absurd (cc), λ e. absurd (cc))

instance abbrev pub counter_eq : Eq CounterKey
counter_eq = record { beq = counter_beq; beq_iff = counter_beq_iff }
