-- ===== src/Relay/Submit/Resolution.antt =====
-- Sponsored proposals and disputes: `submitResolution` of src/relay/relay.service.ts.
use mathlib.Core.Path.{subst}
use numera_backend.Prelude.{ℕ, ◌+◌, ◌*◌, ◌≤◌, ◌≡◌, Option, none, some, Text, guarded_elim}
use numera_backend.Store.{Store}
use numera_backend.Relay.Submit.{
  RelayConfig, CounterKey, Answers, RelayState, RelayRequest, call_of, submit_to, submit_resolution,
  submit_resolution_at, spent_today_wei,
}
use numera_backend.Relay.Submit.Safety.{Safe, Allowed, guarded-Safe, submit_to-Safe, Safe-spent}

some_inj : {x y : Text × Text} → ◌≡◌ {A = Option (Text × Text)} (some x) (some y) → x ≡ y
some_inj e = cc

module _ {redis : Store CounterKey ℕ} (cfg : RelayConfig) (a : Answers) where
  submit_resolution_at-Safe :
      (p : RelayRequest) (s : RelayState redis) (forwarder resolver : Text)
      (o : Option (Text × Text))
      → o ≡ some (forwarder, resolver)
      → Safe cfg a
          (Allowed cfg a resolver s.resolution_selectors p)
          forwarder
          (call_of p)
          s
          (submit_resolution_at cfg a p s o)
  unfolding submit_resolution_at
  submit_resolution_at-Safe p s forwarder resolver none e = absurd (cc)
  submit_resolution_at-Safe p s forwarder resolver (some (f, r)) e =
      subst
        (λ (w : Text × Text).
          Safe cfg a (Allowed cfg a w.1 s.resolution_selectors p) w.0 (call_of p) s
            (submit_to cfg a f r s.resolution_selectors p s))
        (some_inj e) (submit_to-Safe cfg a f r s.resolution_selectors p s)

  -- When a resolution forwarder passed the boot check, a proposal or dispute that comes back with a
  -- hash was to its resolver, met the same checks as a trade and was verified; one transaction went
  -- out to the forwarder, in the limits, while the day's spend was under its cap, and its cost was
  -- added. Any other sent and spent nothing.
  pub submit_resolution-Safe :
      (p : RelayRequest) (s : RelayState redis) (forwarder resolver : Text)
      → s.resolution ≡ some (forwarder, resolver)
      → Safe cfg a
          (Allowed cfg a resolver s.resolution_selectors p)
          forwarder
          (call_of p)
          s
          (submit_resolution cfg a p s)
  unfolding submit_resolution
  submit_resolution-Safe p s forwarder resolver e =
      guarded-Safe cfg a _ _ _ s.is_enabled _ _ s
        (λ on. submit_resolution_at-Safe p s forwarder resolver s.resolution e)

  spent-submit_resolution_at :
      (p : RelayRequest) (s : RelayState redis) (o : Option (Text × Text))
      → spent_today_wei a s ≤ cfg.daily_cap_wei + cfg.max_gas * cfg.max_fee_per_gas
      → spent_today_wei a (submit_resolution_at cfg a p s o).1
        ≤ cfg.daily_cap_wei + cfg.max_gas * cfg.max_fee_per_gas
  unfolding submit_resolution_at
  spent-submit_resolution_at p s none h = h
  spent-submit_resolution_at p s (some (f, r)) h =
      Safe-spent cfg a _ _ _ s _ (submit_to-Safe cfg a f r s.resolution_selectors p s) h

  pub spent-submit_resolution :
      (p : RelayRequest) (s : RelayState redis)
      → spent_today_wei a s ≤ cfg.daily_cap_wei + cfg.max_gas * cfg.max_fee_per_gas
      → spent_today_wei a (submit_resolution cfg a p s).1
        ≤ cfg.daily_cap_wei + cfg.max_gas * cfg.max_fee_per_gas
  unfolding submit_resolution
  spent-submit_resolution p s h =
      guarded_elim
        (λ r. spent_today_wei a r.1 ≤ cfg.daily_cap_wei + cfg.max_gas * cfg.max_fee_per_gas)
        s.is_enabled _ _ s h (λ on. spent-submit_resolution_at p s s.resolution h)
