-- ===== src/Relay/Submit/Safety.antt =====
-- What the submissions of src/relay/relay.service.ts send and spend, on every branch.
use native.Mathlib.Nat.{div-mul-le_self}
use numera_backend.Prelude.{
  guarded, ℕ, ◌+◌, ◌*◌, ◌/◌, ◌≤◌, ◌<◌, ◌≡◌, refl, ap, ◌∙◌, Bool, true, false, Option, none, some,
  List, ◌∷◌, Text, to_lower, text_eq_iff, ==_iff, leb→le, ltb, ltb→lt, arith, Result, ok, err,
  ◌>>=◌, Bool-cases, inl, inr,
}
use numera_backend.Store.{Store}
use numera_backend.Relay.Gas.{Failure, rejected, Gas}
use numera_backend.Relay.Reverts.{ChainError}
use numera_backend.Relay.Submit.{
  RelayConfig, Call, CounterKey, rate, spend, Transaction, Answers, RelayState, RelayRequest,
  PermitRequest, Outcome, gwei, require, is_relayable, permit_matches, check_request, count_or_zero,
  increment, count_attempt, in_account_rate, under_daily_cap, enforce_caps, spent_today_wei,
  broadcast, record_spend, simulate_and_send, simulation_failure, send_verified, submit_checked,
  submit_to, submit, call_of, includes, submit_permit, permit_call, send_from_relayer, raw,
}
use numera_backend.Relay.Submit.Sending.{SentOrNot, simulate_and_send-SentOrNot}

-- What a request must be to be sent to a destination under an allowlist.
pub record IsAllowed (cfg : RelayConfig) (destination : Text) (selectors : List Text)
    (p : RelayRequest) : Type 0 where
  pub destined : to_lower p.request.to ≡ to_lower destination
  pub no_value : p.request.value ≡ 0
  pub gas_in_limit : p.request.gas ≤ cfg.max_gas
  pub listed : is_relayable selectors p.request.calldata ≡ true
  pub own_permit : permit_matches p.permit p.request.sender ≡ true

require-then :
    (b : Bool) (f : Failure) (k : Result Failure (Unit {0}))
    → (require b f >>= λ _. k) ≡ ok tt
    → (b ≡ true) × (k ≡ ok tt)
require-then true f k h = (refl, h)
require-then false f k h = absurd (cc)

require-last : (b : Bool) (f : Failure) → require b f ≡ ok tt → b ≡ true
require-last true f h = refl
require-last false f h = absurd (cc)

check_request-IsAllowed :
    (cfg : RelayConfig) (destination : Text) (selectors : List Text) (p : RelayRequest)
    → check_request cfg destination selectors p ≡ ok tt
    → IsAllowed cfg destination selectors p
unfolding check_request
check_request-IsAllowed cfg destination selectors p h =
    let one = require-then _ _ _ h in
    let two = require-then _ _ _ one.1 in
    let three = require-then _ _ _ two.1 in
    let four = require-then _ _ _ three.1 in
    record {
      destined = (text_eq_iff _ _).0 one.0;
      no_value = (==_iff _ _).0 two.0;
      gas_in_limit = leb→le _ _ three.0;
      listed = four.0;
      own_permit = require-last _ _ four.1;
    }

-- The request passed every check, the forwarder's own included.
abbrev pub Allowed : RelayConfig → Answers → Text → List Text → RelayRequest → Type 0
Allowed cfg a destination selectors p =
    IsAllowed cfg destination selectors p × (a.verified ≡ some true)

module _ {redis : Store CounterKey ℕ} (cfg : RelayConfig) (a : Answers) where
  spent-count_attempt :
      (account : Text) (s : RelayState redis)
      → spent_today_wei a (count_attempt account s) ≡ spent_today_wei a s
  unfolding spent_today_wei count_attempt increment
  spent-count_attempt account s =
      ap (λ o. count_or_zero o * gwei)
        (redis.find-write_ne s.counters (rate (to_lower account)) (spend a.today) _ (λ e. cc))

  spent-record_spend :
      (wei : ℕ) (s : RelayState redis)
      → spent_today_wei a (record_spend a wei s) ≡ spent_today_wei a s + wei / gwei * gwei
  unfolding spent_today_wei record_spend increment count_or_zero
  spent-record_spend wei s = rw (redis.find-write_self s.counters (spend a.today) _) (omega arith)

  -- Nothing went out and nothing was spent.
  abbrev pub Quiet : RelayState redis → RelayState redis → Type 0
  Quiet s s' = (s'.sent ≡ s.sent) × (spent_today_wei a s' ≡ spent_today_wei a s)

  -- One transaction went out, in the limits, while the day's spend was under its cap, and its cost
  -- was added, rounded down to a gwei.
  abbrev pub Charged : Text → Call → RelayState redis → RelayState redis → Type 0
  Charged to call s s' =
      (gas : Gas) × (gas.limit ≤ cfg.max_gas)
      × (gas.max_fee_per_gas ≤ cfg.max_fee_per_gas)
      × (s'.sent ≡ record { to = to; call = call; gas = gas } ∷ s.sent)
      × (spent_today_wei a s < cfg.daily_cap_wei)
      × (spent_today_wei a s' ≡ spent_today_wei a s + gas.limit * gas.max_fee_per_gas / gwei * gwei)

  -- A hash comes back with a charged transaction that the facts `F` allow, and a throw with nothing.
  abbrev pub Safe : Type 0 → Text → Call → RelayState redis → Outcome (RelayState redis) → Type 0
  Safe F to call s (ok hash, s') = F × Charged to call s s'
  Safe F to call s (err f, s') = Quiet s s'

  sent-after :
      (tx : Transaction) (cost : ℕ) (s' t : RelayState redis)
      → s' ≡ record_spend a cost (broadcast tx t)
      → s'.sent ≡ tx ∷ t.sent
  unfolding record_spend increment broadcast
  sent-after tx cost s' t e = ap (λ (x : RelayState redis). x.sent) e

  spent-after :
      (tx : Transaction) (cost : ℕ) (s' t : RelayState redis)
      → s' ≡ record_spend a cost (broadcast tx t)
      → spent_today_wei a s' ≡ spent_today_wei a t + cost / gwei * gwei
  unfolding broadcast spent_today_wei
  spent-after tx cost s' t e = ap (spent_today_wei a) e ∙ spent-record_spend cost (broadcast tx t)

  SentOrNot-Safe :
      (F : Type 0) (to : Text) (call : Call) (s t : RelayState redis)
      (r : Outcome (RelayState redis))
      → F
      → Quiet s t
      → spent_today_wei a t < cfg.daily_cap_wei
      → SentOrNot cfg a to call t r
      → Safe F to call s r
  SentOrNot-Safe F to call s t (ok hash, s') f q under (gas, limit, fee, e) =
      let tx : Transaction = record { to = to; call = call; gas = gas } in
      let cost : ℕ = gas.limit * gas.max_fee_per_gas in
      (
        f,
        (
          gas,
          limit,
          fee,
          sent-after tx cost s' t e ∙ ap (◌∷◌ tx) q.0,
          omega (arith, q.1),
          spent-after tx cost s' t e ∙ ap (λ n. n + cost / gwei * gwei) q.1,
        ),
      )
  SentOrNot-Safe F to call s t (err g, s') f q under e =
      (ap (λ (x : RelayState redis). x.sent) e ∙ q.0, ap (spent_today_wei a) e ∙ q.1)

  Quiet-count_attempt : (account : Text) (s : RelayState redis) → Quiet s (count_attempt account s)
  unfolding count_attempt increment
  Quiet-count_attempt account s = (refl, spent-count_attempt account s)

  -- The bounds in front of a job: refused by them, the attempt is all that is recorded.
  enforce_caps-Safe :
      (F : Type 0) (to : Text) (call : Call) (account : Text)
      (rest : RelayState redis → Outcome (RelayState redis)) (s : RelayState redis)
      → ((t : RelayState redis)
          → Quiet s t
          → spent_today_wei a t < cfg.daily_cap_wei
          → Safe F to call s (rest t))
      → Safe F to call s (enforce_caps cfg a account rest s)
  unfolding enforce_caps
  enforce_caps-Safe F to call account rest s next =
      let s1 = count_attempt account s in
      let quiet = Quiet-count_attempt account s in
      elim (Bool-cases (in_account_rate cfg account s1)) [
        | inl e ↦ elim (Bool-cases (ltb (spent_today_wei a s1) cfg.daily_cap_wei)) [
          | inl f ↦ rw (e, f) (next s1 quiet (ltb→lt _ _ f))
          | inr f ↦ rw (e, f) quiet
        ]
        | inr e ↦ rw e quiet
      ]

  -- `simulate_and_send` behind the bounds.
  send-Safe :
      (F : Type 0) (to : Text) (call : Call) (on_failure : ChainError → Failure)
      (s t : RelayState redis)
      → F
      → Quiet s t
      → spent_today_wei a t < cfg.daily_cap_wei
      → Safe F to call s (simulate_and_send cfg a on_failure to call t)
  send-Safe F to call on_failure s t f q under =
      SentOrNot-Safe F to call s t _ f q under
        (simulate_and_send-SentOrNot cfg a to call on_failure t)

  send_verified-Safe :
      (F : Type 0) (forwarder : Text) (p : RelayRequest) (answer : Option Bool)
      (s t : RelayState redis)
      → F
      → Quiet s t
      → spent_today_wei a t < cfg.daily_cap_wei
      → Safe
          (F × (answer ≡ some true))
          forwarder
          (call_of p)
          s
          (send_verified cfg a forwarder p answer t)
  unfolding send_verified
  send_verified-Safe F forwarder p (some true) s t f q under =
      send-Safe _ forwarder (call_of p) simulation_failure s t (f, refl) q under
  send_verified-Safe F forwarder p (some false) s t f q under = q
  send_verified-Safe F forwarder p none s t f q under = q

  submit_checked-Safe :
      (destination : Text) (selectors : List Text) (forwarder : Text) (p : RelayRequest)
      (r : Result Failure (Unit {0})) (s : RelayState redis)
      → (r ≡ ok tt → IsAllowed cfg destination selectors p)
      → Safe
          (Allowed cfg a destination selectors p)
          forwarder
          (call_of p)
          s
          (submit_checked cfg a forwarder p r s)
  unfolding submit_checked
  submit_checked-Safe destination selectors forwarder p (err f) s allowed = (refl, refl)
  submit_checked-Safe destination selectors forwarder p (ok _) s allowed =
      enforce_caps-Safe _ forwarder (call_of p) p.request.sender _ s
        (λ t q under. send_verified-Safe _ forwarder p a.verified s t (allowed refl) q under)

  pub submit_to-Safe :
      (forwarder destination : Text) (selectors : List Text) (p : RelayRequest)
      (s : RelayState redis)
      → Safe
          (Allowed cfg a destination selectors p)
          forwarder
          (call_of p)
          s
          (submit_to cfg a forwarder destination selectors p s)
  unfolding submit_to
  submit_to-Safe forwarder destination selectors p s =
      submit_checked-Safe destination selectors forwarder p _ s
        (check_request-IsAllowed cfg destination selectors p)

  pub guarded-Safe :
      (F : Type 0) (to : Text) (call : Call) (b : Bool) (f : Failure)
      (next : Outcome (RelayState redis)) (s : RelayState redis)
      → (b ≡ true → Safe F to call s next)
      → Safe F to call s (guarded b f next s)
  unfolding guarded
  guarded-Safe F to call true f next s safe = safe refl
  guarded-Safe F to call false f next s safe = (refl, refl)

  -- A trade that comes back with a hash was to the engine, carried no value, asked for no more gas
  -- than allowed, called a listed selector, brought no permit but its own account's and was verified
  -- by the forwarder; one transaction went out to the forwarder, in the gas and fee limits, while the
  -- day's spend was under its cap, and its cost was added. Any other trade sent and spent nothing.
  pub submit-Safe :
      (p : RelayRequest) (s : RelayState redis)
      → Safe (Allowed cfg a s.engine s.selectors p) cfg.forwarder (call_of p) s (submit cfg a p s)
  unfolding submit
  submit-Safe p s =
      guarded-Safe _ _ _ s.is_enabled _ _ s
        (λ e. submit_to-Safe cfg.forwarder s.engine s.selectors p s)

  -- An approval that comes back with a hash names a spender on the list, whatever its token: one
  -- transaction went out to the token, in the limits, while the day's spend was under its cap, and
  -- its cost was added. Any other approval sent and spent nothing.
  pub submit_permit-Safe :
      (p : PermitRequest) (s : RelayState redis)
      → Safe
          (includes s.permit_spenders (to_lower p.spender) ≡ true)
          p.token
          (permit_call p.permit)
          s
          (submit_permit cfg a p s)
  unfolding submit_permit
  submit_permit-Safe p s = guarded-Safe _ _ _ s.is_enabled _ _ s (λ e.
      guarded-Safe _ _ _ (includes s.permit_spenders (to_lower p.spender)) _ _ s (λ f.
        enforce_caps-Safe _ _ _ p.owner _ s
          (λ t q under. send-Safe _ _ _ (λ x. rejected) s t f q under)))

  -- A call of the platform's own comes back with a hash only if the relayer is enabled, and then it
  -- went out once, in the limits, while the day's spend was under its cap, and its cost was added.
  -- Any other call sent and spent nothing.
  pub send_from_relayer-Safe :
      (to calldata : Text) (s : RelayState redis)
      → Safe (s.is_enabled ≡ true) to (raw calldata) s (send_from_relayer cfg a to calldata s)
  unfolding send_from_relayer under_daily_cap
  send_from_relayer-Safe to calldata s = guarded-Safe _ _ _ s.is_enabled _ _ s (λ e.
      guarded-Safe _ _ _ (under_daily_cap cfg a s) _ _ s
        (λ f. send-Safe _ _ _ simulation_failure s s e (refl, refl) (ltb→lt _ _ f)))

  -- A submission keeps the day's spend within the cap and the cost of one transaction at the limits.
  pub Safe-spent :
      (F : Type 0) (to : Text) (call : Call) (s : RelayState redis) (r : Outcome (RelayState redis))
      → Safe F to call s r
      → spent_today_wei a s ≤ cfg.daily_cap_wei + cfg.max_gas * cfg.max_fee_per_gas
      → spent_today_wei a r.1 ≤ cfg.daily_cap_wei + cfg.max_gas * cfg.max_fee_per_gas
  Safe-spent F to call s (ok hash, s') (f, (gas, limit, fee, sent, under, spent)) h =
      let cost = div-mul-le_self (gas.limit * gas.max_fee_per_gas) gwei in grind arith
  Safe-spent F to call s (err e, s') q h = omega (arith, q.1)
