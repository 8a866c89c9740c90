-- ===== src/Relay/Submit.antt =====
-- Sponsored submissions: `submit`, `submitResolution`, `submitPermit`, `sendFromRelayer` and
-- `simulateAndSend` of src/relay/relay.service.ts, with the account rate and the daily cap. The Redis
-- counters are a table; the node's answers are an argument.
pub mod Counters
pub mod Sending
pub mod Safety
pub mod Resolution
use numera_backend.Prelude.{
  ℕ, zero, suc, ◌+◌, ◌*◌, ◌/◌, ◌==◌, Bool, true, false, not, ◌&&◌, ◌||◌, Option, none, some, List,
  [], ◌∷◌, Text, to_lower, text_eq, ltb, leb, length, take, if◌then◌else◌, Result, ok, err, ◌>>=◌,
  ◌>>◌, guarded,
}
use numera_backend.Store.{Store}
use numera_backend.Relay.Gas.{
  Failure, invalid, rejected, rate_limited, unavailable, thrown, GasConfig, Fees, Gas, gas_for,
}
use numera_backend.Relay.Reverts.{ChainError, is_transport_failure}

abbrev pub gwei : ℕ
gwei = 1_000_000_000

pub record RelayConfig : Type 0 where
  pub gas : GasConfig
  pub open gas use *
  pub account_limit : ℕ
  pub daily_cap_wei : ℕ
  pub forwarder : Text

-- A signed approval, and the request that a market account signed.
pub record Permit : Type 0 where
  pub owner : Text
  pub spender : Text
  pub value : ℕ
  pub deadline : ℕ

-- A standalone approval names its token too.
pub record PermitRequest : Type 0 where
  pub permit : Permit
  pub open permit use *
  pub token : Text

pub record Request : Type 0 where
  pub sender : Text
  pub to : Text
  pub value : ℕ
  pub gas : ℕ
  pub deadline : ℕ
  pub calldata : Text

pub record RelayRequest : Type 0 where
  pub request : Request
  pub permit : Option Permit

-- What `encodeFunctionData` is given; the encoding itself is the package's.
pub data Call : Type 0 where
  execute : Request → Call
  execute_with_permit : Permit → Request → Call
  permit_call : Permit → Call
  raw : Text → Call

pub record Transaction : Type 0 where
  pub to : Text
  pub call : Call
  pub gas : Gas

-- The keys of the counters: `relay:rate:<account>` and `relay:spend:<day>`.
pub data CounterKey : Type 0 where
  rate : Text → CounterKey
  spend : Text → CounterKey

-- What the node answers to one submission, and the day of `new Date()`. `simulated` is `call` with
-- `estimateGas`; none where `readContract` or `sendTransaction` throws.
pub record Answers : Type 0 where
  pub verified : Option Bool
  pub simulated : Result ChainError ℕ
  pub fees : Option Fees
  pub sent_hash : Option Text
  pub today : Text

module _ (redis : Store CounterKey ℕ) where
  pub record RelayState : Type 0 where
    pub counters : redis.Table
    -- `cfg.relay.enabled && rpc !== null && wallet !== null`.
    pub is_enabled : Bool
    pub engine : Text
    pub permit_spenders : List Text
    pub selectors : List Text
    -- Forwarder and resolver, when the boot check passed.
    pub resolution : Option (Text × Text)
    pub resolution_selectors : List Text
    -- Transactions broadcast, newest first.
    pub sent : List Transaction

unfoldable pub count_or_zero : Option ℕ → ℕ
count_or_zero none = 0
count_or_zero (some n) = n

unfoldable pub includes : List Text → Text → Bool
includes [] t = false
includes (x ∷ xs) t = text_eq x t || includes xs t

-- `if (!test) throw new RelayRejected(code, …)`.
abbrev pub require : Bool → Failure → Result Failure (Unit {0})
require true f = ok tt
require false f = err f

-- `data.length >= 10 && selectors.has(data.slice(0, 10).toLowerCase())`.
unfoldable pub is_relayable : List Text → Text → Bool
is_relayable selectors calldata =
    leb 10 (length calldata) && includes selectors (to_lower (take 10 calldata))

unfoldable pub permit_matches : Option Permit → Text → Bool
permit_matches none sender = true
permit_matches (some p) sender = text_eq (to_lower p.owner) (to_lower sender)

-- The checks that cost nothing, for a destination and an allowlist.
unfoldable pub check_request :
    RelayConfig → Text → List Text → RelayRequest → Result Failure (Unit {0})
unfolding permit_matches
check_request cfg destination selectors p = do
  require (text_eq (to_lower p.request.to) (to_lower destination)) invalid
  require (p.request.value == 0) invalid
  require (leb p.request.gas cfg.max_gas) invalid
  require (is_relayable selectors p.request.calldata) invalid
  require (permit_matches p.permit p.request.sender) invalid

unfoldable pub call_of : RelayRequest → Call
call_of p = elim p.permit [
  | none ↦ execute p.request
  | some permit ↦ execute_with_permit permit p.request
]

-- A simulation that failed, in each of the two readings of it.
unfoldable pub simulation_failure : ChainError → Failure
simulation_failure e = if is_transport_failure e then unavailable else rejected

-- A submission's result with the state that it leaves.
abbrev pub Outcome : Type 0 → Type 0
Outcome S = Result Failure Text × S

module _ {redis : Store CounterKey ℕ} where
  abbrev pub count : RelayState redis → CounterKey → ℕ
  count s key = count_or_zero (redis.find s.counters key)

  -- `incrby`.
  unfoldable pub increment : CounterKey → ℕ → RelayState redis → RelayState redis
  increment key n s = record s { counters = redis.write s.counters key (count s key + n) }

  -- `spentTodayWei`: the counter is kept in gwei.
  unfoldable pub spent_today_wei : Answers → RelayState redis → ℕ
  spent_today_wei a s = count s (spend a.today) * gwei

  unfoldable pub record_spend : Answers → ℕ → RelayState redis → RelayState redis
  record_spend a wei s = increment (spend a.today) (wei / gwei) s

  unfoldable pub broadcast : Transaction → RelayState redis → RelayState redis
  broadcast tx s = record s { sent = tx ∷ s.sent }

  -- `sendTransaction` and `recordSpend`, with the answer to the first.
  unfoldable pub send_with :
      Answers → Text → Call → Gas → Option Text → RelayState redis → Outcome (RelayState redis)
  send_with a to call gas none s = (err thrown, s)
  send_with a to call gas (some hash) s =
      let tx : Transaction = record { to = to; call = call; gas = gas } in
      (ok hash, record_spend a (gas.limit * gas.max_fee_per_gas) (broadcast tx s))

  unfoldable pub send_priced :
      Answers → Text → Call → Result Failure Gas → RelayState redis → Outcome (RelayState redis)
  unfolding send_with
  send_priced a to call (err f) s = (err f, s)
  send_priced a to call (ok gas) s = send_with a to call gas a.sent_hash s

  unfoldable pub send_simulated :
      RelayConfig
      → Answers
      → (ChainError → Failure)
      → Text
      → Call
      → Result ChainError ℕ
      → RelayState redis
      → Outcome (RelayState redis)
  unfolding send_priced
  send_simulated cfg a on_failure to call (err e) s = (err (on_failure e), s)
  send_simulated cfg a on_failure to call (ok estimate) s =
      send_priced a to call (gas_for cfg.gas a.fees estimate) s

  -- The job that is queued: simulate, price, send, record. `on_failure` reads a failed simulation.
  unfoldable pub simulate_and_send :
      RelayConfig
      → Answers
      → (ChainError → Failure)
      → Text
      → Call
      → RelayState redis
      → Outcome (RelayState redis)
  unfolding send_simulated
  simulate_and_send cfg a on_failure to call s =
      send_simulated cfg a on_failure to call a.simulated s

  -- `enforceAccountRate`: the attempt counts, whether or not it is let through.
  unfoldable pub count_attempt : Text → RelayState redis → RelayState redis
  count_attempt account s = increment (rate (to_lower account)) 1 s

  unfoldable pub in_account_rate : RelayConfig → Text → RelayState redis → Bool
  in_account_rate cfg account s = leb (count s (rate (to_lower account))) cfg.account_limit

  -- `enforceDailyCap`.
  unfoldable pub under_daily_cap : RelayConfig → Answers → RelayState redis → Bool
  unfolding spent_today_wei
  under_daily_cap cfg a s = ltb (spent_today_wei a s) cfg.daily_cap_wei

  -- The cost bounds, and what follows them.
  unfoldable pub enforce_caps :
      RelayConfig
      → Answers
      → Text
      → (RelayState redis → Outcome (RelayState redis))
      → RelayState redis
      → Outcome (RelayState redis)
  unfolding in_account_rate under_daily_cap
  enforce_caps cfg a account rest s =
      let s1 = count_attempt account s in
      let next = rest s1 in
      if in_account_rate cfg account s1
      then (if under_daily_cap cfg a s1 then next else (err unavailable, s1))
      else (err rate_limited, s1)

  -- What follows `verifyRelayable`, a call that throws counting as a refusal.
  unfoldable pub send_verified :
      RelayConfig
      → Answers
      → Text
      → RelayRequest
      → Option Bool
      → RelayState redis
      → Outcome (RelayState redis)
  send_verified cfg a forwarder p (some true) s =
      simulate_and_send cfg a simulation_failure forwarder (call_of p) s
  send_verified cfg a forwarder p _ s = (err invalid, s)

  unfoldable pub submit_checked :
      RelayConfig
      → Answers
      → Text
      → RelayRequest
      → Result Failure (Unit {0})
      → RelayState redis
      → Outcome (RelayState redis)
  submit_checked cfg a forwarder p (err f) s = (err f, s)
  submit_checked cfg a forwarder p (ok _) s =
      enforce_caps cfg a p.request.sender (send_verified cfg a forwarder p a.verified) s

  unfoldable pub submit_to :
      RelayConfig
      → Answers
      → Text
      → Text
      → List Text
      → RelayRequest
      → RelayState redis
      → Outcome (RelayState redis)
  submit_to cfg a forwarder destination selectors p s =
      submit_checked cfg a forwarder p (check_request cfg destination selectors p) s

  unfoldable pub submit :
      RelayConfig → Answers → RelayRequest → RelayState redis → Outcome (RelayState redis)
  unfolding submit_to guarded
  submit cfg a p s =
      guarded s.is_enabled unavailable (submit_to cfg a cfg.forwarder s.engine s.selectors p s) s

  unfoldable pub submit_resolution_at :
      RelayConfig
      → Answers
      → RelayRequest
      → RelayState redis
      → Option (Text × Text)
      → Outcome (RelayState redis)
  unfolding submit_to
  submit_resolution_at cfg a p s none = (err unavailable, s)
  submit_resolution_at cfg a p s (some (forwarder, resolver)) =
      submit_to cfg a forwarder resolver s.resolution_selectors p s

  unfoldable pub submit_resolution :
      RelayConfig → Answers → RelayRequest → RelayState redis → Outcome (RelayState redis)
  unfolding submit_resolution_at guarded
  submit_resolution cfg a p s =
      guarded s.is_enabled unavailable (submit_resolution_at cfg a p s s.resolution) s

  unfoldable pub submit_permit :
      RelayConfig → Answers → PermitRequest → RelayState redis → Outcome (RelayState redis)
  unfolding guarded
  submit_permit cfg a p s =
      guarded s.is_enabled unavailable
        (guarded (includes s.permit_spenders (to_lower p.spender)) invalid
          (enforce_caps cfg a p.owner
            (simulate_and_send cfg a (λ e. rejected) p.token (permit_call p.permit)) s)
          s)
        s

  unfoldable pub send_from_relayer :
      RelayConfig → Answers → Text → Text → RelayState redis → Outcome (RelayState redis)
  unfolding under_daily_cap guarded
  send_from_relayer cfg a to calldata s =
      guarded s.is_enabled unavailable
        (guarded (under_daily_cap cfg a s) unavailable
          (simulate_and_send cfg a simulation_failure to (raw calldata) s) s)
        s
