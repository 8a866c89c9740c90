-- ===== src/Relay/Submit/Sending.antt =====
-- The queued job of a submission, by its result.
use numera_backend.Prelude.{ℕ, ◌*◌, ◌≤◌, ◌≡◌, refl, Option, none, some, Text, Result, ok, err}
use numera_backend.Store.{Store}
use numera_backend.Relay.Gas.{Failure, Gas, gas_for, gas_for_bounds}
use numera_backend.Relay.Reverts.{ChainError}
use numera_backend.Relay.Submit.{
  RelayConfig, Call, CounterKey, Answers, RelayState, Outcome, send_with, send_priced,
  send_simulated, simulate_and_send, broadcast, record_spend,
}

module _ {redis : Store CounterKey ℕ} (cfg : RelayConfig) (a : Answers) (to : Text)
    (call : Call) where
  -- One transaction went out, its gas and fee in the operator's limits, and its cost at the limit
  -- was added to the day's spend.
  abbrev pub HasSent : RelayState redis → RelayState redis → Type 0
  HasSent s s' =
      (gas : Gas) × (gas.limit ≤ cfg.max_gas)
      × (gas.max_fee_per_gas ≤ cfg.max_fee_per_gas)
      × (s'
          ≡ record_spend a (gas.limit * gas.max_fee_per_gas)
              (broadcast (record { to = to; call = call; gas = gas }) s))

  -- A job that returned a hash has sent; one that threw has changed nothing.
  abbrev pub SentOrNot : RelayState redis → Outcome (RelayState redis) → Type 0
  SentOrNot s (ok hash, s') = HasSent s s'
  SentOrNot s (err f, s') = s' ≡ s

  send_with-SentOrNot :
      (gas : Gas) (hash : Option Text) (s : RelayState redis)
      → gas.limit ≤ cfg.max_gas
      → gas.max_fee_per_gas ≤ cfg.max_fee_per_gas
      → SentOrNot s (send_with a to call gas hash s)
  unfolding send_with
  send_with-SentOrNot gas none s l f = refl
  send_with-SentOrNot gas (some hash) s l f = (gas, l, f, refl)

  send_priced-SentOrNot :
      (r : Result Failure Gas) (s : RelayState redis)
      → ((g : Gas) → r ≡ ok g → (g.limit ≤ cfg.max_gas) × (g.max_fee_per_gas ≤ cfg.max_fee_per_gas))
      → SentOrNot s (send_priced a to call r s)
  unfolding send_priced
  send_priced-SentOrNot (err f) s fits = refl
  send_priced-SentOrNot (ok gas) s fits =
      send_with-SentOrNot gas a.sent_hash s (fits gas refl).0 (fits gas refl).1

  send_simulated-SentOrNot :
      (on_failure : ChainError → Failure) (r : Result ChainError ℕ) (s : RelayState redis)
      → SentOrNot s (send_simulated cfg a on_failure to call r s)
  unfolding send_simulated
  send_simulated-SentOrNot on_failure (err e) s = refl
  send_simulated-SentOrNot on_failure (ok estimate) s =
      send_priced-SentOrNot (gas_for cfg.gas a.fees estimate) s
        (λ g e. let b = gas_for_bounds cfg.gas a.fees estimate g e in (b.1, b.4))

  pub simulate_and_send-SentOrNot :
      (on_failure : ChainError → Failure) (s : RelayState redis)
      → SentOrNot s (simulate_and_send cfg a on_failure to call s)
  unfolding simulate_and_send
  simulate_and_send-SentOrNot on_failure s = send_simulated-SentOrNot on_failure a.simulated s
