-- ===== src/Config/Tests.antt =====
-- A production environment with a relay.
use numera_backend.Prelude.{
  ℕ, true, false, ◌≡◌, refl, none, some, List, [], ◌∷◌, Text, codes, to_lower, ok, err,
}
use numera_backend.Relay.Wiring.{NodeReads, Boot, on_module_init}
use numera_backend.Relay.Wiring.Wired.{unbooted}
use numera_backend.Config.{
  Env, validate_env, relay_config, relay_incomplete, dev_addresses_in_production,
}
use numera_backend.Store.{Store}
use numera_backend.Store.Functions.{function_store}
use numera_backend.Relay.Submit.{
  RelayConfig, CounterKey, Answers, RelayState, RelayRequest, is_relayable, submit,
}
use numera_backend.Relay.Submit.Counters.{counter_eq}
use numera_backend.Config.Served.{serving, submit-served}

abbrev env : Env
env = record {
  node_env = codes "production";
  rpc_http_url = codes "u";
  indexer_enabled = true;
  ls_lmsr_market_address = codes "0xE";
  optimistic_resolver_address = [];
  unlink_enabled = false;
  unlink_environment = codes "monad-testnet";
  unlink_engine_url = [];
  unlink_api_key = [];
  unlink_app_id = [];
  relay_enabled = true;
  numera_forwarder_address = codes "0xF";
  resolution_forwarder_address = [];
  relayer_private_key = codes "k";
  permit2_address = [];
  admin_dev_addresses = [];
}

accepted : validate_env (some env) ≡ ok env
unfolding validate_env numera_backend.Prelude.text_eq
accepted = refl

without_key : validate_env (some (record env { relayer_private_key = [] })) ≡ err relay_incomplete
unfolding validate_env
without_key = refl

with_developer :
    validate_env (some (record env { admin_dev_addresses = codes "0xd" ∷ [] }))
    ≡ err dev_addresses_in_production
unfolding validate_env numera_backend.Prelude.text_eq
with_developer = refl

-- The null address passes the guards, and leaves the relay without a configured market.
null_market_passes :
    (relay_config
      (record env { ls_lmsr_market_address = codes "0x0000000000000000000000000000000000000000" })
      []
      []).ls_lmsr
    ≡ none
unfolding relay_config numera_backend.Prelude.text_eq to_lower numera_backend.Prelude.to_lower_char
null_market_passes = refl

abbrev node : ℕ → NodeReads
node attempt = record {
  destination = some (codes "0xe");
  is_relayable = λ selector. some true;
  balance = some 7;
}

abbrev booted : Boot
booted = record {
  rpc = true;
  wallet = true;
  engine = some (codes "0xe");
  permit_spenders = codes "0xe" ∷ [];
  selectors = codes "0x1" ∷ [];
  resolution = none;
  resolution_selectors = [];
  slept = 0;
}

boots : on_module_init (relay_config env (codes "0x1" ∷ []) []) node node unbooted ≡ some booted
unfolding on_module_init relay_config numera_backend.Prelude.text_eq to_lower
    numera_backend.Prelude.to_lower_char
boots = refl

abbrev counters : Store CounterKey ℕ
counters = function_store

abbrev limits : RelayConfig
limits = record {
  gas = record { max_gas = 3_000_000; max_fee_per_gas = 200_000_000_000 };
  account_limit = 5;
  daily_cap_wei = 1_000_000_000_000_000_000;
  forwarder = codes "0xf";
}

abbrev answers : Answers
answers = record {
  verified = some true;
  simulated = ok 1_000_000;
  fees = none;
  sent_hash = some (codes "0x77");
  today = codes "2026-01-01";
}

abbrev trade : RelayRequest
trade = record {
  request = record {
    sender = codes "0xA1";
    to = codes "0xe";
    value = 0;
    gas = 500_000;
    deadline = 9;
    calldata = codes "0x12345678ff";
  };
  permit = none;
}

abbrev selectors : List Text
selectors = codes "0x12345678" ∷ []

abbrev started : Boot
started = record booted { selectors = selectors }

abbrev service : RelayState counters
service = serving (relay_config env selectors []) started (λ k. none)

starts : on_module_init (relay_config env selectors []) node node unbooted ≡ some started
unfolding on_module_init relay_config numera_backend.Prelude.text_eq to_lower
    numera_backend.Prelude.to_lower_char
starts = refl

sponsored :
    submit limits answers trade service
    ≡ (ok (codes "0x77"), (submit limits answers trade service).1)
unfolding submit serving relay_config numera_backend.Relay.Submit.submit_to
    numera_backend.Relay.Submit.submit_checked numera_backend.Relay.Submit.check_request
    numera_backend.Relay.Submit.includes numera_backend.Relay.Submit.enforce_caps
    numera_backend.Relay.Submit.count_or_zero numera_backend.Relay.Submit.count_attempt
    numera_backend.Relay.Submit.increment numera_backend.Relay.Submit.send_verified
    numera_backend.Relay.Submit.simulate_and_send numera_backend.Relay.Submit.send_simulated
    numera_backend.Relay.Submit.send_priced numera_backend.Relay.Submit.send_with
    numera_backend.Relay.Submit.under_daily_cap numera_backend.Relay.Submit.spent_today_wei
    numera_backend.Relay.Submit.in_account_rate numera_backend.Relay.Submit.permit_matches
    numera_backend.Relay.Submit.record_spend numera_backend.Relay.Submit.broadcast is_relayable
    to_lower numera_backend.Prelude.text_eq numera_backend.Prelude.to_lower_char
    numera_backend.Prelude.guarded numera_backend.Store.Functions.put
    numera_backend.Relay.Gas.bigint_min numera_backend.Relay.Gas.gas_for
    numera_backend.Relay.Gas.max_fee_or numera_backend.Relay.Gas.priority_fee_or
    numera_backend.Relay.Wiring.is_enabled numera_backend.Config.Served.engine_or_empty
sponsored = refl

submit-served_example :
    (to_lower (codes "0xe") ≡ to_lower (codes "0xE"))
    × (is_relayable selectors (codes "0x12345678ff") ≡ true)
unfolding numera_backend.Prelude.text_eq to_lower numera_backend.Prelude.to_lower_char
submit-served_example =
    submit-served (some env) env selectors [] node node started limits answers trade (λ k. none)
      (submit limits answers trade service).1 (codes "0x77") accepted refl starts sponsored
