-- ===== src/Relay/Tests.antt =====
-- Submissions to an enabled relayer, with a node that answers.
use numera_backend.Prelude.{
  ◌↔◌, text_eq_iff, ℕ, ◌+◌, ◌*◌, ◌/◌, ◌≤◌, ◌≡◌, refl, true, Option, none, some, List, [], ◌∷◌, Text,
  codes, to_lower, arith, ok, Eq, text_eq, text_key, Bool, false,
}
use numera_backend.Store.{Store}
use numera_backend.Store.Functions.{function_store}
use numera_backend.Relay.Gas.{GasConfig, gas_for}
use numera_backend.Relay.Reverts.{ChainError, is_transport_failure}
use numera_backend.Relay.Submit.{
  RelayConfig, CounterKey, Answers, RelayState, PermitRequest, RelayRequest, submit, submit_permit,
  send_from_relayer, call_of, permit_call, raw, includes,
}
use numera_backend.Relay.Submit.{submit_resolution}
use numera_backend.Relay.Submit.Counters.{counter_eq}
use numera_backend.Relay.Submit.Resolution.{submit_resolution-Safe}
use numera_backend.Relay.Submit.Safety.{
  Safe, Allowed, submit-Safe, submit_permit-Safe, send_from_relayer-Safe,
}

abbrev gas_config : GasConfig
gas_config = record { max_gas = 3_000_000; max_fee_per_gas = 200_000_000_000 }

granted :
    gas_for gas_config none 1_000_000
    ≡ ok (record {
      limit = 1_100_000;
      max_fee_per_gas = 200_000_000_000;
      max_priority_fee_per_gas = 1_000_000_000;
    })
unfolding gas_for
granted = refl

silent : is_transport_failure (record { causes = none ∷ []; message = codes "timed out" }) ≡ true
unfolding is_transport_failure numera_backend.Relay.Reverts.carries_data
    numera_backend.Relay.Reverts.has_transport_text to_lower text_eq
    numera_backend.Prelude.to_lower_char
silent = refl

abbrev counters : Store CounterKey ℕ
counters = function_store

abbrev config : RelayConfig
config = record {
  gas = gas_config;
  account_limit = 5;
  daily_cap_wei = 1_000_000_000_000_000_000;
  forwarder = codes "0xf0";
}

abbrev answers : Answers
answers = record {
  verified = some true;
  simulated = ok 1_000_000;
  fees = none;
  sent_hash = some (codes "0x77");
  today = codes "2026-01-01";
}

abbrev state : RelayState counters
state = record {
  counters = λ k. none;
  is_enabled = true;
  engine = codes "0xEe";
  permit_spenders = codes "0xee" ∷ [];
  selectors = codes "0x12345678" ∷ [];
  resolution = none;
  resolution_selectors = [];
  sent = [];
}

abbrev relayed : RelayRequest
relayed = record {
  request = record {
    sender = codes "0xA1";
    to = codes "0xeE";
    value = 0;
    gas = 500_000;
    deadline = 9;
    calldata = codes "0x12345678ff";
  };
  permit = none;
}

abbrev approved : PermitRequest
approved = record {
  permit = record { owner = codes "0xA1"; spender = codes "0xEE"; value = 5; deadline = 9 };
  token = codes "0x9";
}

submit-Safe_example :
    Safe config answers
      (Allowed config answers (codes "0xEe") (codes "0x12345678" ∷ []) relayed)
      (codes "0xf0")
      (call_of relayed)
      state
      (submit config answers relayed state)
submit-Safe_example = submit-Safe config answers relayed state

submit_permit-Safe_example :
    Safe config answers
      (includes (codes "0xee" ∷ []) (codes "0xee") ≡ true)
      (codes "0x9")
      (permit_call approved.permit)
      state
      (submit_permit config answers approved state)
unfolding to_lower numera_backend.Prelude.to_lower_char
submit_permit-Safe_example = submit_permit-Safe config answers approved state

send_from_relayer-Safe_example :
    Safe config answers
      (true ≡ true)
      (codes "0x9")
      (raw (codes "0xabcd"))
      state
      (send_from_relayer config answers (codes "0x9") (codes "0xabcd") state)
send_from_relayer-Safe_example =
    send_from_relayer-Safe config answers (codes "0x9") (codes "0xabcd") state

abbrev resolving : RelayState counters
resolving = record state {
  resolution = some (codes "0xf1", codes "0xeE");
  resolution_selectors = codes "0x12345678" ∷ [];
}

submit_resolution-Safe_example :
    Safe config answers
      (Allowed config answers (codes "0xeE") (codes "0x12345678" ∷ []) relayed)
      (codes "0xf1")
      (call_of relayed)
      resolving
      (submit_resolution config answers relayed resolving)
submit_resolution-Safe_example =
    submit_resolution-Safe config answers relayed resolving (codes "0xf1") (codes "0xeE") refl
