-- ===== src/Config.antt =====
-- The configuration across fields: the guards of `validateEnv` in src/config/env.validation.ts, after
-- the schema, and what src/config/app-config.service.ts makes of the relay's variables. A variable
-- left out is the empty text, as the schema's defaults have it.
pub mod Checked
pub mod Served
mod Tests
use numera_backend.Prelude.{
  ℕ, Bool, true, false, not, ◌&&◌, ◌||◌, Option, none, some, List, [], ◌∷◌, Text, codes, to_lower,
  text_eq, Result, ok, err, ensure, if◌then◌else◌,
}
use numera_backend.Relay.Wiring.{BootConfig, null_address}

pub record Env : Type 0 where
  pub node_env : Text
  pub rpc_http_url : Text
  pub indexer_enabled : Bool
  pub ls_lmsr_market_address : Text
  pub optimistic_resolver_address : Text
  pub unlink_enabled : Bool
  pub unlink_environment : Text
  pub unlink_engine_url : Text
  pub unlink_api_key : Text
  pub unlink_app_id : Text
  pub relay_enabled : Bool
  pub numera_forwarder_address : Text
  pub resolution_forwarder_address : Text
  pub relayer_private_key : Text
  pub permit2_address : Text
  pub admin_dev_addresses : List Text

pub data EnvError : Type 0 where
  invalid_schema indexer_without_rpc unlink_incomplete unlink_both relay_incomplete : EnvError
  dev_addresses_in_production : EnvError

unfoldable pub is_set : Text → Bool
is_set [] = false
is_set (c ∷ cs) = true

unfoldable pub is_none_listed : List Text → Bool
is_none_listed [] = true
is_none_listed (a ∷ rest) = false

-- `!enabled || test`.
unfoldable pub when : Bool → Bool → Bool
when true test = test
when false test = true

unfoldable pub has_unlink : Env → Bool
unfolding is_set
has_unlink e = is_set e.unlink_api_key && is_set e.unlink_app_id

unfoldable pub has_relay : Env → Bool
unfolding is_set
has_relay e =
    is_set e.numera_forwarder_address
    && (is_set e.relayer_private_key && (is_set e.rpc_http_url && is_set e.ls_lmsr_market_address))

-- The guards, in their order.
unfoldable pub validated : Env → Result EnvError Env
unfolding ensure when has_unlink has_relay is_set is_none_listed
validated e = ensure (when e.indexer_enabled (is_set e.rpc_http_url)) indexer_without_rpc (
    ensure (when e.unlink_enabled (has_unlink e)) unlink_incomplete (
      ensure
        (when (is_set e.unlink_engine_url) (text_eq e.unlink_environment (codes "monad-testnet")))
        unlink_both
        (ensure (when e.relay_enabled (has_relay e)) relay_incomplete (
          ensure
            (when (text_eq e.node_env (codes "production")) (is_none_listed e.admin_dev_addresses))
            dev_addresses_in_production (ok e)))))

-- `validateEnv`, of what the schema made of the environment.
unfoldable pub validate_env : Option Env → Result EnvError Env
unfolding validated
validate_env none = err invalid_schema
validate_env (some e) = validated e

-- `normalizeAddr`: the null address is none.
unfoldable pub normalize_addr : Text → Option Text
normalize_addr [] = none
normalize_addr (c ∷ cs) =
    if text_eq (to_lower (c ∷ cs)) null_address then none else some (to_lower (c ∷ cs))

unfoldable pub is_present : Option Text → Bool
is_present none = false
is_present (some t) = true

-- The relay's part of the configuration, with the two allowlists of src/relay/relay.abi.ts.
unfoldable pub relay_config : Env → List Text → List Text → BootConfig
unfolding normalize_addr is_set is_present
relay_config e relayable resolution_relayable = record {
  enabled = e.relay_enabled;
  has_endpoints =
      is_set e.relayer_private_key
      && (is_present (normalize_addr e.numera_forwarder_address) && is_set e.rpc_http_url);
  permit2 = normalize_addr e.permit2_address;
  resolution_forwarder = normalize_addr e.resolution_forwarder_address;
  ls_lmsr = normalize_addr e.ls_lmsr_market_address;
  optimistic_resolver = normalize_addr e.optimistic_resolver_address;
  relayable = relayable;
  resolution_relayable = resolution_relayable;
}
