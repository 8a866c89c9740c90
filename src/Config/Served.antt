-- ===== src/Config/Served.antt =====
-- From the environment to a sponsored trade: validation, the relay's boot and `submit`.
use mathlib.Core.Path.{subst}
use numera_backend.Prelude.{
  ℕ, ◌≡◌, sym, ap, ◌∙◌, true, false, Option, none, some, List, [], Text, to_lower, text_eq, ok,
  guarded-eq-ok,
}
use numera_backend.Store.{Store}
use numera_backend.Relay.Wiring.{
  BootConfig, NodeReads, Boot, is_enabled, null_address, on_module_init,
}
use numera_backend.Relay.Wiring.Wired.{unbooted, on_module_init-IsWired}
use numera_backend.Relay.Submit.{
  RelayConfig, CounterKey, Answers, RelayState, RelayRequest, Outcome, is_relayable, call_of,
  submit,
}
use numera_backend.Relay.Submit.Safety.{Safe, Allowed, submit-Safe}
use numera_backend.Config.{Env, validate_env, relay_config}
use numera_backend.Config.Checked.{validate_env-engine}

unfoldable pub engine_or_empty : Option Text → Text
engine_or_empty none = []
engine_or_empty (some engine) = engine

module _ {redis : Store CounterKey ℕ} where
  -- The service as its boot leaves it, over the counters that are stored.
  unfoldable pub serving : BootConfig → Boot → redis.Table → RelayState redis
  unfolding engine_or_empty is_enabled
  serving cfg s counters = record {
    counters = counters;
    is_enabled = is_enabled cfg s;
    engine = engine_or_empty s.engine;
    permit_spenders = s.permit_spenders;
    selectors = s.selectors;
    resolution = s.resolution;
    resolution_selectors = s.resolution_selectors;
    sent = [];
  }

  submit-is_enabled :
      (cfg : RelayConfig) (a : Answers) (p : RelayRequest) (s s' : RelayState redis) (hash : Text)
      → submit cfg a p s ≡ (ok hash, s')
      → s.is_enabled ≡ true
  unfolding submit
  submit-is_enabled cfg a p s s' hash h = (guarded-eq-ok s.is_enabled _ _ s h).0

  submit-Allowed :
      (cfg : RelayConfig) (a : Answers) (p : RelayRequest) (s s' : RelayState redis) (hash : Text)
      → submit cfg a p s ≡ (ok hash, s')
      → Allowed cfg a s.engine s.selectors p
  submit-Allowed cfg a p s s' hash h =
      (subst
        (λ (o : Outcome (RelayState redis)).
          Safe cfg a (Allowed cfg a s.engine s.selectors p) cfg.forwarder (call_of p) s o)
        h (submit-Safe cfg a p s)).0

  -- Under a validated environment whose market address is not the null address, a trade that a
  -- booted relay sponsors is to that market, up to case, and calls a selector of the allowlist.
  pub submit-served :
      (parsed : Option Env) (e : Env) (relayable resolution_relayable : List Text)
      (node resolution_node : ℕ → NodeReads) (s : Boot) (cfg : RelayConfig) (a : Answers)
      (p : RelayRequest) (counters : redis.Table) (s' : RelayState redis) (hash : Text)
      → validate_env parsed ≡ ok e
      → text_eq (to_lower e.ls_lmsr_market_address) null_address ≡ false
      → on_module_init (relay_config e relayable resolution_relayable) node resolution_node unbooted
        ≡ some s
      → submit cfg a p (serving (relay_config e relayable resolution_relayable) s counters)
        ≡ (ok hash, s')
      → (to_lower p.request.to ≡ to_lower e.ls_lmsr_market_address)
        × (is_relayable relayable p.request.calldata ≡ true)
  unfolding serving engine_or_empty relay_config
  submit-served parsed e relayable resolution_relayable node resolution_node s cfg a p counters s'
        hash h real boot sent =
      let relay = relay_config e relayable resolution_relayable in
      let start = serving relay s counters in
      let on : is_enabled relay s ≡ true = submit-is_enabled cfg a p start s' hash sent in
      let (allowed, verified) = submit-Allowed cfg a p start s' hash sent in
      let ((market, engine, is), consistent) =
        validate_env-engine parsed e relayable resolution_relayable node resolution_node s h real
          boot on in
      let (k, named, same, spenders, selectors, rest) =
        on_module_init-IsWired relay node resolution_node s boot on in
      (
        allowed.destined ∙ ap (λ o. to_lower (engine_or_empty o)) engine ∙ is,
        ap (λ l. is_relayable l p.request.calldata) (sym selectors) ∙ allowed.listed,
      )
