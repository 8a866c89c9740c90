-- ===== src/Config/Checked.antt =====
-- A validated environment, and the relay that boots from it.
use mathlib.Core.Path.{subst}
use numera_backend.Prelude.{
  ℕ, ◌≡◌, refl, ◌∙◌, Bool, true, false, ◌&&◌, Option, none, some, List, [], ◌∷◌, Text, codes,
  to_lower, text_eq, Result, ok, ensure-eq-ok, to_lower_idem,
}
use numera_backend.Relay.Wiring.{NodeReads, Boot, is_enabled, null_address, on_module_init}
use numera_backend.Relay.Wiring.Wired.{Matches, unbooted, on_module_init-IsWired}
use numera_backend.Config.{
  Env, EnvError, is_set, is_none_listed, when, has_unlink, has_relay, validated, validate_env,
  normalize_addr, relay_config,
}

-- What the guards leave of the relay's variables and of the development allowlist.
abbrev pub IsConsistent : Env → Type 0
IsConsistent e =
    (when e.indexer_enabled (is_set e.rpc_http_url) ≡ true)
    × (when e.unlink_enabled (has_unlink e) ≡ true)
    × (when e.relay_enabled (has_relay e) ≡ true)
    × (when (text_eq e.node_env (codes "production")) (is_none_listed e.admin_dev_addresses) ≡ true)

ok_inj : {a b : Env} → ◌≡◌ {A = Result EnvError Env} (ok a) (ok b) → a ≡ b
ok_inj q = cc

validated-IsConsistent : (e x : Env) → validated e ≡ ok x → (e ≡ x) × IsConsistent e
unfolding validated
validated-IsConsistent e x h =
    let (indexer, h1) = ensure-eq-ok (when e.indexer_enabled (is_set e.rpc_http_url)) _ _ h in
    let (unlink, h2) = ensure-eq-ok (when e.unlink_enabled (has_unlink e)) _ _ h1 in
    let (one, h3) =
      ensure-eq-ok
        (when (is_set e.unlink_engine_url) (text_eq e.unlink_environment (codes "monad-testnet"))) _
        _ h2 in
    let (relay, h4) = ensure-eq-ok (when e.relay_enabled (has_relay e)) _ _ h3 in
    let (production, h5) =
      ensure-eq-ok
        (when (text_eq e.node_env (codes "production")) (is_none_listed e.admin_dev_addresses)) _ _
        h4 in
    (ok_inj h5, (indexer, unlink, relay, production))

-- An engine that matches a configured one is it, up to case.
engine_is :
    (configured market : Text)
    → is_set configured ≡ true
    → text_eq (to_lower configured) null_address ≡ false
    → Matches (normalize_addr configured) market
    → to_lower market ≡ to_lower configured
unfolding is_set normalize_addr
engine_is [] market set real h = absurd (cc)
engine_is (c ∷ cs) market set real h =
    subst (λ o. Matches o market) some_address h ∙ to_lower_idem (c ∷ cs)
  where
    some_address : normalize_addr (c ∷ cs) ≡ some (to_lower (c ∷ cs))
    some_address = rw real refl

both : (a b : Bool) → (a && b) ≡ true → (a ≡ true) × (b ≡ true)
both true b h = (refl, h)
both false b h = absurd (cc)

when_on : (a b : Bool) → a ≡ true → when a b ≡ true → b ≡ true
unfolding when
when_on true b on h = h
when_on false b on h = absurd (cc)

-- A relay that boots and is enabled under a validated environment, with a market address that is not
-- the null address, relays to that market and no other, and the environment, in production, names
-- no development address.
pub validate_env-engine :
    (parsed : Option Env) (e : Env) (relayable resolution_relayable : List Text)
    (node resolution_node : ℕ → NodeReads) (s : Boot)
    → validate_env parsed ≡ ok e
    → text_eq (to_lower e.ls_lmsr_market_address) null_address ≡ false
    → on_module_init (relay_config e relayable resolution_relayable) node resolution_node unbooted
      ≡ some s
    → is_enabled (relay_config e relayable resolution_relayable) s ≡ true
    → ((market : Text) × (s.engine ≡ some market)
        × (to_lower market ≡ to_lower e.ls_lmsr_market_address))
      × IsConsistent e
unfolding validate_env is_enabled has_relay relay_config
validate_env-engine none e relayable resolution_relayable node resolution_node s h real boot on =
    absurd (cc)
validate_env-engine (some x) e relayable resolution_relayable node resolution_node s h real boot
      on =
    let (same, checked) = validated-IsConsistent x e h in
    let consistent : IsConsistent e = subst IsConsistent same checked in
    let relay_on = (both e.relay_enabled _ on).0 in
    let full = when_on e.relay_enabled (has_relay e) relay_on consistent.2 in
    let with_key = (both (is_set e.numera_forwarder_address) _ full).1 in
    let with_rpc = (both (is_set e.relayer_private_key) _ with_key).1 in
    let set = (both (is_set e.rpc_http_url) (is_set e.ls_lmsr_market_address) with_rpc).1 in
    let (k, market, engine, spenders, selectors, (read, live, matches, all)) =
      on_module_init-IsWired (relay_config e relayable resolution_relayable) node resolution_node s
        boot on in
    ((market, engine, engine_is e.ls_lmsr_market_address market set real matches), consistent)
