-- ===== src/Relay/Wiring/Tests.antt =====
-- A node that fails the first reads, and one that names another engine.
use numera_backend.Prelude.{
  ℕ, Bool, true, false, ◌≡◌, refl, Option, none, some, List, [], ◌∷◌, Text, codes, ltb, text_eq,
  arith, if◌then◌else◌,
}
use numera_backend.Relay.Wiring.{BootConfig, NodeReads, Boot, is_enabled, on_module_init}
use numera_backend.Relay.Wiring.Retries.{Ends, on_module_init-Ends}
use numera_backend.Relay.Wiring.Wired.{unbooted, IsWired, on_module_init-IsWired}

abbrev config : BootConfig
config = record {
  enabled = true;
  has_endpoints = true;
  permit2 = some (codes "0xP");
  resolution_forwarder = some (codes "0xf");
  ls_lmsr = some (codes "0xE");
  optimistic_resolver = some (codes "0xr");
  relayable = codes "0x1" ∷ codes "0x2" ∷ [];
  resolution_relayable = codes "0x3" ∷ [];
}

-- The second attempt reads all.
abbrev node : ℕ → NodeReads
node attempt = record {
  destination = some (codes "0xe");
  is_relayable = λ selector. some true;
  balance = if ltb attempt 1 then none else some 7;
}

abbrev misconfigured : ℕ → NodeReads
misconfigured attempt = record (node attempt) { destination = some (codes "0xd") }

abbrev booted : Boot
booted = record {
  rpc = true;
  wallet = true;
  engine = some (codes "0xe");
  permit_spenders = codes "0xe" ∷ codes "0xp" ∷ [];
  selectors = codes "0x1" ∷ codes "0x2" ∷ [];
  resolution = none;
  resolution_selectors = codes "0x3" ∷ [];
  slept = 400;
}

boots : on_module_init config node misconfigured unbooted ≡ some booted
unfolding on_module_init text_eq numera_backend.Prelude.to_lower
    numera_backend.Prelude.to_lower_char numera_backend.Relay.Wiring.sleep
boots = refl

enabled_then : is_enabled config booted ≡ true
unfolding is_enabled
enabled_then = refl

on_module_init-IsWired_example : IsWired config node booted
on_module_init-IsWired_example =
    on_module_init-IsWired config node misconfigured booted boots enabled_then

on_module_init-Ends_example : Ends 24_800 (on_module_init config misconfigured node unbooted)
on_module_init-Ends_example = on_module_init-Ends config misconfigured node unbooted
