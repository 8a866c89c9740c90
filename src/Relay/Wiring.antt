-- ===== src/Relay/Wiring.antt =====
-- The relay's boot, src/relay/relay.service.ts: `onModuleInit`, `verifyWiring` and
-- `verifyResolutionWiring` with their retries. What the node answers to each attempt is an argument;
-- an attempt that throws may have written already, so that its state goes on.
pub mod Retries
pub mod Outcomes
pub mod Wired
mod Tests
use numera_backend.Prelude.{
  ℕ, zero, suc, ◌+◌, ◌*◌, ◌^◌, Bool, true, false, not, ◌&&◌, Option, none, some, List, [], ◌∷◌,
  Text, codes, to_lower, text_eq, ltb, if◌then◌else◌,
}

abbrev pub wiring_retries : ℕ
wiring_retries = 5

abbrev pub wiring_retry_base_ms : ℕ
wiring_retry_base_ms = 400

abbrev pub null_address : Text
null_address = codes "0x0000000000000000000000000000000000000000"

pub record BootConfig : Type 0 where
  pub enabled : Bool
  -- Whether the key, the forwarder and the node's address are all configured.
  pub has_endpoints : Bool
  pub permit2 : Option Text
  pub resolution_forwarder : Option Text
  -- `LS_LMSR_MARKET_ADDRESS` and `OPTIMISTIC_RESOLVER_ADDRESS`.
  pub ls_lmsr : Option Text
  pub optimistic_resolver : Option Text
  -- `RELAYABLE_SIGNATURES` and `RESOLUTION_SIGNATURES`, as selectors.
  pub relayable : List Text
  pub resolution_relayable : List Text

-- What the node answers in one attempt; none where the read throws. `destination` is the forwarder's
-- `market`, or the resolution forwarder's `resolver`.
pub record NodeReads : Type 0 where
  pub destination : Option Text
  pub is_relayable : Text → Option Bool
  pub balance : Option ℕ

pub record Boot : Type 0 where
  -- `rpc !== null` and `wallet !== null`.
  pub rpc : Bool
  pub wallet : Bool
  pub engine : Option Text
  pub permit_spenders : List Text
  pub selectors : List Text
  -- `resolutionForwarder` and `resolutionResolver`.
  pub resolution : Option (Text × Text)
  pub resolution_selectors : List Text
  -- Milliseconds spent asleep.
  pub slept : ℕ

-- An attempt that came to an end, or threw into its `catch`.
pub data Attempt : Type 0 where
  done threw : Boot → Attempt

unfoldable pub is_enabled : BootConfig → Boot → Bool
is_enabled cfg s = cfg.enabled && (s.rpc && s.wallet)

unfoldable pub no_wallet : Boot → Boot
no_wallet s = record s { wallet = false }

unfoldable pub sleep : ℕ → Boot → Boot
sleep attempt s = record s { slept = s.slept + wiring_retry_base_ms * 2 ^ attempt }

unfoldable pub next_attempt : (Boot → Boot) → ℕ → (Boot → Option Boot) → Attempt → Option Boot
next_attempt give_up attempt rest (done s) = some s
next_attempt give_up attempt rest (threw s) =
    let later = rest (sleep attempt s) in
    if ltb attempt wiring_retries then later else some (give_up s)

-- `if (attempt < WIRING_RETRIES) { await sleep(…); return this.verify…(attempt + 1) }`, on fuel.
unfoldable pub retried : (ℕ → Boot → Attempt) → (Boot → Boot) → ℕ → ℕ → Boot → Option Boot
unfolding next_attempt
retried body give_up zero attempt s = none
retried body give_up (suc fuel) attempt s =
    next_attempt give_up attempt (retried body give_up fuel (suc attempt)) (body attempt s)

-- `configured && read.toLowerCase() !== configured.toLowerCase()`.
unfoldable pub differs : Option Text → Text → Bool
differs none read = false
differs (some wanted) read = not (text_eq (to_lower read) (to_lower wanted))

-- The loop that checks the allowlist; some true when it ran through.
unfoldable pub and_rest : Option Bool → Option Bool → Option Bool
and_rest none rest = none
and_rest (some false) rest = some false
and_rest (some true) rest = rest

unfoldable pub all_relayable : (Text → Option Bool) → List Text → Option Bool
unfolding and_rest
all_relayable read [] = some true
all_relayable read (selector ∷ rest) = and_rest (read selector) (all_relayable read rest)

unfoldable pub spenders_of : BootConfig → Text → List Text
spenders_of cfg market = elim cfg.permit2 [
  | none ↦ to_lower market ∷ []
  | some permit2 ↦ to_lower market ∷ to_lower permit2 ∷ []
]

unfoldable pub with_engine : BootConfig → Text → Boot → Boot
unfolding spenders_of
with_engine cfg market s = record s {
  engine = some market;
  permit_spenders = spenders_of cfg market;
}

unfoldable pub after_balance : Option ℕ → Boot → Attempt
after_balance none s = threw s
after_balance (some wei) s = done s

unfoldable pub after_allowlist : NodeReads → Option Bool → Boot → Attempt
unfolding after_balance no_wallet
after_allowlist node none s = threw s
after_allowlist node (some false) s = done (no_wallet s)
after_allowlist node (some true) s = after_balance node.balance s

unfoldable pub wiring_read : BootConfig → NodeReads → Option Text → Boot → Attempt
unfolding with_engine after_allowlist all_relayable no_wallet differs
wiring_read cfg node none s = threw s
wiring_read cfg node (some market) s =
    if text_eq market null_address
    then done (no_wallet s)
    else (if differs cfg.ls_lmsr market
        then done (no_wallet s)
        else after_allowlist node (all_relayable node.is_relayable s.selectors)
            (with_engine cfg market s))

-- The `try` of `verifyWiring`.
unfoldable pub try_wiring : BootConfig → (ℕ → NodeReads) → ℕ → Boot → Attempt
unfolding wiring_read
try_wiring cfg node attempt s = wiring_read cfg (node attempt) (node attempt).destination s

unfoldable pub verify_wiring : BootConfig → (ℕ → NodeReads) → ℕ → ℕ → Boot → Option Boot
unfolding retried try_wiring
verify_wiring cfg node = retried (try_wiring cfg node) no_wallet

unfoldable pub resolution_checked : Text → Text → Option Bool → Boot → Attempt
resolution_checked forwarder resolver none s = threw s
resolution_checked forwarder resolver (some false) s = done s
resolution_checked forwarder resolver (some true) s =
    done (record s { resolution = some (forwarder, resolver) })

unfoldable pub resolution_read : BootConfig → NodeReads → Text → Option Text → Boot → Attempt
unfolding resolution_checked all_relayable differs
resolution_read cfg node forwarder none s = threw s
resolution_read cfg node forwarder (some resolver) s =
    if text_eq resolver null_address
    then done s
    else (if differs cfg.optimistic_resolver resolver
        then done s
        else resolution_checked forwarder resolver
            (all_relayable node.is_relayable s.resolution_selectors) s)

-- The `try` of `verifyResolutionWiring`, with the configured forwarder.
unfoldable pub try_resolution : BootConfig → Text → (ℕ → NodeReads) → ℕ → Boot → Attempt
unfolding resolution_read
try_resolution cfg forwarder node attempt s =
    resolution_read cfg (node attempt) forwarder (node attempt).destination s

-- Failing it leaves the relay of trades as it is.
unfoldable pub keep_boot : Boot → Boot
keep_boot s = s

unfoldable pub verify_resolution_for :
    BootConfig → (ℕ → NodeReads) → Option Text → ℕ → ℕ → Boot → Option Boot
unfolding retried try_resolution keep_boot
verify_resolution_for cfg node none fuel attempt s = some s
verify_resolution_for cfg node (some forwarder) fuel attempt s =
    retried (try_resolution cfg forwarder node) keep_boot fuel attempt s

unfoldable pub verify_resolution_wiring : BootConfig → (ℕ → NodeReads) → ℕ → ℕ → Boot → Option Boot
unfolding verify_resolution_for
verify_resolution_wiring cfg node = verify_resolution_for cfg node cfg.resolution_forwarder

-- Clients and allowlists, before anything is verified.
unfoldable pub connected : BootConfig → Boot → Boot
connected cfg s = record s {
  rpc = true;
  wallet = true;
  selectors = cfg.relayable;
  resolution_selectors = cfg.resolution_relayable;
}

-- One call and five retries.
abbrev pub boot_fuel : ℕ
boot_fuel = 6

unfoldable pub and_then : Option Boot → (Boot → Option Boot) → Option Boot
and_then none f = none
and_then (some s) f = f s

-- `onModuleInit`, with the node's answers to the two checks.
unfoldable pub on_module_init : BootConfig → (ℕ → NodeReads) → (ℕ → NodeReads) → Boot → Option Boot
unfolding verify_wiring verify_resolution_wiring connected and_then
on_module_init cfg node resolution_node s =
    if cfg.enabled && cfg.has_endpoints
    then and_then (verify_wiring cfg node boot_fuel 0 (connected cfg s))
        (λ t. verify_resolution_wiring cfg resolution_node boot_fuel 0 t)
    else some s
