-- ===== src/Relay/Gauge.antt =====
-- What the relay says of itself, src/relay/relay.service.ts: `publicState`, `gauge` and the balance
-- cache behind it, `cachedBalance` and `readBalance`, with the read in flight that bursts share.
pub mod Balance
mod Tests
use numera_backend.Prelude.{
  ℕ, ◌+◌, ◌-◌, Bool, true, false, not, ◌&&◌, Option, none, some, List, [], ◌∷◌, Text, ltb, leb,
  if◌then◌else◌,
}
use numera_backend.Store.{Store}
use numera_backend.Relay.Submit.{
  RelayConfig, CounterKey, Answers, RelayState, spent_today_wei, send_from_relayer,
}

abbrev pub balance_ttl_ms : ℕ
balance_ttl_ms = 15_000

-- `balanceRead`: when it was read, and what; a read that failed is none.
pub record BalanceRead : Type 0 where
  pub at : ℕ
  pub wei : Option ℕ

-- The cache and the read in flight, and how often the node was asked.
pub record BalanceState : Type 0 where
  pub balance_read : Option BalanceRead
  pub balance_in_flight : Bool
  pub reads : ℕ

-- What the caller gets: a cached figure, or the promise of the read in flight.
pub data BalanceAnswer : Type 0 where
  cached : Option ℕ → BalanceAnswer
  shared : BalanceAnswer

-- A call of `cachedBalance` at a time, or the end of the read in flight at a time, with what the node
-- answered; a read that failed is none.
pub data BalanceEvent : Type 0 where
  called : ℕ → BalanceEvent
  settled : ℕ → Option ℕ → BalanceEvent

-- `Date.now() - fresh.at < BALANCE_TTL_MS`, of a time that is not before the read.
unfoldable pub fresh_wei : ℕ → Option BalanceRead → Option (Option ℕ)
fresh_wei now none = none
fresh_wei now (some r) = if ltb now (r.at + balance_ttl_ms) then some r.wei else none

-- `balanceInFlight ??= readBalance()`: a read is started unless one is in flight.
unfoldable pub share_read : BalanceState → BalanceState
share_read s =
    if s.balance_in_flight then s else record s { balance_in_flight = true; reads = s.reads + 1 }

unfoldable pub cached_balance : ℕ → BalanceState → BalanceAnswer × BalanceState
unfolding fresh_wei share_read
cached_balance now s = elim (fresh_wei now s.balance_read) [
  | some wei ↦ (cached wei, s)
  | none ↦ (shared, share_read s)
]

-- The end of `readBalance`, and the `finally` behind it.
unfoldable pub read_balance : ℕ → Option ℕ → BalanceState → BalanceState
read_balance now answer s = record s {
  balance_read = some (record { at = now; wei = answer });
  balance_in_flight = false;
}

pub data Closed : Type 0 where
  disabled capped : Closed

pub record PublicState : Type 0 where
  pub available : Bool
  pub reason : Option Closed
  pub resolution : Bool

pub record Gauge : Type 0 where
  pub enabled : Bool
  pub relayer : Option Text
  pub balance_wei : Option ℕ
  pub spent_today : ℕ
  pub daily_cap_wei : ℕ
  pub min_balance_wei : ℕ
  pub low_balance : Bool
  pub resolution : Bool

unfoldable pub is_below : Option ℕ → ℕ → Bool
is_below none floor = false
is_below (some wei) floor = ltb wei floor

unfoldable pub is_set : Option (Text × Text) → Bool
is_set none = false
is_set (some x) = true

module _ {redis : Store CounterKey ℕ} where
  -- `isResolutionEnabled`.
  unfoldable pub is_resolution_enabled : RelayState redis → Bool
  unfolding is_set
  is_resolution_enabled s = s.is_enabled && is_set s.resolution

  unfoldable pub open_state : RelayState redis → Bool → PublicState
  unfolding is_resolution_enabled
  open_state s is_capped = record {
    available = not is_capped;
    reason = if is_capped then some capped else none;
    resolution = is_resolution_enabled s;
  }

  unfoldable pub public_state : RelayConfig → Answers → RelayState redis → PublicState
  unfolding open_state spent_today_wei
  public_state cfg a s =
      if s.is_enabled
      then open_state s (leb cfg.daily_cap_wei (spent_today_wei a s))
      else record { available = false; reason = some disabled; resolution = false }

  -- `gauge`, with the relayer's address, the floor and the balance.
  unfoldable pub gauge :
      RelayConfig → Answers → Option Text → ℕ → Option ℕ → RelayState redis → Gauge
  unfolding is_resolution_enabled spent_today_wei is_below
  gauge cfg a relayer floor balance s = record {
    enabled = s.is_enabled;
    relayer = relayer;
    balance_wei = balance;
    spent_today = spent_today_wei a s;
    daily_cap_wei = cfg.daily_cap_wei;
    min_balance_wei = floor;
    low_balance = is_below balance floor;
    resolution = is_resolution_enabled s;
  }

-- Nothing ends when no read is in flight.
unfoldable pub balance_step : BalanceEvent → BalanceState → BalanceState
unfolding cached_balance read_balance
balance_step (called now) s = (cached_balance now s).1
balance_step (settled now answer) s = if s.balance_in_flight then read_balance now answer s else s

unfoldable pub balance_run : List BalanceEvent → BalanceState → BalanceState
unfolding balance_step
balance_run [] s = s
balance_run (e ∷ es) s = balance_run es (balance_step e s)
