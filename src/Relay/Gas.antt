-- ===== src/Relay/Gas.antt =====
-- The gas policy of src/relay/relay.service.ts: `bigintMin` and `gasFor`.
use numera_backend.Prelude.{
  ℕ, ◌+◌, ◌/◌, ◌≤◌, ◌<◌, ◌≡◌, Option, none, some, ltb, if◌then◌else◌, Result, ok, err, arith,
}

-- `RelayRejectionCode`, and any other throw.
pub data Failure : Type 0 where
  invalid rejected rate_limited unavailable : Failure
  thrown : Failure

pub record GasConfig : Type 0 where
  pub max_gas : ℕ
  pub max_fee_per_gas : ℕ

-- `estimateFeesPerGas`; a field that the node leaves out is none.
pub record Fees : Type 0 where
  pub max_fee_per_gas : Option ℕ
  pub max_priority_fee_per_gas : Option ℕ

pub record Gas : Type 0 where
  pub limit : ℕ
  pub max_fee_per_gas : ℕ
  pub max_priority_fee_per_gas : ℕ

unfoldable pub bigint_min : ℕ → ℕ → ℕ
bigint_min a b = if ltb a b then a else b

-- `fees?.maxFeePerGas ?? default`.
unfoldable pub max_fee_or : Option Fees → ℕ → ℕ
max_fee_or none default = default
max_fee_or (some f) default = elim f.max_fee_per_gas [ none ↦ default | some n ↦ n ]

unfoldable pub priority_fee_or : Option Fees → ℕ → ℕ
priority_fee_or none default = default
priority_fee_or (some f) default = elim f.max_priority_fee_per_gas [ none ↦ default | some n ↦ n ]

unfoldable pub gas_for : GasConfig → Option Fees → ℕ → Result Failure Gas
unfolding bigint_min max_fee_or priority_fee_or
gas_for cfg fees estimate =
    let headroom = bigint_min (estimate / 10) 200_000 in
    let limit = estimate + headroom in
    let max_fee = bigint_min (max_fee_or fees cfg.max_fee_per_gas) cfg.max_fee_per_gas in
    if ltb cfg.max_gas limit
    then err unavailable
    else ok (record {
      limit = limit;
      max_fee_per_gas = max_fee;
      max_priority_fee_per_gas = bigint_min (priority_fee_or fees 1_000_000_000) max_fee;
    })

-- A gas limit that is granted is no less than the estimate, has no more headroom than a tenth of it
-- and than 200,000, and is in the operator's maximum, as are the fees.
pub gas_for_bounds :
    (cfg : GasConfig) (fees : Option Fees) (estimate : ℕ) (g : Gas)
    → gas_for cfg fees estimate ≡ ok g
    → (estimate ≤ g.limit)
      × (g.limit ≤ cfg.max_gas)
      × (g.limit ≤ estimate + estimate / 10)
      × (g.limit ≤ estimate + 200_000)
      × (g.max_fee_per_gas ≤ cfg.max_fee_per_gas)
      × (g.max_priority_fee_per_gas ≤ g.max_fee_per_gas)
unfolding gas_for
gas_for_bounds cfg fees estimate g h = ground arith

-- A call is refused exactly when its estimate with the headroom is over the maximum: the limit is
-- never cut below what the call needs.
pub gas_for_refuses :
    (cfg : GasConfig) (fees : Option Fees) (estimate : ℕ)
    → (cfg.max_gas < estimate + bigint_min (estimate / 10) 200_000
        → gas_for cfg fees estimate ≡ err unavailable)
      × (gas_for cfg fees estimate ≡ err unavailable
          → cfg.max_gas < estimate + bigint_min (estimate / 10) 200_000)
unfolding gas_for
gas_for_refuses cfg fees estimate = (λ h. ground arith, λ h. ground arith)
