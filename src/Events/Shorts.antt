-- ===== src/Events/Shorts.antt =====
-- `onShort` of src/chain/event-processor.service.ts: `buyComplement(i)` credits one share of every outcome
-- but `i`.
pub mod Legs
pub mod Holdings
use numera_backend.Prelude.{
  ℕ, zero, suc, ◌-◌, ◌*◌, ◌/◌, ◌==◌, Option, none, some, List, [], ◌∷◌, Text, to_lower,
  if◌then◌else◌, length,
}
use numera_backend.Prelude.Int.{pos, ◌+ℤ◌}
use numera_backend.Events.Data.{MarketKey, TradeArgs, buy, short, NormalizedLog}
use numera_backend.Events.Rows.{Market, trade}
use numera_backend.Events.State.{
  Database, State, Run, done, ◌>>=◌, with_market, update_market, update_outcome, publish, touch,
}
use numera_backend.Events.Trades.{trade_row, insert_trade, update_position}

-- The outcomes from `i` on, `n` of them, but for the shorted one.
unfoldable pub legs_from : ℕ → ℕ → ℕ → List ℕ
legs_from shorted i zero = []
legs_from shorted i (suc n) =
    let rest = legs_from shorted (suc i) n in if i == shorted then rest else i ∷ rest

abbrev pub short_legs : ℕ → ℕ → List ℕ
short_legs shorted outcome_count = legs_from shorted 0 outcome_count

-- The cost basis of leg `k` of `count`: an even split, the remainder on the last one.
unfoldable pub leg_basis : ℕ → ℕ → ℕ → ℕ
leg_basis cost count k =
    let per_leg = cost / count in if k == count - 1 then cost - per_leg * (count - 1) else per_leg

-- The legs with their bases, from leg `k` on.
unfoldable pub leg_parts : ℕ → ℕ → ℕ → List ℕ → List (ℕ × ℕ)
leg_parts cost count k [] = []
leg_parts cost count k (i ∷ legs) = (i, leg_basis cost count k) ∷ leg_parts cost count (suc k) legs

abbrev pub short_parts : ℕ → List ℕ → List (ℕ × ℕ)
short_parts cost legs = leg_parts cost (length legs) 0 legs

module _ {D : Database} where
  -- One round of the loop over the legs.
  unfoldable pub credit_leg : MarketKey → Text → ℕ → ℕ × ℕ → State D → Run (State D)
  unfolding update_outcome update_position
  credit_leg ref account shares (i, basis) s = do
    s' ← update_outcome ref i (λ o. record o { current_shares = o.current_shares +ℤ pos shares }) s
    update_position ref account i buy shares basis s'

  unfoldable pub credit_legs : MarketKey → Text → ℕ → List (ℕ × ℕ) → State D → Run (State D)
  credit_legs ref account shares [] s = done s
  credit_legs ref account shares (part ∷ parts) s =
      credit_leg ref account shares part s >>= credit_legs ref account shares parts

  -- What follows `if (legs.length === 0) return;`.
  unfoldable pub short_on : NormalizedLog → TradeArgs → MarketKey → List ℕ → State D → Run (State D)
  unfolding insert_trade
  short_on log a ref legs s = do
    let row = trade_row log ref short a
    let s1 = insert_trade log row s
    s2 ← credit_legs ref (to_lower a.account) a.shares (short_parts a.amount legs) s1
    s3 ← update_market ref (λ m. record m { pot = m.pot +ℤ pos a.amount }) s2
    done (publish (trade ref row) (touch ref s3))

  unfoldable pub short_market :
      NormalizedLog → TradeArgs → MarketKey → State D → Option Market → Run (State D)
  short_market log a ref s none = done s
  short_market log a ref s (some m) = elim (short_legs a.outcome_id m.outcome_count) [
    | [] ↦ done s
    | i ∷ legs ↦ short_on log a ref (i ∷ legs) s
  ]

  unfoldable pub on_short : NormalizedLog → TradeArgs → State D → Run (State D)
  on_short log a s =
      with_market s log.address a.market_id
        λ ref s'. short_market log a ref s' (D.markets.find s'.markets ref)
