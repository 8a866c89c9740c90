-- ===== src/Events/Trades/Effects.antt =====
-- What one trade log does to the tables, when its market and outcome are indexed.
use numera_backend.Prelude.{◌≡◌, some, arith, to_lower, if◌then◌else◌}
use numera_backend.Prelude.Int.{◌+ℤ◌}
use numera_backend.Store.{upsert}
use numera_backend.Events.Data.{MarketKey, PositionKey, TradeArgs, TradeSide, NormalizedLog}
use numera_backend.Events.Rows.{Market, Outcome}
use numera_backend.Events.State.{Database, State, after}
use numera_backend.Events.Trades.{on_trade, trade_row, is_readable, position_after, signed}

abbrev pub log_key : NormalizedLog → TradeArgs → MarketKey
log_key log a = (to_lower log.address, a.market_id)

module _ {D : Database} (log : NormalizedLog) (side : TradeSide) (a : TradeArgs) (s : State D)
    {m : Market} {o : Outcome} (listed : D.markets.find s.markets (log_key log a) ≡ some m)
    (outcome : D.outcomes.find s.outcomes (log_key log a, a.outcome_id) ≡ some o) where
  pub on_trade-markets :
      (after (on_trade log side a s)).markets
      ≡ D.markets.write s.markets (log_key log a) (record m { pot = m.pot +ℤ signed side a.amount })
  unfolding on_trade
  on_trade-markets = ground arith

  pub on_trade-outcomes :
      (after (on_trade log side a s)).outcomes
      ≡ D.outcomes.write s.outcomes
          (log_key log a, a.outcome_id)
          (record o { current_shares = o.current_shares +ℤ signed side a.shares })
  unfolding on_trade
  on_trade-outcomes = ground arith

  pub on_trade-trades :
      (after (on_trade log side a s)).trades
      ≡ upsert D.trades s.trades
          (log.tx_hash, log.log_index)
          (trade_row log (log_key log a) side a)
          (λ old. old)
  unfolding on_trade
  on_trade-trades = ground arith

  -- A row that a sell cannot read stays as it is.
  pub on_trade-positions : (after (on_trade log side a s)).positions ≡ (
      let key : PositionKey = (log_key log a, (to_lower a.account, a.outcome_id)) in
      if is_readable D.is_plain side (D.positions.find s.positions key)
      then D.positions.write s.positions key
          (position_after side a.shares a.amount (D.positions.find s.positions key))
      else s.positions)
  unfolding on_trade
  on_trade-positions = ground arith
