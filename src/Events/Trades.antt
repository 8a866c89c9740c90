-- ===== src/Events/Trades.antt =====
-- Trades: `onTrade`, `onShort`, `insertTrade` and `updatePosition` of
-- src/chain/event-processor.service.ts.
pub mod Effects
pub mod Replay
pub mod Stuck
pub mod Positions
use numera_backend.Prelude.{
  ℕ, ◌+◌, ◌-◌, ◌*◌, ◌/◌, ◌^◌, Bool, true, false, ◌&&◌, Option, none, some, Text, to_lower, ltb,
  if◌then◌else◌,
}
use numera_backend.Prelude.Int.{ℤ, pos, ◌+ℤ◌, ◌-ℤ◌, sub_ℕ}
use numera_backend.Store.{upsert}
use numera_backend.Events.Data.{MarketKey, TradeArgs, TradeSide, buy, sell, short, NormalizedLog}
use numera_backend.Events.Rows.{Trade, Position, trade}
use numera_backend.Events.State.{
  Database, State, Run, done, threw, ◌>>=◌, with_market, update_market, update_outcome, publish,
  touch,
}

abbrev pub wad : ℕ
wad = 10 ^ 18

-- Average execution price.
unfoldable pub price_of : ℕ → ℕ → ℕ
price_of shares amount = if ltb 0 shares then amount * wad / shares else 0

unfoldable pub trade_row : NormalizedLog → MarketKey → TradeSide → TradeArgs → Trade
unfolding price_of
trade_row log ref side a = record {
  market_ref = ref;
  account = to_lower a.account;
  side = side;
  outcome_index = a.outcome_id;
  shares = a.shares;
  amount = a.amount;
  spread_wad = a.spread_wad;
  price_wad = price_of a.shares a.amount;
  block_number = log.block_number;
  timestamp = log.timestamp;
}

-- The parts of a sell: shares that leave the position, and their share of its cost basis.
unfoldable pub sold_shares : ℕ → ℕ → ℕ
sold_shares shares old_shares = if ltb old_shares shares then old_shares else shares

unfoldable pub cost_removed : ℕ → ℕ → ℕ → ℕ
cost_removed old_shares old_cost sold = if ltb 0 old_shares then old_cost * sold / old_shares else 0

-- The row after a sell, when `is_readable` lets the old row be read; `none` when the account had no
-- row.
unfoldable pub sell_position : ℕ → ℕ → Option Position → Position
unfolding sold_shares cost_removed
sell_position shares amount none = record {
  shares = 0;
  cost_basis = 0;
  realized_pnl = pos amount;
  is_redeemed = false;
}
sell_position shares amount (some p) =
    let sold = sold_shares shares p.shares in
    let removed = cost_removed p.shares p.cost_basis sold in
    record p {
      shares = p.shares - sold;
      cost_basis = p.cost_basis - removed;
      realized_pnl = p.realized_pnl +ℤ sub_ℕ amount removed;
    }

-- The row after a buy: `amount` is what the trader paid, spread included.
unfoldable pub buy_position : ℕ → ℕ → Option Position → Position
buy_position shares amount none = record {
  shares = shares;
  cost_basis = amount;
  realized_pnl = pos 0;
  is_redeemed = false;
}
buy_position shares amount (some p) = record p {
  shares = p.shares + shares;
  cost_basis = p.cost_basis + amount;
}

-- The row that `updatePosition` leaves, for each side it is called with.
unfoldable pub position_after : TradeSide → ℕ → ℕ → Option Position → Position
unfolding sell_position buy_position
position_after sell shares amount p = sell_position shares amount p
position_after _ shares amount p = buy_position shares amount p

-- What a buy pays in and a sell takes out, of the pot or of an outcome's shares.
unfoldable pub signed : TradeSide → ℕ → ℤ
signed sell n = pos 0 -ℤ pos n
signed _ n = pos n

-- Whether `updatePosition` reads the row without a throw: a sell takes its `Decimal`s through their
-- texts, a buy leaves the sums to the database.
unfoldable pub is_readable : (ℕ → Bool) → TradeSide → Option Position → Bool
is_readable is_plain sell none = true
is_readable is_plain sell (some p) = is_plain p.shares && is_plain p.cost_basis
is_readable is_plain buy o = true
is_readable is_plain short o = true

module _ {D : Database} where
  -- A log that was seen before changes nothing here.
  unfoldable pub insert_trade : NormalizedLog → Trade → State D → State D
  unfolding upsert
  insert_trade log t s = record s {
    trades = upsert D.trades s.trades (log.tx_hash, log.log_index) t (λ old. old);
  }

  -- The `upsert` of a position.
  unfoldable pub write_position : MarketKey → Text → ℕ → TradeSide → ℕ → ℕ → State D → State D
  write_position ref raw_account index side shares amount s =
      let key : MarketKey × (Text × ℕ) = (ref, (to_lower raw_account, index)) in
      let row = position_after side shares amount (D.positions.find s.positions key) in
      record s { positions = D.positions.write s.positions key row }

  unfoldable pub update_position :
      MarketKey → Text → ℕ → TradeSide → ℕ → ℕ → State D → Run (State D)
  unfolding write_position is_readable
  update_position ref raw_account index side shares amount s =
      let key : MarketKey × (Text × ℕ) = (ref, (to_lower raw_account, index)) in
      if is_readable D.is_plain side (D.positions.find s.positions key)
      then done (write_position ref raw_account index side shares amount s)
      else threw s

  -- The body of `onTrade` once the market is known.
  unfoldable pub trade_on :
      NormalizedLog → TradeSide → TradeArgs → MarketKey → State D → Run (State D)
  trade_on log side a ref s = do
    let row = trade_row log ref side a
    let s1 = insert_trade log row s
    s2 ← update_market ref (λ m. record m { pot = m.pot +ℤ signed side a.amount }) s1
    s3 ←
        update_outcome ref a.outcome_id
          (λ o. record o { current_shares = o.current_shares +ℤ signed side a.shares }) s2
    s4 ← update_position ref a.account a.outcome_id side a.shares a.amount s3
    done (publish (trade ref row) (touch ref s4))

  unfoldable pub on_trade : NormalizedLog → TradeSide → TradeArgs → State D → Run (State D)
  unfolding with_market trade_on insert_trade update_market update_outcome update_position touch
  on_trade log side a s = with_market s log.address a.market_id (trade_on log side a)
