-- ===== src/Markets/View/Windows.antt =====
-- The public state of a market against its clock.
use numera_backend.Prelude.{ℕ, ◌+◌, ◌≤◌, ◌≡◌, Bool, true, Text, leb, arith, if◌then◌else◌}
use numera_backend.Prelude.Int.{ℤ}
use numera_backend.Markets.View.{
  MarketWithOutcomes, is_trading, is_trading_open, is_not_open_yet, market_view,
}

abbrev pub count : Bool → ℕ
count b = if b then 1 else 0

module _ (format_units : ℤ → ℕ → Text) where
  -- A market that trades and opens before it closes is shown as exactly one of not open yet, open
  -- for trades and closed.
  pub market_view-windows :
      (now decimals : ℕ) (m : MarketWithOutcomes)
      → is_trading m.market.status ≡ true
      → m.market.start_time ≤ m.market.close_time
      → count (market_view format_units now decimals m).is_not_open_yet
          + count (market_view format_units now decimals m).is_trading_open
          + count (leb m.market.close_time now)
        ≡ 1
  unfolding market_view is_trading_open is_not_open_yet
  market_view-windows now decimals m trades opens = ground (arith, trades, opens)
