-- ===== src/Events/Trades/Stuck.antt =====
-- A sell whose position the indexer cannot read, scanned again and again.
use numera_backend.Prelude.{ℕ, zero, suc, ◌&&◌, ◌≡◌, ap, ◌∙◌, false, some, arith, to_lower}
use numera_backend.Prelude.Int.{ℤ, ◌+ℤ◌}
use numera_backend.Events.Data.{PositionKey, TradeArgs, sell, NormalizedLog}
use numera_backend.Events.Rows.{Market, Outcome, Position}
use numera_backend.Events.State.{Database, State, threw, after}
use numera_backend.Events.Trades.{on_trade, is_readable, signed}
use numera_backend.Events.Trades.Effects.{
  log_key, on_trade-markets, on_trade-outcomes, on_trade-positions,
}

-- A pot from which the amount of a sell was taken `n` times.
abbrev pub taken : TradeArgs → ℕ → ℤ → ℤ
taken a zero z = z
taken a (suc n) z = taken a n (z +ℤ signed sell a.amount)

abbrev pub position_key : NormalizedLog → TradeArgs → PositionKey
position_key log a = (log_key log a, (to_lower a.account, a.outcome_id))

module _ {D : Database} (log : NormalizedLog) (a : TradeArgs) where
  -- The log processed `n` times, each time on what the last one left.
  unfoldable pub rescanned : ℕ → State D → State D
  rescanned zero s = s
  rescanned (suc n) s = rescanned n (after (on_trade log sell a s))

  threw-on_trade :
      (s : State D) {m : Market} {o : Outcome} {p : Position}
      → D.markets.find s.markets (log_key log a) ≡ some m
      → D.outcomes.find s.outcomes (log_key log a, a.outcome_id) ≡ some o
      → D.positions.find s.positions (position_key log a) ≡ some p
      → (D.is_plain p.shares && D.is_plain p.cost_basis) ≡ false
      → on_trade log sell a s ≡ threw (after (on_trade log sell a s))
  unfolding on_trade
  threw-on_trade s listed outcome row unreadable = ground arith

  kept_row :
      (s : State D) {m : Market} {o : Outcome} {p : Position}
      → D.markets.find s.markets (log_key log a) ≡ some m
      → D.outcomes.find s.outcomes (log_key log a, a.outcome_id) ≡ some o
      → D.positions.find s.positions (position_key log a) ≡ some p
      → (D.is_plain p.shares && D.is_plain p.cost_basis) ≡ false
      → D.positions.find (after (on_trade log sell a s)).positions (position_key log a) ≡ some p
  unfolding is_readable
  kept_row s listed outcome row unreadable =
      ground (arith, on_trade-positions log sell a s listed outcome)

  -- When the market and the outcome of a sell are indexed, and the text of the account's stored
  -- shares or of its cost basis is not plain digits: however often the log was processed before, it
  -- throws again, the position is still the same, and the market's pot was reduced by the amount as
  -- often as the log was processed.
  pub threw-rescanned :
      (n : ℕ) (s : State D) {m : Market} {o : Outcome} {p : Position}
      → D.markets.find s.markets (log_key log a) ≡ some m
      → D.outcomes.find s.outcomes (log_key log a, a.outcome_id) ≡ some o
      → D.positions.find s.positions (position_key log a) ≡ some p
      → (D.is_plain p.shares && D.is_plain p.cost_basis) ≡ false
      → (on_trade log sell a (rescanned n s) ≡ threw (rescanned (suc n) s))
        × (D.positions.find (rescanned n s).positions (position_key log a) ≡ some p)
        × (D.markets.find (rescanned n s).markets (log_key log a)
            ≡ some (record m { pot = taken a n m.pot }))
  unfolding rescanned
  threw-rescanned zero s listed outcome row unreadable =
      (threw-on_trade s listed outcome row unreadable, row, listed)
  threw-rescanned (suc n) s {m} {o} listed outcome row unreadable =
      let next = after (on_trade log sell a s) in
      let listed' : D.markets.find next.markets (log_key log a)
          ≡ some (record m { pot = m.pot +ℤ signed sell a.amount }) =
        ap (λ t. D.markets.find t (log_key log a)) (on_trade-markets log sell a s listed outcome)
        ∙ D.markets.find-write_self _ _ _ in
      let outcome' : D.outcomes.find next.outcomes (log_key log a, a.outcome_id)
          ≡ some (record o { current_shares = o.current_shares +ℤ signed sell a.shares }) =
        ap (λ t. D.outcomes.find t (log_key log a, a.outcome_id))
          (on_trade-outcomes log sell a s listed outcome)
        ∙ D.outcomes.find-write_self _ _ _ in
      threw-rescanned n next listed' outcome' (kept_row s listed outcome row unreadable) unreadable
