-- ===== src/Events/Trades/Replay.antt =====
-- A trade log that is processed twice, as after a batch that failed behind it.
use numera_backend.Prelude.{
  ◌*◌, ◌/◌, ◌^◌, ◌≡◌, ◌∙◌, none, some, arith, ltb, to_lower, if◌then◌else◌,
}
use numera_backend.Prelude.Int.{◌+ℤ◌}
use numera_backend.Store.{Store, upsert}
use numera_backend.Events.Data.{TradeArgs, TradeSide, NormalizedLog}
use numera_backend.Events.Rows.{Market, Outcome, Trade}
use numera_backend.Events.State.{Database, State, after}
use numera_backend.Events.Trades.{on_trade, trade_row, price_of, signed}
use numera_backend.Events.Trades.Effects.{
  log_key, on_trade-markets, on_trade-outcomes, on_trade-trades,
}

module _ {K R : Type 0} (t : Store K R) where
  -- `upsert` with an empty `update` finds what is there, or else the new row.
  pub find-upsert_keep :
      (table : t.Table) (k : K) (new : R)
      → t.find (upsert t table k new (λ old. old)) k
        ≡ some (elim (t.find table k) [ none ↦ new | some old ↦ old ])
  unfolding upsert
  find-upsert_keep table k new =
      ground
        (arith, t.find-write_self table k (elim (t.find table k) [ none ↦ new | some old ↦ old ]))

  pub find-upsert_keep_again :
      (table : t.Table) (k : K) (new : R)
      → t.find (upsert t (upsert t table k new (λ old. old)) k new (λ old. old)) k
        ≡ t.find (upsert t table k new (λ old. old)) k
  find-upsert_keep_again table k new = ground (
    arith,
    find-upsert_keep table k new,
    find-upsert_keep (upsert t table k new (λ old. old)) k new,
  )

abbrev pub twice : {D : Database} → NormalizedLog → TradeSide → TradeArgs → State D → State D
twice log side a s = after (on_trade log side a (after (on_trade log side a s)))

module _ {D : Database} (log : NormalizedLog) (side : TradeSide) (a : TradeArgs) (s : State D)
    {m : Market} {o : Outcome} (listed : D.markets.find s.markets (log_key log a) ≡ some m)
    (outcome : D.outcomes.find s.outcomes (log_key log a, a.outcome_id) ≡ some o) where
  abbrev once : State D
  once = after (on_trade log side a s)

  abbrev listed_once : Market
  listed_once = record m { pot = m.pot +ℤ signed side a.amount }

  listed_again : D.markets.find once.markets (log_key log a) ≡ some listed_once
  listed_again = rw (on_trade-markets log side a s listed outcome) (D.markets.find-write_self _ _ _)

  abbrev outcome_once : Outcome
  outcome_once = record o { current_shares = o.current_shares +ℤ signed side a.shares }

  outcome_again : D.outcomes.find once.outcomes (log_key log a, a.outcome_id) ≡ some outcome_once
  outcome_again =
      rw (on_trade-outcomes log side a s listed outcome) (D.outcomes.find-write_self _ _ _)

  -- The row of a trade: average price in wads, and the account in lower case.
  abbrev pub tape_row : Trade
  tape_row = record {
    market_ref = (to_lower log.address, a.market_id);
    account = to_lower a.account;
    side = side;
    outcome_index = a.outcome_id;
    shares = a.shares;
    amount = a.amount;
    spread_wad = a.spread_wad;
    price_wad = if ltb 0 a.shares then a.amount * 10 ^ 18 / a.shares else 0;
    block_number = log.block_number;
    timestamp = log.timestamp;
  }

  -- When a trade log of an indexed market and outcome is processed twice, the tape holds under the
  -- log's transaction hash and index the row that was there before, or else the row of the trade; and
  -- the market's pot and the outcome's shares count it twice.
  pub replay-on_trade :
      (D.trades.find (twice log side a s).trades (log.tx_hash, log.log_index)
        ≡ some (elim (D.trades.find s.trades (log.tx_hash, log.log_index)) [
          | none ↦ tape_row
          | some old ↦ old
        ]))
      × (D.markets.find (twice log side a s).markets (log_key log a)
          ≡ some (record m { pot = m.pot +ℤ signed side a.amount +ℤ signed side a.amount }))
      × (D.outcomes.find (twice log side a s).outcomes (log_key log a, a.outcome_id)
          ≡ some (record o {
            current_shares = o.current_shares +ℤ signed side a.shares +ℤ signed side a.shares;
          }))
  unfolding trade_row price_of
  replay-on_trade = (
    rw
        (
          on_trade-trades log side a once listed_again outcome_again,
          on_trade-trades log side a s listed outcome,
        )
        (find-upsert_keep_again D.trades _ _ _ ∙ find-upsert_keep D.trades _ _ _),
    rw (on_trade-markets log side a once listed_again outcome_again)
        (D.markets.find-write_self _ _ _),
    rw (on_trade-outcomes log side a once listed_again outcome_again)
        (D.outcomes.find-write_self _ _ _),
  )
