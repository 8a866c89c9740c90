-- ===== src/Events/Lifecycle.antt =====
-- The end of a market: `onResolved`, `onInvalidated`, `onRedeem` and `onSeedRedeemed` of
-- src/chain/event-processor.service.ts.
pub mod Redeem
use numera_backend.Prelude.{
  ℕ, ◌==◌, Bool, true, ◌&&◌, none, some, Text, to_lower, text_eq, if◌then◌else◌,
}
use numera_backend.Prelude.Int.{pos, ◌+ℤ◌, ◌-ℤ◌}
use numera_backend.Events.Data.{MarketKey, PositionKey, resolved, invalid}
use numera_backend.Events.Rows.{Position, market_status}
use numera_backend.Events.State.{
  Database, State, Run, done, ◌>>=◌, market_key_eq, with_market, update_market, invalidate, publish,
}

-- `where: { marketRef: ref, account }`.
unfoldable pub held_in : MarketKey → Text → PositionKey → Position → Bool
held_in ref account (market, (holder, index)) p =
    market_key_eq.beq market ref && text_eq holder account

unfoldable pub redeem_position : ℕ → Position → Position
redeem_position payout p = record p {
  is_redeemed = true;
  realized_pnl = p.realized_pnl +ℤ pos payout;
}

module _ {D : Database} where
  unfoldable pub on_resolved : Text → ℕ → ℕ → ℕ → ℕ → State D → Run (State D)
  unfolding with_market update_market
  on_resolved address market_id winning_outcome_id owed surplus s =
      with_market s address market_id λ ref s0. do
        s1 ←
            update_market ref
              (λ m. record m {
                status = resolved;
                winning_outcome_id = some winning_outcome_id;
                pot = pos owed;
                surplus = some surplus;
              })
              s0
        done (publish (market_status ref resolved (some winning_outcome_id)) (invalidate ref s1))

  unfoldable pub on_invalidated : Text → ℕ → ℕ → State D → Run (State D)
  unfolding with_market update_market
  on_invalidated address market_id surplus s = with_market s address market_id λ ref s0. do
    s1 ← update_market ref (λ m. record m { status = invalid; surplus = some surplus }) s0
    done (publish (market_status ref invalid none) (invalidate ref s1))

  -- `position.updateMany`: every row of the account in this market.
  unfoldable pub redeem_positions : MarketKey → Text → ℕ → State D → State D
  redeem_positions ref account payout s = record s {
    positions = D.positions.update_many s.positions (held_in ref account) (redeem_position payout);
  }

  unfoldable pub on_redeem : Text → ℕ → Text → ℕ → State D → Run (State D)
  unfolding with_market update_market
  on_redeem address market_id raw_account payout s = with_market s address market_id λ ref s0. do
    let s1 = redeem_positions ref (to_lower raw_account) payout s0
    s2 ← update_market ref (λ m. record m { pot = m.pot -ℤ pos payout }) s1
    done (invalidate ref s2)

  unfoldable pub on_seed_redeemed : Text → ℕ → ℕ → State D → Run (State D)
  unfolding with_market update_market
  on_seed_redeemed address market_id amount s = with_market s address market_id λ ref s0.
      if amount == 0 then done s0 else (do
        s1 ← update_market ref (λ m. record m { pot = m.pot -ℤ pos amount }) s0
        done (invalidate ref s1))
