-- ===== src/Events/Lifecycle/Redeem.antt =====
-- What a redemption (`onRedeem` of src/chain/event-processor.service.ts) does to the pot and the rows of
-- the account.
use numera_backend.Prelude.{
  ◌≡◌, ap, ◌∙◌, ℕ, true, some, Text, to_lower, text_eq_iff, arith, if◌then◌else◌,
}
use numera_backend.Prelude.Int.{pos, ◌+ℤ◌, ◌-ℤ◌}
use numera_backend.Store.{map_option}
use numera_backend.Events.Data.{MarketKey}
use numera_backend.Events.Rows.{Market, Position}
use numera_backend.Events.State.{Database, State, after, market_key_eq}
use numera_backend.Events.Lifecycle.{on_redeem, redeem_positions, redeem_position, held_in}

module _ {D : Database} (address : Text) (market_id : ℕ) (account : Text) (payout : ℕ) (s : State D)
    {m : Market} (listed : D.markets.find s.markets (to_lower address, market_id) ≡ some m) where
  abbrev ref : MarketKey
  ref = (to_lower address, market_id)

  on_redeem-positions :
      (after (on_redeem address market_id account payout s)).positions
      ≡ D.positions.update_many s.positions
          (held_in ref (to_lower account))
          (redeem_position payout)
  unfolding on_redeem redeem_positions
  on_redeem-positions = ground arith

  on_redeem-markets :
      (after (on_redeem address market_id account payout s)).markets
      ≡ D.markets.write s.markets ref (record m { pot = m.pot -ℤ pos payout })
  unfolding on_redeem redeem_positions
  on_redeem-markets = ground arith

  own_row :
      (i : ℕ) (p : Position) → held_in ref (to_lower account) (ref, (to_lower account, i)) p ≡ true
  unfolding held_in
  own_row i p =
      ground
        (arith, market_key_eq.beq_iff ref ref, text_eq_iff (to_lower account) (to_lower account))

  -- When a redemption in an indexed market is processed, the pot pays it out once, and each position
  -- row of the account there, whichever its outcome, is marked and credited the whole payout.
  pub credit-on_redeem :
      (i : ℕ) (p : Position)
      → D.positions.find s.positions (ref, (to_lower account, i)) ≡ some p
      → (D.markets.find (after (on_redeem address market_id account payout s)).markets ref
          ≡ some (record m { pot = m.pot -ℤ pos payout }))
        × (D.positions.find
              (after (on_redeem address market_id account payout s)).positions
              (ref, (to_lower account, i))
            ≡ some (record p { realized_pnl = p.realized_pnl +ℤ pos payout; is_redeemed = true }))
  unfolding redeem_position
  credit-on_redeem i p held = (
    ap (λ t. D.markets.find t ref) on_redeem-markets ∙ D.markets.find-write_self s.markets ref _,
    ap (λ t. D.positions.find t (ref, (to_lower account, i))) on_redeem-positions
        ∙ D.positions.find-update_many s.positions _ _ (ref, (to_lower account, i))
        ∙ ap
            (map_option (λ q.
              if held_in ref (to_lower account) (ref, (to_lower account, i)) q
              then redeem_position payout q
              else q))
            held
        ∙ ap (λ b. some (if b then redeem_position payout p else p)) (own_row i p),
  )
