-- ===== src/Markets/Positions.antt =====
-- Portfolios, src/positions/positions.service.ts: `markToMarket` and `serialize`.
pub mod Marks
use numera_backend.Prelude.{
  ℕ, zero, ◌*◌, ◌/◌, ◌^◌, ◌≤◌, ◌<◌, ◌≡◌, refl, ◌==◌, Bool, true, false, Option, none, some, List,
  [], ◌∷◌, Text, arith, if◌then◌else◌,
}
use numera_backend.Prelude.Int.{ℤ}
use numera_backend.Events.Data.{MarketKey, MarketStatus, trading, resolved, invalid}
use numera_backend.Events.Rows.{Market, Outcome, Position}
use numera_backend.Markets.View.{MarketWithOutcomes}

pub record PositionView : Type 0 where
  pub market_ref : MarketKey
  pub market_title : Text
  pub market_status : MarketStatus
  pub collateral : Text
  pub account : Text
  pub outcome_index : ℕ
  pub outcome_label : Text
  pub shares : ℕ
  pub cost_basis : ℕ
  pub realized_pnl : ℤ
  pub is_redeemed : Bool
  pub current_price_wad : Option ℕ
  pub winning_outcome_id : Option ℕ
  pub mark_to_market : Option ℕ

abbrev pub wad : ℕ
wad = 10 ^ 18

-- `outcomeIndex === winningOutcomeId`, which may be null.
unfoldable pub is_winner : ℕ → Option ℕ → Bool
is_winner index none = false
is_winner index (some winner) = index == winner

unfoldable pub live_mark : ℕ → Option Outcome → Option ℕ
live_mark shares none = none
live_mark shares (some o) = some (shares * o.current_price_wad / wad)

unfoldable pub mark_by_status :
    MarketStatus → ℕ → ℕ → Option ℕ → Option Outcome → Position → Option ℕ
unfolding is_winner live_mark
mark_by_status resolved shares index winner outcome p =
    some (if is_winner index winner then shares else 0)
mark_by_status invalid shares index winner outcome p = some p.cost_basis
mark_by_status trading shares index winner outcome p = live_mark shares outcome

unfoldable pub mark_to_market : Market → ℕ → Position → Option Outcome → Option ℕ
unfolding mark_by_status
mark_to_market m index p outcome =
    if p.shares == 0
    then some 0
    else mark_by_status m.status p.shares index m.winning_outcome_id outcome p

-- `outcomes.find((o) => o.index === outcomeIndex)`.
unfoldable pub outcome_at : ℕ → List (ℕ × Outcome) → Option Outcome
outcome_at index [] = none
outcome_at index ((i, o) ∷ rest) =
    let later = outcome_at index rest in if i == index then some o else later

unfoldable pub label_of : Option Outcome → Text
label_of none = []
label_of (some o) = o.label

unfoldable pub price_of : Option Outcome → Option ℕ
price_of none = none
price_of (some o) = some o.current_price_wad

-- `serialize`, of the position of an account in an outcome.
unfoldable pub position_view : MarketWithOutcomes → Text → ℕ → Position → PositionView
unfolding outcome_at mark_to_market label_of price_of
position_view m account index p =
    let outcome = outcome_at index m.outcomes in
    record {
      market_ref = m.key;
      market_title = m.title;
      market_status = m.status;
      collateral = m.collateral;
      account = account;
      outcome_index = index;
      outcome_label = label_of outcome;
      shares = p.shares;
      cost_basis = p.cost_basis;
      realized_pnl = p.realized_pnl;
      is_redeemed = p.is_redeemed;
      current_price_wad = price_of outcome;
      winning_outcome_id = m.winning_outcome_id;
      mark_to_market = mark_to_market m.market index p outcome;
    }
