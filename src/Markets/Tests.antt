-- ===== src/Markets/Tests.antt =====
-- A market of two outcomes, open, then closed and proposed on.
use numera_backend.Prelude.{ℕ, ◌*◌, ◌^◌, ◌≡◌, refl, true, false, none, some, [], ◌∷◌, Text, codes}
use numera_backend.Prelude.Int.{ℤ, pos}
use numera_backend.Events.Data.{MarketKey, trading, proposed}
use numera_backend.Events.Rows.{Market, Outcome, Position, Proposal}
use numera_backend.Markets.View.{MarketWithOutcomes, by_index}
use numera_backend.Markets.Positions.{mark_to_market}
use numera_backend.Markets.Queue.{ClosedMarket}

abbrev key : MarketKey
key = (codes "0xe", 7)

abbrev market : Market
market = record {
  collateral = codes "0xc";
  resolver = codes "0xr";
  start_time = 10;
  close_time = 20;
  outcome_count = 2;
  category_key = none;
  metadata_hash = codes "0xh";
  creator = codes "0xa";
  alpha = 1;
  s_star = 1;
  seed = 1;
  status = trading;
  winning_outcome_id = none;
  pot = pos 5;
  surplus = none;
  title = codes "t";
  description = [];
  resolution_rules = codes "r";
  image_url = none;
  created_block = 1;
  created_tx = codes "0x1";
}

abbrev outcome : Outcome
outcome = record { label = codes "yes"; current_price_wad = 5 * 10 ^ 17; current_shares = pos 3 }

abbrev view : MarketWithOutcomes
view = record {
  key = key;
  market = market;
  outcomes = (1, outcome) ∷ (0, outcome) ∷ [];
  resolution = none;
}

abbrev position : Position
position = record { shares = 4; cost_basis = 1; realized_pnl = pos 0; is_redeemed = false }

abbrev proposal : Proposal
proposal = record {
  market_ref = some key;
  phase = proposed;
  proposer = some (codes "0xp");
  proposed_outcome = some 1;
  proposer_bonded = true;
  proposer_bond = 3;
  dispute_deadline = some 30;
  disputer = none;
  counter_outcome = none;
  disputer_bond = 0;
  arbitration_deadline = none;
  route = none;
  settled_outcome = none;
  reward = 0;
  forfeited = 0;
  loser = none;
  settled_at = none;
  proposed_tx = none;
  settled_tx = none;
}

abbrev closed : ClosedMarket
closed = record { key = key; market = market; resolution = some proposal }

abbrev print : ℤ → ℕ → Text
print amount decimals = []

sorted_then : by_index view.outcomes ≡ (0, outcome) ∷ (1, outcome) ∷ []
unfolding by_index numera_backend.Chain.Order.in_order
sorted_then = refl

marked : mark_to_market market 1 position (some outcome) ≡ some 2
unfolding mark_to_market
marked = refl
