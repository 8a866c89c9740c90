-- ===== src/Markets/View.antt =====
-- The public shape of a market, src/markets/market.serializer.ts, with the amounts of
-- src/common/utils/decimal.ts as numbers where the source prints them; `formatUnits` is an argument.
pub mod Windows
use numera_backend.Prelude.{
  ℕ, Bool, true, false, not, ◌&&◌, Option, none, some, List, map, Text, ltb, leb, if◌then◌else◌,
}
use numera_backend.Prelude.Int.{ℤ, pos}
use numera_backend.Events.Data.{
  MarketKey, MarketStatus, trading, resolved, invalid, ResolutionPhase, none_phase, proposed,
  disputed, settled, ResolutionRoute,
}
use numera_backend.Events.Rows.{Market, Outcome, Proposal}
use numera_backend.Chain.Order.{sort}

-- A market as `include: { outcomes: true, resolution: true }` reads it, outcomes by index.
pub record MarketWithOutcomes : Type 0 where
  pub key : MarketKey
  pub market : Market
  pub open market use *
  pub outcomes : List (ℕ × Outcome)
  pub resolution : Option Proposal

pub record OutcomeView : Type 0 where
  pub index : ℕ
  pub label : Text
  pub price_wad : ℕ
  pub probability : Text
  pub shares : ℤ

pub record ResolutionView : Type 0 where
  pub phase : ResolutionPhase
  pub proposed_outcome : Option ℕ
  pub proposer : Option Text
  pub bonded : Bool
  pub bond : ℕ
  pub dispute_deadline : Option ℕ
  pub is_disputable : Bool
  pub is_finalizable : Bool
  pub disputer : Option Text
  pub counter_outcome : Option ℕ
  pub disputer_bond : ℕ
  pub arbitration_deadline : Option ℕ
  pub route : Option ResolutionRoute
  pub settled_outcome : Option ℕ
  pub reward : ℕ
  pub forfeited : ℕ
  pub loser : Option Text
  pub settled_at : Option ℕ

pub record MarketView : Type 0 where
  pub key : MarketKey
  pub title : Text
  pub description : Text
  pub image_url : Option Text
  pub category : Option Text
  pub status : MarketStatus
  pub is_trading_open : Bool
  pub resolution_rules : Text
  pub start_time : ℕ
  pub is_not_open_yet : Bool
  pub close_time : ℕ
  pub winning_outcome_id : Option ℕ
  pub collateral : Text
  pub collateral_decimals : ℕ
  pub alpha : ℕ
  pub s_star : ℕ
  pub seed : ℕ
  pub pot : ℤ
  pub pot_human : Text
  pub surplus : Option ℕ
  pub outcome_count : ℕ
  pub outcomes : List OutcomeView
  pub resolution : Option ResolutionView

unfoldable pub is_trading : MarketStatus → Bool
is_trading trading = true
is_trading resolved = false
is_trading invalid = false

unfoldable pub is_proposed : ResolutionPhase → Bool
is_proposed proposed = true
is_proposed _ = false

unfoldable pub is_disputed : ResolutionPhase → Bool
is_disputed disputed = true
is_disputed _ = false

unfoldable pub is_none_phase : ResolutionPhase → Bool
is_none_phase none_phase = true
is_none_phase _ = false

unfoldable pub is_trading_open : ℕ → Market → Bool
unfolding is_trading
is_trading_open now m = is_trading m.status && (leb m.start_time now && ltb now m.close_time)

unfoldable pub is_not_open_yet : ℕ → Market → Bool
unfolding is_trading
is_not_open_yet now m = is_trading m.status && ltb now m.start_time

-- `resolution == null || resolution.phase === 'NONE'`.
unfoldable pub is_unproposed : Option Proposal → Bool
unfolding is_none_phase
is_unproposed none = true
is_unproposed (some r) = is_none_phase r.phase

unfoldable pub is_awaiting_proposal : ℕ → Market → Option Proposal → Bool
unfolding is_trading is_unproposed
is_awaiting_proposal now m r = is_trading m.status && (leb m.close_time now && is_unproposed r)

-- `disputeDeadline?.getTime() ?? 0`.
unfoldable pub deadline_of : Proposal → ℕ
deadline_of r = elim r.dispute_deadline [ none ↦ 0 | some t ↦ t ]

unfoldable pub is_disputable : ℕ → Proposal → Bool
unfolding is_proposed deadline_of
is_disputable now r = is_proposed r.phase && leb now (deadline_of r)

unfoldable pub is_finalizable : ℕ → Proposal → Bool
unfolding is_proposed deadline_of
is_finalizable now r = is_proposed r.phase && ltb (deadline_of r) now

unfoldable pub resolution_view : ℕ → Proposal → ResolutionView
unfolding is_disputable is_finalizable
resolution_view now r = record {
  phase = r.phase;
  proposed_outcome = r.proposed_outcome;
  proposer = r.proposer;
  bonded = r.proposer_bonded;
  bond = r.proposer_bond;
  dispute_deadline = r.dispute_deadline;
  is_disputable = is_disputable now r;
  is_finalizable = is_finalizable now r;
  disputer = r.disputer;
  counter_outcome = r.counter_outcome;
  disputer_bond = r.disputer_bond;
  arbitration_deadline = r.arbitration_deadline;
  route = r.route;
  settled_outcome = r.settled_outcome;
  reward = r.reward;
  forfeited = r.forfeited;
  loser = r.loser;
  settled_at = r.settled_at;
}

unfoldable pub resolution_of : ℕ → Option Proposal → Option ResolutionView
unfolding resolution_view
resolution_of now none = none
resolution_of now (some r) = some (resolution_view now r)

-- `sort((a, b) => a.index - b.index)`.
unfoldable pub by_index : List (ℕ × Outcome) → List (ℕ × Outcome)
unfolding sort
by_index = sort (λ (x : ℕ × Outcome). (x.0, 0))

module _ (format_units : ℤ → ℕ → Text) where
  unfoldable pub outcome_view : ℕ × Outcome → OutcomeView
  outcome_view (index, o) = record {
    index = index;
    label = o.label;
    price_wad = o.current_price_wad;
    probability = format_units (pos o.current_price_wad) 18;
    shares = o.current_shares;
  }

  -- `market`, at a moment and with the collateral's decimals.
  unfoldable pub market_view : ℕ → ℕ → MarketWithOutcomes → MarketView
  unfolding outcome_view by_index resolution_of is_trading_open is_not_open_yet
  market_view now decimals m = record {
    key = m.key;
    title = m.title;
    description = m.description;
    image_url = m.image_url;
    category = m.category_key;
    status = m.status;
    is_trading_open = is_trading_open now m.market;
    resolution_rules = m.resolution_rules;
    start_time = m.start_time;
    is_not_open_yet = is_not_open_yet now m.market;
    close_time = m.close_time;
    winning_outcome_id = m.winning_outcome_id;
    collateral = m.collateral;
    collateral_decimals = decimals;
    alpha = m.alpha;
    s_star = m.s_star;
    seed = m.seed;
    pot = m.pot;
    pot_human = format_units m.pot decimals;
    surplus = m.surplus;
    outcome_count = m.outcome_count;
    outcomes = map outcome_view (by_index m.outcomes);
    resolution = resolution_of now m.resolution;
  }
