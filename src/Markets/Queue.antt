-- ===== src/Markets/Queue.antt =====
-- The operator's side of the markets, src/admin/admin.service.ts: `operationsQueue`. The rows are what the database answers, in the order and up to the number that
-- the query asks for.
pub mod Exclusive
use numera_backend.Prelude.{
  ℕ, ◌==◌, Bool, true, false, not, ◌&&◌, ◌||◌, Option, none, some, List, [], ◌∷◌, map, Text, codes,
  to_lower, ltb, length, take, if◌then◌else◌,
}
use numera_backend.Prelude.Int.{ℤ}
use numera_backend.Events.Data.{MarketKey, ResolutionPhase}
use numera_backend.Events.Rows.{Market, Proposal}
use numera_backend.Chain.Order.{sort}
use numera_backend.Markets.View.{is_trading, is_proposed, is_disputed, is_unproposed, deadline_of}

-- A market with its resolution, and a proposal with its market, which may not be indexed yet.
pub record ClosedMarket : Type 0 where
  pub key : MarketKey
  pub market : Market
  pub resolution : Option Proposal

pub record LiveProposal : Type 0 where
  pub key : MarketKey
  pub proposal : Proposal
  pub market : Option Market

pub record MarketRow : Type 0 where
  pub key : MarketKey
  pub title : Text
  pub close_time : Option ℕ
  pub resolver : Option Text
  pub outcome_count : Option ℕ
  pub pot : Option ℤ

pub record QueueRow : Type 0 where
  pub market : MarketRow
  pub phase : ResolutionPhase
  pub proposer : Option Text
  pub proposed_outcome : Option ℕ
  pub proposer_bonded : Bool
  pub proposer_bond : ℕ
  pub disputer : Option Text
  pub counter_outcome : Option ℕ
  pub disputer_bond : ℕ
  pub dispute_deadline : Option ℕ
  pub arbitration_deadline : Option ℕ

pub record OperationsQueue : Type 0 where
  pub awaiting_proposal : List MarketRow
  pub disputed : List QueueRow
  pub finalizable : List QueueRow

unfoldable pub market_row : MarketKey → Market → MarketRow
market_row key m = record {
  key = key;
  title = m.title;
  close_time = some m.close_time;
  resolver = some m.resolver;
  outcome_count = some m.outcome_count;
  pot = some m.pot;
}

unfoldable pub row_market : MarketKey → Option Market → MarketRow
unfolding market_row
row_market key none = record {
  key = key;
  title = codes "(market not yet indexed)";
  close_time = none;
  resolver = none;
  outcome_count = none;
  pot = none;
}
row_market key (some m) = market_row key m

unfoldable pub queue_row : LiveProposal → QueueRow
unfolding row_market
queue_row r = record {
  market = row_market r.key r.market;
  phase = r.proposal.phase;
  proposer = r.proposal.proposer;
  proposed_outcome = r.proposal.proposed_outcome;
  proposer_bonded = r.proposal.proposer_bonded;
  proposer_bond = r.proposal.proposer_bond;
  disputer = r.proposal.disputer;
  counter_outcome = r.proposal.counter_outcome;
  disputer_bond = r.proposal.disputer_bond;
  dispute_deadline = r.proposal.dispute_deadline;
  arbitration_deadline = r.proposal.arbitration_deadline;
}

unfoldable pub keep_where : {A : Type 0} → (A → Bool) → List A → List A
keep_where test [] = []
keep_where test (x ∷ xs) = let rest = keep_where test xs in if test x then x ∷ rest else rest

-- `where: { status: TRADING, closeTime: { lt: now }, OR: [resolution null, phase NONE] }`.
unfoldable pub is_awaiting : ℕ → ClosedMarket → Bool
unfolding is_trading is_unproposed
is_awaiting now m =
    is_trading m.market.status && (ltb m.market.close_time now && is_unproposed m.resolution)

-- `where: { phase: { in: [PROPOSED, DISPUTED] } }`.
unfoldable pub is_live_phase : LiveProposal → Bool
unfolding is_proposed is_disputed
is_live_phase r = is_proposed r.proposal.phase || is_disputed r.proposal.phase

unfoldable pub is_past_window : ℕ → LiveProposal → Bool
unfolding is_proposed deadline_of
is_past_window now r = is_proposed r.proposal.phase && ltb (deadline_of r.proposal) now

-- Ascending, rows without a deadline last.
unfoldable pub deadline_place : LiveProposal → ℕ × ℕ
deadline_place r = elim r.proposal.dispute_deadline [ none ↦ (1, 0) | some t ↦ (0, t) ]

unfoldable pub awaiting_rows : ℕ → List ClosedMarket → List ClosedMarket
unfolding keep_where is_awaiting sort
awaiting_rows now markets =
    take 100
      (sort (λ (m : ClosedMarket). (m.market.close_time, 0)) (keep_where (is_awaiting now) markets))

unfoldable pub live_rows : List LiveProposal → List LiveProposal
unfolding keep_where is_live_phase sort deadline_place
live_rows proposals = take 200 (sort deadline_place (keep_where is_live_phase proposals))

unfoldable pub operations_queue : ℕ → List ClosedMarket → List LiveProposal → OperationsQueue
unfolding awaiting_rows live_rows queue_row market_row is_past_window is_disputed keep_where
operations_queue now markets proposals =
    let live = live_rows proposals in
    record {
      awaiting_proposal =
          map (λ (m : ClosedMarket). market_row m.key m.market) (awaiting_rows now markets);
      disputed =
          map queue_row (keep_where (λ (r : LiveProposal). is_disputed r.proposal.phase) live);
      finalizable = map queue_row (keep_where (is_past_window now) live);
    }
