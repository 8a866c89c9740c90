-- ===== src/Events/Rows.antt =====
-- The rows of prisma/schema.prisma that src/chain/event-processor.service.ts writes. The columns that it
-- may take below zero (`pot`, `currentShares`, `realizedPnl`) are integers.
use numera_backend.Prelude.{ℕ, Bool, Option, List, Text}
use numera_backend.Prelude.Int.{ℤ}
use numera_backend.Events.Data.{
  MarketKey, MarketStatus, ResolutionPhase, ResolutionRoute, TradeSide,
}

pub record Market : Type 0 where
  pub collateral : Text
  pub resolver : Text
  pub start_time : ℕ
  pub close_time : ℕ
  pub outcome_count : ℕ
  pub category_key : Option Text
  pub metadata_hash : Text
  pub creator : Text
  pub alpha : ℕ
  pub s_star : ℕ
  pub seed : ℕ
  pub status : MarketStatus
  pub winning_outcome_id : Option ℕ
  pub pot : ℤ
  pub surplus : Option ℕ
  pub title : Text
  pub description : Text
  pub resolution_rules : Text
  pub image_url : Option Text
  pub created_block : ℕ
  pub created_tx : Text

pub record Outcome : Type 0 where
  pub label : Text
  pub current_price_wad : ℕ
  pub current_shares : ℤ

pub record Trade : Type 0 where
  pub market_ref : MarketKey
  pub account : Text
  pub side : TradeSide
  pub outcome_index : ℕ
  pub shares : ℕ
  pub amount : ℕ
  pub spread_wad : ℕ
  pub price_wad : ℕ
  pub block_number : ℕ
  pub timestamp : ℕ

pub record Position : Type 0 where
  pub shares : ℕ
  pub cost_basis : ℕ
  pub realized_pnl : ℤ
  pub is_redeemed : Bool

pub record Proposal : Type 0 where
  pub market_ref : Option MarketKey
  pub phase : ResolutionPhase
  pub proposer : Option Text
  pub proposed_outcome : Option ℕ
  pub proposer_bonded : Bool
  pub proposer_bond : ℕ
  pub dispute_deadline : Option ℕ
  pub disputer : Option Text
  pub counter_outcome : Option ℕ
  pub disputer_bond : ℕ
  pub arbitration_deadline : Option ℕ
  pub route : Option ResolutionRoute
  pub settled_outcome : Option ℕ
  pub reward : ℕ
  pub forfeited : ℕ
  pub loser : Option Text
  pub settled_at : Option ℕ
  pub proposed_tx : Option Text
  pub settled_tx : Option Text

pub record BannedAccount : Type 0 where
  pub context : Option Text
  pub market_id : Option ℕ
  pub banned_at : ℕ
  pub lifted_at : Option ℕ
  pub tx_hash : Option Text

pub record Draft : Type 0 where
  pub title : Text
  pub description : Text
  pub resolution_rules : Text
  pub image_url : Option Text
  pub outcome_labels : List Text
  pub draft_category_key : Option Text
  pub adopted_by : Option MarketKey

-- The data of a realtime message, by event name.
pub data Message : Type 0 where
  created : MarketKey → Option Text → ℕ → Message
  trade : MarketKey → Trade → Message
  market_status : MarketKey → MarketStatus → Option ℕ → Message
  resolution : MarketKey → ResolutionPhase → Option ℕ → Message
  price : MarketKey → List ℕ → Message
