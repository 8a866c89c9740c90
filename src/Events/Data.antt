-- ===== src/Events/Data.antt =====
-- The decoded logs of src/chain/event-processor.service.ts (argument names of src/chain/abis.ts) and the rows
-- of prisma/schema.prisma that the processor writes. A market row is named by its unique pair of
-- engine address and market id, which stands for the generated `id`. Times are in milliseconds.
use numera_backend.Prelude.{ℕ, Bool, Text}

-- An engine address and a market id.
abbrev pub MarketKey : Type 0
MarketKey = Text × ℕ

abbrev pub OutcomeKey : Type 0
OutcomeKey = MarketKey × ℕ

-- Market, account, outcome index.
abbrev pub PositionKey : Type 0
PositionKey = MarketKey × (Text × ℕ)

-- Transaction hash and log index.
abbrev pub TradeKey : Type 0
TradeKey = Text × ℕ

pub data TradeSide : Type 0 where
  buy sell short : TradeSide

pub data MarketStatus : Type 0 where
  trading resolved invalid : MarketStatus

pub data ResolutionPhase : Type 0 where
  none_phase proposed disputed settled : ResolutionPhase

pub data ResolutionRoute : Type 0 where
  finalized arbitrated : ResolutionRoute

pub record MarketCreated : Type 0 where
  pub market_id : ℕ
  pub collateral : Text
  pub creator : Text
  pub resolver : Text
  pub outcome_count : ℕ
  pub start_time : ℕ
  pub close_time : ℕ
  pub alpha : ℕ
  pub s_star : ℕ
  pub seed_per_outcome : ℕ
  pub seed_cost : ℕ
  pub category : Text
  pub metadata_hash : Text

-- `Bought`, `Sold` and `Shorted`; `amount` is `cost` or `proceeds`.
pub record TradeArgs : Type 0 where
  pub market_id : ℕ
  pub account : Text
  pub outcome_id : ℕ
  pub shares : ℕ
  pub amount : ℕ
  pub spread_wad : ℕ

-- The engine and market id that every resolver log names.
pub record Subject : Type 0 where
  pub market : Text
  pub market_id : ℕ

pub record ProposedArgs : Type 0 where
  pub subject : Subject
  pub open subject use *
  pub proposer : Text
  pub outcome : ℕ
  pub bond : ℕ
  pub bonded : Bool
  pub dispute_deadline : ℕ

pub record DisputedArgs : Type 0 where
  pub subject : Subject
  pub open subject use *
  pub disputer : Text
  pub counter_outcome : ℕ
  pub bond : ℕ
  pub arbitration_deadline : ℕ

pub record FinalizedArgs : Type 0 where
  pub subject : Subject
  pub open subject use *
  pub outcome : ℕ
  pub reward : ℕ

pub record ArbitratedArgs : Type 0 where
  pub subject : Subject
  pub open subject use *
  pub outcome : ℕ
  pub loser : Text
  pub forfeited : ℕ
  pub reward : ℕ

pub record SlashedArgs : Type 0 where
  pub subject : Subject
  pub open subject use *
  pub account : Text
  pub amount : ℕ

pub record BannedArgs : Type 0 where
  pub account : Text
  pub context : Text
  pub market_id : ℕ
  pub at : ℕ

pub data EngineEvent : Type 0 where
  market_created : MarketCreated → EngineEvent
  market_metadata_published : ℕ → Text → Text → EngineEvent
  bought sold shorted : TradeArgs → EngineEvent
  market_resolved : ℕ → ℕ → ℕ → ℕ → EngineEvent
  market_invalidated : ℕ → ℕ → EngineEvent
  redeemed : ℕ → Text → ℕ → EngineEvent
  seed_redeemed : ℕ → ℕ → EngineEvent
  other_engine_event : EngineEvent

pub data ResolverEvent : Type 0 where
  proposal_made : ProposedArgs → ResolverEvent
  proposal_disputed : DisputedArgs → ResolverEvent
  proposal_finalized : FinalizedArgs → ResolverEvent
  proposal_arbitrated : ArbitratedArgs → ResolverEvent
  slashed : SlashedArgs → ResolverEvent
  proposal_abandoned dispute_reset : Subject → ResolverEvent
  other_resolver_event : ResolverEvent

pub data BlocklistEvent : Type 0 where
  banned : BannedArgs → BlocklistEvent
  unbanned : Text → BlocklistEvent
  other_blocklist_event : BlocklistEvent

-- The stream that a log came from, with its event.
pub data Payload : Type 0 where
  ls_lmsr : EngineEvent → Payload
  optimistic_resolver : ResolverEvent → Payload
  trading_blocklist : BlocklistEvent → Payload

pub record NormalizedLog : Type 0 where
  pub address : Text
  pub payload : Payload
  pub block_number : ℕ
  pub tx_hash : Text
  pub log_index : ℕ
  pub timestamp : ℕ
