-- ===== src/Events/Batch.antt =====
-- Dispatch and batches: `apply` and `processBatch` of src/chain/event-processor.service.ts.
use mathlib.Core.List.{reverse}
use numera_backend.Prelude.{List, [], ◌∷◌, Text}
use numera_backend.Admin.Metadata.{Codec}
use numera_backend.Events.Data.{
  MarketKey, NormalizedLog, Payload, ls_lmsr, optimistic_resolver, trading_blocklist, EngineEvent,
  market_created, market_metadata_published, bought, sold, shorted, market_resolved,
  market_invalidated, redeemed, seed_redeemed, other_engine_event, ResolverEvent, proposal_made,
  proposal_disputed, proposal_finalized, proposal_arbitrated, slashed, proposal_abandoned,
  dispute_reset, other_resolver_event, BlocklistEvent, banned, unbanned, other_blocklist_event, buy,
  sell,
}
use numera_backend.Events.State.{Database, State, Run, done, ◌>>=◌}
use numera_backend.Events.Creation.{create_market, on_metadata_published}
use numera_backend.Events.Trades.{on_trade}
use numera_backend.Events.Shorts.{on_short}
use numera_backend.Events.Lifecycle.{on_resolved, on_invalidated, on_redeem, on_seed_redeemed}
use numera_backend.Events.Resolution.{
  on_proposed, on_disputed, on_finalized, on_arbitrated, on_slashed, on_resolution_cleared,
}
use numera_backend.Events.Bans.{on_banned, on_unbanned}
use numera_backend.Events.Prices.{PriceReads, refresh_prices}

-- What the handlers take from packages: `hexToString`, the codec of the copy, and the chain.
pub record Externals : Type 0 where
  pub bytes32_to_string : Text → Text
  pub codec : Codec
  pub chain : PriceReads

module _ {D : Database} (x : Externals) where
  unfoldable pub apply_engine : NormalizedLog → EngineEvent → State D → Run (State D)
  apply_engine log (market_created a) s = create_market x.bytes32_to_string log a s
  apply_engine log (market_metadata_published id hash text) s =
      on_metadata_published x.codec log id hash text s
  apply_engine log (bought a) s = on_trade log buy a s
  apply_engine log (sold a) s = on_trade log sell a s
  apply_engine log (shorted a) s = on_short log a s
  apply_engine log (market_resolved id winner owed surplus) s =
      on_resolved log.address id winner owed surplus s
  apply_engine log (market_invalidated id surplus) s = on_invalidated log.address id surplus s
  apply_engine log (redeemed id account amount) s = on_redeem log.address id account amount s
  apply_engine log (seed_redeemed id amount) s = on_seed_redeemed log.address id amount s
  apply_engine log other_engine_event s = done s

  unfoldable pub apply_resolver : NormalizedLog → ResolverEvent → State D → Run (State D)
  apply_resolver log (proposal_made a) s = on_proposed log a s
  apply_resolver log (proposal_disputed a) s = on_disputed a s
  apply_resolver log (proposal_finalized a) s = on_finalized log a s
  apply_resolver log (proposal_arbitrated a) s = on_arbitrated a s
  apply_resolver log (slashed a) s = on_slashed log a s
  apply_resolver log (proposal_abandoned a) s = on_resolution_cleared a s
  apply_resolver log (dispute_reset a) s = on_resolution_cleared a s
  apply_resolver log other_resolver_event s = done s

  unfoldable pub apply_blocklist : NormalizedLog → BlocklistEvent → State D → Run (State D)
  apply_blocklist log (banned a) s = on_banned log a s
  apply_blocklist log (unbanned account) s = on_unbanned log account s
  apply_blocklist log other_blocklist_event s = done s

  unfoldable pub apply_payload : NormalizedLog → Payload → State D → Run (State D)
  unfolding apply_engine apply_resolver apply_blocklist
  apply_payload log (ls_lmsr e) s = apply_engine log e s
  apply_payload log (optimistic_resolver e) s = apply_resolver log e s
  apply_payload log (trading_blocklist e) s = apply_blocklist log e s

  abbrev pub apply : NormalizedLog → State D → Run (State D)
  apply log s = apply_payload log log.payload s

  -- The loop over the logs: a log that throws aborts the batch.
  unfoldable pub apply_all : List NormalizedLog → State D → Run (State D)
  apply_all [] s = done s
  apply_all (log ∷ logs) s = apply log s >>= apply_all logs

  unfoldable pub refresh_all : List MarketKey → List NormalizedLog → State D → Run (State D)
  refresh_all [] logs s = done s
  refresh_all (ref ∷ refs) logs s = refresh_prices x.chain ref logs s >>= refresh_all refs logs

  unfoldable pub process_batch : List NormalizedLog → State D → Run (State D)
  unfolding apply_all refresh_all
  process_batch logs s = do
    s' ← apply_all logs (record s { touched = [] })
    refresh_all (reverse s'.touched) logs s'
