-- ===== src/Events/Prices.antt =====
-- The price refresh: `refreshPrices`, `applyPrices` and `latestTs` of
-- src/chain/event-processor.service.ts, and `recordPoint` of src/prices/prices.service.ts.
use numera_backend.Prelude.{
  ℕ, suc, ◌+◌, ◌*◌, ◌/◌, ◌==◌, Bool, false, ◌&&◌, Option, none, some, List, [], ◌∷◌, to_lower,
  text_eq, ltb, if◌then◌else◌,
}
use numera_backend.Store.{upsert}
use numera_backend.Events.Data.{
  MarketKey, NormalizedLog, Payload, ls_lmsr, optimistic_resolver, trading_blocklist, EngineEvent,
  market_created, market_metadata_published, bought, sold, shorted, market_resolved,
  market_invalidated, redeemed, seed_redeemed, other_engine_event, ResolverEvent, proposal_made,
  proposal_disputed, proposal_finalized, proposal_arbitrated, slashed, proposal_abandoned,
  dispute_reset, other_resolver_event, banned,
}
use numera_backend.Events.Rows.{price}
use numera_backend.Events.State.{Database, State, Run, done, ◌>>=◌, update_outcome, publish}

-- `args.marketId`, where the event has one.
unfoldable pub engine_market_id : EngineEvent → Option ℕ
engine_market_id (market_created a) = some a.market_id
engine_market_id (market_metadata_published id hash text) = some id
engine_market_id (bought a) = some a.market_id
engine_market_id (sold a) = some a.market_id
engine_market_id (shorted a) = some a.market_id
engine_market_id (market_resolved id winner owed surplus) = some id
engine_market_id (market_invalidated id surplus) = some id
engine_market_id (redeemed id account amount) = some id
engine_market_id (seed_redeemed id amount) = some id
engine_market_id other_engine_event = none

unfoldable pub resolver_market_id : ResolverEvent → Option ℕ
resolver_market_id (proposal_made a) = some a.market_id
resolver_market_id (proposal_disputed a) = some a.market_id
resolver_market_id (proposal_finalized a) = some a.market_id
resolver_market_id (proposal_arbitrated a) = some a.market_id
resolver_market_id (slashed a) = some a.market_id
resolver_market_id (proposal_abandoned a) = some a.market_id
resolver_market_id (dispute_reset a) = some a.market_id
resolver_market_id other_resolver_event = none

unfoldable pub payload_market_id : Payload → Option ℕ
unfolding engine_market_id resolver_market_id
payload_market_id (ls_lmsr e) = engine_market_id e
payload_market_id (optimistic_resolver e) = resolver_market_id e
payload_market_id (trading_blocklist (banned a)) = some a.market_id
payload_market_id (trading_blocklist _) = none

unfoldable pub is_id : Option ℕ → ℕ → Bool
is_id none id = false
is_id (some n) id = n == id

-- A log of this engine and market.
unfoldable pub is_about : MarketKey → NormalizedLog → Bool
unfolding payload_market_id is_id
is_about (address, id) l =
    text_eq (to_lower l.address) (to_lower address) && is_id (payload_market_id l.payload) id

unfoldable pub later : Option ℕ → ℕ → Option ℕ
later none t = some t
later (some u) t = if ltb u t then some t else some u

-- The loop of `latestTs`, from the latest time so far.
unfoldable pub latest_from : Option ℕ → MarketKey → List NormalizedLog → Option ℕ
unfolding is_about later
latest_from best ref [] = best
latest_from best ref (l ∷ ls) =
    latest_from (if is_about ref l then later best l.timestamp else best) ref ls

-- `ts ?? new Date()`.
unfoldable pub latest_ts : ℕ → MarketKey → List NormalizedLog → ℕ
unfolding latest_from
latest_ts now ref logs = elim (latest_from none ref logs) [ none ↦ now | some t ↦ t ]

-- What the processor asks of the chain: whether the client is up, and `prices()` of a market, none
-- where the call throws.
pub record PriceReads : Type 0 where
  pub is_ready : Bool
  pub read_prices : MarketKey → Option (List ℕ)
  pub now : ℕ

module _ {D : Database} where
  -- `recordPoint`: the sample of this second, replaced by a later one.
  unfoldable pub record_point : MarketKey → ℕ → ℕ → ℕ → ℕ → State D → State D
  unfolding upsert
  record_point ref index price_wad volume timestamp s =
      let time = timestamp / 1000 * 1000 in
      record s {
        price_points =
            upsert D.price_points s.price_points (ref, (index, time)) (price_wad, volume)
              (λ old. (price_wad, old.1 + volume));
      }

  unfoldable pub set_prices : MarketKey → List ℕ → ℕ → State D → Run (State D)
  set_prices ref [] i s = done s
  set_prices ref (p ∷ ps) i s =
      update_outcome ref i (λ o. record o { current_price_wad = p }) s >>= set_prices ref ps (suc i)

  unfoldable pub record_points : MarketKey → List ℕ → ℕ → ℕ → State D → State D
  unfolding record_point
  record_points ref [] i ts s = s
  record_points ref (p ∷ ps) i ts s = record_points ref ps (suc i) ts (record_point ref i p 0 ts s)

  unfoldable pub apply_prices : MarketKey → List ℕ → ℕ → State D → Run (State D)
  apply_prices ref prices ts s = do
    s1 ← set_prices ref prices 0 s
    done (publish (price ref prices) (record_points ref prices 0 ts s1))

  unfoldable pub refresh_prices :
      PriceReads → MarketKey → List NormalizedLog → State D → Run (State D)
  refresh_prices chain ref logs s = elim (D.markets.find s.markets ref) [
    | none ↦ done s
    | some m ↦
        if chain.is_ready
        then elim (chain.read_prices ref) [
          | none ↦ done s
          | some prices ↦ apply_prices ref prices (latest_ts chain.now ref logs) s
        ]
        else done s
  ]
