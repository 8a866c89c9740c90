-- ===== src/Events/State.antt =====
-- The state that the handlers of src/chain/event-processor.service.ts read and write, and their shared
-- helpers: the tables, the processor's `refCache`, the dropped cache entries and the messages sent.
use numera_backend.Prelude.{
  ◌≡◌, refl, sym, ap, arith, ℕ, Bool, true, false, Option, none, some, List, [], ◌∷◌, Text,
  to_lower, Eq, pair_eq, text_key, nat_eq, if◌then◌else◌,
}
use numera_backend.Store.{Store, update}
use numera_backend.Events.Data.{MarketKey, OutcomeKey, PositionKey, TradeKey}
use numera_backend.Events.Rows.{
  Market, Outcome, Trade, Position, Proposal, BannedAccount, Draft, Message,
}

-- The tables.
pub record Database : Type 1 where
  pub markets : Store MarketKey Market
  pub outcomes : Store OutcomeKey Outcome
  pub trades : Store TradeKey Trade
  pub positions : Store PositionKey Position
  pub proposals : Store MarketKey Proposal
  pub banned : Store Text BannedAccount
  pub categories : Store Text Bool
  pub drafts : Store Text Draft
  pub price_points : Store (MarketKey × (ℕ × ℕ)) (ℕ × ℕ)
  -- Whether the text of a stored `Decimal` is plain digits, which `BigInt` takes; it throws on the
  -- exponential text of a large number.
  pub is_plain : ℕ → Bool

-- What a handler comes back with: the writes before a throw stay.
pub data Run (S : Type 0) : Type 0 where
  done threw : S → Run S

infixl 5 ◌>>=◌
abbrev pub ◌>>=◌ : {S : Type 0} → Run S → (S → Run S) → Run S
done s >>= f = f s
threw s >>= f = threw s

pub >>=-eq-done :
    {S : Type 0} (m : Run S) (f : S → Run S) {t : S}
    → (m >>= f) ≡ done t
    → (s : S) × (m ≡ done s) × (f s ≡ done t)
>>=-eq-done (done s) f h = (s, refl, h)
>>=-eq-done (threw s) f h = cc

abbrev pub market_key_eq : Eq MarketKey
market_key_eq = pair_eq

abbrev pub after : {S : Type 0} → Run S → S
after (done s) = s
after (threw s) = s

module _ (D : Database) where
  pub record State : Type 0 where
    pub markets : D.markets.Table
    pub outcomes : D.outcomes.Table
    pub trades : D.trades.Table
    pub positions : D.positions.Table
    pub proposals : D.proposals.Table
    pub banned : D.banned.Table
    pub categories : D.categories.Table
    pub drafts : D.drafts.Table
    pub price_points : D.price_points.Table
    -- The batch's set of markets whose prices are to be read again.
    pub touched : List MarketKey
    -- Keys whose market was found before.
    pub ref_cache : List MarketKey
    -- Markets whose cached pages were dropped, newest first.
    pub invalidated : List MarketKey
    -- Messages published, newest first.
    pub published : List Message

-- `Set.has`, and `Map.get` for a map whose values are its keys.
unfoldable pub has : List MarketKey → MarketKey → Bool
has [] key = false
has (k ∷ ks) key = if market_key_eq.beq k key then true else has ks key

module _ {D : Database} where
  -- `marketRef`: the market's row, looked up once and then remembered.
  unfoldable pub market_ref : State D → Text → ℕ → Option MarketKey × State D
  market_ref s raw_address market_id =
      let key : MarketKey = (to_lower raw_address, market_id) in
      if has s.ref_cache key then (some key, s) else elim (D.markets.find s.markets key) [
        | none ↦ (none, s)
        | some m ↦ (some key, record s { ref_cache = key ∷ s.ref_cache })
      ]

  -- `const ref = await this.marketRef(…); if (!ref) return;`
  unfoldable pub with_market :
      State D → Text → ℕ → (MarketKey → State D → Run (State D)) → Run (State D)
  unfolding market_ref
  with_market s raw_address market_id rest =
      let (found, s') = market_ref s raw_address market_id in
      elim found [ none ↦ done s' | some ref ↦ rest ref s' ]

  remembered :
      (s : State D) (key : MarketKey) (known : Bool) (row : Option Market) {m : Market}
      → row ≡ some m
      → (cache : List MarketKey) × ((if known
            then (some key, s)
            else elim row as (λ _. Option MarketKey × State D) [
              | none ↦ (none, s)
              | some m ↦ (some key, record s { ref_cache = key ∷ s.ref_cache })
            ])
          ≡ (some key, record s { ref_cache = cache }))
  remembered s key true row h = (s.ref_cache, refl)
  remembered s key false none h = absurd (cc)
  remembered s key false (some m) h = (key ∷ s.ref_cache, refl)

  -- A listed market is found, whether or not it was remembered.
  pub with_market-listed :
      (s : State D) (raw_address : Text) (market_id : ℕ)
      (rest : MarketKey → State D → Run (State D)) {m : Market}
      → D.markets.find s.markets (to_lower raw_address, market_id) ≡ some m
      → (cache : List MarketKey) × (with_market s raw_address market_id rest
          ≡ rest (to_lower raw_address, market_id) (record s { ref_cache = cache }))
  unfolding with_market
  with_market-listed s raw_address market_id rest listed =
      let key : MarketKey = (to_lower raw_address, market_id) in
      let (cache, e) =
        remembered s key (has s.ref_cache key) (D.markets.find s.markets key) listed in
      (
        cache,
        ap
            (λ (r : Option MarketKey × State D). elim r.0 as (λ _. Run (State D)) [
              | none ↦ done r.1
              | some ref ↦ rest ref r.1
            ])
            e,
      )

  -- `prisma.market.update({ where: { id: ref }, data })`.
  unfoldable pub update_market : MarketKey → (Market → Market) → State D → Run (State D)
  unfolding update
  update_market ref change s = elim (update D.markets s.markets ref change) [
    | none ↦ threw s
    | some t ↦ done (record s { markets = t })
  ]

  -- `prisma.outcome.update({ where: { marketRef_index }, data })`.
  unfoldable pub update_outcome : MarketKey → ℕ → (Outcome → Outcome) → State D → Run (State D)
  unfolding update
  update_outcome ref index change s = elim (update D.outcomes s.outcomes (ref, index) change) [
    | none ↦ threw s
    | some t ↦ done (record s { outcomes = t })
  ]

  outcome_kept :
      (o : Option D.outcomes.Table) (s t : State D)
      → elim o as (λ _. Run (State D)) [
        | none ↦ threw s
        | some table ↦ done (record s { outcomes = table })
      ]
        ≡ done t
      → (t.positions ≡ s.positions) × (t.markets ≡ s.markets) × (t.trades ≡ s.trades)
  outcome_kept none s t h = cc
  outcome_kept (some table) s t h = (
    sym (ap (λ (r : Run (State D)). (after r).positions) h),
    sym (ap (λ (r : Run (State D)). (after r).markets) h),
    sym (ap (λ (r : Run (State D)). (after r).trades) h),
  )

  pub update_outcome-eq-done :
      (ref : MarketKey) (index : ℕ) (change : Outcome → Outcome) (s t : State D)
      → update_outcome ref index change s ≡ done t
      → (t.positions ≡ s.positions) × (t.markets ≡ s.markets) × (t.trades ≡ s.trades)
  unfolding update_outcome
  update_outcome-eq-done ref index change s t h =
      outcome_kept (update D.outcomes s.outcomes (ref, index) change) s t h

  market_kept :
      (o : Option D.markets.Table) (s t : State D)
      → elim o as (λ _. Run (State D)) [
        | none ↦ threw s
        | some table ↦ done (record s { markets = table })
      ]
        ≡ done t
      → (t.positions ≡ s.positions) × (t.outcomes ≡ s.outcomes) × (t.trades ≡ s.trades)
  market_kept none s t h = cc
  market_kept (some table) s t h = (
    sym (ap (λ (r : Run (State D)). (after r).positions) h),
    sym (ap (λ (r : Run (State D)). (after r).outcomes) h),
    sym (ap (λ (r : Run (State D)). (after r).trades) h),
  )

  pub update_market-eq-done :
      (ref : MarketKey) (change : Market → Market) (s t : State D)
      → update_market ref change s ≡ done t
      → (t.positions ≡ s.positions) × (t.outcomes ≡ s.outcomes) × (t.trades ≡ s.trades)
  unfolding update_market
  update_market-eq-done ref change s t h = market_kept (update D.markets s.markets ref change) s t h

  -- `touched.add(ref)`.
  unfoldable pub touch : MarketKey → State D → State D
  unfolding has
  touch ref s = if has s.touched ref then s else record s { touched = ref ∷ s.touched }

  pub touch-positions : (ref : MarketKey) (s : State D) → (touch ref s).positions ≡ s.positions
  unfolding touch
  touch-positions ref s = ground arith

  -- `markets.invalidate`.
  abbrev pub invalidate : MarketKey → State D → State D
  invalidate ref s = record s { invalidated = ref ∷ s.invalidated }

  -- `redis.publish`.
  abbrev pub publish : Message → State D → State D
  publish m s = record s { published = m ∷ s.published }
