-- ===== src/Events/Creation.antt =====
-- A market's row and its copy: `createMarket` and `onMetadataPublished` of
-- src/chain/event-processor.service.ts.
use numera_backend.Prelude.{
  ℕ, zero, suc, ◌*◌, ◌/◌, ◌==◌, true, Option, none, some, List, [], ◌∷◌, Text, to_lower,
  if◌then◌else◌, take, get_elem?,
}
use numera_backend.Prelude.Int.{pos}
use numera_backend.Store.{upsert}
use numera_backend.Admin.Metadata.{CanonicalMetadata, Codec, parse_canonical}
use numera_backend.Events.Data.{MarketKey, MarketCreated, NormalizedLog, trading}
use numera_backend.Events.Rows.{Market, Outcome, Draft, created}
use numera_backend.Events.State.{
  Database, State, Run, done, threw, ◌>>=◌, with_market, update_market, update_outcome, invalidate,
  publish,
}
use numera_backend.Events.Trades.{wad}

-- `bytes32ToString(…) || null`.
unfoldable pub or_null : Text → Option Text
or_null [] = none
or_null (c ∷ s) = some (c ∷ s)

abbrev pub or_empty : Option Text → Text
or_empty none = []
or_empty (some t) = t

-- `labels[i] ?? ''`.
unfoldable pub label_at : List Text → ℕ → Text
label_at labels i = or_empty (get_elem? labels i)

abbrev pub copy_of {ℓ} : {A : Type ℓ} → (Draft → A) → A → Option Draft → A
copy_of field default none = default
copy_of field default (some d) = field d

unfoldable pub draft_labels : Option Draft → List Text
draft_labels d = copy_of (λ x. x.outcome_labels) [] d

unfoldable pub created_row : NormalizedLog → MarketCreated → Option Text → Option Draft → Market
created_row log a category draft = record {
  collateral = to_lower a.collateral;
  resolver = to_lower a.resolver;
  start_time = a.start_time * 1000;
  close_time = a.close_time * 1000;
  outcome_count = a.outcome_count;
  category_key = category;
  metadata_hash = a.metadata_hash;
  creator = to_lower a.creator;
  alpha = a.alpha;
  s_star = a.s_star;
  seed = a.seed_per_outcome;
  status = trading;
  winning_outcome_id = none;
  pot = pos a.seed_cost;
  surplus = none;
  title = copy_of (λ d. d.title) [] draft;
  description = copy_of (λ d. d.description) [] draft;
  resolution_rules = copy_of (λ d. d.resolution_rules) [] draft;
  image_url = copy_of (λ d. d.image_url) none draft;
  created_block = log.block_number;
  created_tx = log.tx_hash;
}

unfoldable pub opening_outcome : MarketCreated → List Text → ℕ → Outcome
unfolding label_at
opening_outcome a labels i = record {
  label = label_at labels i;
  current_price_wad = wad / a.outcome_count;
  current_shares = pos a.seed_per_outcome;
}

-- `market?.outcomeCount ?? 0`.
unfoldable pub count_of : Option Market → ℕ
count_of none = 0
count_of (some m) = m.outcome_count

module _ {D : Database} where
  unfoldable pub upsert_category : Option Text → State D → State D
  unfolding upsert
  upsert_category none s = s
  upsert_category (some key) s = record s {
    categories = upsert D.categories s.categories key true (λ old. old);
  }

  -- The nested `outcomes: { create: … }`, `n` rows from index `i` on.
  unfoldable pub create_outcomes : MarketKey → (ℕ → Outcome) → ℕ → ℕ → State D → State D
  create_outcomes ref row i zero s = s
  create_outcomes ref row i (suc n) s =
      create_outcomes ref row (suc i) n
        (record s { outcomes = D.outcomes.write s.outcomes (ref, i) (row i) })

  -- `market.upsert({ update: {}, create })`.
  unfoldable pub insert_market :
      NormalizedLog
      → MarketCreated
      → Option Text
      → Option Draft
      → MarketKey
      → State D
      → Option Market
      → State D
  unfolding create_outcomes
  insert_market log a category draft ref s (some m) = s
  insert_market log a category draft ref s none =
      create_outcomes ref (opening_outcome a (draft_labels draft)) 0 a.outcome_count
        (record s { markets = D.markets.write s.markets ref (created_row log a category draft) })

  -- `if (draft && draft.marketRef === null)`.
  unfoldable pub adopt_draft : Text → MarketKey → Option Draft → State D → State D
  adopt_draft hash ref none s = s
  adopt_draft hash ref (some d) s = elim d.adopted_by [
    | none ↦ record s { drafts = D.drafts.write s.drafts hash (record d { adopted_by = some ref }) }
    | some other ↦ s
  ]

  unfoldable pub create_rows :
      NormalizedLog → MarketCreated → Option Text → MarketKey → State D → State D
  unfolding insert_market adopt_draft
  create_rows log a category ref s =
      let draft = D.drafts.find s.drafts a.metadata_hash in
      adopt_draft a.metadata_hash ref draft
        (insert_market log a category draft ref s (D.markets.find s.markets ref))

  -- `WAD / BigInt(outcomeCount)` throws on no outcomes, after the category was written.
  unfoldable pub create_market :
      (Text → Text) → NormalizedLog → MarketCreated → State D → Run (State D)
  unfolding upsert_category create_rows
  create_market bytes32_to_string log a s =
      let ref : MarketKey = (to_lower log.address, a.market_id) in
      let category = or_null (bytes32_to_string a.category) in
      let s1 = upsert_category category s in
      if a.outcome_count == 0
      then threw s1
      else (let s2 = create_rows log a category ref s1 in
          done (
            publish (created ref category (a.close_time * 1000))
              (invalidate ref (record s2 { ref_cache = ref ∷ s2.ref_cache }))))

  unfoldable pub set_labels : MarketKey → List Text → ℕ → State D → Run (State D)
  set_labels ref [] i s = done s
  set_labels ref (l ∷ ls) i s =
      update_outcome ref i (λ o. record o { label = l }) s >>= set_labels ref ls (suc i)

  unfoldable pub adopt_copy : MarketKey → CanonicalMetadata → State D → Run (State D)
  unfolding upsert_category
  adopt_copy ref m s = do
    let s1 = upsert_category m.category_key s
    s2 ←
        update_market ref
          (λ row. record row {
            title = m.title;
            description = m.description;
            resolution_rules = m.resolution_rules;
            image_url = m.image_url;
            category_key = m.category_key;
          })
          s1
    let count = count_of (D.markets.find s2.markets ref)
    s3 ← set_labels ref (take count m.outcome_labels) 0 s2
    done (invalidate ref s3)

  unfoldable pub on_metadata_published :
      Codec → NormalizedLog → ℕ → Text → Text → State D → Run (State D)
  on_metadata_published codec log market_id hash metadata s =
      with_market s log.address market_id λ ref s'. elim (parse_canonical codec metadata hash) [
        | none ↦ done s'
        | some m ↦ adopt_copy ref m s'
      ]
