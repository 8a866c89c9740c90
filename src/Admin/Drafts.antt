-- ===== src/Admin/Drafts.antt =====
-- Drafts of a market's copy and categories, src/admin/admin.service.ts: `createDraft`, `listDrafts`
-- and `upsertCategory`.
pub mod Committed
use numera_backend.Prelude.{
  ℕ, Bool, true, false, Option, none, some, List, [], map, take, Text, codes, to_lower,
}
use numera_backend.Store.{Store, upsert}
use numera_backend.Events.Data.{MarketKey}
use numera_backend.Events.Rows.{Draft}
use numera_backend.Admin.Metadata.{CanonicalMetadata, Codec, canonicalize, metadata_hash_of}

-- `CreateMetadataDraftDto`.
pub record CreateDraft : Type 0 where
  pub title : Text
  pub description : Option Text
  pub resolution_rules : Text
  pub image_url : Option Text
  pub outcome_labels : List Text
  pub category_key : Option Text

pub record DraftView : Type 0 where
  pub metadata_hash : Text
  pub title : Text
  pub outcome_labels : List Text
  pub category_key : Option Text
  pub is_adopted : Bool
  pub market_ref : Option MarketKey

pub record Category : Type 0 where
  pub label : Text
  pub is_enabled : Bool

-- `UpsertCategoryDto`.
pub record UpsertCategory : Type 0 where
  pub key : Text
  pub label : Text
  pub enabled : Option Bool

unfoldable pub text_or_empty : Option Text → Text
text_or_empty none = []
text_or_empty (some t) = t

unfoldable pub canonical_of : CreateDraft → CanonicalMetadata
unfolding text_or_empty
canonical_of dto = record {
  title = dto.title;
  description = text_or_empty dto.description;
  resolution_rules = dto.resolution_rules;
  image_url = dto.image_url;
  outcome_labels = dto.outcome_labels;
  category_key = dto.category_key;
}

unfoldable pub draft_of : CanonicalMetadata → Draft
draft_of m = record {
  title = m.title;
  description = m.description;
  resolution_rules = m.resolution_rules;
  image_url = m.image_url;
  outcome_labels = m.outcome_labels;
  draft_category_key = m.category_key;
  adopted_by = none;
}

unfoldable pub is_adopted : Option MarketKey → Bool
is_adopted none = false
is_adopted (some k) = true

unfoldable pub draft_view : Text × Draft → DraftView
unfolding is_adopted
draft_view (hash, d) = record {
  metadata_hash = hash;
  title = d.title;
  outcome_labels = d.outcome_labels;
  category_key = d.draft_category_key;
  is_adopted = is_adopted d.adopted_by;
  market_ref = d.adopted_by;
}

-- `listDrafts`, of the rows newest first.
unfoldable pub list_drafts : ℕ → List (Text × Draft) → List DraftView
unfolding draft_view
list_drafts limit rows = map draft_view (take limit rows)

module _ (c : Codec) (drafts : Store Text Draft) where
  -- The hash and the canonical text are answered; a draft that is there is left as it is.
  unfoldable pub create_draft : CreateDraft → drafts.Table → (Text × Text) × drafts.Table
  unfolding upsert canonical_of draft_of metadata_hash_of canonicalize
  create_draft dto t =
      let m = canonical_of dto in
      let hash = metadata_hash_of c m in
      ((hash, canonicalize c m), upsert drafts t hash (draft_of m) (λ d. d))

unfoldable pub enabled_or : Option Bool → Bool → Bool
enabled_or none old = old
enabled_or (some b) old = b

unfoldable pub upsert_category :
    (categories : Store Text Category) → UpsertCategory → categories.Table → categories.Table
unfolding upsert enabled_or
upsert_category categories dto t =
    upsert categories t dto.key
      (record { label = dto.label; is_enabled = enabled_or dto.enabled true })
      (λ k. record { label = dto.label; is_enabled = enabled_or dto.enabled k.is_enabled })
