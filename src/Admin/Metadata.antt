-- ===== src/Admin/Metadata.antt =====
-- The copy that a market commits to by its hash: `CanonicalMetadata`, `canonicalize`,
-- `metadataHashOf` and `parseCanonical` of src/admin/metadata-hash.ts. `JSON.parse`, `JSON.stringify` and
-- keccak256 are arguments.
pub mod RoundTrip
use numera_backend.Prelude.{
  ℕ, Option, none, some, List, [], ◌∷◌, Text, codes, to_lower, text_eq, if◌then◌else◌,
}

-- A value of `JSON.parse`: what the code tells apart by `typeof` and `Array.isArray`.
mutual
  pub data Json : Type 0 where
    null_value : Json
    text : Text → Json
    array : Items → Json
    other_value : ℕ → Json

  pub data Items : Type 0 where
    nil : Items
    cons : Json → Items → Items

pub record CanonicalMetadata : Type 0 where
  pub title : Text
  pub description : Text
  pub resolution_rules : Text
  pub image_url : Option Text
  pub outcome_labels : List Text
  pub category_key : Option Text

-- `JSON.parse` (none where it throws), `JSON.stringify` and the hash of a text.
pub record Codec : Type 0 where
  pub parse_json : Text → Option Json
  pub stringify : Json → Text
  pub keccak : Text → Text

unfoldable pub optional : Option Text → Json
optional none = null_value
optional (some t) = text t

unfoldable pub label_items : List Text → Items
label_items [] = nil
label_items (l ∷ ls) = cons (text l) (label_items ls)

abbrev pub pair : Text → Json → Json
pair key value = array (cons (text key) (cons value nil))

-- The array of pairs that `canonicalize` encodes, in its fixed order.
unfoldable pub canonical_json : CanonicalMetadata → Json
unfolding optional label_items
canonical_json m = array (
    cons (pair (codes "title") (text m.title)) (
      cons (pair (codes "description") (text m.description)) (
        cons (pair (codes "resolutionRules") (text m.resolution_rules)) (
          cons (pair (codes "imageUrl") (optional m.image_url)) (
            cons (pair (codes "outcomeLabels") (array (label_items m.outcome_labels)))
              (cons (pair (codes "categoryKey") (optional m.category_key)) nil))))))

-- `str`: a text, or the empty one.
unfoldable pub str : Option Json → Text
str (some (text t)) = t
str _ = []

unfoldable pub text_or_null : Option Json → Option Text
text_or_null (some (text t)) = some t
text_or_null _ = none

unfoldable pub labels_of : Items → List Text
unfolding str
labels_of nil = []
labels_of (cons v vs) = str (some v) ∷ labels_of vs

unfoldable pub labels_or_empty : Option Json → List Text
unfolding labels_of
labels_or_empty (some (array vs)) = labels_of vs
labels_or_empty _ = []

-- `byKey`, newest entry first: `Map.set` replaces, and `Map.get` sees the newest.
abbrev pub Entries : Type 0
Entries = List (Text × Json)

unfoldable pub get : Entries → Text → Option Json
get [] key = none
get ((k, v) ∷ entries) key = if text_eq k key then some v else get entries key

-- One entry of the loop: an array of two items whose first is a text.
unfoldable pub entry_of : Json → Option (Text × Json)
entry_of (array (cons (text key) (cons value nil))) = some (key, value)
entry_of _ = none

unfoldable pub read_entries : Items → Entries → Option Entries
unfolding entry_of
read_entries nil entries = some entries
read_entries (cons v vs) entries = elim (entry_of v) [
  | none ↦ none
  | some e ↦ read_entries vs (e ∷ entries)
]

unfoldable pub metadata_of : Entries → CanonicalMetadata
unfolding str text_or_null labels_or_empty get
metadata_of entries = record {
  title = str (get entries (codes "title"));
  description = str (get entries (codes "description"));
  resolution_rules = str (get entries (codes "resolutionRules"));
  image_url = text_or_null (get entries (codes "imageUrl"));
  outcome_labels = labels_or_empty (get entries (codes "outcomeLabels"));
  category_key = text_or_null (get entries (codes "categoryKey"));
}

unfoldable pub entries_of : Option Json → Option Entries
unfolding read_entries
entries_of (some (array vs)) = read_entries vs []
entries_of _ = none

module _ (c : Codec) where
  unfoldable pub canonicalize : CanonicalMetadata → Text
  canonicalize m = c.stringify (canonical_json m)

  unfoldable pub metadata_hash_of : CanonicalMetadata → Text
  metadata_hash_of m = c.keccak (canonicalize m)

  unfoldable pub checked : Text → CanonicalMetadata → Option CanonicalMetadata
  checked expected_hash m =
      if text_eq (to_lower (metadata_hash_of m)) (to_lower expected_hash) then some m else none

  unfoldable pub checked_entries : Text → Option Entries → Option CanonicalMetadata
  unfolding checked
  checked_entries expected_hash none = none
  checked_entries expected_hash (some entries) = checked expected_hash (metadata_of entries)

  unfoldable pub parse_canonical : Text → Text → Option CanonicalMetadata
  unfolding entries_of checked_entries
  parse_canonical encoded expected_hash =
      checked_entries expected_hash (entries_of (c.parse_json encoded))
