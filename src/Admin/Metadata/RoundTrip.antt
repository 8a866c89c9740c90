-- ===== src/Admin/Metadata/RoundTrip.antt =====
-- Reading back what `canonicalize` of src/admin/metadata-hash.ts wrote.
use numera_backend.Prelude.{
  ◌≡◌, ◌≢◌, refl, sym, ap, ◌∙◌, Option, none, some, List, [], ◌∷◌, Text, codes, to_lower, text_eq,
  text_eq_iff, arith,
}
use numera_backend.Admin.Metadata.{
  CanonicalMetadata, Codec, optional, label_items, canonical_json, str, text_or_null, labels_of,
  labels_or_empty, get, entry_of, read_entries, metadata_of, entries_of, canonicalize,
  metadata_hash_of, checked, checked_entries, parse_canonical, Entries, Json, text, array,
}

labels_of-label_items : (ls : List Text) → labels_of (label_items ls) ≡ ls
unfolding labels_of label_items str
labels_of-label_items [] = refl
labels_of-label_items (l ∷ ls) = ap (◌∷◌ l) (labels_of-label_items ls)

text_or_null-optional : (o : Option Text) → text_or_null (some (optional o)) ≡ o
unfolding text_or_null optional
text_or_null-optional none = refl
text_or_null-optional (some t) = refl

checked_self : (c : Codec) (m : CanonicalMetadata) → checked c (metadata_hash_of c m) m ≡ some m
unfolding checked
checked_self c m =
    rw ((text_eq_iff (to_lower (metadata_hash_of c m)) (to_lower (metadata_hash_of c m))).1 refl)
      refl

checked-eq-some :
    (c : Codec) (hash : Text) (m m' : CanonicalMetadata)
    → checked c hash m ≡ some m'
    → to_lower (metadata_hash_of c m') ≡ to_lower hash
unfolding checked
checked-eq-some c hash m m' h =
    ground (arith, text_eq_iff (to_lower (metadata_hash_of c m)) (to_lower hash))

-- The entries of an encoding, newest first.
abbrev entries_of_copy : CanonicalMetadata → Entries
entries_of_copy m =
    (codes "categoryKey", optional m.category_key)
    ∷ (codes "outcomeLabels", array (label_items m.outcome_labels))
    ∷ (codes "imageUrl", optional m.image_url)
    ∷ (codes "resolutionRules", text m.resolution_rules)
    ∷ (codes "description", text m.description)
    ∷ (codes "title", text m.title)
    ∷ []

entries_of-canonical_json :
    (m : CanonicalMetadata) → entries_of (some (canonical_json m)) ≡ some (entries_of_copy m)
unfolding entries_of read_entries entry_of canonical_json
entries_of-canonical_json m = refl

metadata_of-entries_of_copy : (m : CanonicalMetadata) → metadata_of (entries_of_copy m) ≡ m
unfolding metadata_of get text_eq str labels_or_empty
metadata_of-entries_of_copy m =
    rw
      (
        labels_of-label_items m.outcome_labels,
        text_or_null-optional m.image_url,
        text_or_null-optional m.category_key,
      )
      refl

module _ (c : Codec) where
  -- Copy that was encoded is read back as it was, under its own hash, if the parser reads what the
  -- encoder wrote.
  pub parse_canonical-canonicalize :
      (m : CanonicalMetadata)
      → c.parse_json (c.stringify (canonical_json m)) ≡ some (canonical_json m)
      → parse_canonical c (canonicalize c m) (metadata_hash_of c m) ≡ some m
  unfolding parse_canonical canonicalize checked_entries
  parse_canonical-canonicalize m h =
      ap (λ o. checked_entries c (metadata_hash_of c m) (entries_of o)) h
      ∙ ap (checked_entries c (metadata_hash_of c m)) (entries_of-canonical_json m)
      ∙ ap (checked c (metadata_hash_of c m)) (metadata_of-entries_of_copy m)
      ∙ checked_self c m

  checked_entries-eq-some :
      (hash : Text) (o : Option Entries) (m : CanonicalMetadata)
      → checked_entries c hash o ≡ some m
      → to_lower (metadata_hash_of c m) ≡ to_lower hash
  unfolding checked_entries
  checked_entries-eq-some hash none m h = absurd (cc)
  checked_entries-eq-some hash (some entries) m h = checked-eq-some c hash (metadata_of entries) m h

  -- Whatever text is read, the copy that comes out of it has the expected hash.
  pub parse_canonical-hash :
      (encoded hash : Text) (m : CanonicalMetadata)
      → parse_canonical c encoded hash ≡ some m
      → to_lower (metadata_hash_of c m) ≡ to_lower hash
  unfolding parse_canonical
  parse_canonical-hash encoded hash m h =
      checked_entries-eq-some hash (entries_of (c.parse_json encoded)) m h

  -- Whether the parser reads what the encoder writes for some copy.
  abbrev pub IsReadable : CanonicalMetadata → Type 0
  IsReadable m = c.parse_json (c.stringify (canonical_json m)) ≡ some (canonical_json m)

  canonicalize-inj :
      (m n : CanonicalMetadata)
      → IsReadable m
      → IsReadable n
      → canonicalize c m ≡ canonicalize c n
      → m ≡ n
  unfolding canonicalize
  canonicalize-inj m n read read' same =
      let json : ◌≡◌ {A = Option Json} (some (canonical_json m)) (some (canonical_json n)) =
        sym read ∙ ap c.parse_json same ∙ read' in
      let entries : ◌≡◌ {A = Option Entries} (some (entries_of_copy m)) (some (entries_of_copy n)) =
        sym (entries_of-canonical_json m) ∙ ap entries_of json ∙ entries_of-canonical_json n in
      let copies : entries_of_copy m ≡ entries_of_copy n = cc in
      sym (metadata_of-entries_of_copy m) ∙ ap metadata_of copies ∙ metadata_of-entries_of_copy n

  -- A hash stands for one copy: when some copy was read under a hash, no text is read as another copy
  -- under that hash, in whatever case it is written, if the parser reads what the encoder writes for
  -- both and their two encodings are no collision of keccak256.
  pub parse_canonical_unique :
      (encoded encoded' hash hash' : Text) (m n : CanonicalMetadata)
      → parse_canonical c encoded hash ≡ some m
      → m ≢ n
      → to_lower hash ≡ to_lower hash'
      → IsReadable m
      → IsReadable n
      → (to_lower (c.keccak (c.stringify (canonical_json m)))
            ≡ to_lower (c.keccak (c.stringify (canonical_json n)))
          → c.stringify (canonical_json m) ≡ c.stringify (canonical_json n))
      → parse_canonical c encoded' hash' ≢ some n
  unfolding metadata_hash_of canonicalize
  parse_canonical_unique encoded encoded' hash hash' m n h other same read read' apart k = other (
      canonicalize-inj m n read read' (
        apart (
          parse_canonical-hash encoded hash m h
          ∙ same
          ∙ sym (parse_canonical-hash encoded' hash' n k))))
