-- ===== src/Admin/Tests.antt =====
-- One copy, with a codec that knows its encoding.
use numera_backend.Prelude.{
  ◌≡◌, ◌≢◌, refl, ap, Option, none, some, [], ◌∷◌, Text, text_key, text_eq, codes, to_lower,
  if◌then◌else◌,
}
use numera_backend.Admin.Metadata.{
  CanonicalMetadata, Codec, canonical_json, canonicalize, metadata_hash_of, parse_canonical,
  Entries, metadata_of, entries_of,
}
use numera_backend.Admin.Metadata.RoundTrip.{parse_canonical-canonicalize, parse_canonical_unique}
use numera_backend.Store.{Store}
use numera_backend.Store.Functions.{function_store}
use numera_backend.Events.Rows.{Draft}
use numera_backend.Admin.Drafts.{CreateDraft, create_draft}
use numera_backend.Admin.Drafts.Committed.{IsCommitted, create_draft-IsCommitted}

abbrev copy : CanonicalMetadata
copy = record {
  title = codes "Rain?";
  description = [];
  resolution_rules = codes "By the gauge.";
  image_url = none;
  outcome_labels = codes "Yes" ∷ codes "No" ∷ [];
  category_key = some (codes "weather");
}

abbrev codec : Codec
codec = record {
  parse_json = λ t. some (canonical_json copy);
  stringify = λ v. codes "[]";
  keccak = λ t. codes "0xAB";
}

parse_canonical-canonicalize_example :
    parse_canonical codec (canonicalize codec copy) (metadata_hash_of codec copy) ≡ some copy
parse_canonical-canonicalize_example = parse_canonical-canonicalize codec copy refl

abbrev other_copy : CanonicalMetadata
other_copy = record copy { title = [] }

abbrev title_in : Option Entries → Text
title_in none = []
title_in (some entries) = (metadata_of entries).title

-- Encodings that are told apart by their titles, and their own hashes.
abbrev titles : Codec
titles = record {
  parse_json = λ t.
      if text_eq t (codes "Rain?")
      then some (canonical_json copy)
      else some (canonical_json other_copy);
  stringify = λ v. title_in (entries_of (some v));
  keccak = λ t. t;
}

read_rain : parse_canonical titles (codes "Rain?") (codes "rain?") ≡ some copy
unfolding parse_canonical canonical_json text_eq to_lower metadata_hash_of
    numera_backend.Prelude.to_lower_char metadata_of entries_of canonicalize
read_rain = refl

not_the_same : copy ≢ other_copy
not_the_same h = absurd (cc (ap (λ (m : CanonicalMetadata). m.title) h))

parse_canonical_unique_example :
    parse_canonical titles (codes "Snow?") (codes "RAIN?") ≢ some other_copy
unfolding canonical_json text_eq to_lower numera_backend.Prelude.to_lower_char metadata_of
    entries_of
parse_canonical_unique_example =
    parse_canonical_unique titles (codes "Rain?") (codes "Snow?") (codes "rain?") (codes "RAIN?")
      copy other_copy read_rain not_the_same refl refl refl (λ same. absurd (cc (same)))

reads : parse_canonical codec (codes "[]") (codes "0xab") ≡ some copy
unfolding parse_canonical canonical_json text_eq to_lower metadata_hash_of
    numera_backend.Prelude.to_lower_char numera_backend.Admin.Metadata.metadata_of
reads = refl

abbrev drafts : Store Text Draft
drafts = function_store

abbrev dto : CreateDraft
dto = record {
  title = codes "Rain?";
  description = none;
  resolution_rules = codes "By the gauge.";
  image_url = none;
  outcome_labels = codes "Yes" ∷ codes "No" ∷ [];
  category_key = none;
}

abbrev drafted : drafts.Table
drafted = (create_draft codec drafts dto (λ hash. none)).1

nothing_drafted : IsCommitted codec drafts (λ hash. none)
nothing_drafted hash d found = absurd (cc (found))

create_draft-IsCommitted_example : IsCommitted codec drafts drafted
create_draft-IsCommitted_example =
    create_draft-IsCommitted codec drafts dto (λ hash. none) nothing_drafted
