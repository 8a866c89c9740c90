-- ===== src/Admin/Drafts/Committed.antt =====
-- A draft is stored under the hash of its copy.
use numera_backend.Prelude.{◌≡◌, inl, inr, refl, sym, ap, ◌∙◌, Option, none, some, Text, text_cases}
use numera_backend.Store.{Store, upsert, find-write_eq}
use numera_backend.Events.Rows.{Draft}
use numera_backend.Admin.Metadata.{CanonicalMetadata, Codec, metadata_hash_of}
use numera_backend.Admin.Drafts.{CreateDraft, canonical_of, draft_of, create_draft}

-- The copy that a draft holds.
abbrev pub copy_of : Draft → CanonicalMetadata
copy_of d = record {
  title = d.title;
  description = d.description;
  resolution_rules = d.resolution_rules;
  image_url = d.image_url;
  outcome_labels = d.outcome_labels;
  category_key = d.draft_category_key;
}

module _ (c : Codec) (drafts : Store Text Draft) where
  abbrev pub IsCommitted : drafts.Table → Type 0
  IsCommitted t =
      (hash : Text) (d : Draft)
      → drafts.find t hash ≡ some d
      → metadata_hash_of c (copy_of d) ≡ hash

  write-IsCommitted :
      (t : drafts.Table) (hash : Text) (d : Draft)
      → metadata_hash_of c (copy_of d) ≡ hash
      → IsCommitted t
      → IsCommitted (drafts.write t hash d)
  write-IsCommitted t hash d same h key x found = elim (text_cases hash key) [
    | inl e ↦
        ap (λ y. metadata_hash_of c (copy_of y)) (sym (find-write_eq drafts t hash key d x e found))
        ∙ same
        ∙ e
    | inr ne ↦ h key x (sym (drafts.find-write_ne t hash key d ne) ∙ found)
  ]

  upserted :
      (t : drafts.Table) (hash : Text) (new : Draft) (o : Option Draft)
      → drafts.find t hash ≡ o
      → metadata_hash_of c (copy_of new) ≡ hash
      → IsCommitted t
      → IsCommitted (drafts.write t hash (elim o [ none ↦ new | some d ↦ d ]))
  upserted t hash new none e same h = write-IsCommitted t hash new same h
  upserted t hash new (some d) e same h = write-IsCommitted t hash d (h hash d e) h

  -- Whatever is drafted, every draft stays stored under the hash of the copy that it holds.
  pub create_draft-IsCommitted :
      (dto : CreateDraft) (t : drafts.Table)
      → IsCommitted t
      → IsCommitted (create_draft c drafts dto t).1
  unfolding create_draft upsert draft_of
  create_draft-IsCommitted dto t h =
      let m = canonical_of dto in
      upserted t (metadata_hash_of c m) (draft_of m) (drafts.find t (metadata_hash_of c m)) refl
        refl h
