-- ===== src/Pool/Trees/History.antt =====
-- The roots that a withdrawal may name.
use numera_backend.Prelude.{
  ℕ, zero, suc, ◌-◌, ◌≤◌, ◌<◌, ◌≡◌, refl, sym, ap, ◌∙◌, inl, inr, Bool, true, false, ◌||◌,
  Bool-cases, ◌==◌, ==_iff, Option, none, some, List, [], ◌∷◌, take, drop, length, arith,
}
use numera_backend.Pool.Leaves.{PoolLeaf}
use numera_backend.Pool.Trees.{
  Tree, approved, slice_last, insert_label, insert_labels, build_asp_tree, roots_from, roots_after,
  asp_root_history,
}

-- `known.includes(root)`.
unfoldable pub includes_root : List ℕ → ℕ → Bool
includes_root [] r = false
includes_root (x ∷ xs) r = x == r || includes_root xs r

includes_root-drop :
    (n : ℕ) (xs : List ℕ) (r : ℕ) → includes_root (drop n xs) r ≡ true → includes_root xs r ≡ true
unfolding includes_root
includes_root-drop zero xs r h = h
includes_root-drop (suc n) [] r h = h
includes_root-drop (suc n) (x ∷ xs) r h = ground (arith, includes_root-drop n xs r h)

includes_root-slice_last :
    (depth : ℕ) (xs : List ℕ) (r : ℕ)
    → includes_root (slice_last depth xs) r ≡ true
    → includes_root xs r ≡ true
unfolding slice_last
includes_root-slice_last zero xs r h = h
includes_root-slice_last (suc depth) xs r h = includes_root-drop (length xs - suc depth) xs r h

length-drop : (n : ℕ) (xs : List ℕ) → length (drop n xs) ≡ length xs - n
length-drop zero xs = omega arith
length-drop (suc n) [] = omega arith
length-drop (suc n) (x ∷ xs) = omega (arith, length-drop n xs)

last_or : ℕ → List ℕ → ℕ
last_or r [] = r
last_or r (x ∷ xs) = last_or x xs

includes_root-last_or : (x : ℕ) (xs : List ℕ) → includes_root (x ∷ xs) (last_or x xs) ≡ true
unfolding includes_root last_or
includes_root-last_or x [] = ground (arith, ==_iff x x)
includes_root-last_or x (y ∷ ys) = ground (arith, includes_root-last_or y ys)

includes_root-drop_last :
    (n r : ℕ) (xs : List ℕ) → n < length xs → includes_root (drop n xs) (last_or r xs) ≡ true
unfolding last_or
includes_root-drop_last n r [] h = absurd (omega (arith, h))
includes_root-drop_last zero r (x ∷ xs) h = includes_root-last_or x xs
includes_root-drop_last (suc n) r (x ∷ xs) h = includes_root-drop_last n x xs (omega (arith, h))

module _ (tree : Tree) where
  -- The root after some of the leaves, from the oldest.
  abbrev IsPrefixRoot : List PoolLeaf → tree.Imt → ℕ → Type 0
  IsPrefixRoot leaves t r = (n : ℕ) × (r ≡ tree.root (insert_labels tree (take n leaves) t))

  roots_after-IsPrefixRoot :
      (o : Option ℕ) (leaf : PoolLeaf) (leaves : List PoolLeaf) (t : tree.Imt) (r : ℕ)
      → ((t' : tree.Imt)
          → includes_root (roots_from tree leaves t') r ≡ true
          → IsPrefixRoot leaves t' r)
      → approved leaf.kind leaf.label ≡ o
      → includes_root (roots_after tree o (roots_from tree leaves) t) r ≡ true
      → IsPrefixRoot (leaf ∷ leaves) t r
  unfolding roots_after insert_labels includes_root
  roots_after-IsPrefixRoot none leaf leaves t r later e h =
      let (n, p) = later t h in
      (
        suc n,
        p
            ∙ ap (λ o. tree.root (insert_labels tree (take n leaves) (insert_label tree o t)))
                (sym e),
      )
  roots_after-IsPrefixRoot (some label) leaf leaves t r later e h =
      elim (Bool-cases (tree.root (tree.insert t label) == r)) [
        | inl here ↦
            (1, sym ((==_iff _ _).0 here) ∙ ap (λ o. tree.root (insert_label tree o t)) (sym e))
        | inr there ↦
            let (n, p) = later (tree.insert t label) (rw there at h) in
            (
              suc n,
              p
                  ∙ ap (λ o. tree.root (insert_labels tree (take n leaves) (insert_label tree o t)))
                      (sym e),
            )
      ]

  roots_from-IsPrefixRoot :
      (leaves : List PoolLeaf) (t : tree.Imt) (r : ℕ)
      → includes_root (roots_from tree leaves t) r ≡ true
      → IsPrefixRoot leaves t r
  unfolding roots_from includes_root
  roots_from-IsPrefixRoot [] t r h = absurd (cc)
  roots_from-IsPrefixRoot (leaf ∷ leaves) t r h =
      roots_after-IsPrefixRoot (approved leaf.kind leaf.label) leaf leaves t r
        (λ t' k. roots_from-IsPrefixRoot leaves t' r k) refl h

  -- Every root in the history is the root of the association set over the leaves up to some point.
  pub asp_root_history-prefix :
      (leaves : List PoolLeaf) (depth r : ℕ)
      → includes_root (asp_root_history tree leaves depth) r ≡ true
      → (n : ℕ) × (r ≡ tree.root (build_asp_tree tree (take n leaves)))
  unfolding asp_root_history build_asp_tree
  asp_root_history-prefix leaves depth r h =
      roots_from-IsPrefixRoot leaves tree.empty r
        (includes_root-slice_last depth (roots_from tree leaves tree.empty) r h)

  -- The history is never longer than its depth, if that is not 0.
  pub length-asp_root_history :
      (leaves : List PoolLeaf) (depth : ℕ)
      → 0 < depth
      → length (asp_root_history tree leaves depth) ≤ depth
  unfolding asp_root_history slice_last
  length-asp_root_history leaves (suc depth) h =
      let roots = roots_from tree leaves tree.empty in
      omega (arith, length-drop (length roots - suc depth) roots)
  length-asp_root_history leaves zero h = omega arith

  last_or-roots_after :
      (o : Option ℕ) (leaves : List PoolLeaf) (t : tree.Imt)
      → ((u : tree.Imt)
          → last_or (tree.root u) (roots_from tree leaves u)
            ≡ tree.root (insert_labels tree leaves u))
      → last_or (tree.root t) (roots_after tree o (roots_from tree leaves) t)
        ≡ tree.root (insert_labels tree leaves (insert_label tree o t))
  unfolding roots_after insert_label last_or
  last_or-roots_after none leaves t later = later t
  last_or-roots_after (some label) leaves t later = later (tree.insert t label)

  last_or-roots_from :
      (leaves : List PoolLeaf) (t : tree.Imt)
      → last_or (tree.root t) (roots_from tree leaves t) ≡ tree.root (insert_labels tree leaves t)
  unfolding last_or roots_from insert_labels
  last_or-roots_from [] t = refl
  last_or-roots_from (leaf ∷ leaves) t =
      last_or-roots_after (approved leaf.kind leaf.label) leaves t
        (λ u. last_or-roots_from leaves u)

  -- The current root is in the history, if the depth is not 0 and the history is not empty.
  pub asp_root_history-current :
      (leaves : List PoolLeaf) (depth : ℕ)
      → 0 < depth
      → 0 < length (asp_root_history tree leaves depth)
      → includes_root (asp_root_history tree leaves depth) (tree.root (build_asp_tree tree leaves))
        ≡ true
  unfolding asp_root_history slice_last build_asp_tree
  asp_root_history-current leaves zero h k = absurd (omega (arith, h))
  asp_root_history-current leaves (suc depth) h k =
      let roots = roots_from tree leaves tree.empty in
      rw (← last_or-roots_from leaves tree.empty) (
        includes_root-drop_last (length roots - suc depth) (tree.root tree.empty) roots
          (omega (arith, k, length-drop (length roots - suc depth) roots)))
