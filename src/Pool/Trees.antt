-- ===== src/Pool/Trees.antt =====
-- The two trees of src/pool/pool.tree.ts: `buildStateTree`, `buildAspTree` and `aspRootHistory`. The tree
-- itself (LeanIMT over poseidon) is a package's: an empty tree, `insert` and `root`.
pub mod History
use numera_backend.Prelude.{
  ℕ, zero, suc, ◌-◌, Option, none, some, List, [], ◌∷◌, ◌++◌, drop, length,
}
use numera_backend.Pool.Leaves.{PoolLeaf, PoolLeafKind, deposit, change}

pub record Tree : Type 1 where
  pub Imt : Type 0
  pub empty : Imt
  pub insert : Imt → ℕ → Imt
  pub root : Imt → ℕ

-- The label of a leaf that the association set takes.
unfoldable pub approved : PoolLeafKind → Option ℕ → Option ℕ
approved deposit label = label
approved change label = none

-- `roots.slice(-depth)`, which is every root for a depth of 0.
unfoldable pub slice_last : ℕ → List ℕ → List ℕ
slice_last zero roots = roots
slice_last (suc depth) roots = drop (length roots - suc depth) roots

module _ (tree : Tree) where
  unfoldable pub insert_commitments : List PoolLeaf → tree.Imt → tree.Imt
  insert_commitments [] t = t
  insert_commitments (leaf ∷ leaves) t = insert_commitments leaves (tree.insert t leaf.commitment)

  unfoldable pub build_state_tree : List PoolLeaf → tree.Imt
  build_state_tree leaves = insert_commitments leaves tree.empty

  unfoldable pub insert_label : Option ℕ → tree.Imt → tree.Imt
  insert_label none t = t
  insert_label (some label) t = tree.insert t label

  unfoldable pub insert_labels : List PoolLeaf → tree.Imt → tree.Imt
  unfolding insert_label approved
  insert_labels [] t = t
  insert_labels (leaf ∷ leaves) t =
      insert_labels leaves (insert_label (approved leaf.kind leaf.label) t)

  unfoldable pub build_asp_tree : List PoolLeaf → tree.Imt
  build_asp_tree leaves = insert_labels leaves tree.empty

  -- The loop of `aspRootHistory`: the root after each approved label.
  unfoldable pub roots_after : Option ℕ → (tree.Imt → List ℕ) → tree.Imt → List ℕ
  roots_after none rest t = rest t
  roots_after (some label) rest t = tree.root (tree.insert t label) ∷ rest (tree.insert t label)

  unfoldable pub roots_from : List PoolLeaf → tree.Imt → List ℕ
  unfolding roots_after
  roots_from [] t = []
  roots_from (leaf ∷ leaves) t = roots_after (approved leaf.kind leaf.label) (roots_from leaves) t

  unfoldable pub asp_root_history : List PoolLeaf → ℕ → List ℕ
  unfolding slice_last
  asp_root_history leaves depth = slice_last depth (roots_from leaves tree.empty)
