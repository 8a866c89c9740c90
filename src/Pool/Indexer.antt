-- ===== src/Pool/Indexer.antt =====
-- The mirror of the pool's leaves: `tick`, `nextFromBlock` and `loop` of src/pool/pool-indexer.service.ts.
-- The rows are sorted by the comparison of src/chain/indexer.service.ts, written again there.
pub mod Commits
use numera_backend.Prelude.{
  ℕ, ◌+◌, ◌-◌, Bool, true, false, ◌||◌, Option, none, some, List, [], ◌∷◌, Text, ltb, leb,
  if◌then◌else◌,
}
use numera_backend.Store.{Store, upsert}
use numera_backend.Chain.Order.{Place, sort}
use numera_backend.Chain.Plan.{range_end}
use numera_backend.Chain.Indexer.{safe_head_of}
use numera_backend.Pool.Leaves.{PoolLeaf, PoolLog, to_leaves}

-- Transaction hash and log index.
abbrev pub LeafKey : Type 0
LeafKey = Text × ℕ

pub record PoolConfig : Type 0 where
  pub start_block : ℕ
  pub batch_blocks : ℕ
  pub confirmations : ℕ

-- What the node answers in a tick; none where the request fails. `is_committed` is whether the
-- database takes the transaction.
pub record PoolNode : Type 0 where
  pub head : Option ℕ
  pub get_logs : ℕ → ℕ → Option (List PoolLog)
  pub is_committed : Bool

module _ (rows : Store LeafKey PoolLeaf) where
  pub record Mirror : Type 0 where
    pub leaf_rows : rows.Table
    pub cursor : Option ℕ
    pub caught_up : Bool

unfoldable pub key_of : PoolLeaf → LeafKey
key_of leaf = (leaf.tx_hash, leaf.log_index)

unfoldable pub place_of : PoolLeaf → Place
place_of leaf = (leaf.block_number, leaf.log_index)

unfoldable pub next_block : PoolConfig → Option ℕ → ℕ
next_block cfg none = cfg.start_block
next_block cfg (some last) = last + 1

-- The upserts of the transaction.
unfoldable pub upsert_all :
    (rows : Store LeafKey PoolLeaf) → List PoolLeaf → rows.Table → rows.Table
unfolding upsert key_of
upsert_all rows [] t = t
upsert_all rows (leaf ∷ leaves) t =
    upsert_all rows leaves (upsert rows t (key_of leaf) leaf (λ old. leaf))

module _ {rows : Store LeafKey PoolLeaf} where
  -- The transaction: the leaves and the cursor, or nothing. The answer of a tick is whether the safe
  -- head was reached, and none if it threw.
  unfoldable pub commit_leaves :
      Bool → List PoolLeaf → ℕ → ℕ → Mirror rows → Option Bool × Mirror rows
  unfolding upsert_all
  commit_leaves false leaves safe_head to x = (none, x)
  commit_leaves true leaves safe_head to x = (
    some (leb safe_head to),
    record {
      leaf_rows = upsert_all rows leaves x.leaf_rows;
      cursor = some to;
      caught_up = x.caught_up || leb safe_head to;
    },
  )

  unfoldable pub read_span :
      PoolNode → Option (List PoolLog) → ℕ → ℕ → Mirror rows → Option Bool × Mirror rows
  unfolding commit_leaves place_of
  read_span node none safe_head to x = (none, x)
  read_span node (some logs) safe_head to x =
      commit_leaves node.is_committed (sort place_of (to_leaves logs)) safe_head to x

  unfoldable pub tick_to_head :
      PoolConfig → PoolNode → ℕ → ℕ → Mirror rows → Option Bool × Mirror rows
  unfolding read_span
  tick_to_head cfg node safe_head from x =
      let to = range_end cfg.batch_blocks safe_head from in
      if ltb safe_head from
      then (some true, record x { caught_up = true })
      else read_span node (node.get_logs from to) safe_head to x

  unfoldable pub tick_on :
      PoolConfig → PoolNode → Option ℕ → Mirror rows → Option Bool × Mirror rows
  unfolding tick_to_head next_block
  tick_on cfg node none x = (none, x)
  tick_on cfg node (some head) x =
      tick_to_head cfg node (safe_head_of cfg.confirmations head) (next_block cfg x.cursor) x

  unfoldable pub tick : PoolConfig → PoolNode → Mirror rows → Option Bool × Mirror rows
  unfolding tick_on
  tick cfg node x = tick_on cfg node node.head x
