-- ===== src/Pool/State.antt =====
-- The state that the browser rebuilds its tree from, src/pool/pool.service.ts: `leaves`, `state` and
-- `scope`, which is read once. The rows are in the order of the chain, which is that of the query.
use numera_backend.Prelude.{
  ℕ, suc, Bool, true, false, Option, none, some, List, [], ◌∷◌, Text, if◌then◌else◌,
}
use numera_backend.Chain.Order.{sort}
use numera_backend.Pool.Leaves.{PoolLeaf, PoolLeafKind}
use numera_backend.Pool.Trees.{Tree, build_asp_tree}

pub record PoolLeafView : Type 0 where
  pub index : ℕ
  pub kind : PoolLeafKind
  pub commitment : ℕ
  pub label : Option ℕ
  pub value : ℕ
  pub precommitment : Option ℕ
  pub spent_nullifier : Option ℕ

pub record PoolStateView : Type 0 where
  pub is_enabled : Bool
  pub chain_id : ℕ
  pub entrypoint : Text
  pub privacy_pool : Text
  pub asset : Text
  pub scope : ℕ
  pub state_root : ℕ
  pub on_chain_asp_root : ℕ
  pub asp_root : ℕ
  pub is_synced : Bool
  pub leaves : List PoolLeafView

pub record PoolConfig : Type 0 where
  pub is_enabled : Bool
  pub chain_id : ℕ
  pub entrypoint : Text
  pub privacy_pool : Text
  pub asset : Text

-- `SCOPE`, `currentRoot` and `latestRoot`; none where the read throws.
pub record PoolReads : Type 0 where
  pub scope : Option ℕ
  pub current_root : Option ℕ
  pub latest_root : Option ℕ

-- `orderBy: [{ blockNumber: 'asc' }, { logIndex: 'asc' }]`.
unfoldable pub ordered_leaves : List PoolLeaf → List PoolLeaf
unfolding sort
ordered_leaves = sort (λ (l : PoolLeaf). (l.block_number, l.log_index))

unfoldable pub leaf_view : ℕ → PoolLeaf → PoolLeafView
leaf_view index l = record {
  index = index;
  kind = l.kind;
  commitment = l.commitment;
  label = l.label;
  value = l.value;
  precommitment = l.precommitment;
  spent_nullifier = l.spent_nullifier;
}

unfoldable pub leaf_views : ℕ → List PoolLeaf → List PoolLeafView
unfolding leaf_view
leaf_views index [] = []
leaf_views index (l ∷ rest) = leaf_view index l ∷ leaf_views (suc index) rest

-- `cachedScope`, or the read, which is kept when it answers.
unfoldable pub read_scope : Option ℕ → Option ℕ → Option ℕ
read_scope (some scope) answer = some scope
read_scope none answer = answer

unfoldable pub disabled_state : PoolConfig → PoolStateView
disabled_state cfg = record {
  is_enabled = false;
  chain_id = cfg.chain_id;
  entrypoint = [];
  privacy_pool = [];
  asset = [];
  scope = 0;
  state_root = 0;
  on_chain_asp_root = 0;
  asp_root = 0;
  is_synced = false;
  leaves = [];
}

module _ (tree : Tree) where
  -- With all three reads answered. A tree that has no root is one whose root is 0.
  unfoldable pub state_of :
      PoolConfig → Bool → List PoolLeaf → Option ℕ → Option ℕ → Option ℕ → Option PoolStateView
  unfolding leaf_views build_asp_tree
  state_of cfg synced rows (some scope) (some state_root) (some on_chain) = some (record {
    is_enabled = true;
    chain_id = cfg.chain_id;
    entrypoint = cfg.entrypoint;
    privacy_pool = cfg.privacy_pool;
    asset = cfg.asset;
    scope = scope;
    state_root = state_root;
    on_chain_asp_root = on_chain;
    asp_root = tree.root (build_asp_tree tree rows);
    is_synced = synced;
    leaves = leaf_views 0 rows;
  })
  state_of cfg synced rows _ _ _ = none

  -- `state`, and the cached scope that it leaves; none where a read throws.
  unfoldable pub pool_state :
      PoolConfig → PoolReads → Bool → List PoolLeaf → Option ℕ → Option PoolStateView × Option ℕ
  unfolding state_of read_scope disabled_state ordered_leaves
  pool_state cfg node synced stored cached =
      let scope = read_scope cached node.scope in
      if cfg.is_enabled
      then (
        state_of cfg synced (ordered_leaves stored) scope node.current_root node.latest_root,
        scope,
      )
      else (some (disabled_state cfg), cached)
