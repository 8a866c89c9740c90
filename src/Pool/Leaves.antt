-- ===== src/Pool/Leaves.antt =====
-- The leaves of the state tree, as src/pool/pool-indexer.service.ts decodes and stores them: `toLeaf`, and
-- the rows of `pool_leaves` (prisma/schema.prisma).
use numera_backend.Prelude.{ℕ, Option, none, some, List, [], ◌∷◌, Text, to_lower}

pub data PoolLeafKind : Type 0 where
  deposit change : PoolLeafKind

pub record PoolLeaf : Type 0 where
  pub kind : PoolLeafKind
  pub commitment : ℕ
  pub label : Option ℕ
  pub value : ℕ
  pub precommitment : Option ℕ
  pub spent_nullifier : Option ℕ
  pub block_number : ℕ
  pub log_index : ℕ
  pub tx_hash : Text

-- The two events that insert a leaf (`Deposited`: commitment, label, value, precommitment;
-- `Withdrawn`: value, nullifier, new commitment), and the others.
pub data PoolEvent : Type 0 where
  deposited : ℕ → ℕ → ℕ → ℕ → PoolEvent
  withdrawn : ℕ → ℕ → ℕ → PoolEvent
  other_event : PoolEvent

pub record PoolLog : Type 0 where
  pub event : PoolEvent
  pub block_number : ℕ
  pub transaction_hash : Text
  pub log_index : ℕ

unfoldable pub leaf_of : PoolLog → PoolEvent → Option PoolLeaf
leaf_of log (deposited commitment label value precommitment) = some (record {
  kind = deposit;
  commitment = commitment;
  label = some label;
  value = value;
  precommitment = some precommitment;
  spent_nullifier = none;
  block_number = log.block_number;
  log_index = log.log_index;
  tx_hash = to_lower log.transaction_hash;
})
leaf_of log (withdrawn value nullifier commitment) = some (record {
  kind = change;
  commitment = commitment;
  label = none;
  value = value;
  precommitment = none;
  spent_nullifier = some nullifier;
  block_number = log.block_number;
  log_index = log.log_index;
  tx_hash = to_lower log.transaction_hash;
})
leaf_of log other_event = none

unfoldable pub to_leaf : PoolLog → Option PoolLeaf
unfolding leaf_of
to_leaf log = leaf_of log log.event

-- `map` and the `filter` of what is mirrored.
unfoldable pub to_leaves : List PoolLog → List PoolLeaf
to_leaves [] = []
to_leaves (log ∷ logs) = elim (to_leaf log) [
  | none ↦ to_leaves logs
  | some leaf ↦ leaf ∷ to_leaves logs
]
