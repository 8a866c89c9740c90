-- ===== src/Pool/Tests.antt =====
-- Three leaves under a tree that hashes by a polynomial, and a withdrawal on them.
use numera_backend.Prelude.{
  ℕ, ◌+◌, ◌*◌, ◌<◌, ◌≡◌, refl, true, none, some, List, [], ◌∷◌, codes, take, length, arith,
}
use numera_backend.Pool.Leaves.{PoolLeaf, deposit, change}
use numera_backend.Pool.Trees.{Tree, build_asp_tree, asp_root_history}
use numera_backend.Pool.Trees.History.{includes_root, asp_root_history-prefix}
use numera_backend.Pool.Withdrawals.{WithdrawRequest, Answers, PoolState, withdraw}
use numera_backend.Pool.Withdrawals.Published.{Withdrawn, withdraw-Withdrawn}
use numera_backend.Prelude.{false, pair_eq, text_key, nat_eq}
use numera_backend.Store.{Store}
use numera_backend.Store.Functions.{function_store}
use numera_backend.Pool.Leaves.{deposited}
use numera_backend.Pool.Indexer.{LeafKey, PoolConfig, PoolNode, Mirror, tick}
use numera_backend.Pool.Indexer.Commits.{Ticked, tick-Ticked}

abbrev tree : Tree
tree = record { Imt = ℕ; empty = 0; insert = λ t leaf. t * 31 + leaf; root = λ t. t }

abbrev first_deposit : PoolLeaf
first_deposit = record {
  kind = deposit;
  commitment = 11;
  label = some 1;
  value = 100;
  precommitment = some 7;
  spent_nullifier = none;
  block_number = 5;
  log_index = 0;
  tx_hash = codes "0x1";
}

abbrev change_note : PoolLeaf
change_note = record first_deposit { kind = change; commitment = 12; label = none; log_index = 1 }

abbrev second_deposit : PoolLeaf
second_deposit = record first_deposit { commitment = 13; label = some 2; log_index = 2 }

abbrev leaves : List PoolLeaf
leaves = first_deposit ∷ change_note ∷ second_deposit ∷ []

old_root : includes_root (asp_root_history tree leaves 32) 1 ≡ true
unfolding includes_root asp_root_history numera_backend.Pool.Trees.roots_from
    numera_backend.Pool.Trees.approved
old_root = refl

asp_root_history-prefix_example : (n : ℕ) × (1 ≡ build_asp_tree tree (take n leaves))
asp_root_history-prefix_example = asp_root_history-prefix tree leaves 32 1 old_root

some_root : 0 < length (asp_root_history tree leaves 1)
unfolding asp_root_history numera_backend.Pool.Trees.roots_from numera_backend.Pool.Trees.approved
some_root = omega arith

abbrev request : WithdrawRequest
request = record {
  processooor = codes "0xEE";
  calldata = codes "0xab";
  proof = record {
    p_a = 1 ∷ 2 ∷ [];
    p_b = [];
    p_c = [];
    pub_signals = 0 ∷ 0 ∷ 50 ∷ 9 ∷ 2 ∷ 1 ∷ 1 ∷ 0 ∷ [];
  };
}

abbrev answers : Answers
answers = record {
  is_enabled = true;
  is_synced = true;
  entrypoint = codes "0xee";
  latest_root = some 33;
  send = λ call. some (codes "0x9");
  receipt_for = λ hash. some true;
  now = 0;
}

abbrev state : PoolState
state = record { leaves = leaves; calls = [] }

withdraw-Withdrawn_example :
    Withdrawn tree answers request state (withdraw tree answers request state)
withdraw-Withdrawn_example = withdraw-Withdrawn tree answers request state

abbrev rows : Store LeafKey PoolLeaf
rows = function_store

abbrev no_rows : rows.Table
no_rows = λ k. none

abbrev pool_config : PoolConfig
pool_config = record { start_block = 5; batch_blocks = 10; confirmations = 2 }

abbrev pool_node : PoolNode
pool_node = record {
  head = some 30;
  get_logs = λ from to. some (
      record {
        event = deposited 11 1 100 7;
        block_number = from;
        transaction_hash = codes "0x1";
        log_index = 0;
      }
      ∷ []);
  is_committed = true;
}

abbrev mirror : Mirror rows
mirror = record { leaf_rows = no_rows; cursor = none; caught_up = false }

tick-Ticked_example : Ticked pool_config pool_node mirror (tick pool_config pool_node mirror)
tick-Ticked_example = tick-Ticked pool_config pool_node mirror (omega arith)
