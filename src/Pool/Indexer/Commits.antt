-- ===== src/Pool/Indexer/Commits.antt =====
-- What a tick of the pool's mirror leaves, on every branch.
use mathlib.Core.List.{Perm}
use mathlib.Core.Path.{subst}
use numera_backend.Prelude.{
  ℕ, ◌≤◌, ◌<◌, ◌≡◌, refl, sym, ap, ◌∙◌, ◌⊎◌, inl, inr, Bool, true, false, Bool-cases, Option, none,
  some, List, [], ◌∷◌, ◌++◌, to_lower, ltb, ltb→lt, if◌then◌else◌, arith, Eq, pair_eq, text_key,
  nat_eq,
}
use numera_backend.Store.{Store, upsert}
use numera_backend.Chain.Order.{sort}
use numera_backend.Chain.Order.Laws.{Ascending, sort-perm, sort-Ascending}
use numera_backend.Chain.Plan.{range_end}
use numera_backend.Chain.Indexer.{safe_head_of}
use numera_backend.Pool.Leaves.{
  PoolLeaf, PoolLog, PoolEvent, deposited, withdrawn, other_event, deposit, change, leaf_of,
  to_leaf, to_leaves,
}
use numera_backend.Pool.Indexer.{
  LeafKey, PoolConfig, PoolNode, Mirror, key_of, place_of, next_block, upsert_all, commit_leaves,
  read_span, tick_to_head, tick_on, tick,
}

abbrev leaf_key_eq : Eq LeafKey
leaf_key_eq = pair_eq

-- What a log of the pool adds to the state tree: a deposit or the change of a withdrawal.
abbrev pub inserted : PoolLog → PoolEvent → List PoolLeaf
inserted log (deposited commitment label value precommitment) =
    record {
      kind = deposit;
      commitment = commitment;
      label = some label;
      value = value;
      precommitment = some precommitment;
      spent_nullifier = none;
      block_number = log.block_number;
      log_index = log.log_index;
      tx_hash = to_lower log.transaction_hash;
    }
    ∷ []
inserted log (withdrawn value nullifier commitment) =
    record {
      kind = change;
      commitment = commitment;
      label = none;
      value = value;
      precommitment = none;
      spent_nullifier = some nullifier;
      block_number = log.block_number;
      log_index = log.log_index;
      tx_hash = to_lower log.transaction_hash;
    }
    ∷ []
inserted log other_event = []

abbrev pub all_inserted : List PoolLog → List PoolLeaf
all_inserted [] = []
all_inserted (log ∷ logs) = inserted log log.event ++ all_inserted logs

to_leaves-all_inserted : (logs : List PoolLog) → to_leaves logs ≡ all_inserted logs
unfolding to_leaves to_leaf leaf_of
to_leaves-all_inserted [] = refl
to_leaves-all_inserted (log ∷ logs) =
    ap (λ rest. keep (to_leaf log) rest) (to_leaves-all_inserted logs) ∙ step log.event _
  where
    keep : Option PoolLeaf → List PoolLeaf → List PoolLeaf
    keep o rest = elim o [ none ↦ rest | some leaf ↦ leaf ∷ rest ]

    step :
        (e : PoolEvent) (rest : List PoolLeaf) → keep (leaf_of log e) rest ≡ inserted log e ++ rest
    step (deposited commitment label value precommitment) rest = refl
    step (withdrawn value nullifier commitment) rest = refl
    step other_event rest = refl

-- The leaf that the upserts leave under a transaction hash and log index: the last of the leaves
-- with these, or the one before.
unfoldable pub leaf_after : List PoolLeaf → LeafKey → Option PoolLeaf → Option PoolLeaf
leaf_after [] k before = before
leaf_after (leaf ∷ leaves) k before =
    leaf_after leaves k
      (if leaf_key_eq.beq (leaf.tx_hash, leaf.log_index) k then some leaf else before)

module _ (rows : Store LeafKey PoolLeaf) where
  find-write :
      (t : rows.Table) (key k : LeafKey) (r : PoolLeaf)
      → rows.find (rows.write t key r) k ≡ (if leaf_key_eq.beq key k then some r else rows.find t k)
  find-write t key k r = elim (Bool-cases (leaf_key_eq.beq key k)) [
    | inl e ↦
        let here : key ≡ k = (leaf_key_eq.beq_iff key k).0 e in
        ap (rows.find (rows.write t key r)) (sym here)
        ∙ rows.find-write_self t key r
        ∙ sym (ap (λ b. if b then some r else rows.find t k) e)
    | inr e ↦
        rows.find-write_ne t key k r (λ h. ground (arith, e, (leaf_key_eq.beq_iff key k).1 h))
        ∙ sym (ap (λ b. if b then some r else rows.find t k) e)
  ]

  replaced :
      (o : Option PoolLeaf) (r : PoolLeaf)
      → elim o as (λ _. PoolLeaf) [ none ↦ r | some old ↦ r ] ≡ r
  replaced none r = refl
  replaced (some old) r = refl

  find-upsert_all :
      (leaves : List PoolLeaf) (t : rows.Table) (k : LeafKey)
      → rows.find (upsert_all rows leaves t) k ≡ leaf_after leaves k (rows.find t k)
  unfolding upsert_all leaf_after upsert key_of
  find-upsert_all [] t k = refl
  find-upsert_all (leaf ∷ leaves) t k =
      find-upsert_all leaves _ k
      ∙ ap (leaf_after leaves k) (
          ap (λ r. rows.find (rows.write t (key_of leaf) r) k)
            (replaced (rows.find t (key_of leaf)) leaf)
          ∙ find-write t (key_of leaf) k leaf)

-- Upserts either leave a key as it was, whatever that is, or settle its leaf.
leaf_after-cases :
    (leaves : List PoolLeaf) (k : LeafKey)
    → ((o : Option PoolLeaf) → leaf_after leaves k o ≡ o)
      ⊎ ((r : Option PoolLeaf) × ((o : Option PoolLeaf) → leaf_after leaves k o ≡ r))
unfolding leaf_after
leaf_after-cases [] k = inl (λ o. refl)
leaf_after-cases (leaf ∷ leaves) k = elim (leaf_after-cases leaves k) [
  | inl same ↦ elim (Bool-cases (leaf_key_eq.beq (leaf.tx_hash, leaf.log_index) k)) [
    | inl e ↦ inr (some leaf, λ o. same _ ∙ ap (λ b. if b then some leaf else o) e)
    | inr e ↦ inl (λ o. same _ ∙ ap (λ b. if b then some leaf else o) e)
  ]
  | inr (r, settled) ↦ inr (r, λ o. settled _)
]

-- The same span mirrored again, as after a crash, changes no row: under every key the upserts leave
-- what they left the first time.
pub upsert_all-again :
    (rows : Store LeafKey PoolLeaf) (leaves : List PoolLeaf) (t : rows.Table) (k : LeafKey)
    → rows.find (upsert_all rows leaves (upsert_all rows leaves t)) k
      ≡ rows.find (upsert_all rows leaves t) k
upsert_all-again rows leaves t k =
    let once = find-upsert_all rows leaves t k in
    let again = find-upsert_all rows leaves (upsert_all rows leaves t) k in
    elim (leaf_after-cases leaves k) [
      | inl same ↦ again ∙ same _
      | inr (r, settled) ↦ again ∙ settled _ ∙ sym (settled _) ∙ sym once
    ]

module _ {rows : Store LeafKey PoolLeaf} (cfg : PoolConfig) (node : PoolNode) where
  -- The span was read and its leaves were stored with the cursor.
  abbrev pub Committed : ℕ → Mirror rows → Mirror rows → Type 0
  Committed safe_head x x' =
      let from : ℕ = next_block cfg x.cursor in
      let to : ℕ = range_end cfg.batch_blocks safe_head from in
      (logs : List PoolLog) × (node.get_logs from to ≡ some logs)
      × (x'.cursor ≡ some to)
      × (from ≤ to)
      × (to ≤ safe_head)
      × ((leaves : List PoolLeaf) × Perm leaves (all_inserted logs)
          × Ascending (λ (l : PoolLeaf). (l.block_number, l.log_index)) leaves
          × ((k : LeafKey)
              → rows.find x'.leaf_rows k ≡ leaf_after leaves k (rows.find x.leaf_rows k)))

  -- A tick: a throw changes nothing; otherwise there was nothing final to read, or a span was
  -- committed.
  abbrev pub Ticked : Mirror rows → Option Bool × Mirror rows → Type 0
  Ticked x (none, x') = x' ≡ x
  Ticked x (some done, x') =
      (head : ℕ) × (node.head ≡ some head)
      × (((safe_head_of cfg.confirmations head < next_block cfg x.cursor)
            × (x' ≡ record x { caught_up = true }))
          ⊎ Committed (safe_head_of cfg.confirmations head) x x')

  stored :
      (logs : List PoolLog) (x : Mirror rows)
      → let after : rows.Table = upsert_all rows (sort place_of (to_leaves logs)) x.leaf_rows in
        (leaves : List PoolLeaf) × Perm leaves (all_inserted logs)
        × Ascending (λ (l : PoolLeaf). (l.block_number, l.log_index)) leaves
        × ((k : LeafKey) → rows.find after k ≡ leaf_after leaves k (rows.find x.leaf_rows k))
  unfolding place_of
  stored logs x = (
    sort place_of (to_leaves logs),
    subst (Perm (sort place_of (to_leaves logs))) (to_leaves-all_inserted logs)
        (sort-perm place_of (to_leaves logs)),
    sort-Ascending place_of (to_leaves logs),
    λ k. find-upsert_all rows (sort place_of (to_leaves logs)) x.leaf_rows k,
  )

  read_span-Ticked :
      (head : ℕ) (x : Mirror rows)
      → node.head ≡ some head
      → 0 < cfg.batch_blocks
      → next_block cfg x.cursor ≤ safe_head_of cfg.confirmations head
      → let safe_head : ℕ = safe_head_of cfg.confirmations head in
        let from : ℕ = next_block cfg x.cursor in
        let to : ℕ = range_end cfg.batch_blocks safe_head from in
        (o : Option (List PoolLog)) (b : Bool)
        → node.get_logs from to ≡ o
        → Ticked x (read_span (record node { is_committed = b }) o safe_head to x)
  unfolding read_span commit_leaves range_end
  read_span-Ticked head x e wide h none b g = refl
  read_span-Ticked head x e wide h (some logs) false g = refl
  read_span-Ticked head x e wide h (some logs) true g =
      (head, e, inr (logs, g, refl, ground arith, ground arith, stored logs x))

  tick_on-Ticked :
      (o : Option ℕ) (x : Mirror rows)
      → node.head ≡ o
      → 0 < cfg.batch_blocks
      → Ticked x (tick_on cfg node o x)
  unfolding tick_on tick_to_head
  tick_on-Ticked none x e wide = refl
  tick_on-Ticked (some head) x e wide =
      let safe_head : ℕ = safe_head_of cfg.confirmations head in
      let from : ℕ = next_block cfg x.cursor in
      elim (Bool-cases (ltb safe_head from)) [
        | inl ahead ↦ rw ahead (head, e, inl (ltb→lt safe_head from ahead, refl))
        | inr behind ↦ rw behind (
            read_span-Ticked head x e wide (ground (arith, behind))
              (node.get_logs from (range_end cfg.batch_blocks safe_head from)) node.is_committed
              refl)
      ]

  -- When batches are not empty: a tick that throws, at the node or in its transaction, leaves the
  -- mirror as it was. Any other tick met a cursor past the safe head, or read the next span, no
  -- farther than the safe head, and left the cursor at its end. Under every transaction hash and log
  -- index it left the last leaf, in chain order, that a deposit or withdrawal of the span inserts
  -- there, or else the row that was there.
  pub tick-Ticked : (x : Mirror rows) → 0 < cfg.batch_blocks → Ticked x (tick cfg node x)
  unfolding tick
  tick-Ticked x wide = tick_on-Ticked node.head x refl wide
