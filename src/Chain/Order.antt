-- ===== src/Chain/Order.antt =====
-- On-chain order: `byChainOrder` of src/chain/indexer.service.ts and the same comparison in
-- src/pool/pool-indexer.service.ts, with `Array.prototype.sort`, which is a stable sort by it.
pub mod Laws
use numera_backend.Prelude.{
  ℕ, zero, suc, ◌==◌, Bool, true, false, List, [], ◌∷◌, ltb, if◌then◌else◌,
}
use numera_backend.Prelude.Int.{ℤ, pos, negsuc, ◌-ℤ◌}

-- A block number and a log index within the block.
abbrev pub Place : Type 0
Place = ℕ × ℕ

unfoldable pub by_chain_order : Place → Place → ℤ
unfolding ◌-ℤ◌
by_chain_order (block, index) (block', index') =
    if block == block'
    then pos index -ℤ pos index'
    else (if ltb block block' then negsuc 0 else pos 1)

-- A comparator's answer that lets the first argument stand first.
unfoldable pub is_before : ℤ → Bool
is_before (pos zero) = true
is_before (pos (suc n)) = false
is_before (negsuc n) = true

unfoldable pub in_order : Place → Place → Bool
unfolding by_chain_order is_before
in_order p q = is_before (by_chain_order p q)

module _ {ℓ} {A : Type ℓ} (place : A → Place) where
  unfoldable pub insert : A → List A → List A
  insert x [] = x ∷ []
  insert x (y ∷ ys) = if in_order (place x) (place y) then x ∷ y ∷ ys else y ∷ insert x ys

  unfoldable pub sort : List A → List A
  unfolding insert
  sort [] = []
  sort (x ∷ xs) = insert x (sort xs)
