-- ===== src/Pool/Withdrawals/Published.antt =====
-- What a withdrawal sends, on every branch.
use numera_backend.Prelude.{
  ℕ, ◌≡◌, refl, ◌⊎◌, inl, inr, ◌==◌, ==_iff, Bool, true, false, Bool-cases, Option, none, some, ◌∷◌,
  Text, to_lower, text_eq, ok, err, guarded_elim, ap, ◌∙◌,
}
use numera_backend.Pool.Trees.{Tree, asp_root_history}
use numera_backend.Pool.Trees.History.{includes_root}
use numera_backend.Pool.Withdrawals.{
  rejected, WithdrawRequest, update_root, Answers, PoolState, Outcome, proved_asp_root, broadcast,
  send_or, after_receipt, await_root, publish_asp_root, relay_call, relay_proof, withdraw_root,
  withdraw,
}

module _ (tree : Tree) (a : Answers) (dto : WithdrawRequest) where
  -- The root is in the recent history of the leaves.
  abbrev pub IsKnown : ℕ → PoolState → Type 0
  IsKnown root s = includes_root (asp_root_history tree s.leaves 32) root ≡ true

  -- The proof was relayed on the root: it was the published one, or it was published just before, by
  -- a transaction whose receipt said success.
  abbrev pub Relayed : ℕ → PoolState → PoolState → Type 0
  Relayed root s s' =
      ((a.latest_root ≡ some root) × (s'.calls ≡ relay_call a dto ∷ s.calls))
      ⊎ ((hash : Text) × (a.send (update_root root) ≡ some hash)
          × (a.receipt_for hash ≡ some true)
          × (s'.calls ≡ relay_call a dto ∷ update_root root ∷ s.calls))

  -- A refused withdrawal sent nothing, but that a known root may have been published.
  abbrev pub Refused : PoolState → PoolState → Type 0
  Refused s s' =
      (s'.calls ≡ s.calls) ⊎ ((root : ℕ) × IsKnown root s × (s'.calls ≡ update_root root ∷ s.calls))

  -- The outcome of a withdrawal.
  abbrev pub Withdrawn : PoolState → Outcome Text → Type 0
  Withdrawn s (ok hash, s') =
      (root : ℕ) × (a.is_enabled ≡ true)
      × (a.is_synced ≡ true)
      × (proved_asp_root dto ≡ some root)
      × IsKnown root s
      × Relayed root s s'
  Withdrawn s (err f, s') = Refused s s'

  abbrev OnRoot : ℕ → PoolState → Outcome Text → Type 0
  OnRoot root s (ok hash, s') = Relayed root s s'
  OnRoot root s (err f, s') = (s'.calls ≡ s.calls) ⊎ (s'.calls ≡ update_root root ∷ s.calls)

  send_now :
      (root : ℕ) (answer : Option Text) (s : PoolState)
      → a.latest_root ≡ some root
      → OnRoot root s (send_or rejected (relay_call a dto) answer s)
  unfolding send_or broadcast
  send_now root none s e = inl refl
  send_now root (some hash) s e = inl (e, refl)

  send_after :
      (root : ℕ) (hash : Text) (answer : Option Text) (s : PoolState)
      → a.send (update_root root) ≡ some hash
      → a.receipt_for hash ≡ some true
      → OnRoot root s (send_or rejected (relay_call a dto) answer (broadcast (update_root root) s))
  unfolding send_or broadcast
  send_after root hash none s sent mined = inr refl
  send_after root hash (some h) s sent mined = inr (hash, sent, mined, refl)

  abbrev rest : PoolState → Outcome Text
  rest s = send_or rejected (relay_call a dto) (a.send (relay_call a dto)) s

  after_receipt-OnRoot :
      (root : ℕ) (hash : Text) (receipt : Option Bool) (s : PoolState)
      → a.send (update_root root) ≡ some hash
      → a.receipt_for hash ≡ receipt
      → let s1 : PoolState = broadcast (update_root root) s in
        OnRoot root s (after_receipt receipt (rest s1) s1)
  unfolding after_receipt broadcast
  after_receipt-OnRoot root hash (some true) s sent mined = send_after root hash _ s sent mined
  after_receipt-OnRoot root hash (some false) s sent mined = inr refl
  after_receipt-OnRoot root hash none s sent mined = inr refl

  await_root-OnRoot :
      (root : ℕ) (answer : Option Text) (s : PoolState)
      → a.send (update_root root) ≡ answer
      → OnRoot root s (await_root a root answer rest s)
  unfolding await_root
  await_root-OnRoot root none s e = inl refl
  await_root-OnRoot root (some hash) s e =
      after_receipt-OnRoot root hash (a.receipt_for hash) s e refl

  publish_asp_root-OnRoot :
      (root : ℕ) (latest : Option ℕ) (s : PoolState)
      → a.latest_root ≡ latest
      → OnRoot root s (publish_asp_root a root latest rest s)
  unfolding publish_asp_root
  publish_asp_root-OnRoot root none s e = inl refl
  publish_asp_root-OnRoot root (some current) s e = elim (Bool-cases (current == root)) [
    | inl same ↦ rw same (send_now root _ s (e ∙ ap some ((==_iff _ _).0 same)))
    | inr other ↦ rw other (await_root-OnRoot root (a.send (update_root root)) s refl)
  ]

  OnRoot-Withdrawn :
      (root : ℕ) (s : PoolState) (r : Outcome Text)
      → a.is_enabled ≡ true
      → a.is_synced ≡ true
      → proved_asp_root dto ≡ some root
      → IsKnown root s
      → OnRoot root s r
      → Withdrawn s r
  OnRoot-Withdrawn root s (ok hash, s') e y p k on = (root, e, y, p, k, on)
  OnRoot-Withdrawn root s (err f, s') e y p k (inl same) = inl same
  OnRoot-Withdrawn root s (err f, s') e y p k (inr published) = inr (root, k, published)

  withdraw_root-Withdrawn :
      (o : Option ℕ) (s : PoolState)
      → a.is_enabled ≡ true
      → a.is_synced ≡ true
      → proved_asp_root dto ≡ o
      → Withdrawn s (withdraw_root tree a dto o s)
  unfolding withdraw_root relay_proof
  withdraw_root-Withdrawn none s e y p = inl refl
  withdraw_root-Withdrawn (some root) s e y p =
      guarded_elim (Withdrawn s) (includes_root (asp_root_history tree s.leaves 32) root) _ _ s
        (inl refl)
        (λ known.
          OnRoot-Withdrawn root s _ e y p known (publish_asp_root-OnRoot root a.latest_root s refl))

  -- A withdrawal that comes back with a hash met an enabled pool with a complete index, named a root
  -- of the recent history, and was relayed once, on that root: it was the entrypoint's already, or
  -- it was published just before and its receipt said success. Any other withdrawal relayed nothing;
  -- at most it published a root of the recent history.
  pub withdraw-Withdrawn : (s : PoolState) → Withdrawn s (withdraw tree a dto s)
  unfolding withdraw
  withdraw-Withdrawn s = guarded_elim (Withdrawn s) a.is_enabled _ _ s (inl refl) (λ e.
      guarded_elim (Withdrawn s) a.is_synced _ _ s (inl refl) (λ y.
        guarded_elim (Withdrawn s) (text_eq (to_lower dto.processooor) (to_lower a.entrypoint)) _ _
          s (inl refl) (λ f. withdraw_root-Withdrawn (proved_asp_root dto) s e y refl)))
