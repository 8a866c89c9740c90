-- ===== src/Pool/Withdrawals.antt =====
-- Withdrawals and shielded returns, src/pool/pool.service.ts: `withdraw`, `publishAspRoot` and `shield`. What
-- the chain and the relay answer is an argument; the calls that the relay broadcast are the state.
pub mod Published
use numera_backend.Prelude.{
  ℕ, zero, suc, ◌*◌, ◌==◌, Bool, true, false, not, Option, none, some, List, [], ◌∷◌, Text,
  to_lower, text_eq, ltb, get_elem?, Result, ok, err, guarded, if◌then◌else◌,
}
use numera_backend.Pool.Leaves.{PoolLeaf}
use numera_backend.Pool.Trees.{Tree, asp_root_history}
use numera_backend.Pool.Trees.History.{includes_root}

-- `PoolRejected`'s codes, and any other throw.
pub data PoolFailure : Type 0 where
  unavailable stale invalid rejected : PoolFailure
  thrown : PoolFailure

pub record Proof : Type 0 where
  pub p_a : List ℕ
  pub p_b : List ℕ
  pub p_c : List ℕ
  pub pub_signals : List ℕ

pub record WithdrawRequest : Type 0 where
  pub processooor : Text
  pub calldata : Text
  pub proof : Proof

pub record ShieldRequest : Type 0 where
  pub owner : Text
  pub value : ℕ
  pub precommitment : ℕ
  pub deadline : ℕ
  pub signature : Text
  -- The permit's deadline and signature.
  pub permit : Option (ℕ × Text)

-- A call of the entrypoint.
pub data PoolCall : Type 0 where
  update_root : ℕ → PoolCall
  relay : Text → Text → Proof → PoolCall
  deposit_for : ShieldRequest → PoolCall
  deposit_for_with_permit : ShieldRequest → ℕ → Text → PoolCall

-- What a request meets: whether the pool is enabled and its index caught up, the entrypoint, its
-- `latestRoot` (none where the read throws), `sendFromRelayer` for each call, whether a receipt says
-- success (none for no receipt), and the time.
pub record Answers : Type 0 where
  pub is_enabled : Bool
  pub is_synced : Bool
  pub entrypoint : Text
  pub latest_root : Option ℕ
  pub send : PoolCall → Option Text
  pub receipt_for : Text → Option Bool
  pub now : ℕ

pub record PoolState : Type 0 where
  pub leaves : List PoolLeaf
  -- Broadcast calls, newest first.
  pub calls : List PoolCall

abbrev pub Outcome : Type 0 → Type 0
Outcome A = Result PoolFailure A × PoolState

abbrev asp_root_signal : ℕ
asp_root_signal = 5

unfoldable pub proved_asp_root : WithdrawRequest → Option ℕ
proved_asp_root dto = get_elem? dto.proof.pub_signals asp_root_signal

unfoldable pub broadcast : PoolCall → PoolState → PoolState
broadcast call s = record s { calls = call ∷ s.calls }

-- `sendFromRelayer(…).catch(…)`, with the relay's answer.
unfoldable pub send_or : PoolFailure → PoolCall → Option Text → PoolState → Outcome Text
unfolding broadcast
send_or failure call none s = (err failure, s)
send_or failure call (some hash) s = (ok hash, broadcast call s)

-- Only a receipt that says success lets the rest go on.
unfoldable pub after_receipt : Option Bool → Outcome Text → PoolState → Outcome Text
after_receipt (some true) next s = next
after_receipt _ next s = (err stale, s)

-- What follows an answered `updateRoot`.
unfoldable pub await_root :
    Answers → ℕ → Option Text → (PoolState → Outcome Text) → PoolState → Outcome Text
unfolding broadcast after_receipt
await_root a root none rest s = (err thrown, s)
await_root a root (some hash) rest s =
    let s1 = broadcast (update_root root) s in after_receipt (a.receipt_for hash) (rest s1) s1

unfoldable pub publish_asp_root :
    Answers → ℕ → Option ℕ → (PoolState → Outcome Text) → PoolState → Outcome Text
unfolding await_root
publish_asp_root a root none rest s = (err thrown, s)
publish_asp_root a root (some current) rest s =
    let next = rest s in
    let published = await_root a root (a.send (update_root root)) rest s in
    if current == root then next else published

unfoldable pub relay_call : Answers → WithdrawRequest → PoolCall
relay_call a dto = relay a.entrypoint dto.calldata dto.proof

-- The part that holds the lock.
unfoldable pub relay_proof : Answers → WithdrawRequest → ℕ → PoolState → Outcome Text
unfolding publish_asp_root send_or relay_call
relay_proof a dto root s =
    publish_asp_root a root a.latest_root
      (λ s1. send_or rejected (relay_call a dto) (a.send (relay_call a dto)) s1) s

module _ (tree : Tree) where
  unfoldable pub withdraw_root : Answers → WithdrawRequest → Option ℕ → PoolState → Outcome Text
  unfolding guarded relay_proof
  withdraw_root a dto none s = (err stale, s)
  withdraw_root a dto (some root) s =
      guarded (includes_root (asp_root_history tree s.leaves 32) root) stale
        (relay_proof a dto root s) s

  unfoldable pub withdraw : Answers → WithdrawRequest → PoolState → Outcome Text
  unfolding guarded withdraw_root
  withdraw a dto s =
      guarded a.is_enabled unavailable
        (guarded a.is_synced stale
          (guarded (text_eq (to_lower dto.processooor) (to_lower a.entrypoint)) invalid
            (withdraw_root a dto (proved_asp_root dto) s) s)
          s)
        s

unfoldable pub shield_call : ShieldRequest → Option (ℕ × Text) → PoolCall
shield_call r none = deposit_for r
shield_call r (some (deadline, signature)) = deposit_for_with_permit r deadline signature

unfoldable pub shield : Answers → ShieldRequest → PoolState → Outcome Text
unfolding guarded send_or shield_call
shield a r s =
    let call = shield_call r r.permit in
    guarded a.is_enabled unavailable
      (guarded (not (r.value == 0)) invalid
        (guarded (not (ltb (r.deadline * 1000) a.now)) invalid
          (send_or rejected call (a.send call) s) s)
        s)
      s
