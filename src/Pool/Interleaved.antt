-- ===== src/Pool/Interleaved.antt =====
-- Concurrent withdrawals, src/pool/pool.service.ts: the job of `withdraw` under `exclusively`, as
-- steps between its awaits that interleave in any order, with what the chain does in between. The
-- job itself is relay_proof of Pool/Withdrawals; here it is taken apart.
pub mod Pinned
mod Tests
use mathlib.Core.List.{Mem}
use numera_backend.Prelude.{
  ℕ, suc, ◌+◌, ◌≡◌, ◌≢◌, ◌==◌, Option, none, some, List, [], ◌∷◌, if◌then◌else◌,
}

-- Where a withdrawal stands: not yet in the job, holding the lock, waiting for the receipt of its
-- `updateRoot`, past `publishAspRoot`, or over.
pub data Pc : Type 0 where
  waiting holding published ready finished : Pc

pub record System : Type 0 where
  -- `entrypoint.latestRoot()`.
  pub latest_root : ℕ
  -- The withdrawal whose job runs.
  pub holder : Option ℕ
  pub pc : ℕ → Pc
  -- Publications that were given up before they landed: each may land yet.
  pub late : List ℕ
  -- For every relayed proof, the root it pins and the latest root when it was relayed, newest first.
  pub relayed : List (ℕ × ℕ)

unfoldable pub moved : ℕ → Pc → (ℕ → Pc) → ℕ → Pc
moved i p pc j = if i == j then p else pc j

-- The job of one withdrawal is over, and the next in the chain of promises can run.
unfoldable pub released : ℕ → System → System
unfolding moved
released i s = record s { holder = none; pc = moved i finished s.pc }

unfoldable pub at : ℕ → Pc → System → System
unfolding moved
at i p s = record s { pc = moved i p s.pc }

-- The proof of a withdrawal pins the root that its request names.
pub data Step (root : ℕ → ℕ) (s : System) : System → Type 0 where
  -- `exclusively` runs a job when no other runs.
  enter :
      (i : ℕ)
      → s.holder ≡ none
      → s.pc i ≡ waiting
      → Step root s (record (at i holding s) { holder = some i })
  -- `latestRoot` is the root already.
  current : (i : ℕ) → s.pc i ≡ holding → s.latest_root ≡ root i → Step root s (at i ready s)
  -- `updateRoot` is sent.
  publish : (i : ℕ) → s.pc i ≡ holding → s.latest_root ≢ root i → Step root s (at i published s)
  -- It lands, with a receipt that says success.
  landed :
      (i : ℕ) → s.pc i ≡ published → Step root s (record (at i ready s) { latest_root = root i })
  -- No receipt came in time, or one that says otherwise.
  given_up :
      (i : ℕ) → s.pc i ≡ published → Step root s (record (released i s) { late = root i ∷ s.late })
  -- The transaction that was given up lands after all.
  lands_late : (r : ℕ) → Mem r s.late → Step root s (record s { latest_root = r })
  -- The proof is relayed.
  relay :
      (i : ℕ)
      → s.pc i ≡ ready
      → Step root s (record (released i s) { relayed = (root i, s.latest_root) ∷ s.relayed })
  -- A read, a send or the relay throws.
  throws : (i : ℕ) → s.holder ≡ some i → Step root s (released i s)

abbrev pub idle : ℕ → System
idle latest_root = record {
  latest_root = latest_root;
  holder = none;
  pc = λ i. waiting;
  late = [];
  relayed = [];
}

pub data Reach (root : ℕ → ℕ) (start : ℕ) : System → Type 0 where
  here : Reach root start (idle start)
  next : {s t : System} → Reach root start s → Step root s t → Reach root start t
