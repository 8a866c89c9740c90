-- ===== src/Relay/Gauge/Balance.antt =====
-- How often the node is asked for the balance, and the public state against what is enforced.
use numera_backend.Prelude.{
  ℕ, ◌+◌, ◌*◌, ◌≤◌, ◌≡◌, refl, ap, inl, inr, Bool, true, false, Option, none, some, List, [], ◌∷◌,
  Text, err, ltb, guarded, Bool-cases, arith, if◌then◌else◌,
}
use numera_backend.Store.{Store}
use numera_backend.Relay.Gas.{unavailable}
use numera_backend.Relay.Submit.{
  RelayConfig, CounterKey, Answers, RelayState, raw, simulation_failure, simulate_and_send,
  under_daily_cap, send_from_relayer,
}
use numera_backend.Relay.Gauge.{
  balance_ttl_ms, BalanceRead, BalanceState, BalanceEvent, called, settled, fresh_wei, share_read,
  cached_balance, read_balance, balance_step, balance_run, open_state, public_state,
}

abbrev pub moment_of : BalanceEvent → ℕ
moment_of (called now) = now
moment_of (settled now answer) = now

-- Calls and ends of reads in the order of time, up to a last moment.
abbrev pub IsOrdered : ℕ → List BalanceEvent → ℕ → Type 0
IsOrdered from [] last = from ≤ last
IsOrdered from (e ∷ rest) last = (from ≤ moment_of e) × IsOrdered (moment_of e) rest last

-- The reads that were started since the first moment are 15 seconds apart: the cache is filled after
-- the last of them was started.
abbrev Spaced : ℕ → ℕ → Bool → Option BalanceRead → ℕ → Type 0
Spaced first now true o reads = first + reads * balance_ttl_ms ≤ now + balance_ttl_ms
Spaced first now false none reads = (first ≤ now) × (reads ≡ 0)
Spaced first now false (some r) reads =
    (r.at ≤ now) × (first + reads * balance_ttl_ms ≤ r.at + balance_ttl_ms)

abbrev IsSpaced : ℕ → ℕ → BalanceState → Type 0
IsSpaced first now s = Spaced first now s.balance_in_flight s.balance_read s.reads

not_before : (x y : ℕ) → ltb x y ≡ false → y ≤ x
not_before x y h = ground (arith, h)

module _ (first : ℕ) where
  called-IsSpaced :
      (now at : ℕ) (in_flight : Bool) (o : Option BalanceRead) (reads : ℕ)
      → now ≤ at
      → Spaced first now in_flight o reads
      → IsSpaced first at
          (cached_balance at
            (record { balance_read = o; balance_in_flight = in_flight; reads = reads })).1
  unfolding cached_balance fresh_wei share_read
  called-IsSpaced now at true none reads order h = omega (arith, order, h)
  called-IsSpaced now at true (some r) reads order h =
      elim (Bool-cases (ltb at (r.at + balance_ttl_ms))) [
        | inl e ↦ rw (e, cached_balance, fresh_wei) (omega (arith, order, h))
        | inr e ↦ rw (e, cached_balance, fresh_wei) (omega (arith, order, h))
      ]
  called-IsSpaced now at false none reads order h = omega (arith, order, h)
  called-IsSpaced now at false (some r) reads order h =
      elim (Bool-cases (ltb at (r.at + balance_ttl_ms))) [
        | inl e ↦ rw (e, cached_balance, fresh_wei) (omega (arith, order, h), h.1)
        | inr e ↦
            rw (e, cached_balance, fresh_wei)
              (omega (arith, not_before at (r.at + balance_ttl_ms) e, h))
      ]

  settled-IsSpaced :
      (now at : ℕ) (answer : Option ℕ) (in_flight : Bool) (o : Option BalanceRead) (reads : ℕ)
      → now ≤ at
      → Spaced first now in_flight o reads
      → IsSpaced first at (
          balance_step
            (settled at answer)
            (record { balance_read = o; balance_in_flight = in_flight; reads = reads }))
  unfolding balance_step read_balance
  settled-IsSpaced now at answer true o reads order h = (omega arith, omega (arith, order, h))
  settled-IsSpaced now at answer false none reads order h = (omega (arith, order, h), h.1)
  settled-IsSpaced now at answer false (some r) reads order h = (omega (arith, order, h), h.1)

  step-IsSpaced :
      (now : ℕ) (e : BalanceEvent) (s : BalanceState)
      → now ≤ moment_of e
      → IsSpaced first now s
      → IsSpaced first (moment_of e) (balance_step e s)
  unfolding balance_step
  step-IsSpaced now (called at) s order h =
      called-IsSpaced now at s.balance_in_flight s.balance_read s.reads order h
  step-IsSpaced now (settled at answer) s order h =
      settled-IsSpaced now at answer s.balance_in_flight s.balance_read s.reads order h

  reads-Spaced :
      (now : ℕ) (in_flight : Bool) (o : Option BalanceRead) (reads : ℕ)
      → Spaced first now in_flight o reads
      → first + reads * balance_ttl_ms ≤ now + balance_ttl_ms
  reads-Spaced now true o reads h = h
  reads-Spaced now false none reads h = omega (arith, h.0, ap (λ n. n * balance_ttl_ms) h.1)
  reads-Spaced now false (some r) reads h = omega (arith, h.0, h.1)

  reads-run :
      (events : List BalanceEvent) (now last : ℕ) (s : BalanceState)
      → IsOrdered now events last
      → IsSpaced first now s
      → first + (balance_run events s).reads * balance_ttl_ms ≤ last + balance_ttl_ms
  unfolding balance_run
  reads-run [] now last s order h =
      omega (arith, order, reads-Spaced now s.balance_in_flight s.balance_read s.reads h)
  reads-run (e ∷ rest) now last s order h =
      reads-run rest (moment_of e) last (balance_step e s) order.1 (step-IsSpaced now e s order.0 h)

abbrev pub no_balance : BalanceState
no_balance = record { balance_read = none; balance_in_flight = false; reads = 0 }

-- However the balance is asked for, in bursts while a read is in flight too, and whenever reads end
-- and with what answer: from the start on, the node is asked at most once, and once more for every
-- 15 seconds from the first moment to the last.
pub reads_bound :
    (events : List BalanceEvent) (first last : ℕ)
    → IsOrdered first events last
    → first + (balance_run events no_balance).reads * balance_ttl_ms ≤ last + balance_ttl_ms
reads_bound events first last order =
    reads-run first events first last no_balance order (omega arith, refl)

module _ {redis : Store CounterKey ℕ} (cfg : RelayConfig) (a : Answers) where
  -- The public state says that the relay is available exactly when a call of the platform's own is
  -- simulated and sent; when it says otherwise, such a call is refused and changes nothing.
  pub send_from_relayer-public_state :
      (to calldata : Text) (s : RelayState redis)
      → send_from_relayer cfg a to calldata s ≡ (
          if (public_state cfg a s).available
          then simulate_and_send cfg a simulation_failure to (raw calldata) s
          else (err unavailable, s))
  unfolding send_from_relayer public_state open_state under_daily_cap guarded
  send_from_relayer-public_state to calldata s = ground arith
