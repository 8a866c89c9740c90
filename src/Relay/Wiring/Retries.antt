-- ===== src/Relay/Wiring/Retries.antt =====
-- The boot checks come to an end: how often they try, and how long they sleep.
use numera_backend.Prelude.{
  ℕ, zero, suc, ◌+◌, ◌-◌, ◌*◌, ◌^◌, ◌≤◌, ◌<◌, ◌≡◌, inl, inr, refl, ap, ◌∙◌, Bool, true, false,
  Option, none, some, Text, text_eq, ltb, Bool-cases, arith, ◌&&◌,
}
use numera_backend.Relay.Wiring.{
  wiring_retries, wiring_retry_base_ms, null_address, BootConfig, NodeReads, Boot, Attempt, done,
  threw, no_wallet, sleep, next_attempt, retried, differs, all_relayable, with_engine,
  after_balance, after_allowlist, wiring_read, try_wiring, verify_wiring, resolution_checked,
  resolution_read, try_resolution, keep_boot, verify_resolution_for, verify_resolution_wiring,
  connected, boot_fuel, and_then, on_module_init,
}

-- The state that an attempt leaves.
unfoldable pub left_by : Attempt → Boot
left_by (done s) = s
left_by (threw s) = s

-- A result within a bound of the time asleep.
abbrev pub Ends : ℕ → Option Boot → Type 0
Ends bound o = (s : Boot) × (o ≡ some s) × (s.slept ≤ bound)

Ends-weaken : (a b : ℕ) (o : Option Boot) → a ≤ b → Ends a o → Ends b o
Ends-weaken a b o h (s, e, k) = (s, e, omega (arith, h, k))

-- The delay doubles from one attempt to the next, and a retry's is within the total.
delay_doubles :
    (a slept : ℕ)
    → a < wiring_retries
    → slept + 400 * 2 ^ a + (400 * 2 ^ wiring_retries - 400 * 2 ^ suc a)
      ≤ slept + (400 * 2 ^ wiring_retries - 400 * 2 ^ a)
delay_doubles zero slept h = omega arith
delay_doubles (suc zero) slept h = omega arith
delay_doubles (suc (suc zero)) slept h = omega arith
delay_doubles (suc (suc (suc zero))) slept h = omega arith
delay_doubles (suc (suc (suc (suc zero)))) slept h = omega arith
delay_doubles (suc (suc (suc (suc (suc a))))) slept h = absurd (omega (arith, h))

module _ (body : ℕ → Boot → Attempt) (give_up : Boot → Boot)
    (awake : (attempt : ℕ) (s : Boot) → (left_by (body attempt s)).slept ≡ s.slept)
    (awake_then : (s : Boot) → (give_up s).slept ≡ s.slept) where
  next_attempt-Ends :
      (attempt bound : ℕ) (rest : Boot → Option Boot) (o : Attempt)
      → (left_by o).slept ≤ bound
      → (attempt < wiring_retries
          → (s : Boot) → s.slept ≡ (left_by o).slept + wiring_retry_base_ms * 2 ^ attempt
          → Ends bound (rest s))
      → Ends bound (next_attempt give_up attempt rest o)
  unfolding next_attempt left_by sleep
  next_attempt-Ends attempt bound rest (done s) h later = (s, refl, h)
  next_attempt-Ends attempt bound rest (threw s) h later =
      elim (Bool-cases (ltb attempt wiring_retries)) [
        | inl e ↦ rw e (later (ground (arith, e)) (sleep attempt s) refl)
        | inr e ↦ rw e (give_up s, refl, omega (arith, awake_then s, h))
      ]

  -- From an attempt on, the sleeps left to come are at most those of the attempts left.
  pub retried-Ends :
      (fuel attempt : ℕ) (s : Boot)
      → attempt ≤ wiring_retries
      → wiring_retries + 1 ≤ fuel + attempt
      → Ends
          (s.slept
            + (wiring_retry_base_ms * 2 ^ wiring_retries - wiring_retry_base_ms * 2 ^ attempt))
          (retried body give_up fuel attempt s)
  unfolding retried
  retried-Ends zero attempt s h enough = absurd (omega (arith, h, enough))
  retried-Ends (suc fuel) attempt s h enough =
      next_attempt-Ends attempt _ (retried body give_up fuel (suc attempt)) (body attempt s)
        (omega (arith, awake attempt s))
        (λ more t slept.
          Ends-weaken _ _ _
            (omega (arith, delay_doubles attempt s.slept more, slept, awake attempt s))
            (retried-Ends fuel (suc attempt) t (omega (arith, more)) (omega (arith, enough))))

after_balance-left : (o : Option ℕ) (s : Boot) → left_by (after_balance o s) ≡ s
unfolding after_balance left_by
after_balance-left none s = refl
after_balance-left (some wei) s = refl

-- A field that neither dropping the wallet nor setting the engine touches.
module _ (cfg : BootConfig) {A : Type 0} (f : Boot → A)
    (dropped : (s : Boot) → f (no_wallet s) ≡ f s)
    (set : (market : Text) (s : Boot) → f (with_engine cfg market s) ≡ f s) where
  after_allowlist-keeps :
      (node : NodeReads) (o : Option Bool) (s : Boot) → f (left_by (after_allowlist node o s)) ≡ f s
  unfolding after_allowlist left_by
  after_allowlist-keeps node none s = refl
  after_allowlist-keeps node (some false) s = dropped s
  after_allowlist-keeps node (some true) s = ap f (after_balance-left node.balance s)

  pub wiring_read-keeps :
      (node : NodeReads) (o : Option Text) (s : Boot) → f (left_by (wiring_read cfg node o s)) ≡ f s
  unfolding wiring_read left_by
  wiring_read-keeps node none s = refl
  wiring_read-keeps node (some market) s = elim (Bool-cases (text_eq market null_address)) [
    | inl e ↦ rw e (dropped s)
    | inr e ↦ elim (Bool-cases (differs cfg.ls_lmsr market)) [
      | inl d ↦ rw (e, d) (dropped s)
      | inr d ↦
          rw (e, d)
            (after_allowlist-keeps node (all_relayable node.is_relayable s.selectors)
                (with_engine cfg market s)
              ∙ set market s)
    ]
  ]

-- A field that setting the resolution relay does not touch.
module _ (cfg : BootConfig) {A : Type 0} (f : Boot → A)
    (set : (o : Option (Text × Text)) (s : Boot) → f (record s { resolution = o }) ≡ f s) where
  resolution_checked-keeps :
      (forwarder resolver : Text) (o : Option Bool) (s : Boot)
      → f (left_by (resolution_checked forwarder resolver o s)) ≡ f s
  unfolding resolution_checked left_by
  resolution_checked-keeps forwarder resolver none s = refl
  resolution_checked-keeps forwarder resolver (some false) s = refl
  resolution_checked-keeps forwarder resolver (some true) s = set (some (forwarder, resolver)) s

  pub resolution_read-keeps :
      (node : NodeReads) (forwarder : Text) (o : Option Text) (s : Boot)
      → f (left_by (resolution_read cfg node forwarder o s)) ≡ f s
  unfolding resolution_read left_by
  resolution_read-keeps node forwarder none s = refl
  resolution_read-keeps node forwarder (some resolver) s =
      elim (Bool-cases (text_eq resolver null_address)) [
        | inl e ↦ rw e refl
        | inr e ↦ elim (Bool-cases (differs cfg.optimistic_resolver resolver)) [
          | inl d ↦ rw (e, d) refl
          | inr d ↦ rw (e, d) (resolution_checked-keeps forwarder resolver _ s)
        ]
      ]

-- All the sleeps of a check that uses up its retries, in milliseconds.
abbrev pub retry_total_ms : ℕ
retry_total_ms = 12_400

verify_wiring-Ends :
    (cfg : BootConfig) (node : ℕ → NodeReads) (s : Boot)
    → Ends (s.slept + retry_total_ms) (verify_wiring cfg node boot_fuel 0 s)
unfolding verify_wiring try_wiring no_wallet with_engine
verify_wiring-Ends cfg node s = Ends-weaken _ _ _ (omega arith) (
    retried-Ends (try_wiring cfg node) no_wallet
      (λ attempt t.
        wiring_read-keeps cfg (λ (x : Boot). x.slept) (λ u. refl) (λ m u. refl) (node attempt)
          (node attempt).destination t)
      (λ t. refl) boot_fuel 0 s (omega arith) (omega arith))

verify_resolution_for-Ends :
    (cfg : BootConfig) (node : ℕ → NodeReads) (o : Option Text) (s : Boot)
    → Ends (s.slept + retry_total_ms) (verify_resolution_for cfg node o boot_fuel 0 s)
unfolding verify_resolution_for try_resolution keep_boot
verify_resolution_for-Ends cfg node none s = (s, refl, omega arith)
verify_resolution_for-Ends cfg node (some forwarder) s = Ends-weaken _ _ _ (omega arith) (
    retried-Ends (try_resolution cfg forwarder node) keep_boot
      (λ attempt t.
        resolution_read-keeps cfg (λ (x : Boot). x.slept) (λ o u. refl) (node attempt) forwarder
          (node attempt).destination t)
      (λ t. refl) boot_fuel 0 s (omega arith) (omega arith))

-- Whatever the node answers or fails to, the boot ends within six attempts at each of its two
-- checks, and after at most 24.8 seconds asleep.
pub on_module_init-Ends :
    (cfg : BootConfig) (node resolution_node : ℕ → NodeReads) (s : Boot)
    → Ends (s.slept + 2 * retry_total_ms) (on_module_init cfg node resolution_node s)
unfolding on_module_init verify_resolution_wiring connected and_then
on_module_init-Ends cfg node resolution_node s =
    elim (Bool-cases (cfg.enabled && cfg.has_endpoints)) [
      | inl e ↦
          let (t, ended, slept) = verify_wiring-Ends cfg node (connected cfg s) in
          let (u, over, late) =
            verify_resolution_for-Ends cfg resolution_node cfg.resolution_forwarder t in
          rw (e, ended) (u, over, omega (arith, slept, late))
      | inr e ↦ rw e (s, refl, omega arith)
    ]
