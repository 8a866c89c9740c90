-- ===== src/Relay/Wiring/Wired.antt =====
-- What a relay that is enabled after its boot was checked against.
use numera_backend.Prelude.{
  ℕ, ◌≡◌, inl, inr, refl, sym, ap, ◌∙◌, Bool, true, false, ◌&&◌, Option, none, some, List, [], ◌∷◌,
  All, Text, to_lower, text_eq, text_eq_iff, not, Bool-cases, if◌then◌else◌,
}
use numera_backend.Relay.Wiring.{
  null_address, BootConfig, NodeReads, Boot, Attempt, done, threw, is_enabled, no_wallet, sleep,
  differs, and_rest, all_relayable, spenders_of, with_engine, after_balance, after_allowlist,
  wiring_read, try_wiring, verify_wiring, try_resolution, keep_boot, verify_resolution_for,
  verify_resolution_wiring, connected, boot_fuel, and_then, on_module_init,
}
use numera_backend.Relay.Wiring.Retries.{left_by, wiring_read-keeps, resolution_read-keeps}
use numera_backend.Relay.Wiring.Outcomes.{Finished, some_inj, retried-result}

-- A destination is the configured one, up to case, if one is configured.
abbrev pub Matches : Option Text → Text → Type 0
Matches none read = Unit
Matches (some wanted) read = to_lower read ≡ to_lower wanted

differs-Matches : (o : Option Text) (read : Text) → differs o read ≡ false → Matches o read
unfolding differs
differs-Matches none read h = tt
differs-Matches (some wanted) read h =
    elim (Bool-cases (text_eq (to_lower read) (to_lower wanted))) [
      | inl e ↦ (text_eq_iff (to_lower read) (to_lower wanted)).0 e
      | inr e ↦ absurd (cc (ap not e, h))
    ]

-- The destination that the forwarder names is one, is the configured one if that is set, and its
-- allowlist agrees.
abbrev pub IsDestination : Option Text → NodeReads → List Text → Text → Type 0
IsDestination wanted node selectors destination =
    (node.destination ≡ some destination)
    × (text_eq destination null_address ≡ false)
    × Matches wanted destination
    × All (λ selector. node.is_relayable selector ≡ some true) selectors

-- The engine and the spenders of a relay whose wallet was kept, against an attempt's reads.
abbrev pub IsWired : BootConfig → (ℕ → NodeReads) → Boot → Type 0
IsWired cfg node s =
    (k : ℕ) × (market : Text) × (s.engine ≡ some market)
    × (s.permit_spenders ≡ spenders_of cfg market)
    × (s.selectors ≡ cfg.relayable)
    × IsDestination cfg.ls_lmsr (node k) cfg.relayable market

and_rest-true :
    (o rest : Option Bool) → and_rest o rest ≡ some true → (o ≡ some true) × (rest ≡ some true)
unfolding and_rest
and_rest-true none rest h = absurd (cc)
and_rest-true (some false) rest h = absurd (cc)
and_rest-true (some true) rest h = (refl, h)

all_relayable-All :
    (read : Text → Option Bool) (selectors : List Text)
    → all_relayable read selectors ≡ some true
    → All (λ selector. read selector ≡ some true) selectors
unfolding all_relayable
all_relayable-All read [] h = tt
all_relayable-All read (x ∷ rest) h =
    let (first, later) = and_rest-true (read x) (all_relayable read rest) h in
    (first, all_relayable-All read rest later)

-- Kept by every attempt: the allowlist to check.
abbrev IsListed : BootConfig → Boot → Type 0
IsListed cfg s = s.selectors ≡ cfg.relayable

-- If the wallet was kept, the relay is wired.
abbrev WalletWired : BootConfig → (ℕ → NodeReads) → Boot → Type 0
WalletWired cfg node s = s.wallet ≡ true → IsWired cfg node s

no_wallet-WalletWired :
    (cfg : BootConfig) (node : ℕ → NodeReads) (s : Boot) → WalletWired cfg node (no_wallet s)
unfolding no_wallet
no_wallet-WalletWired cfg node s h = absurd (cc)

after_allowlist-WalletWired :
    (cfg : BootConfig) (node : ℕ → NodeReads) (k : ℕ) (o : Option Bool) (s : Boot)
    → (o ≡ some true → IsWired cfg node s)
    → Finished (WalletWired cfg node) (after_allowlist (node k) o s)
unfolding Finished after_allowlist
after_allowlist-WalletWired cfg node k none s w = tt
after_allowlist-WalletWired cfg node k (some false) s w = no_wallet-WalletWired cfg node s
after_allowlist-WalletWired cfg node k (some true) s w = after_balance-WalletWired (node k).balance
  where
    after_balance-WalletWired : (o : Option ℕ) → Finished (WalletWired cfg node) (after_balance o s)
    after_balance-WalletWired none = tt
    after_balance-WalletWired (some wei) = λ h. w refl

wiring_read-WalletWired :
    (cfg : BootConfig) (node : ℕ → NodeReads) (k : ℕ) (o : Option Text) (s : Boot)
    → (node k).destination ≡ o
    → IsListed cfg s
    → Finished (WalletWired cfg node) (wiring_read cfg (node k) o s)
unfolding Finished wiring_read with_engine
wiring_read-WalletWired cfg node k none s read listed = tt
wiring_read-WalletWired cfg node k (some market) s read listed =
    elim (Bool-cases (text_eq market null_address)) [
      | inl e ↦ rw e (no_wallet-WalletWired cfg node s)
      | inr e ↦ elim (Bool-cases (differs cfg.ls_lmsr market)) [
        | inl d ↦ rw (e, d) (no_wallet-WalletWired cfg node s)
        | inr d ↦
            rw (e, d)
              (after_allowlist-WalletWired cfg node k
                (all_relayable (node k).is_relayable s.selectors) (with_engine cfg market s)
                (λ all. (
                  k,
                  market,
                  refl,
                  refl,
                  listed,
                  (
                    read,
                    e,
                    differs-Matches cfg.ls_lmsr market d,
                    all_relayable-All (node k).is_relayable cfg.relayable
                        (ap (all_relayable (node k).is_relayable) (sym listed) ∙ all),
                  ),
                )))
      ]
    ]

sleep-IsListed : (cfg : BootConfig) (a : ℕ) (u : Boot) → IsListed cfg u → IsListed cfg (sleep a u)
unfolding sleep
sleep-IsListed cfg a u l = l

wiring_read-IsListed :
    (cfg : BootConfig) (node : NodeReads) (o : Option Text) (u : Boot)
    → IsListed cfg u
    → IsListed cfg (left_by (wiring_read cfg node o u))
unfolding no_wallet with_engine
wiring_read-IsListed cfg node o u l =
    wiring_read-keeps cfg (λ (x : Boot). x.selectors) (λ s. refl) (λ m s. refl) node o u ∙ l

verify_wiring-WalletWired :
    (cfg : BootConfig) (node : ℕ → NodeReads) (s s' : Boot)
    → IsListed cfg s
    → verify_wiring cfg node boot_fuel 0 s ≡ some s'
    → WalletWired cfg node s'
unfolding verify_wiring try_wiring
verify_wiring-WalletWired cfg node s s' listed h =
    retried-result (try_wiring cfg node) no_wallet (IsListed cfg) (WalletWired cfg node)
      (λ a u l. wiring_read-IsListed cfg (node a) (node a).destination u l) (sleep-IsListed cfg)
      (λ a u l. wiring_read-WalletWired cfg node a (node a).destination u refl l)
      (λ u l. no_wallet-WalletWired cfg node u) boot_fuel 0 s listed h

-- A field that neither the resolution relay nor sleeping touches.
module _ (cfg : BootConfig) (node : ℕ → NodeReads) {A : Type 0} (f : Boot → A)
    (set : (o : Option (Text × Text)) (s : Boot) → f (record s { resolution = o }) ≡ f s)
    (slept : (a : ℕ) (s : Boot) → f (sleep a s) ≡ f s) where
  ended : (o : Attempt) (s : Boot) → f (left_by o) ≡ f s → Finished (λ u. f u ≡ f s) o
  unfolding Finished left_by
  ended (done u) s h = h
  ended (threw u) s h = tt

  verify_resolution_for-keeps :
      (o : Option Text) (s s' : Boot)
      → verify_resolution_for cfg node o boot_fuel 0 s ≡ some s'
      → f s' ≡ f s
  unfolding verify_resolution_for try_resolution keep_boot
  verify_resolution_for-keeps none s s' h = ap f (sym (some_inj h))
  verify_resolution_for-keeps (some forwarder) s s' h =
      let read : (a : ℕ) (u : Boot) → f (left_by (try_resolution cfg forwarder node a u)) ≡ f u =
        λ a u. resolution_read-keeps cfg f set (node a) forwarder (node a).destination u in
      retried-result (try_resolution cfg forwarder node) keep_boot (λ u. f u ≡ f s) (λ u. f u ≡ f s)
        (λ a u i. read a u ∙ i) (λ a u i. slept a u ∙ i) (λ a u i. ended _ s (read a u ∙ i))
        (λ u i. i) boot_fuel 0 s refl h

-- The fields of a service that was not started.
abbrev pub unbooted : Boot
unbooted = record {
  rpc = false;
  wallet = false;
  engine = none;
  permit_spenders = [];
  selectors = [];
  resolution = none;
  resolution_selectors = [];
  slept = 0;
}

verified_then :
    (cfg : BootConfig) (node resolution_node : ℕ → NodeReads) (o : Option Boot) (s' : Boot)
    → and_then o (λ t. verify_resolution_wiring cfg resolution_node boot_fuel 0 t) ≡ some s'
    → ((t : Boot) → o ≡ some t → WalletWired cfg node t)
    → WalletWired cfg node s'
unfolding and_then verify_resolution_wiring sleep
verified_then cfg node resolution_node none s' h wired = absurd (cc)
verified_then cfg node resolution_node (some t) s' h wired = λ on.
    let kept : (A : Type 0) (f : Boot → A)
        → ((x : Option (Text × Text)) (s : Boot) → f (record s { resolution = x }) ≡ f s)
        → ((a : ℕ) (s : Boot) → f (sleep a s) ≡ f s)
        → f s' ≡ f t =
      λ A f set slept.
        verify_resolution_for-keeps cfg resolution_node f set slept cfg.resolution_forwarder t s'
          h in
    let (k, market, engine, spenders, selectors, rest) =
      wired t refl (sym (kept Bool (λ (x : Boot). x.wallet) (λ o s. refl) (λ a s. refl)) ∙ on) in
    (
      k,
      market,
      kept (Option Text) (λ (x : Boot). x.engine) (λ o s. refl) (λ a s. refl) ∙ engine,
      kept (List Text) (λ (x : Boot). x.permit_spenders) (λ o s. refl) (λ a s. refl) ∙ spenders,
      kept (List Text) (λ (x : Boot). x.selectors) (λ o s. refl) (λ a s. refl) ∙ selectors,
      rest,
    )

third : (a b c : Bool) → (a && (b && c)) ≡ true → c ≡ true
third false b c h = absurd (cc)
third true false c h = absurd (cc)
third true true c h = h

-- A relay that is enabled after its boot has an engine that the forwarder named in one attempt, not
-- the null address and the configured engine if one is configured; the forwarder relays every
-- selector that the service lets through, and approvals may name that engine and Permit2 only.
pub on_module_init-IsWired :
    (cfg : BootConfig) (node resolution_node : ℕ → NodeReads) (s' : Boot)
    → on_module_init cfg node resolution_node unbooted ≡ some s'
    → is_enabled cfg s' ≡ true
    → IsWired cfg node s'
unfolding on_module_init connected is_enabled
on_module_init-IsWired cfg node resolution_node s' h on =
    boot_cases (cfg.enabled && cfg.has_endpoints) h
  where
    wallet_on : s'.wallet ≡ true
    wallet_on = third cfg.enabled s'.rpc s'.wallet on

    boot_cases :
        (b : Bool)
        → (if b
            then and_then
                (verify_wiring cfg node boot_fuel 0 (connected cfg unbooted))
                (λ t. verify_resolution_wiring cfg resolution_node boot_fuel 0 t)
            else some unbooted)
          ≡ some s'
        → IsWired cfg node s'
    boot_cases true h =
        verified_then cfg node resolution_node _ s' h
          (λ t e. verify_wiring-WalletWired cfg node _ t refl e) wallet_on
    boot_cases false h = absurd (cc (ap (λ (x : Boot). x.wallet) (some_inj h), wallet_on))
