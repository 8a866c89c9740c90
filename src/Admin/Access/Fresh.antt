-- ===== src/Admin/Access/Fresh.antt =====
-- The cached answer against the contracts': a granted role was granted within the last 30 seconds.
use numera_backend.Prelude.{
  ℕ, ◌+◌, ◌*◌, ◌≤◌, ◌<◌, ◌≡◌, ◌⊎◌, inl, inr, refl, sym, ap, ◌∙◌, Bool, true, false, Option, none,
  some, List, [], ◌∷◌, Text, to_lower, text_cases, Bool-cases, ltb, arith,
}
use numera_backend.Store.Expiring.{Expiring}
use numera_backend.Admin.Access.{
  Role, AccessConfig, RoleReads, cache_ttl_seconds, granted, role_key, role_cached, has_role_on,
  has_role, or_any, has_any_role,
}
use numera_backend.Admin.Access.Keys.{role_key-inj}

-- What the contracts answered at some moment of the last 30 seconds.
abbrev pub AnsweredLately : AccessConfig → RoleReads → ℕ → Role → Text → Bool → Type 0
AnsweredLately cfg chain now role account held =
    (t : ℕ) × (t ≤ now)
    × (now < t + cache_ttl_seconds * 1000)
    × (granted cfg chain t role account ≡ held)

-- A request of the guard: an address and the roles of which it needs one.
pub record Check : Type 0 where
  pub at : ℕ
  pub address : Text
  pub roles : List Role

abbrev pub IsOrdered : ℕ → List Check → ℕ → Type 0
IsOrdered from [] now = from ≤ now
IsOrdered from (c ∷ rest) now = (from ≤ c.at) × IsOrdered c.at rest now

module _ (cache : Expiring Bool) (cfg : AccessConfig) (chain : RoleReads) where
  unfoldable pub check_all : List Check → cache.Table → cache.Table
  unfolding has_any_role
  check_all [] t = t
  check_all (c ∷ rest) t = check_all rest (has_any_role cache cfg chain c.at c.address c.roles t).1

  -- Every entry that can still be read, now or later, is an answer of the contracts of the 30
  -- seconds before that moment.
  abbrev pub IsFresh : ℕ → cache.Table → Type 0
  IsFresh now t =
      (role : Role) (account : Text) (at : ℕ) (held : Bool)
      → now ≤ at
      → cache.get t at (role_key role account) ≡ some held
      → AnsweredLately cfg chain at role account held

  IsFresh-later : (now later : ℕ) (t : cache.Table) → now ≤ later → IsFresh now t → IsFresh later t
  IsFresh-later now later t h fresh role account at held after found =
      fresh role account at held (omega (arith, h, after)) found

  set_ex-IsFresh :
      (now : ℕ) (role : Role) (account : Text) (t : cache.Table)
      → IsFresh now t
      → IsFresh now (
          cache.set_ex t now
            (role_key role account)
            (granted cfg chain now role account)
            cache_ttl_seconds)
  set_ex-IsFresh now role account t fresh other account' at held after found =
      let key = role_key role account in
      let value = granted cfg chain now role account in
      elim (text_cases key (role_key other account')) [
        | inl e ↦
            let (r, a) = role_key-inj role other account account' e in
            let read =
              ap (cache.get (cache.set_ex t now key value cache_ttl_seconds) at) e ∙ found in
            elim (Bool-cases (ltb at (now + cache_ttl_seconds * 1000))) [
              | inl early ↦
                  let live =
                    cache.get-set_ex_live t key value now cache_ttl_seconds at after
                      (ground (arith, early)) in
                  (now, after, ground (arith, early), cc (r, a, live, read))
              | inr late ↦
                  let gone =
                    cache.get-set_ex_over t key value now cache_ttl_seconds at
                      (ground (arith, late)) in
                  absurd (cc (gone, read))
            ]
        | inr ne ↦ fresh other account' at held after (
            sym (
              cache.get-set_ex_ne t key (role_key other account') value now cache_ttl_seconds at ne)
            ∙ found)
      ]

  role_cached-IsFresh :
      (now : ℕ) (role : Role) (account : Text) (o : Option Bool) (t : cache.Table)
      → cache.get t now (role_key role account) ≡ o
      → IsFresh now t
      → AnsweredLately cfg chain now role account
          (role_cached cache cfg chain now role account o t).0
        × IsFresh now (role_cached cache cfg chain now role account o t).1
  unfolding role_cached
  role_cached-IsFresh now role account (some held) t found fresh =
      (fresh role account now held (omega arith) found, fresh)
  role_cached-IsFresh now role account none t found fresh =
      ((now, omega arith, omega arith, refl), set_ex-IsFresh now role account t fresh)

  has_role_on-IsFresh :
      (now : ℕ) (role : Role) (account : Text) (ready : Bool) (t : cache.Table)
      → ready ≡ true
      → IsFresh now t
      → AnsweredLately cfg chain now role account
          (has_role_on cache cfg chain now role account ready t).0
        × IsFresh now (has_role_on cache cfg chain now role account ready t).1
  unfolding has_role_on
  has_role_on-IsFresh now role account false t h fresh = absurd (cc)
  has_role_on-IsFresh now role account true t h fresh =
      role_cached-IsFresh now role account _ t refl fresh

  -- One of the roles was granted lately.
  abbrev pub SomeAnswered : ℕ → Text → List Role → Type 0
  SomeAnswered now address [] = ⊥
  SomeAnswered now address (role ∷ rest) =
      AnsweredLately cfg chain now role (to_lower address) true ⊎ SomeAnswered now address rest

  or_any-IsFresh :
      (now : ℕ) (address : Text) (role : Role) (rest : List Role) (o : Bool × cache.Table)
      (next : cache.Table → Bool × cache.Table)
      → AnsweredLately cfg chain now role (to_lower address) o.0
      → IsFresh now o.1
      → ((t : cache.Table)
          → IsFresh now t
          → ((next t).0 ≡ true → SomeAnswered now address rest) × IsFresh now (next t).1)
      → ((or_any o next).0 ≡ true → SomeAnswered now address (role ∷ rest))
        × IsFresh now (or_any o next).1
  unfolding or_any
  or_any-IsFresh now address role rest (true, t) next answered fresh later =
      (λ h. inl answered, fresh)
  or_any-IsFresh now address role rest (false, t) next answered fresh later =
      let (found, still) = later t fresh in (λ h. inr (found h), still)

  has_any_role-IsFresh :
      (now : ℕ) (address : Text) (roles : List Role) (t : cache.Table)
      → chain.is_ready ≡ true
      → IsFresh now t
      → ((has_any_role cache cfg chain now address roles t).0 ≡ true
          → SomeAnswered now address roles)
        × IsFresh now (has_any_role cache cfg chain now address roles t).1
  unfolding has_any_role has_role
  has_any_role-IsFresh now address [] t ready fresh = (λ h. absurd (cc), fresh)
  has_any_role-IsFresh now address (role ∷ rest) t ready fresh =
      let (answered, after) =
        has_role_on-IsFresh now role (to_lower address) chain.is_ready t ready fresh in
      or_any-IsFresh now address role rest (has_role cache cfg chain now address role t) _ answered
        after (λ u still. has_any_role-IsFresh now address rest u ready still)

  check_all-IsFresh :
      (checks : List Check) (from now : ℕ) (t : cache.Table)
      → IsOrdered from checks now
      → chain.is_ready ≡ true
      → IsFresh from t
      → IsFresh now (check_all checks t)
  unfolding check_all
  check_all-IsFresh [] from now t order ready fresh = IsFresh-later from now t order fresh
  check_all-IsFresh (c ∷ rest) from now t order ready fresh =
      let start = IsFresh-later from c.at t order.0 fresh in
      check_all-IsFresh rest c.at now _ order.1 ready
        (has_any_role-IsFresh c.at c.address c.roles t ready start).1

  -- With a chain client, whoever passes the check for any of several roles was granted one of them
  -- by the contracts at some moment of the last 30 seconds, after any earlier checks in the order of
  -- time from a cache without stale entries; the development allowlist grants nothing then.
  pub has_any_role-check_all :
      (checks : List Check) (from now : ℕ) (address : Text) (roles : List Role) (t : cache.Table)
      → IsOrdered from checks now
      → chain.is_ready ≡ true
      → IsFresh from t
      → (has_any_role cache cfg chain now address roles (check_all checks t)).0 ≡ true
      → SomeAnswered now address roles
  has_any_role-check_all checks from now address roles t order ready fresh h =
      (has_any_role-IsFresh now address roles (check_all checks t) ready
          (check_all-IsFresh checks from now t order ready fresh)).0
        h
