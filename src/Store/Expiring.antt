-- ===== src/Store/Expiring.antt =====
-- Redis keys with a lifetime, as the services use them: `set` with `EX`, `get` and `del` of
-- `redis.client` and src/redis/redis.service.ts. The server is not code of the repository, so it is
-- an interface: what a read gives after a write, a deletion or the end of a lifetime. Moments are in
-- milliseconds, lifetimes in seconds.
use numera_backend.Prelude.{
  ℕ, ◌+◌, ◌*◌, ◌≤◌, ◌<◌, ◌≡◌, ◌≢◌, refl, ap, Option, none, some, Text, text_eq, text_eq_iff, ltb,
  arith, if◌then◌else◌,
}

pub record Expiring (V : Type 0) : Type 1 where
  pub Table : Type 0
  pub get : Table → ℕ → Text → Option V
  pub set_ex : Table → ℕ → Text → V → ℕ → Table
  pub del : Table → Text → Table
  pub get-set_ex_live :
      (t : Table) (k : Text) (v : V) (now ttl at : ℕ)
      → now ≤ at
      → at < now + ttl * 1000
      → get (set_ex t now k v ttl) at k ≡ some v
  pub get-set_ex_over :
      (t : Table) (k : Text) (v : V) (now ttl at : ℕ)
      → now + ttl * 1000 ≤ at
      → get (set_ex t now k v ttl) at k ≡ none
  pub get-set_ex_ne :
      (t : Table) (k j : Text) (v : V) (now ttl at : ℕ)
      → k ≢ j
      → get (set_ex t now k v ttl) at j ≡ get t at j
  pub get-del_self : (t : Table) (k : Text) (at : ℕ) → get (del t k) at k ≡ none
  pub get-del_ne : (t : Table) (k j : Text) (at : ℕ) → k ≢ j → get (del t k) at j ≡ get t at j

-- Values with the end of their lifetimes, in a function from keys. The tests run on it.
module _ {V : Type 0} where
  unfoldable pub live_value : ℕ → Option (V × ℕ) → Option V
  live_value at none = none
  live_value at (some (v, end)) = if ltb at end then some v else none

  unfoldable pub with_value :
      (Text → Option (V × ℕ)) → Text → Option (V × ℕ) → Text → Option (V × ℕ)
  with_value t k o j = if text_eq k j then o else t j

  pub with_value_self :
      (t : Text → Option (V × ℕ)) (k : Text) (o : Option (V × ℕ)) → with_value t k o k ≡ o
  unfolding with_value
  with_value_self t k o = rw ((text_eq_iff k k).1 refl)

  pub with_value_ne :
      (t : Text → Option (V × ℕ)) (k j : Text) (o : Option (V × ℕ))
      → k ≢ j
      → with_value t k o j ≡ t j
  unfolding with_value
  with_value_ne t k j o h = ground (arith, text_eq_iff k j)

  pub live_value_before : (v : V) (at end : ℕ) → at < end → live_value at (some (v, end)) ≡ some v
  unfolding live_value
  live_value_before v at end h = ground arith

  pub live_value_over : (v : V) (at end : ℕ) → end ≤ at → live_value at (some (v, end)) ≡ none
  unfolding live_value
  live_value_over v at end h = ground arith

  pub live_value_gone :
      (t : Text → Option (V × ℕ)) (k : Text) (at : ℕ) → live_value at (with_value t k none k) ≡ none
  unfolding live_value
  live_value_gone t k at = ap (live_value at) (with_value_self t k none)

  abbrev pub expiring_function : Expiring V
  expiring_function = record {
    Table = Text → Option (V × ℕ);
    get = λ t at k. live_value at (t k);
    set_ex = λ t now k v ttl. with_value t k (some (v, now + ttl * 1000));
    del = λ t k. with_value t k none;
    get-set_ex_live = λ t k v now ttl at after before.
        rw (with_value_self t k (some (v, now + ttl * 1000)))
          (live_value_before v at (now + ttl * 1000) before);
    get-set_ex_over = λ t k v now ttl at late.
        rw (with_value_self t k (some (v, now + ttl * 1000)))
          (live_value_over v at (now + ttl * 1000) late);
    get-set_ex_ne = λ t k j v now ttl at h.
        ap (live_value at) (with_value_ne t k j (some (v, now + ttl * 1000)) h);
    get-del_self = live_value_gone;
    get-del_ne = λ t k j at h. ap (live_value at) (with_value_ne t k j none h);
  }
