-- ===== src/Store/Functions.antt =====
-- A store that meets the interface: rows in a function from keys. The tests run on it.
use numera_backend.Prelude.{◌≡◌, ◌≢◌, refl, Bool, Option, some, arith, if◌then◌else◌, Eq}
use numera_backend.Store.{Store, map_option}

module _ {K R : Type 0} ⦃e : Eq K⦄ where
  unfoldable pub put : (K → Option R) → K → R → K → Option R
  put t k r j = if e.beq k j then some r else t j

  unfoldable pub change_where : (K → Option R) → (K → R → Bool) → (R → R) → K → Option R
  change_where t p u j = map_option (λ r. if p j r then u r else r) (t j)

  pub put_self : (t : K → Option R) (k : K) (r : R) → put t k r k ≡ some r
  unfolding put
  put_self t k r = rw ((e.beq_iff k k).1 refl)

  pub put_ne : (t : K → Option R) (k j : K) (r : R) → k ≢ j → put t k r j ≡ t j
  unfolding put
  put_ne t k j r h = ground (arith, e.beq_iff k j)

  pub change_where_lem :
      (t : K → Option R) (p : K → R → Bool) (u : R → R) (j : K)
      → change_where t p u j ≡ map_option (λ r. if p j r then u r else r) (t j)
  unfolding change_where
  change_where_lem t p u j = refl

  abbrev pub function_store : Store K R
  function_store = record {
    Table = K → Option R;
    find = λ t k. t k;
    write = put;
    update_many = change_where;
    find-write_self = put_self;
    find-write_ne = put_ne;
    find-update_many = change_where_lem;
  }
