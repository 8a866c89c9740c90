-- ===== src/Admin/Access/Tests.antt =====
-- A role that is revoked on chain after a check.
use numera_backend.Prelude.{
  ℕ, Bool, true, false, ◌≡◌, refl, none, some, List, [], ◌∷◌, Text, codes, ltb, arith,
}
use numera_backend.Store.Expiring.{Expiring, expiring_function}
use numera_backend.Admin.Access.{pauser, resolver, AccessConfig, RoleReads, has_role, has_any_role}
use numera_backend.Admin.Access.Fresh.{
  SomeAnswered, IsFresh, Check, check_all, has_any_role-check_all,
}

abbrev cache : Expiring Bool
cache = expiring_function

abbrev config : AccessConfig
config = record {
  addresses = record {
    ls_lmsr = some (codes "e");
    optimistic_resolver = none;
    trusted_resolver = none;
    factory = none;
    blocklist = none;
  };
  dev_addresses = codes "0xd" ∷ [];
}

-- Every role is granted up to the moment 1000.
abbrev chain : RoleReads
chain = record { is_ready = true; read_role = λ now contract role account. some (ltb now 1000) }

abbrev empty : cache.Table
empty = λ k. none

abbrev checks : List Check
checks = record { at = 900; address = codes "0xA"; roles = pauser ∷ [] } ∷ []

empty-IsFresh : IsFresh cache config chain 0 empty
unfolding numera_backend.Store.Expiring.live_value
empty-IsFresh role account at held after found = absurd (cc (found))

still_granted :
    (has_any_role cache config chain 5000
      (codes "0xA")
      (resolver ∷ pauser ∷ [])
      (check_all cache config chain checks empty)).0
    ≡ true
unfolding has_any_role numera_backend.Store.Expiring.live_value check_all
    numera_backend.Store.Expiring.with_value numera_backend.Prelude.text_eq
    numera_backend.Admin.Access.role_name numera_backend.Prelude.to_lower
    numera_backend.Prelude.to_lower_char
still_granted = refl

refused_then :
    (has_role cache config chain 30900
      (codes "0xA")
      pauser
      (check_all cache config chain checks empty)).0
    ≡ false
unfolding has_role numera_backend.Store.Expiring.live_value check_all
    numera_backend.Store.Expiring.with_value numera_backend.Prelude.text_eq
    numera_backend.Admin.Access.role_name numera_backend.Prelude.to_lower
    numera_backend.Prelude.to_lower_char
refused_then = refl

has_any_role-check_all_example :
    SomeAnswered cache config chain 5000 (codes "0xA") (resolver ∷ pauser ∷ [])
has_any_role-check_all_example =
    has_any_role-check_all cache config chain checks 0 5000 (codes "0xA") (resolver ∷ pauser ∷ [])
      empty (ground arith, ground arith) refl empty-IsFresh still_granted
