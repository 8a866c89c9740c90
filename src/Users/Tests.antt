-- ===== src/Users/Tests.antt =====
-- Two users, of whom one binds an address that the other asks for too.
use numera_backend.Prelude.{
  true, ◌≡◌, refl, none, some, List, [], ◌∷◌, Text, codes, text_eq, text_key, err,
}
use numera_backend.Store.{Store}
use numera_backend.Store.Functions.{function_store}
use numera_backend.Users.{UserRow}
use numera_backend.Users.Identity.{
  IdentityState, bind, bind_all, owns, taken, already_bound, WriteAnswer, written, refused,
}
use numera_backend.Users.Identity.Bindings.{owns-bind_all}

abbrev users : Store Text UserRow
users = function_store

abbrev unbound : UserRow
unbound = record {
  address = codes "0xa";
  display_name = none;
  avatar_url = none;
  created_at = 1;
  last_login_at = 1;
  unlink_address = none;
}

abbrev fresh : IdentityState users
fresh = record { user_rows = λ id. some unbound }

abbrev requests : List (Text × (Text × WriteAnswer))
requests =
    (codes "u", (codes "unl1", written))
    ∷ (codes "v", (codes "unl1", refused))
    ∷ (codes "u", (codes "unl2", written))
    ∷ []

abbrev bound : IdentityState users
bound = (bind (codes "u") (codes "unl1") written fresh).1

other_refused : (bind (codes "v") (codes "unl1") refused bound).0 ≡ err taken
unfolding bind numera_backend.Store.Functions.put text_eq
other_refused = refl

rebinding_refused : (bind (codes "u") (codes "unl2") written bound).0 ≡ err already_bound
unfolding bind numera_backend.Store.Functions.put text_eq
rebinding_refused = refl

u_owns : owns (codes "u") (codes "unl1") bound ≡ true
unfolding owns bind numera_backend.Store.Functions.put text_eq
u_owns = refl

owns-bind_all_example : owns (codes "u") (codes "unl1") (bind_all requests bound) ≡ true
owns-bind_all_example = owns-bind_all requests (codes "u") (codes "unl1") bound u_owns
