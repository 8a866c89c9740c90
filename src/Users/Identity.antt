-- ===== src/Users/Identity.antt =====
-- The binding of a login to its shielded address, src/unlink/unlink-identity.service.ts: `bind` and
-- `owns`. What the database answers to the update of a row is an argument: it refuses an address that
-- another row holds, by the unique index of its own.
pub mod Bindings
use numera_backend.Prelude.{
  Bool, true, false, not, ◌&&◌, Option, none, some, List, [], ◌∷◌, Text, text_eq, Result, ok, err,
  guarded, if◌then◌else◌,
}
use numera_backend.Store.{Store}
use numera_backend.Users.{UserRow}

-- A `ConflictException` of another address bound to the user, one of an address that another user
-- holds, and any other throw.
pub data BindError : Type 0 where
  already_bound taken failed : BindError

module _ (users : Store Text UserRow) where
  pub record IdentityState : Type 0 where
    pub user_rows : users.Table

-- What the database does with the update of a row that is there: it writes the row, refuses it with
-- P2002 on the unique index, or fails otherwise.
pub data WriteAnswer : Type 0 where
  written refused broken : WriteAnswer

abbrev pub BindOutcome : Type 0 → Type 0
BindOutcome S = Result BindError (Unit {0}) × S

-- `user?.unlinkAddress`.
unfoldable pub unlink_of : Option UserRow → Option Text
unlink_of none = none
unlink_of (some u) = u.unlink_address

-- `bound && bound !== address`, where an empty text is no address.
unfoldable pub bound_elsewhere : Option Text → Text → Bool
bound_elsewhere none address = false
bound_elsewhere (some []) address = false
bound_elsewhere (some (c ∷ cs)) address = not (text_eq (c ∷ cs) address)

unfoldable pub is_bound_to : Option Text → Text → Bool
is_bound_to none address = false
is_bound_to (some bound) address = text_eq bound address

-- `!unlinkAddress`, and `Boolean(bound) && bound === address`.
unfoldable pub is_owner : Option Text → Text → Bool
is_owner bound [] = false
is_owner none (c ∷ cs) = false
is_owner (some bound) (c ∷ cs) = text_eq bound (c ∷ cs)

module _ {users : Store Text UserRow} where
  -- `update`, which throws on a missing row too, and the `catch` that names the unique index.
  unfoldable pub update_address :
      Text
      → Text
      → WriteAnswer
      → Option UserRow
      → IdentityState users
      → BindOutcome (IdentityState users)
  update_address id address answer none s = (err failed, s)
  update_address id address written (some u) s = (
    ok tt,
    record { user_rows = users.write s.user_rows id (record u { unlink_address = some address }) },
  )
  update_address id address refused (some u) s = (err taken, s)
  update_address id address broken (some u) s = (err failed, s)

  unfoldable pub bind_user :
      Text
      → Text
      → WriteAnswer
      → Option UserRow
      → IdentityState users
      → BindOutcome (IdentityState users)
  unfolding guarded update_address bound_elsewhere is_bound_to unlink_of
  bind_user id address answer o s =
      guarded (not (bound_elsewhere (unlink_of o) address)) already_bound
        (if is_bound_to (unlink_of o) address
          then (ok tt, s)
          else update_address id address answer o s)
        s

  unfoldable pub bind :
      Text → Text → WriteAnswer → IdentityState users → BindOutcome (IdentityState users)
  unfolding bind_user
  bind id address answer s = bind_user id address answer (users.find s.user_rows id) s

  unfoldable pub owns : Text → Text → IdentityState users → Bool
  unfolding is_owner unlink_of
  owns id address s = is_owner (unlink_of (users.find s.user_rows id)) address

  -- Requests to bind, in the order in which they are served, each with the database's answer.
  unfoldable pub bind_all :
      List (Text × (Text × WriteAnswer)) → IdentityState users → IdentityState users
  unfolding bind
  bind_all [] s = s
  bind_all ((id, (address, answer)) ∷ rest) s = bind_all rest (bind id address answer s).1
