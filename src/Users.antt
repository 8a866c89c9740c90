-- ===== src/Users.antt =====
-- The table of users by id, src/users/users.service.ts: `getById`, `updateProfile` and
-- `getPublicByAddress`. Its unique column `unlinkAddress` is written by Users/Identity.
pub mod Identity
mod Tests
use numera_backend.Prelude.{ℕ, Bool, Option, none, some, Text, Result, ok, err, ensure, to_lower}
use numera_backend.Store.{Store}

pub record UserRow : Type 0 where
  pub address : Text
  pub display_name : Option Text
  pub avatar_url : Option Text
  pub created_at : ℕ
  pub last_login_at : ℕ
  pub unlink_address : Option Text

pub record Profile : Type 0 where
  pub id : Text
  pub address : Text
  pub display_name : Option Text
  pub avatar_url : Option Text

-- `PublicProfile`, which has no id.
pub record PublicProfile : Type 0 where
  pub address : Text
  pub display_name : Option Text
  pub avatar_url : Option Text
  pub created_at : ℕ

-- `UpdateProfileDto`; a field left out is left as it is.
pub record UpdateProfile : Type 0 where
  pub display_name : Option Text
  pub avatar_url : Option Text

pub data UserError : Type 0 where
  not_found invalid_address : UserError
  -- An error of the database.
  failed : UserError

unfoldable pub changed : Option Text → Option Text → Option Text
changed none old = old
changed (some new) old = some new

unfoldable pub with_profile : UpdateProfile → UserRow → UserRow
with_profile dto u = record u {
  display_name = changed dto.display_name u.display_name;
  avatar_url = changed dto.avatar_url u.avatar_url;
}

unfoldable pub profile_of : Text → UserRow → Profile
profile_of id u = record {
  id = id;
  address = u.address;
  display_name = u.display_name;
  avatar_url = u.avatar_url;
}

unfoldable pub public_profile_of : UserRow → PublicProfile
public_profile_of u = record {
  address = u.address;
  display_name = u.display_name;
  avatar_url = u.avatar_url;
  created_at = u.created_at;
}

unfoldable pub profile_found : Text → Option UserRow → Result UserError (Profile × ℕ × ℕ)
unfolding profile_of
profile_found id none = err not_found
profile_found id (some u) = ok (profile_of id u, u.created_at, u.last_login_at)

unfoldable pub public_found : Option UserRow → Result UserError PublicProfile
unfolding public_profile_of
public_found none = err not_found
public_found (some u) = ok (public_profile_of u)

-- `getPublicByAddress`, with `isAddress` and the query by the unique address.
unfoldable pub get_public_by_address :
    (Text → Bool) → (Text → Option UserRow) → Text → Result UserError PublicProfile
unfolding ensure public_found
get_public_by_address is_address by_address raw =
    ensure (is_address raw) invalid_address (public_found (by_address (to_lower raw)))

module _ (users : Store Text UserRow) where
  unfoldable pub get_by_id : users.Table → Text → Result UserError (Profile × ℕ × ℕ)
  unfolding profile_found
  get_by_id t id = profile_found id (users.find t id)

  unfoldable pub update_profile_row :
      users.Table → Text → UpdateProfile → Option UserRow → Result UserError Profile × users.Table
  unfolding with_profile profile_of
  update_profile_row t id dto none = (err failed, t)
  update_profile_row t id dto (some u) =
      let v = with_profile dto u in (ok (profile_of id v), users.write t id v)

  -- `update` throws on a user that is missing.
  unfoldable pub update_profile :
      users.Table → Text → UpdateProfile → Result UserError Profile × users.Table
  unfolding update_profile_row
  update_profile t id dto = update_profile_row t id dto (users.find t id)
