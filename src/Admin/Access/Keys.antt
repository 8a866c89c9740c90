-- ===== src/Admin/Access/Keys.antt =====
-- A key of the cache names one role and one account.
use numera_backend.Prelude.{
  ◌≡◌, refl, ap, sym, ◌∙◌, Option, none, some, List, [], ◌∷◌, Text, codes, text_eq, drop,
  if◌then◌else◌,
}
use numera_backend.Admin.Access.{
  Role, default_admin, market_creator, resolver, arbitrator, blocklist, pauser, fee_manager,
  curator, role_name, role_key, protocol_roles,
}

before_colon : Text → Text
before_colon [] = []
before_colon (c ∷ cs) =
    let rest = before_colon cs in if text_eq (c ∷ []) (codes ":") then [] else c ∷ rest

after_colon : Text → Text
after_colon [] = []
after_colon (c ∷ cs) =
    let rest = after_colon cs in if text_eq (c ∷ []) (codes ":") then cs else rest

find_role : List Role → Text → Option Role
find_role [] t = none
find_role (r ∷ rest) t =
    let later = find_role rest t in if text_eq (role_name r) t then some r else later

-- What a key says.
read_key : Text → Option Role × Text
read_key t =
    let named = drop 11 t in (find_role protocol_roles (before_colon named), after_colon named)

read_key-role_key :
    (role : Role) (account : Text) → read_key (role_key role account) ≡ (some role, account)
unfolding read_key role_key role_name find_role before_colon after_colon text_eq
read_key-role_key default_admin account = refl
read_key-role_key market_creator account = refl
read_key-role_key resolver account = refl
read_key-role_key arbitrator account = refl
read_key-role_key blocklist account = refl
read_key-role_key pauser account = refl
read_key-role_key fee_manager account = refl
read_key-role_key curator account = refl

pub role_key-inj : (r r' : Role) (a a' : Text) → role_key r a ≡ role_key r' a' → (r ≡ r') × (a ≡ a')
role_key-inj r r' a a' h =
    both (sym (read_key-role_key r a) ∙ ap read_key h ∙ read_key-role_key r' a')
  where
    both : ◌≡◌ {A = Option Role × Text} (some r, a) (some r', a') → (r ≡ r') × (a ≡ a')
    both e = (cc, cc)
