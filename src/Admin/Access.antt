-- ===== src/Admin/Access.antt =====
-- Access by the roles that the contracts grant, src/admin/admin-access.service.ts with the roles of
-- src/admin/roles.ts: `contractsFor`, `hasRole`, `hasAnyRole` and `rolesOf`. What a contract answers
-- at a moment is an argument; the cache is Redis keys with a lifetime.
pub mod Keys
pub mod Fresh
mod Tests
use numera_backend.Prelude.{
  ℕ, Bool, true, false, Option, none, some, List, [], ◌∷◌, ◌++◌, Text, codes, to_lower, text_eq,
  any, if◌then◌else◌,
}
use numera_backend.Store.Expiring.{Expiring}

pub data Role : Type 0 where
  default_admin market_creator resolver arbitrator blocklist pauser fee_manager curator : Role

pub data RoleContractGroup : Type 0 where
  engines factory resolvers blocklists every : RoleContractGroup

unfoldable pub role_source : Role → RoleContractGroup
role_source default_admin = every
role_source market_creator = engines
role_source pauser = engines
role_source fee_manager = engines
role_source resolver = resolvers
role_source arbitrator = resolvers
role_source blocklist = blocklists
role_source curator = factory

unfoldable pub role_name : Role → Text
role_name default_admin = codes "DEFAULT_ADMIN"
role_name market_creator = codes "MARKET_CREATOR"
role_name resolver = codes "RESOLVER"
role_name arbitrator = codes "ARBITRATOR"
role_name blocklist = codes "BLOCKLIST"
role_name pauser = codes "PAUSER"
role_name fee_manager = codes "FEE_MANAGER"
role_name curator = codes "CURATOR"

-- `Object.keys(ProtocolRole)`.
abbrev pub protocol_roles : List Role
protocol_roles =
    default_admin ∷ market_creator ∷ resolver ∷ arbitrator ∷ blocklist ∷ pauser ∷ fee_manager
    ∷ curator ∷ []

pub record Addresses : Type 0 where
  pub ls_lmsr : Option Text
  pub optimistic_resolver : Option Text
  pub trusted_resolver : Option Text
  pub factory : Option Text
  pub blocklist : Option Text

pub record AccessConfig : Type 0 where
  pub addresses : Addresses
  -- `ADMIN_DEV_ADDRESSES`, in lower case.
  pub dev_addresses : List Text

-- The chain client: whether it is ready, and `hasRole` of a contract at a moment, none where the
-- read throws.
pub record RoleReads : Type 0 where
  pub is_ready : Bool
  pub read_role : ℕ → Text → Role → Text → Option Bool

abbrev pub cache_ttl_seconds : ℕ
cache_ttl_seconds = 30

-- `pick.filter((x) => x !== null)`.
unfoldable pub configured : List (Option Text) → List Text
configured [] = []
configured (none ∷ xs) = configured xs
configured (some a ∷ xs) = a ∷ configured xs

unfoldable pub group_addresses : Addresses → RoleContractGroup → List (Option Text)
group_addresses a engines = a.ls_lmsr ∷ []
group_addresses a resolvers = a.optimistic_resolver ∷ a.trusted_resolver ∷ []
group_addresses a factory = a.factory ∷ []
group_addresses a blocklists = a.blocklist ∷ []
group_addresses a every =
    a.ls_lmsr ∷ a.optimistic_resolver ∷ a.trusted_resolver ∷ a.factory ∷ a.blocklist ∷ []

unfoldable pub contracts_for : AccessConfig → RoleContractGroup → List Text
unfolding configured group_addresses
contracts_for cfg group = configured (group_addresses cfg.addresses group)

unfoldable pub is_default_admin : Role → Bool
is_default_admin default_admin = true
is_default_admin _ = false

-- One turn of the loop, with the answers to its two reads; one that throws ends it.
unfoldable pub grants_with : Bool → Option Bool → Option Bool → Bool
grants_with is_admin_role none admin = false
grants_with is_admin_role (some true) admin = true
grants_with true (some false) admin = false
grants_with false (some false) none = false
grants_with false (some false) (some held) = held

unfoldable pub grants : RoleReads → ℕ → Role → Text → Text → Bool
unfolding grants_with is_default_admin
grants chain now role account contract =
    grants_with (is_default_admin role) (chain.read_role now contract role account)
      (chain.read_role now contract default_admin account)

-- The loop over the contracts: whether one of them grants the role at a moment.
unfoldable pub granted : AccessConfig → RoleReads → ℕ → Role → Text → Bool
unfolding grants contracts_for role_source
granted cfg chain now role account =
    any (grants chain now role account) (contracts_for cfg (role_source role))

unfoldable pub role_key : Role → Text → Text
role_key role account = codes "admin:role:" ++ (role_name role ++ (codes ":" ++ account))

unfoldable pub includes_address : List Text → Text → Bool
includes_address [] account = false
includes_address (a ∷ rest) account =
    let later = includes_address rest account in if text_eq a account then true else later

-- `if (await …) return true`, and what follows.
unfoldable pub or_any : {S : Type 0} → Bool × S → (S → Bool × S) → Bool × S
or_any (true, t) rest = (true, t)
or_any (false, t) rest = rest t

unfoldable pub keep_if : {S : Type 0} → Role → Bool × S → (S → List Role × S) → List Role × S
keep_if role (true, t) rest = let more = rest t in (role ∷ more.0, more.1)
keep_if role (false, t) rest = rest t

module _ (cache : Expiring Bool) where
  unfoldable pub role_cached :
      AccessConfig → RoleReads → ℕ → Role → Text → Option Bool → cache.Table → Bool × cache.Table
  unfolding granted role_key
  role_cached cfg chain now role account (some held) t = (held, t)
  role_cached cfg chain now role account none t =
      let held = granted cfg chain now role account in
      (held, cache.set_ex t now (role_key role account) held cache_ttl_seconds)

  -- `hasRole`, of an account in lower case.
  unfoldable pub has_role_on :
      AccessConfig → RoleReads → ℕ → Role → Text → Bool → cache.Table → Bool × cache.Table
  unfolding role_cached includes_address role_key
  has_role_on cfg chain now role account false t = (includes_address cfg.dev_addresses account, t)
  has_role_on cfg chain now role account true t =
      role_cached cfg chain now role account (cache.get t now (role_key role account)) t

  unfoldable pub has_role :
      AccessConfig → RoleReads → ℕ → Text → Role → cache.Table → Bool × cache.Table
  unfolding has_role_on
  has_role cfg chain now address role t =
      has_role_on cfg chain now role (to_lower address) chain.is_ready t

  -- `hasAnyRole`: the roles are asked in order, up to the first that is held.
  unfoldable pub has_any_role :
      AccessConfig → RoleReads → ℕ → Text → List Role → cache.Table → Bool × cache.Table
  unfolding or_any has_role
  has_any_role cfg chain now address [] t = (false, t)
  has_any_role cfg chain now address (role ∷ rest) t =
      or_any (has_role cfg chain now address role t) (has_any_role cfg chain now address rest)

  unfoldable pub held_among :
      AccessConfig → RoleReads → ℕ → Text → List Role → cache.Table → List Role × cache.Table
  unfolding keep_if has_role
  held_among cfg chain now address [] t = ([], t)
  held_among cfg chain now address (role ∷ rest) t =
      keep_if role (has_role cfg chain now address role t) (held_among cfg chain now address rest)

  -- `rolesOf`, whose reads are of separate keys and are taken in order.
  unfoldable pub roles_of :
      AccessConfig → RoleReads → ℕ → Text → cache.Table → List Role × cache.Table
  unfolding held_among
  roles_of cfg chain now address t = held_among cfg chain now address protocol_roles t
