-- ===== src/Auth/Login.antt =====
-- Wallet sign-in, src/auth/auth.service.ts: `requestNonce`, `verify`, `refresh` and `logout`, with
-- the address helpers of src/common/utils/address.ts. Nonces are Redis keys with a lifetime. The
-- one table of users is read by id by the tokens, and by its other unique key, the address, here:
-- reads and writes by address are the database's, and an argument.
pub mod Single
pub mod Completes
mod Tests
use numera_backend.Prelude.{
  ℕ, ◌++◌, Bool, true, false, not, ◌&&◌, Option, none, some, [], ◌∷◌, Text, codes, to_lower,
  text_eq, Result, ok, err, guarded,
}
use numera_backend.Store.{Store}
use numera_backend.Store.Expiring.{Expiring}
use numera_backend.Auth.Siwe.{SiweConfig, SiweTools, SiweReason, PreparedSiwe, prepare, verify_siwe}
use numera_backend.Auth.Tokens.{
  Session, User, TokenPair, AuthConfig, Moment, AuthError, Meta, AuthState, Rotated, issue, rotate,
  revoke,
}

pub record LoginConfig : Type 0 where
  pub auth : AuthConfig
  pub siwe : SiweConfig
  pub tools : SiweTools
  -- `isAddress(value, { strict: false })` and `getAddress`.
  pub is_address : Text → Bool
  pub get_address : Text → Text

-- What a call takes from its moment: the tokens' part, `generateSiweNonce` and the id of a new user.
pub record LoginMoment : Type 0 where
  pub tokens : Moment
  pub open tokens use *
  pub new_nonce : Text
  pub new_id : Text

-- A row of the table of users, with what a sign-in reads of it.
pub record Account : Type 0 where
  pub id : Text
  pub address : Text
  pub display_name : Option Text
  pub last_login_at : ℕ

pub record LoginResult : Type 0 where
  pub is_new_user : Bool
  pub id : Text
  pub address : Text
  pub display_name : Option Text
  pub tokens : TokenPair

pub data LoginError : Type 0 where
  invalid_address nonce_invalid : LoginError
  signature_failed : SiweReason → LoginError
  token_error : AuthError → LoginError
  -- An error of the database.
  failed : LoginError

-- `findUnique`, `update` and `create` of the table of users by its unique address.
pub record ByAddress (Table : Type 0) : Type 0 where
  pub find_account : Table → Text → Option Account
  pub update_account : Table → Text → Account → Table
  pub create_account : Table → Account → Table

-- The tables, and the keys of nonces.
pub record LoginDb : Type 1 where
  pub nonces : Expiring Text
  pub sessions : Store Text Session
  pub users : Store Text User
  pub by_address : ByAddress users.Table

module _ (D : LoginDb) where
  pub record LoginState : Type 0 where
    pub nonce_keys : D.nonces.Table
    pub auth : AuthState D.sessions D.users

abbrev pub LoginOutcome : Type 0 → Type 0 → Type 0
LoginOutcome S A = Result LoginError A × S

unfoldable pub nonce_key : Text → Text
nonce_key address = codes "auth:nonce:" ++ address

-- `normalizeAddress`, which throws on a text that is no address.
unfoldable pub normalize_address : LoginConfig → Text → Option Text
normalize_address cfg raw = elim (cfg.is_address raw) [ true ↦ some (to_lower raw) | false ↦ none ]

-- `stored && stored === nonce`.
unfoldable pub accepts_nonce : Option Text → Text → Bool
accepts_nonce none given = false
accepts_nonce (some []) given = false
accepts_nonce (some (c ∷ cs)) given = text_eq (c ∷ cs) given

unfoldable pub login_result : Bool → Account → TokenPair → LoginResult
login_result is_new a tokens = record {
  is_new_user = is_new;
  id = a.id;
  address = a.address;
  display_name = a.display_name;
  tokens = tokens;
}

unfoldable pub new_account : LoginMoment → Text → Account
new_account env address = record {
  id = env.new_id;
  address = address;
  display_name = none;
  last_login_at = env.now;
}

module _ {D : LoginDb} where
  unfoldable pub request_for :
      LoginConfig
      → LoginMoment
      → Option Text
      → LoginState D
      → LoginOutcome (LoginState D) PreparedSiwe
  unfolding prepare
  request_for cfg env none s = (err invalid_address, s)
  request_for cfg env (some address) s =
      let prepared = prepare cfg.siwe cfg.tools env.now env.new_nonce (cfg.get_address address) in
      (
        ok prepared,
        record s {
          nonce_keys =
              D.nonces.set_ex s.nonce_keys env.now (nonce_key address) prepared.nonce
                cfg.siwe.nonce_ttl_seconds;
        },
      )

  unfoldable pub request_nonce :
      LoginConfig → LoginMoment → Text → LoginState D → LoginOutcome (LoginState D) PreparedSiwe
  unfolding request_for normalize_address
  request_nonce cfg env raw s = request_for cfg env (normalize_address cfg raw) s

  -- The pair of `tokens.issue`, in the answer of `verify`.
  unfoldable pub with_tokens :
      Bool
      → Account
      → LoginState D
      → Result AuthError TokenPair × AuthState D.sessions D.users
      → LoginOutcome (LoginState D) LoginResult
  unfolding login_result
  with_tokens is_new a s (err e, auth) = (err (token_error e), record s { auth = auth })
  with_tokens is_new a s (ok tokens, auth) =
      (ok (login_result is_new a tokens), record s { auth = auth })

  unfoldable pub issue_for :
      LoginConfig
      → LoginMoment
      → Meta
      → Bool
      → Account
      → LoginState D
      → LoginOutcome (LoginState D) LoginResult
  unfolding with_tokens issue
  issue_for cfg env meta is_new a s =
      with_tokens is_new a s (issue cfg.auth env.tokens a.id a.address meta s.auth)

  unfoldable pub add_user : Account → LoginState D → LoginState D
  add_user a s = record s {
    auth = record s.auth { user_rows = D.by_address.create_account s.auth.user_rows a };
  }

  -- `user.create`, which throws on an id that is taken, and the tokens.
  unfoldable pub create_user :
      LoginConfig
      → LoginMoment
      → Meta
      → Account
      → Option User
      → LoginState D
      → LoginOutcome (LoginState D) LoginResult
  unfolding issue_for add_user
  create_user cfg env meta a (some taken) s = (err failed, s)
  create_user cfg env meta a none s = issue_for cfg env meta true a (add_user a s)

  unfoldable pub touch_user : Text → Account → LoginState D → LoginState D
  touch_user address a s = record s {
    auth = record s.auth { user_rows = D.by_address.update_account s.auth.user_rows address a };
  }

  -- `existing ? user.update(…) : user.create(…)`, then the tokens.
  unfoldable pub sign_in :
      LoginConfig
      → LoginMoment
      → Meta
      → Text
      → Option Account
      → LoginState D
      → LoginOutcome (LoginState D) LoginResult
  unfolding issue_for create_user touch_user new_account
  sign_in cfg env meta address (some a) s =
      let a1 : Account = record a { last_login_at = env.now } in
      issue_for cfg env meta false a1 (touch_user address a1 s)
  sign_in cfg env meta address none s =
      create_user cfg env meta (new_account env address) (D.users.find s.auth.user_rows env.new_id)
        s

  -- The nonce is consumed before the user is read.
  unfoldable pub consume_nonce : Text → LoginState D → LoginState D
  consume_nonce address s = record s { nonce_keys = D.nonces.del s.nonce_keys (nonce_key address) }

  unfoldable pub verify_nonce :
      LoginConfig
      → LoginMoment
      → Meta
      → Text
      → Text
      → LoginState D
      → LoginOutcome (LoginState D) LoginResult
  unfolding guarded sign_in consume_nonce accepts_nonce nonce_key
  verify_nonce cfg env meta address nonce s =
      guarded (accepts_nonce (D.nonces.get s.nonce_keys env.now (nonce_key address)) nonce)
        nonce_invalid
        (sign_in cfg env meta address (D.by_address.find_account s.auth.user_rows address)
          (consume_nonce address s))
        s

  unfoldable pub verify_signed :
      LoginConfig
      → LoginMoment
      → Meta
      → Result SiweReason (Text × Text)
      → LoginState D
      → LoginOutcome (LoginState D) LoginResult
  unfolding verify_nonce
  verify_signed cfg env meta (err reason) s = (err (signature_failed reason), s)
  verify_signed cfg env meta (ok (address, given)) s = verify_nonce cfg env meta address given s

  unfoldable pub verify :
      LoginConfig
      → LoginMoment
      → Text
      → Text
      → Meta
      → LoginState D
      → LoginOutcome (LoginState D) LoginResult
  unfolding verify_signed verify_siwe
  verify cfg env message signature meta s =
      verify_signed cfg env meta (verify_siwe cfg.siwe cfg.tools env.now message signature) s

  unfoldable pub refreshed :
      LoginState D
      → Result AuthError Rotated × AuthState D.sessions D.users
      → LoginOutcome (LoginState D) TokenPair
  refreshed s (err e, auth) = (err (token_error e), record s { auth = auth })
  refreshed s (ok r, auth) = (ok r.tokens, record s { auth = auth })

  unfoldable pub refresh :
      LoginConfig → LoginMoment → Text → Meta → LoginState D → LoginOutcome (LoginState D) TokenPair
  unfolding refreshed rotate
  refresh cfg env refresh_token meta s =
      refreshed s (rotate cfg.auth env.tokens refresh_token meta s.auth)

  unfoldable pub logout : LoginMoment → Text → LoginState D → LoginState D
  unfolding revoke
  logout env refresh_token s = record s { auth = revoke env.tokens refresh_token s.auth }
