-- ===== src/Auth/Login/Tests.antt =====
-- A wallet that signs in for the first time, and presents the same message again.
use numera_backend.Prelude.{
  true, false, ◌≡◌, refl, none, some, Option, Text, codes, Result, ok, err, text_eq, text_key,
  arith, to_lower, if◌then◌else◌,
}
use numera_backend.Store.{Store}
use numera_backend.Store.Functions.{
  function_store, put, change_where, put_self, put_ne, change_where_lem,
}
use numera_backend.Store.Expiring.{expiring_function}
use numera_backend.Auth.Siwe.{SiweConfig, SiweTools}
use numera_backend.Auth.Siwe.Signed.{IsSigned}
use numera_backend.Auth.Tokens.{Meta, User}
use numera_backend.Auth.Login.{
  LoginConfig, LoginMoment, LoginResult, LoginError, Account, LoginDb, LoginState, request_nonce,
  verify, nonce_key,
}
use numera_backend.Auth.Login.Single.{verify-IsSigned, verify-again}
use numera_backend.Auth.Login.Completes.{prepared_for, verify-request_nonce}

-- A table of users with its two unique indexes: rows by id, and by address.
abbrev users_table : Store Text User
users_table = record {
  Table = (Text → Option User) × (Text → Option Account);
  find = λ t k. t.0 k;
  write = λ t k r. (put t.0 k r, t.1);
  update_many = λ t p u. (change_where t.0 p u, t.1);
  find-write_self = λ t k r. put_self t.0 k r;
  find-write_ne = λ t k j r h. put_ne t.0 k j r h;
  find-update_many = λ t p u j. change_where_lem t.0 p u j;
}

abbrev tables : LoginDb
tables = record {
  nonces = expiring_function;
  sessions = function_store;
  users = users_table;
  by_address = record {
    find_account = λ t address. t.1 address;
    update_account = λ t address a. (t.0, put t.1 address a);
    create_account = λ t a. (put t.0 a.id (record { address = a.address }), put t.1 a.address a);
  };
}

-- The message is its nonce here.
abbrev tools : SiweTools
tools = record {
  create_message = λ m. m.nonce;
  parse = λ message. some (record {
    address = some (codes "0xAb");
    nonce = some message;
    domain = some (codes "numera");
    chain_id = some 143;
    expiration_time = some 5010;
  });
  recover = λ message signature. some (codes "0xaB");
}

abbrev config : LoginConfig
config = record {
  auth = record {
    access_secret = codes "a";
    refresh_secret = codes "b";
    access_ttl = codes "15m";
    refresh_ttl = codes "30d";
  };
  siwe = record {
    domain = codes "numera";
    app_url = codes "numera";
    chain_id = 143;
    statement = codes "s";
    nonce_ttl_seconds = 5;
  };
  tools = tools;
  is_address = λ t. true;
  get_address = λ t. codes "0xAb";
}

abbrev moment : LoginMoment
moment = record {
  tokens = record {
    sign_access = λ user address. user;
    sign_refresh = λ user id. id;
    verify_refresh = λ token. none;
    uuid = codes "s1";
    hash_token = λ token. token;
    now = 10;
  };
  new_nonce = codes "n1";
  new_id = codes "u1";
}

abbrev later : LoginMoment
later = record moment { tokens = record moment.tokens { now = 4000; uuid = codes "s2" } }

abbrev no_meta : Meta
no_meta = record { user_agent = none; ip = none }

abbrev empty : LoginState tables
empty = record {
  nonce_keys = λ k. none;
  auth = record { session_rows = λ k. none; user_rows = (λ k. none, λ k. none) };
}

abbrev asked : LoginState tables
asked = (request_nonce config moment (codes "0xAB") empty).1

abbrev logged_in : LoginState tables
logged_in = (verify config later (codes "n1") (codes "x") no_meta asked).1

abbrev answer : LoginResult
answer = record {
  is_new_user = true;
  id = codes "u1";
  address = codes "0xab";
  display_name = none;
  tokens = record {
    access_token = codes "u1";
    refresh_token = codes "s2";
    access_expires_in = codes "15m";
    refresh_expires_in = codes "30d";
  };
}

went_through : verify config later (codes "n1") (codes "x") no_meta asked ≡ (ok answer, logged_in)
unfolding verify text_eq to_lower numera_backend.Prelude.to_lower_char
    numera_backend.Store.Expiring.live_value request_nonce numera_backend.Store.Expiring.with_value
went_through = refl

verify-IsSigned_example :
    (address : Text) × (nonce : Text) × (tables.nonces.get asked.nonce_keys 4000 (nonce_key address)
      ≡ some nonce)
    × (logged_in.nonce_keys ≡ tables.nonces.del asked.nonce_keys (nonce_key address))
    × IsSigned config.siwe tools 4000 (codes "n1") (codes "x") address nonce
verify-IsSigned_example =
    verify-IsSigned config later no_meta (codes "n1") (codes "x") asked logged_in answer
      went_through

verify-again_example :
    (e : LoginError) × (verify config later (codes "n1") (codes "y") no_meta logged_in
      ≡ (err e, logged_in))
verify-again_example =
    verify-again config later later no_meta no_meta (codes "n1") (codes "x") (codes "y") asked
      logged_in answer went_through

verify-request_nonce_example :
    ((request_nonce config moment (codes "0xAB") empty).0
      ≡ ok (prepared_for config moment (codes "0xAB")))
    × (r : LoginResult) × ((verify config later (codes "n1") (codes "x") no_meta asked).0 ≡ ok r)
unfolding numera_backend.Auth.Siwe.siwe_message numera_backend.Auth.Siwe.prepare to_lower
    numera_backend.Prelude.to_lower_char numera_backend.Auth.Siwe.present
verify-request_nonce_example =
    verify-request_nonce config moment later no_meta (codes "0xAB") (codes "0xaB") (codes "x") empty
      refl refl refl refl refl refl refl (ground arith) (ground arith) refl refl
