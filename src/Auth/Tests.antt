-- ===== src/Auth/Tests.antt =====
-- One user with one session, refreshed twice.
use numera_backend.Prelude.{
  false, ◌≡◌, refl, none, some, Text, codes, ok, err, if◌then◌else◌, text_eq, text_key,
}
use numera_backend.Store.{Store}
use numera_backend.Store.Functions.{function_store}
use numera_backend.Auth.Tokens.{
  Payload, Meta, Session, User, TokenPair, AuthConfig, Moment, already_used, AuthState, Rotated,
  rotate, is_live,
}
use numera_backend.Auth.Tokens.Rotation.{rotate-IsRotation, IsRotation}
use numera_backend.Auth.Tokens.Reuse.{rotate-reused}

abbrev sessions : Store Text Session
sessions = function_store

abbrev users : Store Text User
users = function_store

abbrev config : AuthConfig
config = record {
  access_secret = codes "a";
  refresh_secret = codes "b";
  access_ttl = codes "15m";
  refresh_ttl = codes "30d";
}

-- A refresh token is its session's id here, and its hash too.
abbrev moment : Moment
moment = record {
  sign_access = λ user address. user;
  sign_refresh = λ user id. id;
  verify_refresh =
      λ token. some (record { sub = codes "u"; jti = some token; kind = codes "refresh" });
  uuid = codes "s2";
  hash_token = λ token. token;
  now = 50;
}

abbrev later : Moment
later = record moment { now = 60; uuid = codes "s3" }

abbrev no_meta : Meta
no_meta = record { user_agent = none; ip = none }

abbrev session : Session
session = record {
  user_id = codes "u";
  token_hash = codes "s1";
  user_agent = none;
  ip = none;
  expires_at = 100;
  revoked_at = none;
}

abbrev stored : AuthState sessions users
stored = record {
  session_rows = λ id. if text_eq id (codes "s1") then some session else none;
  user_rows = λ id. some (record { address = codes "0xa" });
}

abbrev rotated : Rotated
rotated = record {
  tokens = record {
    access_token = codes "u";
    refresh_token = codes "s2";
    access_expires_in = codes "15m";
    refresh_expires_in = codes "30d";
  };
  user_id = codes "u";
  address = codes "0xa";
}

abbrev after_rotation : AuthState sessions users
after_rotation = (rotate config moment (codes "s1") no_meta stored).1

went_through : rotate config moment (codes "s1") no_meta stored ≡ (ok rotated, after_rotation)
unfolding rotate text_eq numera_backend.Auth.Tokens.issue numera_backend.Store.Functions.put
went_through = refl

rotate-IsRotation_example :
    IsRotation config moment no_meta (codes "s1") rotated stored after_rotation
rotate-IsRotation_example =
    rotate-IsRotation config moment no_meta (codes "s1") stored after_rotation rotated went_through

abbrev new_session : Session
new_session = record {
  user_id = codes "u";
  token_hash = codes "s2";
  user_agent = none;
  ip = none;
  expires_at = 2_592_000_050;
  revoked_at = some 60;
}

revoked_then :
    sessions.find
      (rotate config later (codes "s1") no_meta after_rotation).1.session_rows
      (codes "s2")
    ≡ some new_session
unfolding rotate text_eq numera_backend.Auth.Tokens.issue numera_backend.Store.Functions.put
    numera_backend.Auth.Tokens.revoke_all_for_user numera_backend.Store.Functions.change_where
    numera_backend.Auth.Tokens.session_row is_live
revoked_then = refl

rotate-reused_example :
    ((rotate config later (codes "s1") no_meta after_rotation).0 ≡ err already_used)
    × (is_live (some 60) ≡ false)
rotate-reused_example =
    rotate-reused config moment later no_meta no_meta (codes "s1") stored after_rotation rotated
      (codes "s2") new_session went_through refl refl revoked_then refl
