-- ===== src/Auth/Tokens.antt =====
-- Token pairs and their sessions, src/auth/auth-tokens.service.ts: `issue`, `rotate`, `revoke`,
-- `revokeAllForUser` and `ttlToMs`. Signing, verifying and hashing are the packages', and times are
-- in milliseconds.
pub mod Rotation
pub mod Reuse
use numera_backend.Prelude.{
  ℕ, zero, suc, ◌+◌, ◌-◌, ◌*◌, Bool, true, false, not, ◌&&◌, Option, none, some, List, [], ◌∷◌,
  Text, codes, text_eq, ltb, leb, take, Result, ok, err, guarded, if◌then◌else◌,
}
use numera_backend.Store.{Store, map_option}

-- `RefreshPayload`, as a verified token may carry it; an access token has no `jti`.
pub record Payload : Type 0 where
  pub sub : Text
  pub jti : Option Text
  pub kind : Text

pub record Meta : Type 0 where
  pub user_agent : Option Text
  pub ip : Option Text

pub record Session : Type 0 where
  pub user_id : Text
  pub token_hash : Text
  pub user_agent : Option Text
  pub ip : Option Text
  pub expires_at : ℕ
  pub revoked_at : Option ℕ

pub record User : Type 0 where
  pub address : Text

pub record TokenPair : Type 0 where
  pub access_token : Text
  pub refresh_token : Text
  pub access_expires_in : Text
  pub refresh_expires_in : Text

pub record AuthConfig : Type 0 where
  pub access_secret : Text
  pub refresh_secret : Text
  pub access_ttl : Text
  pub refresh_ttl : Text

-- What a call takes from packages and from its moment: `signAsync` for an access token (of a user
-- and an address) and for a refresh token (of a user and a session), `verifyAsync` with the refresh
-- secret, `randomUUID`, sha256 and `Date.now()`.
pub record Moment : Type 0 where
  pub sign_access : Text → Text → Text
  pub sign_refresh : Text → Text → Text
  pub verify_refresh : Text → Option Payload
  pub uuid : Text
  pub hash_token : Text → Text
  pub now : ℕ

pub data AuthError : Type 0 where
  invalid_token wrong_type unknown_session already_used session_expired : AuthError
  -- An error of the database.
  failed : AuthError

unfoldable pub is_digit : ℕ → Bool
is_digit c = leb 48 c && leb c 57

-- The match of `^(\d+)\s*(s|m|h|d)?$`: digits read so far, then the rest of the text.
unfoldable pub unit_ms : Text → Option ℕ
unit_ms [] = some 1000
unit_ms (c ∷ []) =
    if text_eq (c ∷ []) (codes "d")
    then some 86_400_000
    else (if text_eq (c ∷ []) (codes "h")
        then some 3_600_000
        else (if text_eq (c ∷ []) (codes "m")
            then some 60_000
            else (if text_eq (c ∷ []) (codes "s") then some 1000 else none)))
unit_ms (c ∷ d ∷ cs) = none

unfoldable pub skip_spaces : Text → Text
skip_spaces [] = []
skip_spaces (c ∷ cs) =
    let rest = skip_spaces cs in if text_eq (c ∷ []) (codes " ") then rest else c ∷ cs

unfoldable pub read_ttl : ℕ → Text → Option ℕ
unfolding is_digit unit_ms skip_spaces
read_ttl n [] = some (n * 1000)
read_ttl n (c ∷ cs) =
    let rest = read_ttl (n * 10 + (c - 48)) cs in
    if is_digit c then rest else map_option (λ ms. n * ms) (unit_ms (skip_spaces (c ∷ cs)))

-- `ttlToMs` of a text without spaces around it: a text that does not match is no time at all.
unfoldable pub ttl_to_ms : Text → ℕ
unfolding read_ttl
ttl_to_ms [] = 0
ttl_to_ms (c ∷ cs) =
    if is_digit c then elim (read_ttl 0 (c ∷ cs)) [ none ↦ 0 | some ms ↦ ms ] else 0

-- `where: { id: payload.jti }`: a condition left undefined is no condition.
unfoldable pub matches_jti : Option Text → Text → Bool
matches_jti none id = true
matches_jti (some jti) id = text_eq id jti

unfoldable pub is_live : Option ℕ → Bool
is_live none = true
is_live (some t) = false

module _ (sessions : Store Text Session) (users : Store Text User) where
  pub record AuthState : Type 0 where
    pub session_rows : sessions.Table
    pub user_rows : users.Table

pub record Rotated : Type 0 where
  pub tokens : TokenPair
  pub user_id : Text
  pub address : Text

-- A call's result, with the state that it leaves.
abbrev pub Outcome : Type 0 → Type 0 → Type 0
Outcome S A = Result AuthError A × S

unfoldable pub session_row : AuthConfig → Moment → Text → Meta → Text → Session
unfolding ttl_to_ms
session_row cfg env user_id meta refresh_token = record {
  user_id = user_id;
  token_hash = env.hash_token refresh_token;
  user_agent = map_option (take 512) meta.user_agent;
  ip = meta.ip;
  expires_at = env.now + ttl_to_ms cfg.refresh_ttl;
  revoked_at = none;
}

unfoldable pub rotated_of : {S : Type 0} → Session → User → Outcome S TokenPair → Outcome S Rotated
rotated_of x user (ok tokens, s) =
    (ok (record { tokens = tokens; user_id = x.user_id; address = user.address }), s)
rotated_of x user (err e, s) = (err e, s)

module _ {sessions : Store Text Session} {users : Store Text User} where
  -- `create`, which throws on an id that is taken.
  unfoldable pub create_session :
      Moment
      → Session
      → TokenPair
      → Option Session
      → AuthState sessions users
      → Outcome (AuthState sessions users) TokenPair
  create_session env row tokens (some taken) s = (err failed, s)
  create_session env row tokens none s =
      (ok tokens, record s { session_rows = sessions.write s.session_rows env.uuid row })

  unfoldable pub issue :
      AuthConfig
      → Moment
      → Text
      → Text
      → Meta
      → AuthState sessions users
      → Outcome (AuthState sessions users) TokenPair
  unfolding create_session
  issue cfg env user_id address meta s =
      let refresh_token = env.sign_refresh user_id env.uuid in
      let tokens : TokenPair = record {
        access_token = env.sign_access user_id address;
        refresh_token = refresh_token;
        access_expires_in = cfg.access_ttl;
        refresh_expires_in = cfg.refresh_ttl;
      } in
      create_session env (session_row cfg env user_id meta refresh_token) tokens
        (sessions.find s.session_rows env.uuid) s

  -- `updateMany({ where: { …, revokedAt: null }, data: { revokedAt: new Date() } })`.
  unfoldable pub revoke_where :
      Moment → (Text → Session → Bool) → AuthState sessions users → AuthState sessions users
  revoke_where env test s = record s {
    session_rows =
        sessions.update_many s.session_rows (λ id x. test id x && is_live x.revoked_at)
          (λ x. record x { revoked_at = some env.now });
  }

  unfoldable pub revoke_all_for_user :
      Moment → Text → AuthState sessions users → AuthState sessions users
  unfolding revoke_where
  revoke_all_for_user env user_id s = revoke_where env (λ id x. text_eq x.user_id user_id) s

  unfoldable pub revoke_payload :
      Moment → Option Payload → AuthState sessions users → AuthState sessions users
  unfolding revoke_where matches_jti
  revoke_payload env none s = s
  revoke_payload env (some p) s = revoke_where env (λ id x. matches_jti p.jti id) s

  unfoldable pub revoke : Moment → Text → AuthState sessions users → AuthState sessions users
  unfolding revoke_payload
  revoke env refresh_token s = revoke_payload env (env.verify_refresh refresh_token) s

  -- The presented session is revoked and a new pair issued. The session's user is the one that
  -- `include` reads with it.
  unfoldable pub replace_session :
      AuthConfig
      → Moment
      → Meta
      → Text
      → Session
      → Option User
      → AuthState sessions users
      → Outcome (AuthState sessions users) Rotated
  unfolding rotated_of
  replace_session cfg env meta id x none s = (err failed, s)
  replace_session cfg env meta id x (some user) s =
      let revoked : Session = record x { revoked_at = some env.now } in
      let s1 : AuthState sessions users = record s {
        session_rows = sessions.write s.session_rows id revoked;
      } in
      rotated_of x user (issue cfg env x.user_id user.address meta s1)

  unfoldable pub rotate_live :
      AuthConfig
      → Moment
      → Meta
      → Text
      → Session
      → Option ℕ
      → AuthState sessions users
      → Outcome (AuthState sessions users) Rotated
  unfolding guarded replace_session
  rotate_live cfg env meta id x (some t) s = (err already_used, revoke_all_for_user env x.user_id s)
  rotate_live cfg env meta id x none s =
      guarded (not (ltb x.expires_at env.now)) session_expired
        (replace_session cfg env meta id x (users.find s.user_rows x.user_id) s) s

  unfoldable pub rotate_found :
      AuthConfig
      → Moment
      → Meta
      → Text
      → Text
      → Option Session
      → AuthState sessions users
      → Outcome (AuthState sessions users) Rotated
  unfolding guarded rotate_live
  rotate_found cfg env meta token id none s = (err unknown_session, s)
  rotate_found cfg env meta token id (some x) s =
      guarded (text_eq x.token_hash (env.hash_token token)) unknown_session
        (rotate_live cfg env meta id x x.revoked_at s) s

  -- `findUnique` throws without a value for its key.
  unfoldable pub rotate_session :
      AuthConfig
      → Moment
      → Meta
      → Text
      → Option Text
      → AuthState sessions users
      → Outcome (AuthState sessions users) Rotated
  unfolding rotate_found
  rotate_session cfg env meta token none s = (err failed, s)
  rotate_session cfg env meta token (some id) s =
      rotate_found cfg env meta token id (sessions.find s.session_rows id) s

  unfoldable pub rotate_payload :
      AuthConfig
      → Moment
      → Meta
      → Text
      → Option Payload
      → AuthState sessions users
      → Outcome (AuthState sessions users) Rotated
  unfolding guarded rotate_session
  rotate_payload cfg env meta token none s = (err invalid_token, s)
  rotate_payload cfg env meta token (some p) s =
      guarded (text_eq p.kind (codes "refresh")) wrong_type
        (rotate_session cfg env meta token p.jti s) s

  unfoldable pub rotate :
      AuthConfig
      → Moment
      → Text
      → Meta
      → AuthState sessions users
      → Outcome (AuthState sessions users) Rotated
  unfolding rotate_payload
  rotate cfg env token meta s = rotate_payload cfg env meta token (env.verify_refresh token) s
