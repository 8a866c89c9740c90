-- ===== src/Auth/Tokens/Rotation.antt =====
-- A refresh token that is presented once, and again.
use numera_backend.Prelude.{
  ℕ, ◌+◌, ◌≤◌, ◌≡◌, ◌≢◌, refl, sym, ap, ◌∙◌, not, Option, none, some, Text, codes, text_eq,
  text_eq_iff, ltb, take, Result, ok, err, guarded, guarded-eq-ok, arith,
}
use numera_backend.Store.{Store, map_option}
use numera_backend.Auth.Tokens.{
  Payload, Meta, Session, User, TokenPair, AuthConfig, Moment, AuthError, already_used,
  unknown_session, wrong_type, AuthState, Rotated, Outcome, ttl_to_ms, session_row, create_session,
  issue, rotated_of, replace_session, rotate_live, rotate_found, rotate_session, rotate_payload,
  rotate, revoke_all_for_user,
}

module _ {sessions : Store Text Session} {users : Store Text User} (cfg : AuthConfig) (env : Moment)
    (meta : Meta) where
  -- What a rotation of a session's row leaves: the row revoked, and a new one under a fresh id.
  abbrev pub Replaced :
      Text → Session → Rotated → AuthState sessions users → AuthState sessions users → Type 0
  Replaced id x r s s' =
      (env.uuid ≢ id)
      × (sessions.find s.session_rows env.uuid ≡ none)
      × (s'.session_rows
          ≡ sessions.write
              (sessions.write s.session_rows id (record x { revoked_at = some env.now })) env.uuid
              (record {
                user_id = x.user_id;
                token_hash = env.hash_token r.tokens.refresh_token;
                user_agent = map_option (take 512) meta.user_agent;
                ip = meta.ip;
                expires_at = env.now + ttl_to_ms cfg.refresh_ttl;
                revoked_at = none;
              }))
      × (r.user_id ≡ x.user_id)

  -- The token verified as a refresh token of a stored session with its hash, neither revoked nor
  -- expired, and the session was replaced.
  abbrev pub IsRotation :
      Text → Rotated → AuthState sessions users → AuthState sessions users → Type 0
  IsRotation token r s s' =
      (p : Payload) × (id : Text) × (x : Session) × (env.verify_refresh token ≡ some p)
      × (p.kind ≡ codes "refresh")
      × (p.jti ≡ some id)
      × (sessions.find s.session_rows id ≡ some x)
      × (x.token_hash ≡ env.hash_token token)
      × (x.revoked_at ≡ none)
      × (env.now ≤ x.expires_at)
      × Replaced id x r s s'

  create_session-eq-ok :
      (row : Session) (tokens : TokenPair) (taken : Option Session) (x : Session) (user : User)
      (s : AuthState sessions users) {r : Rotated} {s' : AuthState sessions users}
      → rotated_of x user (create_session env row tokens taken s) ≡ (ok r, s')
      → (taken ≡ none)
        × (s'.session_rows ≡ sessions.write s.session_rows env.uuid row)
        × (r.user_id ≡ x.user_id)
        × (r.tokens ≡ tokens)
  unfolding rotated_of create_session
  create_session-eq-ok row tokens (some y) x user s h =
      absurd (cc (ap (λ (o : Outcome _ _). o.0) h))
  create_session-eq-ok row tokens none x user s {r = r} h =
      let same = ok_inj (ap (λ (o : Outcome (AuthState sessions users) Rotated). o.0) h) in
      (
        refl,
        sym (ap (λ (o : Outcome (AuthState sessions users) Rotated). o.1.session_rows) h),
        sym (ap (λ (o : Rotated). o.user_id) same),
        sym (ap (λ (o : Rotated). o.tokens) same),
      )
    where
      ok_inj : {a b : Rotated} → ◌≡◌ {A = Result AuthError Rotated} (ok a) (ok b) → a ≡ b
      ok_inj h = cc

  replace_session-Replaced :
      (id : Text) (x : Session) (user : Option User) (s : AuthState sessions users) {r : Rotated}
      {s' : AuthState sessions users}
      → replace_session cfg env meta id x user s ≡ (ok r, s')
      → Replaced id x r s s'
  unfolding replace_session issue session_row
  replace_session-Replaced id x none s h = absurd (cc (ap (λ (o : Outcome _ _). o.0) h))
  replace_session-Replaced id x (some user) s {r = r} h =
      let revoked : Session = record x { revoked_at = some env.now } in
      let e = create_session-eq-ok _ _ _ x user _ h in
      let fresh : env.uuid ≢ id =
        λ same. cc (e.0, sessions.find-write_self s.session_rows id revoked) in
      (
        fresh,
        sym (sessions.find-write_ne s.session_rows id env.uuid revoked (λ q. fresh (sym q))) ∙ e.0,
        e.1
            ∙ ap
                (λ t.
                  sessions.write (sessions.write s.session_rows id revoked) env.uuid
                    (session_row cfg env x.user_id meta t))
                (sym (ap (λ (t : TokenPair). t.refresh_token) e.3)),
        e.2,
      )

  rotate_live-eq-ok :
      (id : Text) (x : Session) (o : Option ℕ) (s : AuthState sessions users) {r : Rotated}
      {s' : AuthState sessions users}
      → rotate_live cfg env meta id x o s ≡ (ok r, s')
      → (o ≡ none) × (env.now ≤ x.expires_at) × Replaced id x r s s'
  unfolding rotate_live
  rotate_live-eq-ok id x (some t) s h = absurd (cc (ap (λ (o : Outcome _ _). o.0) h))
  rotate_live-eq-ok id x none s h =
      let (alive, e) = guarded-eq-ok (not (ltb x.expires_at env.now)) _ _ s h in
      (refl, ground (arith, alive), replace_session-Replaced id x _ s e)

  rotate_found-eq-ok :
      (token id : Text) (o : Option Session) (s : AuthState sessions users) {r : Rotated}
      {s' : AuthState sessions users}
      → rotate_found cfg env meta token id o s ≡ (ok r, s')
      → (x : Session) × (o ≡ some x)
        × (x.token_hash ≡ env.hash_token token)
        × (x.revoked_at ≡ none)
        × (env.now ≤ x.expires_at)
        × Replaced id x r s s'
  unfolding rotate_found
  rotate_found-eq-ok token id none s h = absurd (cc (ap (λ (o : Outcome _ _). o.0) h))
  rotate_found-eq-ok token id (some x) s h =
      let (hashed, e) = guarded-eq-ok (text_eq x.token_hash (env.hash_token token)) _ _ s h in
      let live = rotate_live-eq-ok id x x.revoked_at s e in
      (x, refl, (text_eq_iff _ _).0 hashed, live.0, live.1, live.2)

  rotate_session-eq-ok :
      (token : Text) (p : Payload) (jti : Option Text) (s : AuthState sessions users) {r : Rotated}
      {s' : AuthState sessions users}
      → env.verify_refresh token ≡ some p
      → p.kind ≡ codes "refresh"
      → p.jti ≡ jti
      → rotate_session cfg env meta token jti s ≡ (ok r, s')
      → IsRotation token r s s'
  unfolding rotate_session
  rotate_session-eq-ok token p none s v k j h = absurd (cc (ap (λ (o : Outcome _ _). o.0) h))
  rotate_session-eq-ok token p (some id) s v k j h =
      let (x, found, hashed, live, fresh, replaced) =
        rotate_found-eq-ok token id (sessions.find s.session_rows id) s h in
      (p, id, x, v, k, j, found, hashed, live, fresh, replaced)

  rotate_payload-eq-ok :
      (token : Text) (o : Option Payload) (s : AuthState sessions users) {r : Rotated}
      {s' : AuthState sessions users}
      → env.verify_refresh token ≡ o
      → rotate_payload cfg env meta token o s ≡ (ok r, s')
      → IsRotation token r s s'
  unfolding rotate_payload
  rotate_payload-eq-ok token none s v h = absurd (cc (ap (λ (o : Outcome _ _). o.0) h))
  rotate_payload-eq-ok token (some p) s v h =
      let (refresh, e) = guarded-eq-ok (text_eq p.kind (codes "refresh")) _ _ s h in
      rotate_session-eq-ok token p p.jti s v ((text_eq_iff _ _).0 refresh) refl e

  -- A refresh that gives tokens was with a token that verifies as a refresh token, of a stored
  -- session with its hash that was neither revoked nor expired; the session is revoked now, and a
  -- new one of the same user is stored under an id that was free, live, with the hash of the new
  -- token, the first 512 characters of the user agent and the lifetime of the configuration.
  pub rotate-IsRotation :
      (token : Text) (s s' : AuthState sessions users) (r : Rotated)
      → rotate cfg env token meta s ≡ (ok r, s')
      → IsRotation token r s s'
  unfolding rotate
  rotate-IsRotation token s s' r h = rotate_payload-eq-ok token (env.verify_refresh token) s refl h

  -- The same token again.
  pub rotate-spent :
      (token id : Text) (p : Payload) (x : Session) (s : AuthState sessions users) {t : ℕ}
      → env.verify_refresh token ≡ some p
      → p.kind ≡ codes "refresh"
      → p.jti ≡ some id
      → sessions.find s.session_rows id ≡ some x
      → x.token_hash ≡ env.hash_token token
      → x.revoked_at ≡ some t
      → rotate cfg env token meta s ≡ (err already_used, revoke_all_for_user env x.user_id s)
  unfolding rotate
  rotate-spent token id p x s v k j found hashed revoked =
      let is_refresh = (text_eq_iff p.kind (codes "refresh")).1 k in
      let is_hash = (text_eq_iff x.token_hash (env.hash_token token)).1 hashed in
      ap (λ o. rotate_payload cfg env meta token o s) v
      ∙ ap (λ b. guarded b wrong_type (rotate_session cfg env meta token p.jti s) s) is_refresh
      ∙ ap (λ o. rotate_session cfg env meta token o s) j
      ∙ ap (λ o. rotate_found cfg env meta token id o s) found
      ∙ ap (λ b. guarded b unknown_session (rotate_live cfg env meta id x x.revoked_at s) s) is_hash
      ∙ ap (λ o. rotate_live cfg env meta id x o s) revoked
