-- ===== src/Auth/Tokens/Reuse.antt =====
-- A rotated refresh token that is presented again.
use numera_backend.Prelude.{
  ℕ, ◌≡◌, refl, sym, ap, ◌∙◌, false, ◌&&◌, Option, none, some, Text, text_eq, text_eq_iff, Result,
  ok, err, arith, if◌then◌else◌,
}
use numera_backend.Store.{Store, map_option}
use numera_backend.Auth.Tokens.{
  Meta, Session, User, AuthConfig, Moment, already_used, AuthState, Rotated, rotate,
  revoke_all_for_user, is_live,
}
use numera_backend.Auth.Tokens.Rotation.{rotate-IsRotation, rotate-spent}

revoked_row :
    (user : Text) (now : ℕ) (o : Option Session) (x : Session)
    → map_option
        (λ (y : Session).
          if text_eq y.user_id user && is_live y.revoked_at
          then record y { revoked_at = some now }
          else y)
        o
      ≡ some x
    → x.user_id ≡ user
    → is_live x.revoked_at ≡ false
unfolding is_live
revoked_row user now none x h u = absurd (cc)
revoked_row user now (some y) x h u = ground (arith, text_eq_iff y.user_id user)

module _ {sessions : Store Text Session} {users : Store Text User} where
  -- No session of a user is live after all of them were revoked.
  pub revoke_all_for_user-revokes :
      (env : Moment) (user id : Text) (x : Session) (s : AuthState sessions users)
      → sessions.find (revoke_all_for_user env user s).session_rows id ≡ some x
      → x.user_id ≡ user
      → is_live x.revoked_at ≡ false
  unfolding revoke_all_for_user
  revoke_all_for_user-revokes env user id x s h u =
      revoked_row user env.now (sessions.find s.session_rows id) x
        (sym (sessions.find-update_many s.session_rows _ _ id) ∙ h) u

  module _ (cfg : AuthConfig) (env later : Moment) (meta again : Meta) where
    rotate-again :
        (token : Text) (s s' : AuthState sessions users) (r : Rotated)
        → rotate cfg env token meta s ≡ (ok r, s')
        → later.verify_refresh token ≡ env.verify_refresh token
        → later.hash_token token ≡ env.hash_token token
        → rotate cfg later token again s'
          ≡ (err already_used, revoke_all_for_user later r.user_id s')
    rotate-again token s s' r h same_payload same_hash =
        let (p, id, x, v, k, j, found, hashed, live, fresh, replaced) =
          rotate-IsRotation cfg env meta token s s' r h in
        let revoked : Session = record x { revoked_at = some env.now } in
        let stored : sessions.find s'.session_rows id ≡ some revoked =
          ap (λ t. sessions.find t id) replaced.2
          ∙ sessions.find-write_ne _ env.uuid id _ replaced.0
          ∙ sessions.find-write_self s.session_rows id revoked in
        rotate-spent cfg later again token id p revoked s' (same_payload ∙ v) k j stored
          (hashed ∙ sym same_hash) refl
        ∙ ap (λ u. (err already_used, revoke_all_for_user later u s')) (sym replaced.3)

    -- A refresh token that was rotated and still verifies is refused when it is presented again, and
    -- no session of its user is live then, the one of the rotation included.
    pub rotate-reused :
        (token : Text) (s s' : AuthState sessions users) (r : Rotated) (id : Text) (x : Session)
        → rotate cfg env token meta s ≡ (ok r, s')
        → later.verify_refresh token ≡ env.verify_refresh token
        → later.hash_token token ≡ env.hash_token token
        → sessions.find (rotate cfg later token again s').1.session_rows id ≡ some x
        → x.user_id ≡ r.user_id
        → ((rotate cfg later token again s').0 ≡ err already_used) × (is_live x.revoked_at ≡ false)
    rotate-reused token s s' r id x h same_payload same_hash stored u =
        let e = rotate-again token s s' r h same_payload same_hash in
        (
          ap (λ (o : Result _ Rotated × AuthState sessions users). o.0) e,
          revoke_all_for_user-revokes later r.user_id id x s'
              (sym (
                  ap
                    (λ (o : Result _ Rotated × AuthState sessions users).
                      sessions.find o.1.session_rows id)
                    e)
                ∙ stored)
              u,
        )
