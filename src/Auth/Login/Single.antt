-- ===== src/Auth/Login/Single.antt =====
-- A signed message logs in once: what a successful `verify` rests on, and the same message again.
use numera_backend.Prelude.{
  ℕ, ◌≡◌, refl, sym, ap, ◌∙◌, Bool, true, false, Option, none, some, [], ◌∷◌, Text, text_eq_iff,
  Result, ok, err, guarded, guarded-eq-ok,
}
use numera_backend.Auth.Siwe.{SiweReason, SiweConfig, SiweTools}
use numera_backend.Auth.Siwe.Signed.{IsSigned, verify_siwe-IsSigned}
use numera_backend.Auth.Tokens.{User, TokenPair, AuthError, Meta, AuthState}
use numera_backend.Auth.Login.{
  LoginConfig, LoginMoment, Account, LoginResult, LoginError, nonce_invalid, LoginDb,
  signature_failed, LoginState, LoginOutcome, nonce_key, new_account, accepts_nonce, with_tokens,
  issue_for, create_user, add_user, touch_user, sign_in, consume_nonce, verify_nonce, verify_signed,
  verify,
}

accepts_nonce-eq-true :
    (o : Option Text) (given : Text) → accepts_nonce o given ≡ true → o ≡ some given
unfolding accepts_nonce
accepts_nonce-eq-true none given h = absurd (cc)
accepts_nonce-eq-true (some []) given h = absurd (cc)
accepts_nonce-eq-true (some (c ∷ cs)) given h = ap (λ t. some t) ((text_eq_iff (c ∷ cs) given).0 h)

-- A message names one address, whatever its signature.
signed_address :
    (cfg : SiweConfig) (tools : SiweTools) (now later : ℕ) (message x y a b n m : Text)
    → IsSigned cfg tools now message x a n
    → IsSigned cfg tools later message y b m
    → b ≡ a
signed_address cfg tools now later message x y a b n m u v =
    let (f, w, signer, p, written, given, domain, chain, current, recovered, by, is) = u in
    let (g, w', signer', p', written', given', domain', chain', current', recovered', by', is') =
      v in
    cc (p, p', written, written', is, is')

module _ {D : LoginDb} where
  with_tokens-nonces :
      (is_new : Bool) (a : Account) (s : LoginState D)
      (o : Result AuthError TokenPair × AuthState D.sessions D.users)
      → (with_tokens is_new a s o).1.nonce_keys ≡ s.nonce_keys
  unfolding with_tokens
  with_tokens-nonces is_new a s (err e, auth) = refl
  with_tokens-nonces is_new a s (ok tokens, auth) = refl

  module _ (cfg : LoginConfig) (env : LoginMoment) (meta : Meta) where
    issue_for-nonces :
        (is_new : Bool) (a : Account) (s : LoginState D)
        → (issue_for cfg env meta is_new a s).1.nonce_keys ≡ s.nonce_keys
    unfolding issue_for
    issue_for-nonces is_new a s = with_tokens-nonces is_new a s _

    create_user-nonces :
        (a : Account) (o : Option User) (s : LoginState D)
        → (create_user cfg env meta a o s).1.nonce_keys ≡ s.nonce_keys
    unfolding create_user add_user
    create_user-nonces a (some taken) s = refl
    create_user-nonces a none s = issue_for-nonces true a (add_user a s)

    sign_in-nonces :
        (address : Text) (o : Option Account) (s : LoginState D)
        → (sign_in cfg env meta address o s).1.nonce_keys ≡ s.nonce_keys
    unfolding sign_in touch_user
    sign_in-nonces address (some a) s =
        let a1 : Account = record a { last_login_at = env.now } in
        issue_for-nonces false a1 (touch_user address a1 s)
    sign_in-nonces address none s = create_user-nonces (new_account env address) _ s

    -- The nonce was stored for the message's address, and is consumed.
    verify_nonce-consumes :
        (address nonce : Text) (s : LoginState D) {r : LoginResult} {s' : LoginState D}
        → verify_nonce cfg env meta address nonce s ≡ (ok r, s')
        → (D.nonces.get s.nonce_keys env.now (nonce_key address) ≡ some nonce)
          × (s'.nonce_keys ≡ D.nonces.del s.nonce_keys (nonce_key address))
    unfolding verify_nonce consume_nonce
    verify_nonce-consumes address nonce s h =
        let stored = D.nonces.get s.nonce_keys env.now (nonce_key address) in
        let (accepted, e) = guarded-eq-ok (accepts_nonce stored nonce) _ _ s h in
        (
          accepts_nonce-eq-true stored nonce accepted,
          sym (ap (λ (o : LoginOutcome (LoginState D) LoginResult). o.1.nonce_keys) e)
              ∙ sign_in-nonces address _ (consume_nonce address s),
        )

    verify_signed-consumes :
        (o : Result SiweReason (Text × Text)) (s : LoginState D) {r : LoginResult}
        {s' : LoginState D}
        → verify_signed cfg env meta o s ≡ (ok r, s')
        → (address : Text) × (nonce : Text) × (o ≡ ok (address, nonce))
          × (D.nonces.get s.nonce_keys env.now (nonce_key address) ≡ some nonce)
          × (s'.nonce_keys ≡ D.nonces.del s.nonce_keys (nonce_key address))
    unfolding verify_signed
    verify_signed-consumes (err reason) s h =
        absurd (cc (ap (λ (o : LoginOutcome (LoginState D) LoginResult). o.0) h))
    verify_signed-consumes (ok (address, given)) s h =
        let (stored, gone) = verify_nonce-consumes address given s h in
        (address, given, refl, stored, gone)

    -- A login is with a message for our domain and chain, not past its expiration, whose signature
    -- recovers to the address that it names and whose nonce was stored for that address and had not
    -- expired; the nonce is deleted.
    pub verify-IsSigned :
        (message signature : Text) (s s' : LoginState D) (r : LoginResult)
        → verify cfg env message signature meta s ≡ (ok r, s')
        → (address : Text) × (nonce : Text) × (D.nonces.get s.nonce_keys env.now (nonce_key address)
            ≡ some nonce)
          × (s'.nonce_keys ≡ D.nonces.del s.nonce_keys (nonce_key address))
          × IsSigned cfg.siwe cfg.tools env.now message signature address nonce
    unfolding verify
    verify-IsSigned message signature s s' r h =
        let (address, nonce, e, stored, gone) = verify_signed-consumes _ s h in
        (
          address,
          nonce,
          stored,
          gone,
          verify_siwe-IsSigned cfg.siwe cfg.tools env.now message signature e,
        )

    verify_nonce-refused :
        (address nonce : Text) (s : LoginState D)
        → D.nonces.get s.nonce_keys env.now (nonce_key address) ≡ none
        → verify_nonce cfg env meta address nonce s ≡ (err nonce_invalid, s)
    unfolding verify_nonce accepts_nonce guarded
    verify_nonce-refused address nonce s gone =
        ap
          (λ o.
            guarded (accepts_nonce o nonce) nonce_invalid
              (sign_in cfg env meta address (D.by_address.find_account s.auth.user_rows address)
                (consume_nonce address s))
              s)
          gone

    verify_signed-refused :
        (o : Result SiweReason (Text × Text)) (s : LoginState D)
        → ((address nonce : Text)
            → o ≡ ok (address, nonce)
            → D.nonces.get s.nonce_keys env.now (nonce_key address) ≡ none)
        → (e : LoginError) × (verify_signed cfg env meta o s ≡ (err e, s))
    unfolding verify_signed
    verify_signed-refused (err reason) s gone = (signature_failed reason, refl)
    verify_signed-refused (ok (address, given)) s gone =
        (nonce_invalid, verify_nonce-refused address given s (gone address given refl))

  -- A message that logged in does not log in again, with this or another signature, at whatever
  -- moment: it is refused, and nothing changes.
  pub verify-again :
      (cfg : LoginConfig) (env later : LoginMoment) (meta again : Meta)
      (message signature other : Text) (s s' : LoginState D) (r : LoginResult)
      → verify cfg env message signature meta s ≡ (ok r, s')
      → (e : LoginError) × (verify cfg later message other again s' ≡ (err e, s'))
  unfolding verify
  verify-again cfg env later meta again message signature other s s' r h =
      let (address, nonce, e, stored, gone) = verify_signed-consumes cfg env meta _ s h in
      let first = verify_siwe-IsSigned cfg.siwe cfg.tools env.now message signature e in
      verify_signed-refused cfg later again _ s' (λ a n e2.
        let second = verify_siwe-IsSigned cfg.siwe cfg.tools later.now message other e2 in
        ap (λ t. D.nonces.get t later.now (nonce_key a)) gone
        ∙ ap
            (λ b.
              D.nonces.get (D.nonces.del s.nonce_keys (nonce_key address)) later.now (nonce_key b))
            (signed_address cfg.siwe cfg.tools env.now later.now message signature other address a
              nonce n first second)
        ∙ D.nonces.get-del_self s.nonce_keys (nonce_key address) later.now)
