-- ===== src/Auth/Login/Completes.antt =====
-- A sign-in from `requestNonce` to `verify`, with a wallet that signs the message in time.
use numera_backend.Prelude.{
  ℕ, ◌+◌, ◌*◌, ◌≤◌, ◌<◌, ◌≡◌, refl, sym, ap, ◌∙◌, Bool, true, false, Option, none, some, [], ◌∷◌,
  Text, to_lower, text_eq, text_eq_iff, ltb, ==_iff, ok, guarded, arith,
}
use numera_backend.Auth.Siwe.{
  SiweConfig, SiweTools, SiweMessage, SiweFields, PreparedSiwe, siwe_message, prepare, present,
  check_fields, verify_parsed, verify_siwe,
}
use numera_backend.Auth.Tokens.{Session, TokenPair, Meta, create_session, issue}
use numera_backend.Auth.Login.{
  LoginConfig, LoginMoment, Account, LoginResult, login_result, LoginDb, LoginState, LoginOutcome,
  new_account, accepts_nonce, nonce_key, with_tokens, issue_for, create_user, add_user, touch_user,
  sign_in, consume_nonce, verify_nonce, verify_signed, verify, request_for, request_nonce,
  normalize_address, nonce_invalid,
}

-- What is parsed from a message that `createSiweMessage` wrote.
abbrev pub fields_of : SiweMessage → SiweFields
fields_of m = record {
  address = some m.address;
  nonce = some m.nonce;
  domain = some m.domain;
  chain_id = some m.chain_id;
  expiration_time = some m.expiration_time;
}

module _ (cfg : SiweConfig) (tools : SiweTools) where
  check_fields-written :
      (now later : ℕ) (given address signer : Text)
      → later ≤ now + cfg.nonce_ttl_seconds * 1000
      → to_lower signer ≡ to_lower address
      → check_fields cfg later
          (fields_of (siwe_message cfg now given address))
          (some address)
          (some given)
          (some signer)
        ≡ ok (to_lower address, given)
  unfolding check_fields text_eq to_lower siwe_message
  check_fields-written now later given address signer in_time same =
      rw
        (
          (text_eq_iff cfg.domain cfg.domain).1 refl,
          (==_iff cfg.chain_id cfg.chain_id).1 refl,
          (text_eq_iff (to_lower signer) (to_lower address)).1 same,
          current,
        )
        refl
    where
      current : ltb (now + cfg.nonce_ttl_seconds * 1000) later ≡ false
      current = ground (arith, in_time)

  -- A message that was prepared verifies when its account signed it.
  pub verify_siwe-prepare :
      (now later : ℕ) (given address signer signature : Text)
      → tools.parse (prepare cfg tools now given address).message
        ≡ some (fields_of (siwe_message cfg now given address))
      → tools.recover (prepare cfg tools now given address).message signature ≡ some signer
      → present (some address) ≡ some address
      → present (some given) ≡ some given
      → later ≤ now + cfg.nonce_ttl_seconds * 1000
      → to_lower signer ≡ to_lower address
      → verify_siwe cfg tools later (prepare cfg tools now given address).message signature
        ≡ ok (to_lower address, given)
  unfolding verify_siwe verify_parsed prepare
  verify_siwe-prepare now later given address signer signature parsed recovered a n in_time same =
      let message = (prepare cfg tools now given address).message in
      let f = fields_of (siwe_message cfg now given address) in
      ap (verify_parsed cfg tools later message signature) parsed
      ∙ ap
          (λ o. check_fields cfg later f o (present (some given)) (tools.recover message signature))
          a
      ∙ ap (λ o. check_fields cfg later f (some address) o (tools.recover message signature)) n
      ∙ ap (check_fields cfg later f (some address) (some given)) recovered
      ∙ check_fields-written now later given address signer in_time same

accepts_nonce_self :
    (given : Text) → present (some given) ≡ some given → accepts_nonce (some given) given ≡ true
unfolding accepts_nonce present
accepts_nonce_self [] h = absurd (cc)
accepts_nonce_self (c ∷ cs) h = (text_eq_iff (c ∷ cs) (c ∷ cs)).1 refl

-- What `requestNonce` answers for an address.
abbrev pub prepared_for : LoginConfig → LoginMoment → Text → PreparedSiwe
prepared_for cfg env raw =
    prepare cfg.siwe cfg.tools env.now env.new_nonce (cfg.get_address (to_lower raw))

module _ {D : LoginDb} (cfg : LoginConfig) where
  module _ (env : LoginMoment) (meta : Meta) where
    issued :
        (is_new : Bool) (a : Account) (s : LoginState D) (row : Session) (tokens : TokenPair)
        (o : Option Session)
        → o ≡ none
        → (r : LoginResult) × ((with_tokens is_new a s
              (create_session env.tokens row tokens o s.auth)).0
            ≡ ok r)
    unfolding with_tokens create_session
    issued is_new a s row tokens (some x) free = absurd (cc)
    issued is_new a s row tokens none free = (login_result is_new a tokens, refl)

    issue_for-ok :
        (is_new : Bool) (a : Account) (s : LoginState D)
        → D.sessions.find s.auth.session_rows env.uuid ≡ none
        → (r : LoginResult) × ((issue_for cfg env meta is_new a s).0 ≡ ok r)
    unfolding issue_for issue
    issue_for-ok is_new a s free = issued is_new a s _ _ _ free

    sign_in-ok :
        (address : Text) (o : Option Account) (s : LoginState D)
        → D.sessions.find s.auth.session_rows env.uuid ≡ none
        → D.users.find s.auth.user_rows env.new_id ≡ none
        → (r : LoginResult) × ((sign_in cfg env meta address o s).0 ≡ ok r)
    unfolding sign_in touch_user add_user create_user
    sign_in-ok address (some a) s free unknown =
        let a1 : Account = record a { last_login_at = env.now } in
        issue_for-ok false a1 (touch_user address a1 s) free
    sign_in-ok address none s free unknown =
        let a = new_account env address in
        let (r, e) = issue_for-ok true a (add_user a s) free in
        (r, ap (λ o. (create_user cfg env meta a o s).0) unknown ∙ e)

    -- With the nonce stored for its address, a message that verifies logs in.
    verify_signed-ok :
        (address given : Text) (s : LoginState D)
        → D.nonces.get s.nonce_keys env.now (nonce_key address) ≡ some given
        → present (some given) ≡ some given
        → D.sessions.find s.auth.session_rows env.uuid ≡ none
        → D.users.find s.auth.user_rows env.new_id ≡ none
        → (r : LoginResult) × ((verify_signed cfg env meta (ok (address, given)) s).0 ≡ ok r)
    unfolding verify_signed verify_nonce consume_nonce guarded
    verify_signed-ok address given s stored n free unknown =
        let s1 = consume_nonce address s in
        let row = D.by_address.find_account s.auth.user_rows address in
        let (r, e) = sign_in-ok address row s1 free unknown in
        (
          r,
          ap (λ b. (guarded b nonce_invalid (sign_in cfg env meta address row s1) s).0)
                (ap (λ o. accepts_nonce o given) stored ∙ accepts_nonce_self given n)
              ∙ e,
        )

  -- A nonce that was requested for an address logs in, before its lifetime is over, with the message
  -- that came with it and a signature that recovers to that address, in whatever case; the message
  -- is parsed as it was written, and the ids that the login draws are free.
  pub verify-request_nonce :
      (env later : LoginMoment) (meta : Meta) (raw signer signature : Text) (s : LoginState D)
      → cfg.is_address raw ≡ true
      → cfg.tools.parse (prepared_for cfg env raw).message
        ≡ some (
            fields_of
              (siwe_message cfg.siwe env.now env.new_nonce (cfg.get_address (to_lower raw))))
      → cfg.tools.recover (prepared_for cfg env raw).message signature ≡ some signer
      → to_lower signer ≡ to_lower raw
      → to_lower (cfg.get_address (to_lower raw)) ≡ to_lower raw
      → present (some (cfg.get_address (to_lower raw))) ≡ some (cfg.get_address (to_lower raw))
      → present (some env.new_nonce) ≡ some env.new_nonce
      → env.now ≤ later.now
      → later.now < env.now + cfg.siwe.nonce_ttl_seconds * 1000
      → D.sessions.find s.auth.session_rows later.uuid ≡ none
      → D.users.find s.auth.user_rows later.new_id ≡ none
      → ((request_nonce cfg env raw s).0 ≡ ok (prepared_for cfg env raw))
        × (r : LoginResult) × ((verify cfg later
              (prepared_for cfg env raw).message
              signature
              meta
              (request_nonce cfg env raw s).1).0
            ≡ ok r)
  unfolding request_nonce normalize_address request_for verify
  verify-request_nonce env later meta raw signer signature s valid parsed recovered same checksum a
        n after in_time free unknown =
      let address = cfg.get_address (to_lower raw) in
      let normal = ap (λ b. elim b [ true ↦ some (to_lower raw) | false ↦ none ]) valid in
      let answer = ap (λ o. request_for cfg env o s) normal in
      let s1 = (request_for cfg env (some (to_lower raw)) s).1 in
      let stored =
        D.nonces.get-set_ex_live s.nonce_keys (nonce_key (to_lower raw)) env.new_nonce env.now
          cfg.siwe.nonce_ttl_seconds later.now after in_time in
      let (r, e) =
        verify_signed-ok later meta (to_lower raw) env.new_nonce s1 stored n free unknown in
      let verified =
        verify_siwe-prepare cfg.siwe cfg.tools env.now later.now env.new_nonce address signer
          signature parsed recovered a n (omega (arith, in_time)) (same ∙ sym checksum)
        ∙ ap (λ t. ok (t, env.new_nonce)) checksum in
      (
        ap (λ (o : LoginOutcome (LoginState D) PreparedSiwe). o.0) answer,
        r,
        ap
              (λ (o : LoginOutcome (LoginState D) PreparedSiwe).
                (verify cfg later (prepared_for cfg env raw).message signature meta o.1).0)
              answer
            ∙ ap (λ o. (verify_signed cfg later meta o s1).0) verified
            ∙ e,
      )
