-- ===== src/Auth/Siwe/Signed.antt =====
-- What a message that verifies commits its signer to.
use numera_backend.Prelude.{
  ℕ, ◌≡◌, refl, ap, ◌∙◌, true, Option, none, some, [], ◌∷◌, Text, to_lower, text_eq, text_eq_iff,
  ==_iff, Result, ok, ensure-eq-ok,
}
use numera_backend.Auth.Siwe.{
  SiweConfig, SiweTools, SiweFields, SiweReason, present, is_text, is_number, is_current,
  check_signer, check_fields, verify_parsed, verify_siwe,
}

abbrev pub IsSigned : SiweConfig → SiweTools → ℕ → Text → Text → Text → Text → Type 0
IsSigned cfg tools now message signature address nonce =
    (f : SiweFields) × (written : Text) × (signer : Text) × (tools.parse message ≡ some f)
    × (f.address ≡ some written)
    × (f.nonce ≡ some nonce)
    × (f.domain ≡ some cfg.domain)
    × (f.chain_id ≡ some cfg.chain_id)
    × (is_current f.expiration_time now ≡ true)
    × (tools.recover message signature ≡ some signer)
    × (to_lower signer ≡ address)
    × (to_lower written ≡ address)

present-eq-some : (o : Option Text) {t : Text} → present o ≡ some t → o ≡ some t
unfolding present
present-eq-some none h = absurd (cc)
present-eq-some (some []) h = absurd (cc)
present-eq-some (some (c ∷ cs)) h = h

is_text-eq-true : (o : Option Text) (t : Text) → is_text o t ≡ true → o ≡ some t
unfolding is_text
is_text-eq-true none t h = absurd (cc)
is_text-eq-true (some s) t h = ap (λ u. some u) ((text_eq_iff s t).0 h)

is_number-eq-true : (o : Option ℕ) (n : ℕ) → is_number o n ≡ true → o ≡ some n
unfolding is_number
is_number-eq-true none n h = absurd (cc)
is_number-eq-true (some m) n h = ap (λ u. some u) ((==_iff m n).0 h)

check_signer-eq-ok :
    (written nonce : Text) (o : Option Text) {a n : Text}
    → check_signer written nonce o ≡ ok (a, n)
    → (signer : Text) × (o ≡ some signer)
      × (to_lower signer ≡ a)
      × (to_lower written ≡ a)
      × (nonce ≡ n)
unfolding check_signer
check_signer-eq-ok written nonce none h = absurd (cc)
check_signer-eq-ok written nonce (some signer) {a = a} {n = n} h =
    let (same, e) = ensure-eq-ok (text_eq (to_lower signer) (to_lower written)) _ _ h in
    let (written_is, nonce_is) = ok_pair e in
    (signer, refl, (text_eq_iff _ _).0 same ∙ written_is, written_is, nonce_is)
  where
    ok_pair :
        {x y z w : Text}
        → ◌≡◌ {A = Result SiweReason (Text × Text)} (ok (x, y)) (ok (z, w))
        → (x ≡ z) × (y ≡ w)
    ok_pair h = (cc, cc)

module _ (cfg : SiweConfig) (tools : SiweTools) (now : ℕ) (message signature : Text) where
  check_fields-IsSigned :
      (f : SiweFields) (written given signer : Option Text) {address nonce : Text}
      → tools.parse message ≡ some f
      → present f.address ≡ written
      → present f.nonce ≡ given
      → tools.recover message signature ≡ signer
      → check_fields cfg now f written given signer ≡ ok (address, nonce)
      → IsSigned cfg tools now message signature address nonce
  unfolding check_fields
  check_fields-IsSigned f none given o p a n r h = absurd (cc)
  check_fields-IsSigned f (some written) none o p a n r h = absurd (cc)
  check_fields-IsSigned f (some written) (some given) o p a n r h =
      let (domain, rest) = ensure-eq-ok (is_text f.domain cfg.domain) _ _ h in
      let (chain, last) = ensure-eq-ok (is_number f.chain_id cfg.chain_id) _ _ rest in
      let (current, e) = ensure-eq-ok (is_current f.expiration_time now) _ _ last in
      let (signer, recovered, signer_is, written_is, nonce_is) =
        check_signer-eq-ok written given o e in
      (
        f,
        written,
        signer,
        p,
        present-eq-some f.address a,
        present-eq-some f.nonce n ∙ ap (λ t. some t) nonce_is,
        is_text-eq-true f.domain cfg.domain domain,
        is_number-eq-true f.chain_id cfg.chain_id chain,
        current,
        r ∙ recovered,
        signer_is,
        written_is,
      )

  verify_parsed-IsSigned :
      (o : Option SiweFields) {address nonce : Text}
      → tools.parse message ≡ o
      → verify_parsed cfg tools now message signature o ≡ ok (address, nonce)
      → IsSigned cfg tools now message signature address nonce
  unfolding verify_parsed
  verify_parsed-IsSigned none p h = absurd (cc)
  verify_parsed-IsSigned (some f) p h = check_fields-IsSigned f _ _ _ p refl refl refl h

  -- A message that verifies parses, names our domain and chain, is not past its expiration, and its
  -- signature recovers to the address that it names; what comes back is that address in lower case,
  -- with the message's nonce.
  pub verify_siwe-IsSigned :
      {address nonce : Text}
      → verify_siwe cfg tools now message signature ≡ ok (address, nonce)
      → IsSigned cfg tools now message signature address nonce
  unfolding verify_siwe
  verify_siwe-IsSigned h = verify_parsed-IsSigned (tools.parse message) refl h
