-- ===== src/Auth/Siwe.antt =====
-- Messages that a wallet signs, src/auth/siwe.service.ts: `prepare` and `verify`. Writing and
-- parsing a message and recovering its signer are the package's (viem), and arguments here. Times
-- are in milliseconds.
pub mod Signed
use numera_backend.Prelude.{
  ℕ, ◌+◌, ◌*◌, ◌==◌, Bool, true, false, not, Option, none, some, List, [], ◌∷◌, Text, codes,
  to_lower, text_eq, ltb, Result, ok, err, ensure,
}

pub record SiweConfig : Type 0 where
  -- The host of `app.url`.
  pub domain : Text
  pub app_url : Text
  pub chain_id : ℕ
  pub statement : Text
  pub nonce_ttl_seconds : ℕ

-- What `createSiweMessage` is given.
pub record SiweMessage : Type 0 where
  pub address : Text
  pub chain_id : ℕ
  pub domain : Text
  pub uri : Text
  pub nonce : Text
  pub statement : Text
  pub version : Text
  pub issued_at : ℕ
  pub expiration_time : ℕ

-- What `parseSiweMessage` finds of what `verify` reads.
pub record SiweFields : Type 0 where
  pub address : Option Text
  pub nonce : Option Text
  pub domain : Option Text
  pub chain_id : Option ℕ
  pub expiration_time : Option ℕ

-- `createSiweMessage`, `parseSiweMessage` and `recoverMessageAddress` of a message and a signature;
-- none where they throw.
pub record SiweTools : Type 0 where
  pub create_message : SiweMessage → Text
  pub parse : Text → Option SiweFields
  pub recover : Text → Text → Option Text

pub record PreparedSiwe : Type 0 where
  pub message : Text
  pub nonce : Text
  pub expires_at : ℕ

pub data SiweReason : Type 0 where
  malformed missing_address missing_nonce domain_mismatch chain_mismatch message_expired :
      SiweReason
  invalid_signature wrong_signer : SiweReason

unfoldable pub siwe_message : SiweConfig → ℕ → Text → Text → SiweMessage
siwe_message cfg now nonce address = record {
  address = address;
  chain_id = cfg.chain_id;
  domain = cfg.domain;
  uri = cfg.app_url;
  nonce = nonce;
  statement = cfg.statement;
  version = codes "1";
  issued_at = now;
  expiration_time = now + cfg.nonce_ttl_seconds * 1000;
}

-- `prepare`, with the nonce that `generateSiweNonce` gave.
unfoldable pub prepare : SiweConfig → SiweTools → ℕ → Text → Text → PreparedSiwe
unfolding siwe_message
prepare cfg tools now nonce address =
    let m = siwe_message cfg now nonce address in
    record { message = tools.create_message m; nonce = nonce; expires_at = m.expiration_time }

-- `if (!text)`: a text that is missing or empty.
unfoldable pub present : Option Text → Option Text
present none = none
present (some []) = none
present (some (c ∷ cs)) = some (c ∷ cs)

unfoldable pub is_text : Option Text → Text → Bool
is_text none t = false
is_text (some s) t = text_eq s t

unfoldable pub is_number : Option ℕ → ℕ → Bool
is_number none n = false
is_number (some m) n = m == n

unfoldable pub is_current : Option ℕ → ℕ → Bool
is_current none now = true
is_current (some end) now = not (ltb end now)

-- The signer, compared with the message's address.
unfoldable pub check_signer : Text → Text → Option Text → Result SiweReason (Text × Text)
unfolding ensure
check_signer address nonce none = err invalid_signature
check_signer address nonce (some signer) =
    ensure (text_eq (to_lower signer) (to_lower address)) wrong_signer
      (ok (to_lower address, nonce))

unfoldable pub check_fields :
    SiweConfig
    → ℕ
    → SiweFields
    → Option Text
    → Option Text
    → Option Text
    → Result SiweReason (Text × Text)
unfolding ensure is_text is_number is_current check_signer
check_fields cfg now f none given signer = err missing_address
check_fields cfg now f (some address) none signer = err missing_nonce
check_fields cfg now f (some address) (some given) signer =
    ensure (is_text f.domain cfg.domain) domain_mismatch (
      ensure (is_number f.chain_id cfg.chain_id) chain_mismatch (
        ensure (is_current f.expiration_time now) message_expired
          (check_signer address given signer)))

unfoldable pub verify_parsed :
    SiweConfig → SiweTools → ℕ → Text → Text → Option SiweFields → Result SiweReason (Text × Text)
unfolding present check_fields
verify_parsed cfg tools now message signature none = err malformed
verify_parsed cfg tools now message signature (some f) =
    check_fields cfg now f (present f.address) (present f.nonce) (tools.recover message signature)

-- `verify`: the address, in lower case, and the nonce of a message that holds.
unfoldable pub verify_siwe :
    SiweConfig → SiweTools → ℕ → Text → Text → Result SiweReason (Text × Text)
unfolding verify_parsed
verify_siwe cfg tools now message signature =
    verify_parsed cfg tools now message signature (tools.parse message)
