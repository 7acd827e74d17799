-- ===== src/Delegations/Blob.antt =====
-- delegation.ts: the signed blob of a delegation, and the check of its signature.
pub mod Checks
use Prim.Native.Char.{code}
use pdatahub.Delegations.{Bytes}
use pdatahub.Delegations.Canonical.{Json, Fields, serialize_canonical}
use pdatahub.Prelude.{
  starts_with, leb, length, none, some, true, zero, suc, ok, err, String, Option, ℕ, Result, Bool,
  str_append, if◌then◌else◌, ◌&&◌, ◌%◌, ◌==◌, str_eq, ◌||◌, ◌-◌,
}

-- What the code calls and does not implement: the JSON text of a string, `Buffer` with its base64,
-- `TextEncoder`, and Ed25519.
pub record Platform : Type 0 where
  pub quote : String → String
  pub encode_base64 : Bytes → String
  pub decode_base64 : String → Bytes
  pub encode_text : String → Bytes
  pub sign : Bytes → Bytes
  pub verify : Bytes → Bytes → Bytes → Bool

pub record Party : Type 0 where
  pub hub_name : String
  pub verify_key : String
  pub fingerprint : String
  pub magic_dns : String

-- `DelegationBlobV1Body`; the version is the text of its number.
pub record BlobBody : Type 0 where
  pub version : String
  pub delegation_id : String
  pub issuer : Party
  pub subject_verify_key : String
  pub subject_fingerprint : String
  pub plugin : String
  pub tool : String
  pub scope : String
  pub input_schema : Json
  pub expires_at : String

pub record DelegationBlob : Type 0 where
  pub body : BlobBody
  pub signature : Option String

abbrev text_field : String → String → Fields → Fields
text_field k s fs = Fields.field k (Json.string s) fs

-- The body as a value, its keys in the order of the interface.
unfoldable pub body_json : BlobBody → Json
body_json b =
    let issuer = text_field "hub_name" b.issuer.hub_name (
      text_field "verify_key" b.issuer.verify_key (
        text_field "fingerprint" b.issuer.fingerprint
          (text_field "magic_dns" b.issuer.magic_dns Fields.end))) in
    let subject =
      text_field "verify_key" b.subject_verify_key
        (text_field "fingerprint" b.subject_fingerprint Fields.end) in
    let delegation = text_field "plugin" b.plugin (
      text_field "tool" b.tool (
        text_field "scope" b.scope (
          Fields.field "input_schema" b.input_schema
            (text_field "expires_at" b.expires_at Fields.end)))) in
    Json.object (
      Fields.field "version" (Json.number b.version) (
        text_field "delegation_id" b.delegation_id (
          Fields.field "issuer" (Json.object issuer) (
            Fields.field "subject" (Json.object subject)
              (Fields.field "delegation" (Json.object delegation) Fields.end)))))

-- `[A-Za-z0-9_-]`
unfoldable pub is_base64url : ℕ → Bool
is_base64url c =
    (leb b'A' c && leb c b'Z')
    || (leb b'a' c && leb c b'z')
    || (leb b'0' c && leb c b'9')
    || c == b'_'
    || c == b'-'

unfoldable pub all_base64url : String → Bool
all_base64url String.[] = true
all_base64url (String.◌∷◌ c s) = is_base64url (code c) && all_base64url s

unfoldable pub count_chars : String → ℕ
count_chars String.[] = 0
count_chars (String.◌∷◌ c s) = suc (count_chars s)

-- `'='.repeat(n)`
unfoldable pub equal_signs : ℕ → String
equal_signs zero = ""
equal_signs (suc n) = str_append "=" (equal_signs n)

unfoldable pub pad : String → String
pad s = if count_chars s % 4 == 0 then s else str_append s (equal_signs (4 - count_chars s % 4))

-- `replace(/\+/g, '-').replace(/\//g, '_').replace(/=+$/g, '')`, where an encoding has its `=` at the
-- end only.
unfoldable pub to_url : String → String
to_url String.[] = ""
to_url (String.◌∷◌ c s) =
    let rest = to_url s in
    if code c == b'+'
    then str_append "-" rest
    else if code c == b'/'
    then str_append "_" rest
    else if code c == b'='
    then rest
    else String.◌∷◌ c rest

-- The text behind a prefix of `n` characters.
unfoldable pub drop_chars : ℕ → String → String
drop_chars zero s = s
drop_chars (suc n) String.[] = ""
drop_chars (suc n) (String.◌∷◌ c s) = drop_chars n s

module _ (platform : Platform) where
  open platform use {quote, encode_base64, decode_base64, encode_text, sign, verify}

  unfoldable pub bytes_to_base64url : Bytes → String
  bytes_to_base64url bytes = to_url (encode_base64 bytes)

  unfoldable pub base64url_to_bytes : String → Result Bytes
  base64url_to_bytes input =
      if str_eq input ""
      then err "base64url: empty input"
      else if all_base64url input
      then ok (decode_base64 (pad input))
      else err "base64url: invalid character (allowed: A-Z, a-z, 0-9, -, _)"

  unfoldable pub serialize_blob : BlobBody → Result String
  serialize_blob body = serialize_canonical quote (body_json body)

  unfoldable pub sign_delegation : BlobBody → Result String
  sign_delegation body = elim (serialize_blob body) [
    | err e ↦ err e
    | ok canonical ↦ ok (bytes_to_base64url (sign (encode_text canonical)))
  ]

  -- The last two layers: the canonical text, and its signature under the key.
  unfoldable pub check_signature : BlobBody → Bytes → Bytes → Result (Unit {0})
  check_signature body sig key = elim (serialize_blob body) [
    | err e ↦ err (str_append "canonical serialization: " e)
    | ok canonical ↦
        if verify (encode_text canonical) sig key then ok tt else err "signature mismatch"
  ]

  -- The lengths in the messages are left out.
  unfoldable pub check_encoding : BlobBody → Bytes → String → Result (Unit {0})
  check_encoding body key signature = elim (base64url_to_bytes signature) [
    | err e ↦ err (str_append "signature encoding: " e)
    | ok sig ↦
        if length sig == 64 then check_signature body sig key else err "signature has wrong length"
  ]

  unfoldable pub check_key : BlobBody → String → Result (Unit {0})
  check_key body signature =
      if starts_with body.issuer.verify_key "ed25519:"
      then elim (base64url_to_bytes (drop_chars 8 body.issuer.verify_key)) [
        | err e ↦ err (str_append "issuer.verify_key: " e)
        | ok key ↦
            if length key == 32
            then check_encoding body key signature
            else err "issuer.verify_key has wrong length"
      ]
      else err "issuer.verify_key must be \"ed25519:<base64url>\""

  -- `verifyDelegation`, layer by layer; a failure has its reason.
  unfoldable pub verify_delegation : DelegationBlob → Result (Unit {0})
  verify_delegation blob =
      if str_eq blob.body.version "1"
      then elim blob.signature [
        | none ↦ err "missing signature field"
        | some signature ↦
            if str_eq signature ""
            then err "missing signature field"
            else check_key blob.body signature
      ]
      else err (str_append "unsupported version: " blob.body.version)
