-- ===== src/Delegations/Blob/Checks.antt =====
-- `verifyDelegation`: what an accepted blob has, and what a signature covers.
use pdatahub.Delegations.{Bytes}
use pdatahub.Delegations.Canonical.{Json}
use pdatahub.Delegations.Canonical.KeyOrder.{Alike, AlikeFields, serialize_canonical-Alike}
use pdatahub.Delegations.Blob.{
  Platform, BlobBody, DelegationBlob, body_json, base64url_to_bytes, serialize_blob,
  check_signature, check_encoding, check_key, verify_delegation, drop_chars, Fields,
}
use pdatahub.Prelude.{
  ◌≡◌, ◌↔◌, arith, length, starts_with, some, true, false, ok, String, str_eq, inl, inr,
  Result-cases, Option-cases, eq_iff,
}

module _ (platform : Platform) where
  open platform use {quote, encode_text, verify}

  -- A blob of version 1, with a key of 32 bytes and a signature of 64 that holds under the key for the
  -- canonical text of the body.
  pub record IsSigned (blob : DelegationBlob) : Type 0 where
    pub version : blob.body.version ≡ "1"
    pub signature : String
    pub present : blob.signature ≡ some signature
    pub nonempty : str_eq signature "" ≡ false
    pub prefix : starts_with blob.body.issuer.verify_key "ed25519:" ≡ true
    pub key : Bytes
    pub key_bytes : base64url_to_bytes platform (drop_chars 8 blob.body.issuer.verify_key) ≡ ok key
    pub key_length : length key ≡ 32
    pub sig : Bytes
    pub sig_bytes : base64url_to_bytes platform signature ≡ ok sig
    pub sig_length : length sig ≡ 64
    pub canonical : String
    pub canonical_text : serialize_blob platform blob.body ≡ ok canonical
    pub holds : verify (encode_text canonical) sig key ≡ true

  check_signature_iff :
      (body : BlobBody) (sig key : Bytes)
      → (check_signature platform body sig key ≡ ok tt) ↔ (
          (c : String) × (serialize_blob platform body ≡ ok c)
          × (verify (encode_text c) sig key ≡ true))
  unfolding check_signature
  check_signature_iff body sig key = (
    λ h. elim (Result-cases (serialize_blob platform body)) [
      | inl (c, e) ↦ (c, e, ground (arith, e))
      | inr (m, e) ↦ absurd (ground (arith, e))
    ],
    λ s. ground (arith, s.1, s.2),
  )

  check_encoding_iff :
      (body : BlobBody) (key : Bytes) (signature : String)
      → (check_encoding platform body key signature ≡ ok tt) ↔ (
          (sig : Bytes) × (base64url_to_bytes platform signature ≡ ok sig)
          × (length sig ≡ 64)
          × (check_signature platform body sig key ≡ ok tt))
  unfolding check_encoding
  check_encoding_iff body key signature = (
    λ h. elim (Result-cases (base64url_to_bytes platform signature)) [
      | inl (sig, e) ↦ (sig, e, ground (arith, e), ground (arith, e))
      | inr (m, e) ↦ absurd (ground (arith, e))
    ],
    λ s. ground (arith, s.1, s.2, s.3),
  )

  check_key_iff :
      (body : BlobBody) (signature : String)
      → (check_key platform body signature ≡ ok tt) ↔ (
          (key : Bytes) × (base64url_to_bytes platform (drop_chars 8 body.issuer.verify_key)
            ≡ ok key)
          × (length key ≡ 32)
          × (starts_with body.issuer.verify_key "ed25519:" ≡ true)
          × (check_encoding platform body key signature ≡ ok tt))
  unfolding check_key
  check_key_iff body signature = (
    λ h. elim (Result-cases (base64url_to_bytes platform (drop_chars 8 body.issuer.verify_key))) [
      | inl (key, e) ↦ (key, e, ground (arith, e), ground (arith, e), ground (arith, e))
      | inr (m, e) ↦ absurd (ground (arith, e))
    ],
    λ s. ground (arith, s.1, s.2, s.3, s.4),
  )

  verify_signature :
      (blob : DelegationBlob)
      → verify_delegation platform blob ≡ ok tt
      → (signature : String) × (blob.signature ≡ some signature)
        × (blob.body.version ≡ "1")
        × (str_eq signature "" ≡ false)
        × (check_key platform blob.body signature ≡ ok tt)
  unfolding verify_delegation
  verify_signature blob h = elim (Option-cases blob.signature) [
    | inl e ↦ absurd (ground (arith, e))
    | inr (signature, e) ↦ (
      signature,
      e,
      ground (arith, eq_iff blob.body.version "1"),
      ground (arith, e),
      ground (arith, e),
    )
  ]

  -- A blob is accepted exactly if it has version 1, a key of 32 bytes and a signature of 64, and the
  -- signature holds under the key for the canonical text of the body.
  pub verify_delegation_iff :
      (blob : DelegationBlob) → (verify_delegation platform blob ≡ ok tt) ↔ IsSigned blob
  verify_delegation_iff blob = (
    λ h.
        let (signature, present, version, nonempty, k) = verify_signature blob h in
        let (key, key_bytes, key_length, prefix, e) = (check_key_iff blob.body signature).0 k in
        let (sig, sig_bytes, sig_length, c) = (check_encoding_iff blob.body key signature).0 e in
        let (canonical, canonical_text, holds) = (check_signature_iff blob.body sig key).0 c in
        record {
          version = version;
          signature = signature;
          present = present;
          nonempty = nonempty;
          prefix = prefix;
          key = key;
          key_bytes = key_bytes;
          key_length = key_length;
          sig = sig;
          sig_bytes = sig_bytes;
          sig_length = sig_length;
          canonical = canonical;
          canonical_text = canonical_text;
          holds = holds;
        },
    λ s.
        let c =
          (check_signature_iff blob.body s.sig s.key).1 (s.canonical, s.canonical_text, s.holds) in
        let e =
          (check_encoding_iff blob.body s.key s.signature).1
            (s.sig, s.sig_bytes, s.sig_length, c) in
        let k =
          (check_key_iff blob.body s.signature).1 (s.key, s.key_bytes, s.key_length, s.prefix, e) in
        unfold verify_delegation in
        ground (arith, k, s.present, s.nonempty, eq_iff blob.body.version "1", s.version),
  )

  same_fields : (fs : Fields) → AlikeFields fs fs
  same_fields Fields.end = AlikeFields.end
  same_fields (Fields.field k v fs) = AlikeFields.field k (Alike.same v) (same_fields fs)

  body_json-Alike :
      (b : BlobBody) (schema : Json)
      → Alike b.input_schema schema
      → Alike (body_json b) (body_json (record b { input_schema = schema }))
  unfolding body_json
  body_json-Alike b schema a =
      let delegation = AlikeFields.field "plugin" (Alike.same _) (
        AlikeFields.field "tool" (Alike.same _) (
          AlikeFields.field "scope" (Alike.same _)
            (AlikeFields.field "input_schema" a (same_fields _)))) in
      Alike.objects (
        AlikeFields.field "version" (Alike.same _) (
          AlikeFields.field "delegation_id" (Alike.same _) (
            AlikeFields.field "issuer" (Alike.same _) (
              AlikeFields.field "subject" (Alike.same _)
                (AlikeFields.field "delegation" (Alike.objects delegation) AlikeFields.end)))))

  module _ (b : BlobBody) (schema : Json) (a : Alike b.input_schema schema) where
    abbrev other : BlobBody
    other = record b { input_schema = schema }

    serialize_alike : serialize_blob platform b ≡ serialize_blob platform other
    unfolding serialize_blob
    serialize_alike = serialize_canonical-Alike quote (body_json-Alike b schema a)

    check_signature_alike :
        (sig key : Bytes)
        → check_signature platform b sig key ≡ check_signature platform other sig key
    unfolding check_signature
    check_signature_alike sig key = ground (arith, serialize_alike)

    check_encoding_alike :
        (key : Bytes) (s : String)
        → check_encoding platform b key s ≡ check_encoding platform other key s
    unfolding check_encoding
    check_encoding_alike key s = elim (Result-cases (base64url_to_bytes platform s)) [
      | inl (sig, e) ↦ ground (arith, e, check_signature_alike sig key)
      | inr (m, e) ↦ ground (arith, e)
    ]

    check_key_alike : (s : String) → check_key platform b s ≡ check_key platform other s
    unfolding check_key
    check_key_alike s =
        elim (Result-cases (base64url_to_bytes platform (drop_chars 8 b.issuer.verify_key))) [
          | inl (key, e) ↦ ground (arith, e, check_encoding_alike key s)
          | inr (m, e) ↦ ground (arith, e)
        ]

  -- The order of the keys in a delegation's input schema, at any depth, changes nothing about whether
  -- its signature is accepted, nor the reason if it is not.
  pub verify_delegation-Alike :
      (blob : DelegationBlob) (schema : Json)
      → Alike blob.body.input_schema schema
      → verify_delegation platform blob
        ≡ verify_delegation platform
            (record blob { body = record blob.body { input_schema = schema } })
  unfolding verify_delegation
  verify_delegation-Alike blob schema a = elim (Option-cases blob.signature) [
    | inl e ↦ ground (arith, e)
    | inr (s, e) ↦ ground (arith, e, check_key_alike blob.body schema a s)
  ]
