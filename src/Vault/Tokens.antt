-- ===== src/Vault/Tokens.antt =====
-- packages/hub-core/src/token-vault.ts: what is stored is read back, and every reading is recorded.
use pdatahub.Vault.{
  Crypto, TokenRow, VaultTable, TokenInput, DecryptedToken, filled, plugin_key, encrypt, decrypt,
  encrypt_refresh, token_row, store, decrypt_refresh, decrypt_row, get,
}
use pdatahub.Prelude.{
  String, none, some, false, inl, inr, refl, ok, ◌≡◌, Option, ℕ, lookup, str_eq, if◌then◌else◌,
  insert, Bool-cases, lookup-insert, eq_iff, ◌∙◌, arith, eq_refl, subst,
}

-- AES-256-GCM gives a text back under the key and the initialization vector that it was sealed with.
abbrev pub IsCipher : {Blob : Type 0} → Crypto Blob → Type 0
IsCipher {Blob} crypto =
    (key iv : Blob) (text : String)
    → crypto.unseal key
        (record { enc = (crypto.seal key iv text).0; iv = iv; tag = (crypto.seal key iv text).1 })
      ≡ ok text

-- The tokens that were put in, without an empty refresh token.
unfoldable pub stored_token : TokenInput → DecryptedToken
stored_token i = record {
  plugin = i.plugin;
  access_token = i.access_token;
  refresh_token = filled i.refresh_token;
  expires_at = i.expires_at;
  scope = i.scope;
}

module _ {Blob : Type 0} (crypto : Crypto Blob) (cipher : IsCipher crypto) where
  decrypt-encrypt :
      (plugin : String) (iv : Blob) (text : String)
      → decrypt crypto plugin (encrypt crypto plugin iv text) ≡ ok text
  unfolding decrypt encrypt
  decrypt-encrypt plugin iv text = cipher (plugin_key crypto plugin) iv text

  decrypt_refresh-encrypt_refresh :
      (plugin : String) (iv : Blob) (o : Option String)
      → decrypt_refresh crypto plugin (encrypt_refresh crypto plugin iv o) ≡ ok o
  unfolding decrypt_refresh encrypt_refresh
  decrypt_refresh-encrypt_refresh plugin iv none = refl
  decrypt_refresh-encrypt_refresh plugin iv (some text) =
      rw (decrypt-encrypt plugin iv text, decrypt_refresh) refl

  decrypt_row-token_row :
      (i : TokenInput) (iv iv' : Blob) (now : ℕ) (existing : Option (TokenRow Blob))
      → decrypt_row crypto i.plugin (token_row crypto i iv iv' now existing) ≡ ok (stored_token i)
  unfolding decrypt_row token_row stored_token
  decrypt_row-token_row i iv iv' now existing =
      rw
        (
          decrypt-encrypt i.plugin iv i.access_token,
          decrypt_refresh-encrypt_refresh i.plugin iv' (filled i.refresh_token),
          decrypt_row,
        )
        refl

  get_same :
      (i : TokenInput) (iv iv' : Blob) (now : ℕ) (table : VaultTable Blob)
      → get crypto i.plugin (store crypto i iv iv' now table) ≡ ok (some (stored_token i))
  unfolding get store
  get_same i iv iv' now table =
      let row = token_row crypto i iv iv' now (lookup i.plugin table) in
      let at : lookup i.plugin (insert i.plugin row table) ≡ some row =
        lookup-insert i.plugin i.plugin row table ∙ ground (arith, eq_refl i.plugin) in
      rw (at, get, decrypt_row-token_row i iv iv' now (lookup i.plugin table)) refl

  get_other :
      (i : TokenInput) (iv iv' : Blob) (now : ℕ) (q : String) (table : VaultTable Blob)
      → str_eq i.plugin q ≡ false
      → get crypto q (store crypto i iv iv' now table) ≡ get crypto q table
  unfolding get store
  get_other i iv iv' now q table e =
      let row = token_row crypto i iv iv' now (lookup i.plugin table) in
      let at : lookup q (insert i.plugin row table) ≡ lookup q table =
        lookup-insert i.plugin q row table ∙ ground (arith, e) in
      rw (at, get) refl

  -- If the cipher gives back what it seals, then the tokens that are stored for a plugin are what is read
  -- for it, an empty refresh token as none, and what is read for every other plugin is as before.
  pub get-store :
      (i : TokenInput) (iv iv' : Blob) (now : ℕ) (q : String) (table : VaultTable Blob)
      → get crypto q (store crypto i iv iv' now table)
        ≡ (if str_eq i.plugin q then ok (some (stored_token i)) else get crypto q table)
  get-store i iv iv' now q table = elim (Bool-cases (str_eq i.plugin q)) [
    | inl e ↦
        let same : i.plugin ≡ q = (eq_iff i.plugin q).0 e in
        rw e (
          subst (λ x. get crypto x (store crypto i iv iv' now table) ≡ ok (some (stored_token i)))
            same (get_same i iv iv' now table))
    | inr e ↦ rw e (get_other i iv iv' now q table e)
  ]
