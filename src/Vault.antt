-- ===== src/Vault.antt =====
-- packages/hub-core/src/token-vault.ts: the encrypted store of OAuth tokens. The table is a map from a
-- plugin's name, its primary key, to the other columns. HKDF, AES-256-GCM, their buffers and the
-- texts of times are parameters, and so are the initialization vectors that are drawn.
pub mod Tokens
pub mod Refresh
pub mod Renewed
mod Tests
use mathlib.Core.Option
use pdatahub.Audit.{VaultAccessInput, VaultAccessResult}
use pdatahub.Delegations.Canonical.{str_le}
use pdatahub.Federation.Call.{Instant}
use pdatahub.Prelude.{
  String, [], none, some, true, false, ok, err, Result, Option, Dict, List, Bool, ℕ, ◌∷◌, remove,
  if◌then◌else◌, insert, lookup, str_append, ltb, str_eq, ◌+◌, starts_with,
}

-- A ciphertext with its initialization vector and its tag.
pub record Sealed (Blob : Type 0) : Type 0 where
  pub enc : Blob
  pub iv : Blob
  pub tag : Blob

-- `hkdfSync` with the master key, `createCipheriv` and `createDecipheriv`, `toISOString` and `Date.parse`.
pub record Crypto (Blob : Type 0) : Type 0 where
  pub hkdf : String → String → Blob
  pub seal : Blob → Blob → String → Blob × Blob
  pub unseal : Blob → Sealed Blob → Result String
  pub iso : ℕ → String
  pub parse_date : String → Option Instant

pub record TokenRow (Blob : Type 0) : Type 0 where
  pub access : Sealed Blob
  pub refresh : Option (Sealed Blob)
  pub expires_at : Option String
  pub scope : String
  pub created_at : ℕ
  pub updated_at : ℕ

abbrev pub VaultTable : Type 0 → Type 0
VaultTable Blob = Dict (TokenRow Blob)

pub record TokenInput : Type 0 where
  pub plugin : String
  pub access_token : String
  pub refresh_token : Option String
  pub expires_at : Option String
  pub scope : String

pub record DecryptedToken : Type 0 where
  pub plugin : String
  pub access_token : String
  pub refresh_token : Option String
  pub expires_at : Option String
  pub scope : String

-- `VaultAccessOpts`
pub record VaultAccessOpts : Type 0 where
  pub actor_type : Option String
  pub actor_id : Option String
  pub tool_name : Option String
  pub request_id : Option String

unfoldable pub created_of : {Blob : Type 0} → Option (TokenRow Blob) → ℕ → ℕ
created_of none now = now
created_of (some row) now = row.created_at

-- The row of a plugin in the answer of `listPlugins`.
abbrev pub Listed : Type 0
Listed = String × String × Option String

unfoldable pub insert_listed : Listed → List Listed → List Listed
insert_listed x [] = x ∷ []
insert_listed (p, s, e) ((q, t, f) ∷ ys) =
    let rest = insert_listed (p, s, e) ys in
    if str_le p q then (p, s, e) ∷ (q, t, f) ∷ ys else (q, t, f) ∷ rest

-- `listPlugins`
unfoldable pub list_plugins : {Blob : Type 0} → VaultTable Blob → List Listed
list_plugins [] = []
list_plugins ((plugin, row) ∷ table) =
    insert_listed (plugin, row.scope, row.expires_at) (list_plugins table)

-- `delete`, and whether a row was there.
unfoldable pub delete : {Blob : Type 0} → String → VaultTable Blob → VaultTable Blob × Bool
delete plugin table =
    (remove plugin table, elim (lookup plugin table) [ none ↦ false | some r ↦ true ])

-- `if (input.refresh_token)`: an empty one is as none.
unfoldable pub filled : Option String → Option String
filled none = none
filled (some s) = if str_eq s "" then none else some s

module _ {Blob : Type 0} (crypto : Crypto Blob) where
  -- `pluginKey`
  unfoldable pub plugin_key : String → Blob
  plugin_key plugin = crypto.hkdf plugin "pdatahub-token-vault-v1"

  unfoldable pub encrypt : String → Blob → String → Sealed Blob
  encrypt plugin iv text =
      let (enc, tag) = crypto.seal (plugin_key plugin) iv text in
      record { enc = enc; iv = iv; tag = tag }

  unfoldable pub decrypt : String → Sealed Blob → Result String
  decrypt plugin sealed = crypto.unseal (plugin_key plugin) sealed

  unfoldable pub encrypt_refresh : String → Blob → Option String → Option (Sealed Blob)
  encrypt_refresh plugin iv none = none
  encrypt_refresh plugin iv (some text) = some (encrypt plugin iv text)

  -- The row that `store` writes; one that it replaces keeps its time of creation.
  unfoldable pub token_row : TokenInput → Blob → Blob → ℕ → Option (TokenRow Blob) → TokenRow Blob
  token_row i iv iv' now existing = record {
    access = encrypt i.plugin iv i.access_token;
    refresh = encrypt_refresh i.plugin iv' (filled i.refresh_token);
    expires_at = i.expires_at;
    scope = i.scope;
    created_at = created_of existing now;
    updated_at = now;
  }

  -- `store`
  unfoldable pub store : TokenInput → Blob → Blob → ℕ → VaultTable Blob → VaultTable Blob
  store i iv iv' now table = insert i.plugin (token_row i iv iv' now (lookup i.plugin table)) table

  unfoldable pub decrypt_refresh : String → Option (Sealed Blob) → Result (Option String)
  decrypt_refresh plugin none = ok none
  decrypt_refresh plugin (some sealed) = elim (decrypt plugin sealed) [
    | err e ↦ err e
    | ok text ↦ ok (some text)
  ]

  unfoldable pub decrypt_row : String → TokenRow Blob → Result DecryptedToken
  decrypt_row plugin row = elim (decrypt plugin row.access) [
    | err e ↦ err e
    | ok access ↦ elim (decrypt_refresh plugin row.refresh) [
      | err e ↦ err e
      | ok refresh ↦ ok (record {
        plugin = plugin;
        access_token = access;
        refresh_token = refresh;
        expires_at = row.expires_at;
        scope = row.scope;
      })
    ]
  ]

  -- `get`: it throws where a tag does not fit.
  unfoldable pub get : String → VaultTable Blob → Result (Option DecryptedToken)
  get plugin table = elim (lookup plugin table) [
    | none ↦ ok none
    | some row ↦ elim (decrypt_row plugin row) [ err e ↦ err e | ok t ↦ ok (some t) ]
  ]

  unfoldable pub access_entry :
      String → VaultAccessOpts → VaultAccessResult → Option String → VaultAccessInput
  access_entry plugin opts result message = record {
    plugin = plugin;
    actor_type = Option.get_or opts.actor_type "system";
    actor_id = Option.get_or opts.actor_id "local-user";
    tool_name = opts.tool_name;
    request_id = opts.request_id;
    result = result;
    error_message = message;
  }

  -- What `getAccessToken` records of an exception of `get`, but not of its own.
  unfoldable pub failed_entry : String → VaultAccessOpts → String → List VaultAccessInput
  failed_entry plugin opts e =
      if starts_with e "No token stored for plugin:"
      then []
      else access_entry plugin opts VaultAccessResult.failed (some e) ∷ []

  -- `getAccessToken`, with what it records where an audit log is wired.
  unfoldable pub get_access_token :
      String → VaultAccessOpts → VaultTable Blob → Result DecryptedToken × List VaultAccessInput
  get_access_token plugin opts table = elim (get plugin table) [
    | err e ↦ (err e, failed_entry plugin opts e)
    | ok none ↦ (
      err (str_append "No token stored for plugin: " plugin),
      access_entry plugin opts VaultAccessResult.not_found none ∷ [],
    )
    | ok (some t) ↦ (ok t, access_entry plugin opts VaultAccessResult.success none ∷ [])
  ]

  -- `exp - Date.now() < withinMs`
  unfoldable pub is_near : ℕ → ℕ → Instant → Bool
  is_near within now (Instant.since t) = ltb t (now + within)
  is_near within now (Instant.before t) = ltb 0 (t + (now + within))

  unfoldable pub expires_soon : ℕ → ℕ → Option String → Bool
  expires_soon within now none = false
  expires_soon within now (some text) =
      if str_eq text ""
      then false
      else elim (crypto.parse_date text) [ none ↦ false | some t ↦ is_near within now t ]

  -- `isExpiringSoon`
  unfoldable pub is_expiring_soon : String → ℕ → ℕ → VaultTable Blob → Result Bool
  is_expiring_soon plugin within now table = elim (get plugin table) [
    | err e ↦ err e
    | ok none ↦ ok false
    | ok (some t) ↦ ok (expires_soon within now t.expires_at)
  ]
