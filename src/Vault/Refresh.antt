-- ===== src/Vault/Refresh.antt =====
-- packages/hub-core/src/token-vault.ts, `refreshAccessToken`. The form that is posted is its fields.
use mathlib.Core.Option
use pdatahub.Audit.{AuditAppendInput, rotation_row}
use pdatahub.Vault.{Crypto, VaultTable, DecryptedToken, filled, store, get}
use pdatahub.Prelude.{
  String, [], none, some, false, ok, err, ℕ, Option, Result, ◌+◌, str_append, List, Bool, ◌*◌, not,
  ◌∷◌, str_eq, if◌then◌else◌, leb,
}

-- `RefreshResponse`; `expires_in` is a number of seconds.
pub record RefreshResponse : Type 0 where
  pub access_token : String
  pub expires_in : ℕ
  pub scope : Option String
  pub refresh_token : Option String

-- What becomes of the request to the token endpoint: it fails, or it is answered with a status, a text, and
-- what reading the text as JSON gives.
pub data Answer : Type 0 where
  failed : String → Answer
  answered : ℕ → String → Result RefreshResponse → Answer

-- The fields of the form.
pub record RefreshForm : Type 0 where
  pub refresh_token : String
  pub client_id : String
  pub client_secret : Option String

-- The result, the table, and the entries about a rotation.
pub record Refreshed (Blob : Type 0) : Type 0 where
  pub result : Result (String × String)
  pub table : VaultTable Blob
  pub audited : List AuditAppendInput

-- The network, the text of a number, the clock behind the answer, and the vectors that are drawn.
pub record RefreshContext (Blob : Type 0) : Type 0 where
  pub post : String → RefreshForm → Answer
  pub decimal : ℕ → String
  pub now : ℕ
  pub iv : Blob
  pub iv_refresh : Blob

abbrev pub or_else : Option String → String → String
or_else o s = Option.get_or o s

unfoldable pub has_text : Option String → Bool
has_text none = false
has_text (some s) = not (str_eq s "")

module _ {Blob : Type 0} (crypto : Crypto Blob) (ctx : RefreshContext Blob) where
  -- The new tokens replace the old ones; a refresh token that is not sent anew stays.
  unfoldable pub renew :
      String → DecryptedToken → String → RefreshResponse → VaultTable Blob → Refreshed Blob
  renew plugin existing old r table =
      let expires_at = crypto.iso (ctx.now + r.expires_in * 1000) in
      let scope = or_else r.scope existing.scope in
      record {
        result = ok (expires_at, scope);
        table =
            store crypto
              (record {
                plugin = plugin;
                access_token = r.access_token;
                refresh_token = some (or_else r.refresh_token old);
                expires_at = some expires_at;
                scope = scope;
              })
              ctx.iv ctx.iv_refresh ctx.now table;
        audited = rotation_row plugin (has_text r.refresh_token) scope ∷ [];
      }

  abbrev pub refuse : String → VaultTable Blob → Refreshed Blob
  refuse message table = record { result = err message; table = table; audited = [] }

  unfoldable pub after_post :
      String → DecryptedToken → String → Answer → VaultTable Blob → Refreshed Blob
  after_post plugin existing old (failed e) table = refuse e table
  after_post plugin existing old (answered status text json) table =
      if leb 400 status
      then refuse
          (str_append "token refresh failed: "
            (str_append (ctx.decimal status) (str_append " " text)))
          table
      else elim json [ err e ↦ refuse e table | ok r ↦ renew plugin existing old r table ]

  unfoldable pub use_token :
      String → String → Option String → String → DecryptedToken → VaultTable Blob → Refreshed Blob
  use_token plugin client_id client_secret url existing table =
      elim (filled existing.refresh_token) [
        | none ↦
            refuse
              (str_append "no refresh_token for plugin "
                (str_append plugin " — re-authorization required"))
              table
        | some old ↦
            after_post plugin existing old
              (ctx.post url (record {
                refresh_token = old;
                client_id = client_id;
                client_secret = filled client_secret;
              }))
              table
      ]

  -- `refreshAccessToken`
  unfoldable pub refresh_access_token :
      String → String → Option String → String → VaultTable Blob → Refreshed Blob
  refresh_access_token plugin client_id client_secret url table = elim (get crypto plugin table) [
    | err e ↦ refuse e table
    | ok none ↦ refuse (str_append "no token stored for plugin " plugin) table
    | ok (some t) ↦ use_token plugin client_id client_secret url t table
  ]
