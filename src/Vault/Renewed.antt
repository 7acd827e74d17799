-- ===== src/Vault/Renewed.antt =====
-- `refreshAccessToken`: what a refresh leaves in the vault.
use pdatahub.Vault.{Crypto, VaultTable, DecryptedToken, filled, get}
use pdatahub.Vault.Refresh.{
  RefreshResponse, Answer, failed, answered, RefreshForm, Refreshed, RefreshContext, or_else, renew,
  after_post, use_token, refresh_access_token,
}
use pdatahub.Vault.Tokens.{IsCipher, stored_token, get-store}
use pdatahub.Prelude.{
  String, [], some, false, inl, inr, refl, ok, err, Option, ◌≡◌, ℕ, Result-cases, ◌<◌, Bool-cases,
  Option-cases, str_eq, ◌+◌, leb, ◌∙◌, ◌*◌, ap, arith, eq_refl,
}

-- What a refresh that succeeds has done: the vault held a refresh token that is not empty, the endpoint
-- took it and answered below 400, and then the vault holds the new access token with its expiry, with the
-- new refresh token or else the old one, and every other plugin's tokens as before.
pub record IsRenewed {Blob : Type 0} (crypto : Crypto Blob) (ctx : RefreshContext Blob)
    (plugin client_id : String) (client_secret : Option String) (url : String)
    (table : VaultTable Blob) (o : Refreshed Blob) : Type 0 where
  pub before : DecryptedToken
  pub held : get crypto plugin table ≡ ok (some before)
  pub old : String
  pub usable : filled before.refresh_token ≡ some old
  pub response : RefreshResponse
  pub code : ℕ
  pub text : String
  pub posted :
      ctx.post url (record {
        refresh_token = old;
        client_id = client_id;
        client_secret = filled client_secret;
      })
      ≡ answered code text (ok response)
  pub accepted : code < 400
  pub expires_at : String
  pub scope : String
  pub result : o.result ≡ ok (expires_at, scope)
  pub after :
      get crypto plugin o.table
      ≡ ok (
          some (record {
            plugin = plugin;
            access_token = response.access_token;
            refresh_token = filled (some (or_else response.refresh_token old));
            expires_at = some expires_at;
            scope = scope;
          }))
  pub others : (q : String) → str_eq plugin q ≡ false → get crypto q o.table ≡ get crypto q table

-- A refresh renews the tokens, or fails and leaves the vault and the audit log alone.
pub data IsRefreshed {Blob : Type 0} (crypto : Crypto Blob) (ctx : RefreshContext Blob)
    (plugin client_id : String) (client_secret : Option String) (url : String)
    (table : VaultTable Blob) (o : Refreshed Blob) : Type 0 where
  kept :
      (e : String)
      → o.result ≡ err e
      → o.table ≡ table
      → o.audited ≡ []
      → IsRefreshed crypto ctx plugin client_id client_secret url table o
  renewed :
      IsRenewed crypto ctx plugin client_id client_secret url table o
      → IsRefreshed crypto ctx plugin client_id client_secret url table o

module _ {Blob : Type 0} (crypto : Crypto Blob) (cipher : IsCipher crypto)
    (ctx : RefreshContext Blob) (plugin client_id : String) (client_secret : Option String)
    (url : String) (table : VaultTable Blob) where
  abbrev IsDone : Refreshed Blob → Type 0
  IsDone o = IsRefreshed crypto ctx plugin client_id client_secret url table o

  abbrev form : String → RefreshForm
  form old = record {
    refresh_token = old;
    client_id = client_id;
    client_secret = filled client_secret;
  }

  renew-IsDone :
      (before : DecryptedToken) (old : String) (code : ℕ) (text : String) (r : RefreshResponse)
      → get crypto plugin table ≡ ok (some before)
      → filled before.refresh_token ≡ some old
      → ctx.post url (form old) ≡ answered code text (ok r)
      → code < 400
      → IsDone (renew crypto ctx plugin before old r table)
  unfolding renew stored_token
  renew-IsDone before old code text r held usable posted accepted = renewed (record {
    before = before;
    held = held;
    old = old;
    usable = usable;
    response = r;
    code = code;
    text = text;
    posted = posted;
    accepted = accepted;
    expires_at = crypto.iso (ctx.now + r.expires_in * 1000);
    scope = or_else r.scope before.scope;
    result = refl;
    after =
        get-store crypto cipher _ ctx.iv ctx.iv_refresh ctx.now plugin table
        ∙ ground (arith, eq_refl plugin);
    others =
        λ q e. get-store crypto cipher _ ctx.iv ctx.iv_refresh ctx.now q table ∙ ground (arith, e);
  })

  after_post-IsDone :
      (before : DecryptedToken) (old : String) (a : Answer)
      → get crypto plugin table ≡ ok (some before)
      → filled before.refresh_token ≡ some old
      → ctx.post url (form old) ≡ a
      → IsDone (after_post crypto ctx plugin before old a table)
  unfolding after_post
  after_post-IsDone before old (failed e) held usable posted = kept e refl refl refl
  after_post-IsDone before old (answered code text json) held usable posted =
      elim (Bool-cases (leb 400 code)) [
        | inl e ↦ rw e (kept _ refl refl refl)
        | inr e ↦ rw e (elim (Result-cases json) [
          | inr (m, j) ↦ rw j (kept m refl refl refl)
          | inl (r, j) ↦ rw j (
              renew-IsDone before old code text r held usable (posted ∙ ap (answered code text) j)
                (ground (arith, e)))
        ])
      ]

  use_token-IsDone :
      (before : DecryptedToken)
      → get crypto plugin table ≡ ok (some before)
      → IsDone (use_token crypto ctx plugin client_id client_secret url before table)
  unfolding use_token
  use_token-IsDone before held = elim (Option-cases (filled before.refresh_token)) [
    | inl e ↦ rw (e, use_token) (kept _ refl refl refl)
    | inr (old, e) ↦
        rw (e, use_token) (after_post-IsDone before old (ctx.post url (form old)) held e refl)
  ]

  -- If the cipher gives back what it seals, a refresh fails and leaves the vault and the audit log as they
  -- were, or the vault then holds the new access token, with the new refresh token or, if none is sent, the
  -- old one, and every other plugin's tokens as before.
  pub refresh_access_token-IsRefreshed :
      IsRefreshed crypto ctx plugin client_id client_secret url table
        (refresh_access_token crypto ctx plugin client_id client_secret url table)
  unfolding refresh_access_token
  refresh_access_token-IsRefreshed = elim (Result-cases (get crypto plugin table)) [
    | inr (m, e) ↦ rw (e, refresh_access_token) (kept m refl refl refl)
    | inl (found, e) ↦ elim (Option-cases found) [
      | inl n ↦ rw (e ∙ ap ok n, refresh_access_token) (kept _ refl refl refl)
      | inr (before, s) ↦
          rw (e ∙ ap ok s, refresh_access_token) (use_token-IsDone before (e ∙ ap ok s))
    ]
  ]
