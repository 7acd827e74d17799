-- ===== src/Vault/Tests.antt =====
-- packages/hub-core/src/token-vault.ts: tests, and the theorems at concrete tables.
use pdatahub.Federation.Call.{Instant}
use pdatahub.Vault.{
  Crypto, VaultTable, TokenInput, DecryptedToken, filled, store, token_row, get, decrypt_row,
  decrypt_refresh, decrypt, encrypt, plugin_key, encrypt_refresh,
}
use pdatahub.Vault.Tokens.{IsCipher, stored_token, get-store}
use pdatahub.Vault.Refresh.{
  RefreshResponse, answered, RefreshContext, refresh_access_token, use_token, after_post, renew,
}
use pdatahub.Vault.Renewed.{IsRefreshed, refresh_access_token-IsRefreshed}
use pdatahub.Prelude.{String, [], none, some, refl, ok, ◌≡◌, Option, lookup, Result, insert}

-- A cipher that leaves the text as it is.
abbrev crypto : Crypto String
crypto = record {
  hkdf = λ plugin info. plugin;
  seal = λ key iv text. (text, "tag");
  unseal = λ key sealed. ok sealed.enc;
  iso = λ t. "2026-01-01T01:00:00.000Z";
  parse_date = λ s. some (Instant.since 3600000);
}

crypto-IsCipher : IsCipher crypto
crypto-IsCipher key iv text = refl

abbrev input : TokenInput
input = record {
  plugin = "gmail";
  access_token = "a1";
  refresh_token = some "f1";
  expires_at = some "2026-01-01T00:00:00.000Z";
  scope = "gmail.read";
}

abbrev table : VaultTable String
table = store crypto input "iv" "iv2" 7 []

get-store_example :
    get crypto "gmail" (store crypto input "iv" "iv2" 7 []) ≡ ok (some (stored_token input))
get-store_example = get-store crypto crypto-IsCipher input "iv" "iv2" 7 "gmail" []

abbrev response : Option String → RefreshResponse
response refresh = record {
  access_token = "a2";
  expires_in = 3600;
  scope = none;
  refresh_token = refresh;
}

abbrev context : Option String → RefreshContext String
context refresh = record {
  post = λ url form. answered 200 "" (ok (response refresh));
  decimal = λ n. "";
  now = 8;
  iv = "iv3";
  iv_refresh = "iv4";
}

refresh_access_token-IsRefreshed_example :
    IsRefreshed crypto
      (context none)
      "gmail"
      "id"
      none
      "https://token"
      table
      (refresh_access_token crypto (context none) "gmail" "id" none "https://token" table)
refresh_access_token-IsRefreshed_example =
    refresh_access_token-IsRefreshed crypto crypto-IsCipher (context none) "gmail" "id" none
      "https://token" table

-- A refresh keeps the refresh token, but an empty one in the answer takes it away.
abbrev refresh_token_after : Option String → Result (Option DecryptedToken)
refresh_token_after refresh =
    get crypto "gmail"
      (refresh_access_token crypto (context refresh) "gmail" "id" none "https://token" table).table

abbrev expected : Option String → DecryptedToken
expected refresh = record {
  plugin = "gmail";
  access_token = "a2";
  refresh_token = refresh;
  expires_at = some "2026-01-01T01:00:00.000Z";
  scope = "gmail.read";
}

kept_token : refresh_token_after none ≡ ok (some (expected (some "f1")))
unfolding refresh_access_token use_token after_post renew get store token_row decrypt_row
    decrypt_refresh decrypt encrypt plugin_key encrypt_refresh filled lookup insert
kept_token = refl

lost_token : refresh_token_after (some "") ≡ ok (some (expected none))
unfolding refresh_access_token use_token after_post renew get store token_row decrypt_row
    decrypt_refresh decrypt encrypt plugin_key encrypt_refresh filled lookup insert
lost_token = refl
