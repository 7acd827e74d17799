-- ===== src/Lib.antt =====
-- pdatahub: a hub that runs an AI agent's tool calls on the owner's data, each under a grant that the
-- owner approves on a phone. `handleRequest` sends files of the web UI, tests the token, applies the rate
-- limiter and chooses a handler. A call of a local agent goes to `handleCallTool`, one that another hub
-- has signed to `handleFederationCall`, which also tests the delegation and the nonce. Both get a grant
-- from `ensureGrant`, which finds it in the grant store or asks the phone, then a token from the vault, and
-- leave an entry in the audit log. `handleFederationInvoke` is the other end: it signs a call and sends it
-- to the hub that `handleCreateDelegation` made the delegation on.
--
-- Nonces: packages/hub-core/src/federation/nonces.ts. `record_nonce` is `NonceStore.record`,
--   `is_seen_recently` is `isSeenRecently`, `admit` the use of both in `handleFederationCall` of
--   packages/hub-core/src/server.ts, for a call that passes the other tests.
-- RateLimit: packages/hub-core/src/rate-limit.ts. `consume`, `evict_idle`, `size` and `reset` are the
--   methods of `RateLimiter`; RateLimit/Route has `routeClassFor` and `clientIp`. `refill` and `draw`
--   are the two halves of `consume`.
-- Grants: packages/hub-core/src/grant-store.ts. `create`, `get_by_id`, `is_valid`, `revoke`,
--   `list_active_for_user` and `find_active` are the methods of `GrantStore`.
-- Grants/Ensure: `ensureGrant` of packages/hub-core/src/server.ts. What the phone answers, what other
--   requests do to the table during the wait, the scope that the plugin states, the clock and the UUID
--   are the fields of `EnsureContext`.
-- Approvals: packages/hub-core/src/approval-stream.ts. `request_approval`, `handle_message` and `close`
--   are the methods of `ApprovalStream` on its map of pending requests, `on_timeout` the timer, and
--   `is_let_in` the token test of `handleConnection`. Approvals/Stream has the clients, the broadcasts and
--   the runs over sequences of events; a timer fires when the clock reaches its time, and
--   a message that is null ends the run with the process.
-- Audit: packages/hub-core/src/audit-log.ts. `append`, `query`, `get_by_error_code`, `count_older_than`
--   and `purge_older_than` are methods of `AuditLog`; `vault_row` and `rotation_row` are the rows that
--   `recordVaultAccessSync` and `recordTokenRotation` append. `stats` and `record_vault_access` are the
--   methods that count and that append and broadcast.
-- Delegations: packages/hub-core/src/federation/delegation.ts. The operations of `DelegationStore` keep
--   their names; Delegations/Canonical is `CanonicalJson`, Delegations/Blob has `signDelegation` and
--   `verifyDelegation`, Delegations/Lookup `parseBlob` and `getToolInputSchema`, Delegations/Latest the order
--   of the rows that `findReceivedMatch` gives. Base64, text encoding and
--   Ed25519 are the fields of `Platform`.
-- Federation/Call: `handleFederationCall` of packages/hub-core/src/server.ts. Call/Checks has steps 1 to
--   6, which only read, as a chain of steps that reject or go on; Call/Run has the recording of the
--   nonce and steps 7 to 13, and the handler. The rest of the hub is in `Surroundings`.
-- Federation/Names: `parseFederatedToolName` and `listFederatedToolDescriptors` of
--   packages/hub-core/src/server.ts.
-- Federation/Invoke: `handleFederationInvoke` of packages/hub-core/src/server.ts. Invoke/Run has the
--   handler; the network, the clock and the key are in `InvokeContext`.
-- Federation/Create: `handleCreateDelegation` of packages/hub-core/src/server.ts, with its parameters in
--   `CreateContext`; Create/Issued has the theorem.
-- Federation/Revoke: `handleListDelegations` and `handleRevokeDelegation` of
--   packages/hub-core/src/server.ts.
-- Federation/Limit: `checkFederatedRateLimit` of packages/hub-core/src/server.ts.
-- Http: `handleRequest` of packages/hub-core/src/server.ts. Http/Static is packages/hub-core/src/static.ts,
--   Http/Auth has `routeAuth`, `pathToRegex`, `lookupAuthStrategy` and `checkAuth`, Http/Routes the tests of
--   method and path in their order, and Http/Handle puts them together with the rate limiter.
--   Http/Startup is packages/hub-core/src/startup.ts.
-- Tools: `handleCallTool` of packages/hub-core/src/server.ts in Tools/Call, with `mapErrorToHttpStatus`,
--   `mapErrorToMcpError`, `buildPluginReauthNotification` and `resolveClientCredentials` in Tools. The
--   vault, the plugins and the phone are in `Surroundings`. A plugin may answer null, or throw it.
-- Vault: packages/hub-core/src/token-vault.ts. The methods of `TokenVault` keep their names; Vault/Refresh
--   is `refreshAccessToken`.
-- Migrations: packages/hub-core/src/migrations.ts, with the statements of each migration in
--   Migrations/Tables and those of the constructors of two stores in Migrations/Stores. What SQLite does
--   with a statement is written out for tables, columns and indexes.
-- Backup: Backup/Mnemonic is packages/hub-core/src/backup/mnemonic.ts, Backup/Words the word list of
--   packages/hub-core/src/backup/wordlist.ts. A phrase of words is read and written through lists of bits.
-- Sdk: Sdk/Transport is `StdioTransport` of packages/plugin-sdk/src/transport.ts; its handler is a function
--   with a state, and `take_lines` is what the loop over the buffer takes from it. Sdk/Client is
--   `HttpClient` of packages/plugin-sdk/src/http-client.ts, with the errors that it throws. Sdk/Manifest is
--   packages/plugin-sdk/src/manifest.ts. Sdk/Plugin is the class `Plugin` of plugin.ts beside it: `dispatch` is
--   the handler of the transport, the class that extends `Plugin` a parameter; Sdk/Async has its promises.
-- Plugins: packages/hub-core/src/plugin-process.ts. `request`, `on_message` and `cleanup` are the methods
--   of `PluginProcess` on its map of pending requests, `run` their use over any sequence of events;
--   Plugins/Registry is `PluginRegistry`, and Plugins/Typed puts the processes behind `handleCallTool`.
-- Prelude: the names and lemmas that the modules share.
--
-- A SQL table is the list of its rows, in the order of insertion, and a time is the number of
-- milliseconds whose ISO 8601 text the column holds, save that the expiry of a received delegation is
-- the text that the peer chose. Each operation takes the state and returns the new
-- one. The tokens of the rate limiter are counted in units of 1/60000, without the rounding of floats.
-- All definitions are total by structural recursion, and there is no fuel.
--
-- Not modelled: sockets, HTTP parsing, and the handlers of plugins, tokens and grants in server.ts; OAuth,
-- the files of backups, error-sanitize.ts, the command line and the configuration of hub-core, and its HTTP
-- client federation-http.ts; validation by ajv, a library, in plugin-sdk; the packages mcp-server, relay and
-- web; the programs in Kotlin and Go.
mod Prelude
pub mod Migrations
pub mod Backup
pub mod Sdk
pub mod Plugins
pub mod Nonces
pub mod RateLimit
pub mod Grants
pub mod Approvals
pub mod Audit
pub mod Delegations
pub mod Federation
pub mod Http
pub mod Tools
pub mod Vault
