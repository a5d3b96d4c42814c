-- ===== src/Lib.antt =====
-- oidc-ssh-ca is an SSH certificate authority: a caller sends a public key and an OIDC token to
-- POST /sign, and gets a short-lived OpenSSH user certificate if exactly one rule of the policy
-- matches the token. This library models its packages and proves what makes them correct.
--
-- The parts, with the files that model them:
--   * internal/policy: Policy (the types and the effective values of a rule, `issuers`),
--     Policy.Matching (ruleMatches, Evaluate, ExplainRule), Policy.KeyId (the key ID templates) and
--     Policy.Validation (Validate), and Policy.Loading (Load, Parse). Net writes out net.ParseCIDR,
--     and Json the decoded claims.
--   * internal/oidc: Oidc.Time (checkTimeClaims), Oidc.Provider (provider, discoverProvider and
--     checkJWKS) and Oidc.Verify (Verify, unverifiedIssuer).
--   * internal/issuer: Issuer.PublicKey (ValidatePublicKey), Issuer.Certificates (Issue) and
--     Issuer.CaKey (LoadCAKey, readKeyFile).
--   * internal/audit: Audit.
--   * internal/server: Server (the types, deny and the helpers), Server.Sign (Sign) and Server.Http
--     (the handlers).
--   * cmd/oidc-ssh-ca: Cmd (what the commands print, and how they end), Cmd.Start and Serve
--     (cmdServe: its start and its end; the reload on SIGHUP among the requests, and the whole
--     server in Serve.Remote), Cmd.CheckConfig, Cmd.Explain, Cmd.PrintCaPub and Cmd.Main (main).
--     Cmd.Flags writes out what package flag does for them.
-- Each has its theorems in child modules, and Tests hold concrete runs and the theorems at them.
-- Prelude has what they share: lists, results, texts as bytes, and integers with int64 and uint64.
--
-- How they interact: `sign` takes the active policy, calls `validate_public_key`, the verifier
-- (an interface, `Verifier`, with a state of its own), `evaluate`, `expand_key_id` and `issue`, and
-- writes one event to the log. A request's effect is a function of the state before it, which holds
-- the policy, the verifier's state and the log. `launch` makes the first of these states from the
-- command line, and `Serves` has every state that follows from it. `main` calls the commands; what the
-- server does between its start and its end is an argument there. Explain and check-config read the
-- same policy, by the same functions, as the server.
--
-- Conventions: a Go string is the list of its bytes; a pair of a value and an error is a `Result`; a
-- map is the list of its entries, in any order; an `int` is an integer; a float64 is its bits; an
-- instant is an integer of nanoseconds since 1970. Code of other packages (go-oidc, x/crypto/ssh,
-- encoding/json, encoding/base64, os, net/http, crypto/rand) is an argument, gathered in the records
-- Sources, Remote, Library, Decoders, Keys, Signer, Files, Parser, Packages and Os; what a theorem needs
-- of it is a hypothesis. Every loop is structural recursion, so there is no fuel. The mutexes of the provider
-- cache are the boundaries of the steps in Oidc.Provider.Cache, and an event list is an interleaving.
--
-- Not modelled: the text of what is printed (a line is a value with what its format string shows), the
-- time limits of the HTTP server, slog, and what http.ServeMux answers for other paths.
pub mod Prelude
pub mod Json
pub mod Net
pub mod Policy
pub mod Oidc
pub mod Issuer
pub mod Audit
pub mod Server
pub mod Serve
pub mod Cmd
