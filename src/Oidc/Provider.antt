-- ===== src/Oidc/Provider.antt =====
-- internal/oidc/verifier.go: `provider`, `discoverProvider` and `checkJWKS`. What go-oidc, the HTTP
-- client and the JSON decoder answer are fields of `Remote`; `Provider` is go-oidc's type. The
-- critical section under an entry's mutex is one step, `run_entry`; the clock is read three times in
-- it. `attempted` tells whether the step made an outbound discovery.
pub mod Entries
pub mod Cache
pub mod Genuine
pub mod Recovery
mod Tests
use oidc_ssh_ca.Prelude.{
  ℕ, ◌+◌, ◌*◌, ◌^◌, Bool, true, false, not, ◌&&◌, Option, none, some, List, [], ◌∷◌, is_empty, ◌==◌,
  if◌then◌else◌, Result, ok, err, ◌>>◌, ◌>>=◌, check, refuse, map_err,
}
use oidc_ssh_ca.Prelude.Text.{Text, str_eq}
use oidc_ssh_ca.Prelude.Int.{ℤ, pos, ◌-ℤ◌, ltb_ℤ}
use oidc_ssh_ca.Json.{lookup}
use oidc_ssh_ca.Oidc.Time.{second}

-- 10 minutes
abbrev pub jwks_ttl : ℤ
jwks_ttl = pos (600 * second)

-- 5 seconds
abbrev pub discovery_retry_delay : ℤ
discovery_retry_delay = pos (5 * second)

abbrev pub jwks_max_response_bytes : ℕ
jwks_max_response_bytes = 2 ^ 20

abbrev pub status_ok : ℕ
status_ok = 200

-- an HTTP response, whose body is read up to a limit
pub record Reply (E : Type 0) : Type 0 where
  pub status_code : ℕ
  pub status : Text
  pub read_body : ℕ → Result E Text

-- The outside world during one discovery.
pub record Remote (Provider E : Type 0) : Type 0 where
  -- gooidc.NewProvider
  pub new_provider : Text → Result E Provider
  -- p.Claims(&doc), then doc.JWKSURI
  pub jwks_uri : Provider → Result E Text
  -- http.NewRequestWithContext
  pub new_request : Text → Result E (Unit {0})
  -- v.client.Do
  pub send : Text → Result E (Reply E)
  -- json.Unmarshal(body, &jwks), then whether jwks.Keys is not nil
  pub has_keys : Text → Result E Bool

pub data JwksError (E : Type 0) : Type 0 where
  transport : E → JwksError E
  bad_status : Text → JwksError E
  not_a_jwks : E → JwksError E
  no_keys_member : JwksError E

pub data DiscoveryError (E : Type 0) : Type 0 where
  no_provider : E → DiscoveryError E
  bad_document : E → DiscoveryError E
  no_jwks_uri : DiscoveryError E
  preflight : Text → JwksError E → DiscoveryError E

-- one issuer's `providerEntry`; the mutex is not part of the value
pub record Entry (Provider E : Type 0) : Type 0 where
  pub provider : Option Provider
  pub fetched_at : ℤ
  pub failure : Option (DiscoveryError E)
  pub failed_at : ℤ

-- The clock readings of one call, in order, and whether its context had ended after a failed
-- discovery (`ctx.Err() != nil`).
pub record Call : Type 0 where
  pub now : ℤ
  pub now_retry : ℤ
  pub now_after : ℤ
  pub context_ended : Bool

pub record Outcome (Provider E : Type 0) : Type 0 where
  pub entry : Entry Provider E
  pub result : Result (DiscoveryError E) Provider
  pub attempted : Bool

-- `e.provider != nil && v.now().Sub(e.fetchedAt) < jwksTTL`
abbrev pub fresh : {Provider : Type 0} → Option Provider → ℤ → ℤ → Option Provider
fresh none fetched_at now = none
fresh (some p) fetched_at now = if ltb_ℤ (now -ℤ fetched_at) jwks_ttl then some p else none

-- `e.err != nil && v.now().Sub(e.failedAt) < discoveryRetryDelay`
abbrev pub backing_off :
    {E : Type 0} → Option (DiscoveryError E) → ℤ → ℤ → Option (DiscoveryError E)
backing_off none failed_at now = none
backing_off (some why) failed_at now =
    if ltb_ℤ (now -ℤ failed_at) discovery_retry_delay then some why else none

-- the map `providers` of a RemoteVerifier
abbrev pub Providers : Type 0 → Type 0 → Type 0
Providers Provider E = List (Text × Entry Provider E)

module _ {Provider E : Type 0} where
  unfoldable pub check_jwks : Remote Provider E → Text → Result (JwksError E) (Unit {0})
  check_jwks remote uri = do
    map_err transport (remote.new_request uri)
    reply ← map_err transport (remote.send uri)
    body ← map_err transport (reply.read_body jwks_max_response_bytes)
    check (reply.status_code == status_ok) (bad_status reply.status)
    keys ← map_err not_a_jwks (remote.has_keys body)
    check keys no_keys_member

  unfoldable pub discover_provider : Remote Provider E → Text → Result (DiscoveryError E) Provider
  discover_provider remote issuer = do
    p ← map_err no_provider (remote.new_provider issuer)
    uri ← map_err bad_document (remote.jwks_uri p)
    refuse (is_empty uri) no_jwks_uri
    map_err (preflight uri) (check_jwks remote uri)
    ok p

  -- the cached provider, however old, or the error
  abbrev pub stale_or : Option Provider → DiscoveryError E → Result (DiscoveryError E) Provider
  stale_or (some p) why = ok p
  stale_or none why = err why

  abbrev pub after_discovery :
      Entry Provider E → Call → Result (DiscoveryError E) Provider → Outcome Provider E
  after_discovery e call (err why) = record {
    entry =
        if call.context_ended
        then e
        else record e { failure = some why; failed_at = call.now_after };
    result = stale_or e.provider why;
    attempted = true;
  }
  after_discovery e call (ok p) = record {
    entry = record e { provider = some p; fetched_at = call.now_after; failure = none };
    result = ok p;
    attempted = true;
  }

  abbrev pub retry_or_wait :
      Option (DiscoveryError E)
      → Entry Provider E
      → Call
      → Result (DiscoveryError E) Provider
      → Outcome Provider E
  retry_or_wait (some why) e call found = record {
    entry = e;
    result = stale_or e.provider why;
    attempted = false;
  }
  retry_or_wait none e call found = after_discovery e call found

  abbrev pub serve_or_refresh :
      Option Provider
      → Entry Provider E
      → Call
      → Result (DiscoveryError E) Provider
      → Outcome Provider E
  serve_or_refresh (some p) e call found = record { entry = e; result = ok p; attempted = false }
  serve_or_refresh none e call found =
      retry_or_wait (backing_off e.failure e.failed_at call.now_retry) e call found

  -- the part of `provider` under `e.mu`
  unfoldable pub run_entry : Remote Provider E → Text → Entry Provider E → Call → Outcome Provider E
  run_entry remote issuer e call =
      serve_or_refresh (fresh e.provider e.fetched_at call.now) e call
        (discover_provider remote issuer)

  -- `&providerEntry{}`: no time is read before it is set
  abbrev pub empty_entry : Entry Provider E
  empty_entry = record { provider = none; fetched_at = pos 0; failure = none; failed_at = pos 0 }

  -- the entry of an issuer is replaced, or added at the end
  unfoldable pub put : Text → Entry Provider E → Providers Provider E → Providers Provider E
  put issuer e [] = (issuer, e) ∷ []
  put issuer e ((k, d) ∷ rest) =
      if str_eq k issuer then (k, e) ∷ rest else (k, d) ∷ put issuer e rest

  abbrev pub entry_or_empty : Option (Entry Provider E) → Entry Provider E
  entry_or_empty none = empty_entry
  entry_or_empty (some e) = e

  abbrev pub add_absent :
      Option (Entry Provider E) → Text → Providers Provider E → Providers Provider E
  add_absent none issuer providers = put issuer empty_entry providers
  add_absent (some e) issuer providers = providers

  -- the part of `provider` under `v.mu`
  unfoldable pub register : Text → Providers Provider E → Providers Provider E
  register issuer providers = add_absent (lookup issuer providers) issuer providers

  -- The part under `e.mu`, on the entry that the map holds for the issuer: the source keeps the
  -- pointer, and no entry is ever removed or replaced in the map.
  unfoldable pub run_issuer :
      Remote Provider E
      → Text
      → Call
      → Providers Provider E
      → Providers Provider E × Result (DiscoveryError E) Provider
  run_issuer remote issuer call providers =
      let out = run_entry remote issuer (entry_or_empty (lookup issuer providers)) call in
      (put issuer out.entry providers, out.result)

  unfoldable pub provider :
      Remote Provider E
      → Text
      → Call
      → Providers Provider E
      → Providers Provider E × Result (DiscoveryError E) Provider
  provider remote issuer call providers = run_issuer remote issuer call (register issuer providers)
