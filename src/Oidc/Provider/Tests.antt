-- ===== src/Oidc/Provider/Tests.antt =====
-- An issuer whose provider was discovered 11 minutes ago, and a remote side that is down.
use oidc_ssh_ca.Prelude.{
  ℕ, ◌*◌, ◌≡◌, refl, ◌≢◌, ◌↔◌, ◌⊎◌, true, false, none, some, List, [], ◌∷◌, All, ok, err,
}
use oidc_ssh_ca.Prelude.Text.{Text, codes, str_eq}
use oidc_ssh_ca.Prelude.Int.{ℤ, pos, ◌+ℤ◌, ◌-ℤ◌, ◌<ℤ◌}
use oidc_ssh_ca.Json.{lookup}
use oidc_ssh_ca.Oidc.Time.{second}
use oidc_ssh_ca.Oidc.Provider.{
  Remote, Entry, Call, Providers, DiscoveryError, jwks_ttl, check_jwks, discover_provider,
  run_entry, put, register, run_issuer, provider,
}
use oidc_ssh_ca.Oidc.Provider.Entries.{IsFresh, IsBackingOff, attempted_iff, run_entry_serves}
use oidc_ssh_ca.Oidc.Provider.Cache.{
  Event, registers, runs, run_events, HasProvider, run_events_keeps,
}
use oidc_ssh_ca.Oidc.Provider.Genuine.{
  IsSound, IsSoundEvent, IsGenuine, run_events-IsGenuine, discover_provider-ok,
}

providers_of : Unit {0}
unfolding run_entry discover_provider check_jwks ◌+ℤ◌ ◌-ℤ◌ lookup str_eq put register run_issuer
    provider
providers_of = tt

abbrev at : ℕ → ℤ
at seconds = pos (seconds * second)

abbrev up : Remote ℕ ℕ
up = record {
  new_provider = λ issuer. ok 7;
  jwks_uri = λ p. ok (codes "https://idp/jwks");
  new_request = λ uri. ok tt;
  send = λ uri.
      ok (record { status_code = 200; status = codes "200 OK"; read_body = λ n. ok (codes "{}") });
  has_keys = λ body. ok true;
}

abbrev down : Remote ℕ ℕ
down = record {
  new_provider = λ issuer. err 1;
  jwks_uri = λ p. err 1;
  new_request = λ uri. err 1;
  send = λ uri. err 1;
  has_keys = λ body. err 1;
}

abbrev idp : Text
idp = codes "https://idp"

abbrev other : Text
other = codes "https://other"

abbrev entry : Entry ℕ ℕ
entry = record { provider = some 7; fetched_at = at 0; failure = none; failed_at = at 0 }

abbrev late : Call
late = record { now = at 660; now_retry = at 660; now_after = at 661; context_ended = false }

abbrev cache : Providers ℕ ℕ
cache = (idp, entry) ∷ []

abbrev IsSeven : Text → ℕ → Type 0
IsSeven issuer p = p ≡ 7

abbrev events : List (Event ℕ ℕ)
events = registers other ∷ runs up other late ∷ runs down idp late ∷ []

stale : (run_entry down idp entry late).result ≡ ok 7
unfolding providers_of
stale = refl

attempted_iff_example :
    ((run_entry down idp entry late).attempted ≡ true)
    ↔ ((¬ (IsFresh entry late.now)) × (¬ (IsBackingOff entry late.now_retry)))
attempted_iff_example = attempted_iff down idp entry late

run_entry_serves_example :
    (discover_provider down idp ≡ ok 7)
    ⊎ ((entry.provider ≡ some 7)
        × ((late.now <ℤ entry.fetched_at +ℤ jwks_ttl)
            ⊎ IsBackingOff entry late.now_retry
            ⊎ ((why : DiscoveryError ℕ) × (discover_provider down idp ≡ err why))))
run_entry_serves_example = run_entry_serves down idp entry late 7 stale

cached : HasProvider idp cache
unfolding providers_of
cached = (entry, 7, refl, refl)

run_events_keeps_example : HasProvider idp (run_events events cache)
run_events_keeps_example = run_events_keeps idp events cache cached

up-IsSound : IsSound IsSeven up
up-IsSound issuer p h = cc

down-IsSound : IsSound IsSeven down
down-IsSound issuer p h = cc

All-IsSoundEvent : All (IsSoundEvent IsSeven) events
All-IsSoundEvent = (tt, (up-IsSound, (down-IsSound, tt)))

none_cached : IsGenuine {Provider = ℕ} {E = ℕ} IsSeven []
unfolding lookup
none_cached issuer e p there has = cc

run_events-IsGenuine_example : IsGenuine IsSeven (run_events events [])
run_events-IsGenuine_example = run_events-IsGenuine IsSeven events [] All-IsSoundEvent none_cached

found_up : discover_provider up idp ≡ ok 7
unfolding providers_of
found_up = refl

discover_provider-ok_example :
    (up.new_provider idp ≡ ok 7)
    × ((uri : Text) × (up.jwks_uri 7 ≡ ok uri) × (uri ≢ []) × (check_jwks up uri ≡ ok tt))
discover_provider-ok_example = discover_provider-ok up idp 7 found_up

-- The issuer is down in a call that ends at 661 seconds; one at 666 seconds is served.
abbrev recovered : Call
recovered = record { now = at 666; now_retry = at 666; now_after = at 667; context_ended = false }
