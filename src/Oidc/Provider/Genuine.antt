-- ===== src/Oidc/Provider/Genuine.antt =====
-- Every provider in the cache was discovered for the issuer under which it is kept.
use oidc_ssh_ca.Prelude.{
  ◌≡◌, ◌≢◌, inl, inr, some, List, [], ◌∷◌, All, ok, >>=-eq-ok, >>-eq-ok, Bool-cases, Option-cases,
  map_err, map_err_ok, is_empty, refuse, not_empty_iff, refuse_passed,
}
use oidc_ssh_ca.Prelude.Text.{Text, str_eq, str_eq_iff}
use oidc_ssh_ca.Json.{lookup}
use oidc_ssh_ca.Oidc.Provider.{
  Remote, no_provider, bad_document, no_jwks_uri, preflight, Entry, Call, discover_provider,
  check_jwks, run_entry, Providers, put, register, run_issuer, provider, entry_or_empty,
  empty_entry,
}
use oidc_ssh_ca.Oidc.Provider.Entries.{run_entry_serves, run_entry_stores}
use oidc_ssh_ca.Oidc.Provider.Cache.{Event, registers, runs, step, run_events, lookup-put}

-- A discovery succeeds only with what go-oidc discovered, and only if the JWKS pre-flight passed.
pub discover_provider-ok :
    {Provider E : Type 0} (remote : Remote Provider E) (issuer : Text) (p : Provider)
    → discover_provider remote issuer ≡ ok p
    → (remote.new_provider issuer ≡ ok p)
      × ((uri : Text) × (remote.jwks_uri p ≡ ok uri) × (uri ≢ []) × (check_jwks remote uri ≡ ok tt))
unfolding discover_provider
discover_provider-ok remote issuer p h =
    let (q, new, rest) = >>=-eq-ok (map_err no_provider (remote.new_provider issuer)) _ h in
    let (uri, doc, rest') = >>=-eq-ok (map_err bad_document (remote.jwks_uri q)) _ rest in
    let (given, rest'') = >>-eq-ok (refuse (is_empty uri) no_jwks_uri) _ rest' in
    let (served, same) = >>-eq-ok (map_err (preflight uri) (check_jwks remote uri)) _ rest'' in
    let eq : q ≡ p = cc in
    (
      rw eq at (map_err_ok no_provider (remote.new_provider issuer) new),
      (
        uri,
        rw eq at (map_err_ok bad_document (remote.jwks_uri q) doc),
        (not_empty_iff uri).0 (refuse_passed (is_empty uri) no_jwks_uri given),
        map_err_ok (preflight uri) (check_jwks remote uri) served,
      ),
    )

module _ {Provider E : Type 0} (IsFor : Text → Provider → Type 0) where
  -- go-oidc gives a provider of the issuer that it was asked for
  abbrev pub IsSound : Remote Provider E → Type 0
  IsSound remote =
      (issuer : Text) (p : Provider) → remote.new_provider issuer ≡ ok p → IsFor issuer p

  abbrev pub IsSoundEvent : Event Provider E → Type 0
  IsSoundEvent (registers issuer) = Unit
  IsSoundEvent (runs remote issuer call) = IsSound remote

  abbrev pub IsGenuine : Providers Provider E → Type 0
  IsGenuine m =
      (issuer : Text) (e : Entry Provider E) (p : Provider)
      → lookup issuer m ≡ some e
      → e.provider ≡ some p
      → IsFor issuer p

  put-IsGenuine :
      (j : Text) (e : Entry Provider E) (m : Providers Provider E)
      → IsGenuine m
      → ((p : Provider) → e.provider ≡ some p → IsFor j p)
      → IsGenuine (put j e m)
  put-IsGenuine j e m g new issuer d p there has = elim (Bool-cases (str_eq j issuer)) [
    | inl same ↦
        let placed : some e ≡ some d = rw (lookup-put j issuer e m, same) at there in
        let eq : e ≡ d = cc in rw ((str_eq_iff j issuer).0 same) at (new p (rw eq has))
    | inr other ↦ g issuer d p (rw (lookup-put j issuer e m, other) at there) has
  ]

  register-IsGenuine :
      (j : Text) (m : Providers Provider E) → IsGenuine m → IsGenuine (register j m)
  unfolding register
  register-IsGenuine j m g = elim (Option-cases (lookup j m)) [
    | inr (d, present) ↦ rw present g
    | inl absent ↦ rw absent (put-IsGenuine j empty_entry m g (λ p h. cc))
  ]

  cached-IsFor :
      (j : Text) (m : Providers Provider E) (p : Provider)
      → IsGenuine m
      → (entry_or_empty (lookup j m)).provider ≡ some p
      → IsFor j p
  cached-IsFor j m p g h = elim (Option-cases (lookup j m)) [
    | inl absent ↦ absurd (cc (rw absent at h))
    | inr (e, there) ↦ g j e p there (rw there at h)
  ]

  entry-IsFor :
      (remote : Remote Provider E) (j : Text) (call : Call) (m : Providers Provider E)
      (p : Provider)
      → IsSound remote
      → IsGenuine m
      → (run_entry remote j (entry_or_empty (lookup j m)) call).entry.provider ≡ some p
      → IsFor j p
  entry-IsFor remote j call m p sound g h =
      elim (run_entry_stores remote j (entry_or_empty (lookup j m)) call p h) [
        | inl new ↦ sound j p (discover_provider-ok remote j p new).0
        | inr old ↦ cached-IsFor j m p g old
      ]

  run-IsGenuine :
      (remote : Remote Provider E) (j : Text) (call : Call) (m : Providers Provider E)
      → IsSound remote
      → IsGenuine m
      → IsGenuine (run_issuer remote j call m).0
  unfolding run_issuer
  run-IsGenuine remote j call m sound g =
      put-IsGenuine j _ m g (λ p h. entry-IsFor remote j call m p sound g h)

  -- The invariant of the cache under every interleaving of critical sections.
  pub run_events-IsGenuine :
      (evs : List (Event Provider E)) (m : Providers Provider E)
      → All IsSoundEvent evs
      → IsGenuine m
      → IsGenuine (run_events evs m)
  unfolding run_events step
  run_events-IsGenuine [] m sound g = g
  run_events-IsGenuine (registers j ∷ evs) m (_, sound) g =
      run_events-IsGenuine evs (register j m) sound (register-IsGenuine j m g)
  run_events-IsGenuine (runs remote j call ∷ evs) m (now, sound) g =
      run_events-IsGenuine evs (run_issuer remote j call m).0 sound
        (run-IsGenuine remote j call m now g)

  pub provider-IsFor :
      (remote : Remote Provider E) (issuer : Text) (call : Call) (m : Providers Provider E)
      (p : Provider)
      → IsSound remote
      → IsGenuine m
      → (provider remote issuer call m).1 ≡ ok p
      → IsFor issuer p
  unfolding provider run_issuer
  provider-IsFor remote issuer call m p sound g h =
      let m' = register issuer m in
      elim (run_entry_serves remote issuer (entry_or_empty (lookup issuer m')) call p h) [
        | inl new ↦ sound issuer p (discover_provider-ok remote issuer p new).0
        | inr (old, _) ↦ cached-IsFor issuer m' p (register-IsGenuine issuer m g) old
      ]
