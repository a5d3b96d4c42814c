-- ===== src/Oidc/Provider/Cache.antt =====
-- The map of entries under any interleaving of the critical sections of concurrent calls.
use oidc_ssh_ca.Prelude.{
  ◌≡◌, refl, ◌≢◌, inl, inr, false, some, List, [], ◌∷◌, arith, Bool-cases, Option-cases,
  if◌then◌else◌,
}
use oidc_ssh_ca.Prelude.Text.{Text, str_eq, str_eq_iff}
use oidc_ssh_ca.Json.{lookup}
use oidc_ssh_ca.Oidc.Provider.{
  Remote, Entry, Call, run_entry, Providers, put, register, run_issuer, provider, entry_or_empty,
  empty_entry,
}
use oidc_ssh_ca.Oidc.Provider.Entries.{run_entry_keeps}

pub lookup-put :
    {Provider E : Type 0} (issuer j : Text) (e : Entry Provider E) (m : Providers Provider E)
    → lookup j (put issuer e m) ≡ (if str_eq issuer j then some e else lookup j m)
unfolding lookup put
lookup-put issuer j e [] = refl
lookup-put issuer j e ((k, d) ∷ m) =
    ground
      (arith, str_eq_iff k issuer, str_eq_iff k j, str_eq_iff issuer j, lookup-put issuer j e m)

-- One critical section of some call: the map's, or the entry's.
pub data Event (Provider E : Type 0) : Type 0 where
  registers : Text → Event Provider E
  runs : Remote Provider E → Text → Call → Event Provider E

unfoldable pub step :
    {Provider E : Type 0} → Event Provider E → Providers Provider E → Providers Provider E
step (registers issuer) m = register issuer m
step (runs remote issuer call) m = (run_issuer remote issuer call m).0

unfoldable pub run_events :
    {Provider E : Type 0} → List (Event Provider E) → Providers Provider E → Providers Provider E
run_events [] m = m
run_events (ev ∷ evs) m = run_events evs (step ev m)

-- the issuer has an entry with a provider
abbrev pub HasProvider : {Provider E : Type 0} → Text → Providers Provider E → Type 0
HasProvider {Provider} {E} issuer m =
    (e : Entry Provider E) × (p : Provider) × (lookup issuer m ≡ some e) × (e.provider ≡ some p)

module _ {Provider E : Type 0} (issuer : Text) where
  register_keeps :
      (j : Text) (m : Providers Provider E)
      → HasProvider issuer m
      → HasProvider issuer (register j m)
  unfolding register
  register_keeps j m (e, p, there, has) = elim (Option-cases (lookup j m)) [
    | inr (d, present) ↦ rw present (e, p, there, has)
    | inl absent ↦
        let other : str_eq j issuer ≡ false = ground (arith, str_eq_iff j issuer) in
        rw absent (e, p, rw (lookup-put j issuer empty_entry m, other) there, has)
  ]

  run_keeps :
      (remote : Remote Provider E) (j : Text) (call : Call) (m : Providers Provider E)
      → HasProvider issuer m
      → HasProvider issuer (run_issuer remote j call m).0
  unfolding run_issuer
  run_keeps remote j call m (e, p, there, has) = elim (Bool-cases (str_eq j issuer)) [
    | inl same ↦
        let eq : j ≡ issuer = (str_eq_iff j issuer).0 same in
        let (q, _, kept) = run_entry_keeps remote j e call p has in
        let there' : lookup j m ≡ some e = rw eq there in
        rw there' (
          (run_entry remote j e call).entry,
          q,
          rw (lookup-put j issuer (run_entry remote j e call).entry m, same),
          kept,
        )
    | inr other ↦
        let out = (run_entry remote j (entry_or_empty (lookup j m)) call).entry in
        (e, p, rw (lookup-put j issuer out m, other) there, has)
  ]

-- Once an issuer's provider has been discovered it is never lost: however the critical sections of
-- later calls interleave, for this issuer and for others, and whatever their discoveries answer, its
-- entry has a provider, so that a call for it is served.
pub run_events_keeps :
    {Provider E : Type 0} (issuer : Text) (evs : List (Event Provider E)) (m : Providers Provider E)
    → HasProvider issuer m
    → HasProvider issuer (run_events evs m)
unfolding run_events step
run_events_keeps issuer [] m h = h
run_events_keeps issuer (registers j ∷ evs) m h =
    run_events_keeps issuer evs (register j m) (register_keeps issuer j m h)
run_events_keeps issuer (runs remote j call ∷ evs) m h =
    run_events_keeps issuer evs (run_issuer remote j call m).0 (run_keeps issuer remote j call m h)

lookup-register :
    {Provider E : Type 0} (j k : Text) (m : Providers Provider E)
    → j ≢ k
    → lookup k (register j m) ≡ lookup k m
unfolding register
lookup-register j k m ne = elim (Option-cases (lookup j m)) [
  | inr (d, present) ↦ rw present
  | inl absent ↦ rw (absent, lookup-put j k empty_entry m) (ground (arith, str_eq_iff j k))
]

-- A call for one issuer leaves the entry of every other issuer as it was.
pub provider_isolated :
    {Provider E : Type 0} (remote : Remote Provider E) (issuer other : Text) (call : Call)
    (m : Providers Provider E)
    → issuer ≢ other
    → lookup other (provider remote issuer call m).0 ≡ lookup other m
unfolding provider run_issuer
provider_isolated remote issuer other call m ne =
    rw (lookup-put issuer other _ (register issuer m))
      (ground (arith, str_eq_iff issuer other, lookup-register issuer other m ne))
