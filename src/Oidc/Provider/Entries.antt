-- ===== src/Oidc/Provider/Entries.antt =====
-- One call on the entry of an issuer: when it goes out to discover, and what it returns.
use oidc_ssh_ca.Prelude.{
  ◌≡◌, refl, ◌≢◌, ◌↔◌, ◌⊎◌, inl, inr, true, false, Option, none, some, arith, Result, ok, err,
  Bool-cases, Option-cases, if◌then◌else◌,
}
use oidc_ssh_ca.Prelude.Text.{Text}
use oidc_ssh_ca.Prelude.Int.{ℤ, ltb_ℤ, ◌<ℤ◌, ◌+ℤ◌, ◌-ℤ◌, int_laws, ltb_ℤ_iff}
use oidc_ssh_ca.Oidc.Provider.{
  jwks_ttl, discovery_retry_delay, Remote, DiscoveryError, Entry, Call, discover_provider, fresh,
  backing_off, stale_or, after_discovery, run_entry,
}

-- the provider is there and was fetched less than 10 minutes before `now`
abbrev pub IsFresh : {Provider E : Type 0} → Entry Provider E → ℤ → Type 0
IsFresh e now = (e.provider ≢ none) × (now <ℤ e.fetched_at +ℤ jwks_ttl)

-- the last discovery failed, less than 5 seconds before `now`
abbrev pub IsBackingOff : {Provider E : Type 0} → Entry Provider E → ℤ → Type 0
IsBackingOff e now = (e.failure ≢ none) × (now <ℤ e.failed_at +ℤ discovery_retry_delay)

within_iff : (now t d : ℤ) → (ltb_ℤ (now -ℤ t) d ≡ true) ↔ (now <ℤ t +ℤ d)
within_iff now t d =
    let test = ltb_ℤ_iff (now -ℤ t) d in
    (λ h. let less = test.0 h in omega int_laws, λ h. test.1 (omega int_laws))

-- The two tests have one shape: something is there, and its time is within a span of `now`.
recent-none_iff :
    {A : Type 0} (o : Option A) (t now d : ℤ) (test : Option A → Option A)
    → test none ≡ none
    → ((a : A) → test (some a) ≡ (if ltb_ℤ (now -ℤ t) d then some a else none))
    → (test o ≡ none) ↔ (¬ ((o ≢ none) × (now <ℤ t +ℤ d)))
recent-none_iff none t now d test absent present = (λ _ h. h.0 refl, λ _. absent)
recent-none_iff (some a) t now d test absent present = elim (Bool-cases (ltb_ℤ (now -ℤ t) d)) [
  | inl recent ↦
      (λ h. absurd (cc (h, present a, recent)), λ h. absurd (h (cc, (within_iff now t d).0 recent)))
  | inr old ↦ (λ _ h. cc (old, (within_iff now t d).1 h.1), λ _. rw (present a, old))
]

fresh-none_iff :
    {Provider E : Type 0} (e : Entry Provider E) (now : ℤ)
    → (fresh e.provider e.fetched_at now ≡ none) ↔ (¬ (IsFresh e now))
fresh-none_iff e now =
    recent-none_iff e.provider e.fetched_at now jwks_ttl (λ o. fresh o e.fetched_at now) refl
      (λ a. refl)

pub backing_off-none_iff :
    {Provider E : Type 0} (e : Entry Provider E) (now : ℤ)
    → (backing_off e.failure e.failed_at now ≡ none) ↔ (¬ (IsBackingOff e now))
backing_off-none_iff e now =
    recent-none_iff e.failure e.failed_at now discovery_retry_delay
      (λ o. backing_off o e.failed_at now) refl (λ a. refl)

recent_some :
    {A : Type 0} (o : Option A) (t now d : ℤ) (test : Option A → Option A) {b : A}
    → test none ≡ none
    → ((a : A) → test (some a) ≡ (if ltb_ℤ (now -ℤ t) d then some a else none))
    → test o ≡ some b
    → (o ≢ none) × (now <ℤ t +ℤ d)
recent_some none t now d test absent present h = cc
recent_some (some a) t now d test absent present h = elim (Bool-cases (ltb_ℤ (now -ℤ t) d)) [
  | inl recent ↦ (cc, (within_iff now t d).0 recent)
  | inr old ↦ absurd (cc (h, rw old at (present a)))
]

fresh-IsFresh :
    {Provider E : Type 0} (e : Entry Provider E) (now : ℤ) {p : Provider}
    → fresh e.provider e.fetched_at now ≡ some p
    → IsFresh e now
fresh-IsFresh e now h =
    recent_some e.provider e.fetched_at now jwks_ttl (λ o. fresh o e.fetched_at now) refl
      (λ a. refl) h

backing_off-IsBackingOff :
    {Provider E : Type 0} (e : Entry Provider E) (now : ℤ) {why : DiscoveryError E}
    → backing_off e.failure e.failed_at now ≡ some why
    → IsBackingOff e now
backing_off-IsBackingOff e now h =
    recent_some e.failure e.failed_at now discovery_retry_delay (λ o. backing_off o e.failed_at now)
      refl (λ a. refl) h

fresh-some :
    {Provider : Type 0} (o : Option Provider) (t now : ℤ) {p : Provider}
    → fresh o t now ≡ some p
    → o ≡ some p
fresh-some none t now h = cc
fresh-some (some q) t now h = ground arith

stale_some :
    {Provider E : Type 0} (o : Option Provider) (why : DiscoveryError E) (q : Provider)
    → stale_or o why ≡ ok q
    → o ≡ some q
stale_some none why q h = cc
stale_some (some p) why q h = cc

module _ {Provider E : Type 0} (remote : Remote Provider E) (issuer : Text) (e : Entry Provider E)
    (call : Call) where
  abbrev found : Result (DiscoveryError E) Provider
  found = discover_provider remote issuer

  -- what `run_entry` comes to, by whether it serves from the cache, waits, or discovers
  run_served :
      {p : Provider}
      → fresh e.provider e.fetched_at call.now ≡ some p
      → run_entry remote issuer e call ≡ record { entry = e; result = ok p; attempted = false }
  unfolding run_entry
  run_served h = rw h

  run_waited :
      {why : DiscoveryError E}
      → fresh e.provider e.fetched_at call.now ≡ none
      → backing_off e.failure e.failed_at call.now_retry ≡ some why
      → run_entry remote issuer e call
        ≡ record { entry = e; result = stale_or e.provider why; attempted = false }
  unfolding run_entry
  run_waited h k = rw (h, k)

  run_discovered :
      fresh e.provider e.fetched_at call.now ≡ none
      → backing_off e.failure e.failed_at call.now_retry ≡ none
      → run_entry remote issuer e call ≡ after_discovery e call found
  unfolding run_entry
  run_discovered h k = rw (h, k)

  attempted_after :
      (r : Result (DiscoveryError E) Provider) → (after_discovery e call r).attempted ≡ true
  attempted_after (err why) = refl
  attempted_after (ok p) = refl

  -- A call goes out to discover exactly when the cached provider is missing or 10 minutes old, and
  -- no failed discovery of this issuer was recorded within the last 5 seconds.
  pub attempted_iff :
      ((run_entry remote issuer e call).attempted ≡ true)
      ↔ ((¬ (IsFresh e call.now)) × (¬ (IsBackingOff e call.now_retry)))
  attempted_iff =
      let cached = fresh-none_iff e call.now in
      let waiting = backing_off-none_iff e call.now_retry in
      elim (Option-cases (fresh e.provider e.fetched_at call.now)) [
        | inr (p, served) ↦ (
          λ h. absurd (cc (rw (run_served served) at h)),
          λ h. absurd (cc (served, cached.1 h.0)),
        )
        | inl not_fresh ↦ elim (Option-cases (backing_off e.failure e.failed_at call.now_retry)) [
          | inr (why, wait) ↦ (
            λ h. absurd (cc (rw (run_waited not_fresh wait) at h)),
            λ h. absurd (cc (wait, waiting.1 h.1)),
          )
          | inl go ↦ (
            λ _. (cached.0 not_fresh, waiting.0 go),
            λ _. rw (run_discovered not_fresh go) (attempted_after found),
          )
        ]
      ]

  -- what the last two steps return and store, whatever the discovery found
  keeps_after :
      (p : Provider) (r : Result (DiscoveryError E) Provider)
      → e.provider ≡ some p
      → (q : Provider) × ((after_discovery e call r).result ≡ ok q)
        × ((after_discovery e call r).entry.provider ≡ some q)
  keeps_after p (ok q) h = (q, refl, refl)
  keeps_after p (err why) h =
      (p, rw h, elim (Bool-cases call.context_ended) [ inl t ↦ rw t h | inr f ↦ rw f h ])

  -- An entry that has a provider serves a provider and still has it afterwards, whatever the
  -- discovery answers: a failed refresh neither denies the request nor drops the keys.
  pub run_entry_keeps :
      (p : Provider)
      → e.provider ≡ some p
      → (q : Provider) × ((run_entry remote issuer e call).result ≡ ok q)
        × ((run_entry remote issuer e call).entry.provider ≡ some q)
  run_entry_keeps p h = elim (Option-cases (fresh e.provider e.fetched_at call.now)) [
    | inr (q, served) ↦
        rw (run_served served) (q, refl, fresh-some e.provider e.fetched_at call.now served)
    | inl not_fresh ↦ elim (Option-cases (backing_off e.failure e.failed_at call.now_retry)) [
      | inr (why, wait) ↦ rw (run_waited not_fresh wait) (p, rw h, h)
      | inl go ↦ rw (run_discovered not_fresh go) (keeps_after p found h)
    ]
  ]

  served_after :
      (q : Provider) (r : Result (DiscoveryError E) Provider)
      → (after_discovery e call r).result ≡ ok q
      → (r ≡ ok q) ⊎ ((e.provider ≡ some q) × ((why : DiscoveryError E) × (r ≡ err why)))
  served_after q (ok p) h = inl h
  served_after q (err why) h = inr (stale_some e.provider why q h, (why, refl))

  -- A provider that is served is the one just discovered, or the cached one; and the cached one is
  -- served past its 10 minutes only where a discovery failed in this call or in the 5 seconds
  -- before it.
  pub run_entry_serves :
      (q : Provider)
      → (run_entry remote issuer e call).result ≡ ok q
      → (found ≡ ok q)
        ⊎ ((e.provider ≡ some q)
            × ((call.now <ℤ e.fetched_at +ℤ jwks_ttl)
                ⊎ IsBackingOff e call.now_retry
                ⊎ ((why : DiscoveryError E) × (found ≡ err why))))
  run_entry_serves q h = elim (Option-cases (fresh e.provider e.fetched_at call.now)) [
    | inr (p, served) ↦
        let same : p ≡ q = cc (rw (run_served served) at h) in
        inr (
          rw same at (fresh-some e.provider e.fetched_at call.now served),
          inl (fresh-IsFresh e call.now served).1,
        )
    | inl not_fresh ↦ elim (Option-cases (backing_off e.failure e.failed_at call.now_retry)) [
      | inr (why, wait) ↦ inr (
        stale_some e.provider why q (rw (run_waited not_fresh wait) at h),
        inr (inl (backing_off-IsBackingOff e call.now_retry wait)),
      )
      | inl go ↦ elim (served_after q found (rw (run_discovered not_fresh go) at h)) [
        | inl new ↦ inl new
        | inr (old, failed) ↦ inr (old, inr (inr failed))
      ]
    ]
  ]

  unchanged :
      (run_entry remote issuer e call).attempted ≡ false
      → (run_entry remote issuer e call).entry ≡ e
  unchanged h = elim (Option-cases (fresh e.provider e.fetched_at call.now)) [
    | inr (p, served) ↦ rw (run_served served)
    | inl not_fresh ↦ elim (Option-cases (backing_off e.failure e.failed_at call.now_retry)) [
      | inr (why, wait) ↦ rw (run_waited not_fresh wait)
      | inl go ↦ absurd (cc (attempted_after found, rw (run_discovered not_fresh go) at h))
    ]
  ]

  run_attempted :
      (run_entry remote issuer e call).attempted ≡ true
      → run_entry remote issuer e call ≡ after_discovery e call found
  run_attempted h = elim (Option-cases (fresh e.provider e.fetched_at call.now)) [
    | inr (p, served) ↦ absurd (cc (rw (run_served served) at h))
    | inl not_fresh ↦ elim (Option-cases (backing_off e.failure e.failed_at call.now_retry)) [
      | inr (why, wait) ↦ absurd (cc (rw (run_waited not_fresh wait) at h))
      | inl go ↦ run_discovered not_fresh go
    ]
  ]

stored_after :
    {Provider E : Type 0} (e : Entry Provider E) (call : Call) (q : Provider)
    (r : Result (DiscoveryError E) Provider)
    → (after_discovery e call r).entry.provider ≡ some q
    → (r ≡ ok q) ⊎ (e.provider ≡ some q)
stored_after e call q (ok p) h = inl (cc)
stored_after e call q (err why) h =
    inr (elim (Bool-cases call.context_ended) [ inl t ↦ rw t at h | inr f ↦ rw f at h ])

-- What an entry holds after a call was there before or was discovered by the call.
pub run_entry_stores :
    {Provider E : Type 0} (remote : Remote Provider E) (issuer : Text) (e : Entry Provider E)
    (call : Call) (q : Provider)
    → (run_entry remote issuer e call).entry.provider ≡ some q
    → (discover_provider remote issuer ≡ ok q) ⊎ (e.provider ≡ some q)
run_entry_stores remote issuer e call q h =
    elim (Bool-cases (run_entry remote issuer e call).attempted) [
      | inl went ↦
          stored_after e call q (discover_provider remote issuer)
            (rw (run_attempted remote issuer e call went) at h)
      | inr stayed ↦ inr (rw (unchanged remote issuer e call stayed) at h)
    ]

waits :
    {Provider E : Type 0} (remote : Remote Provider E) (issuer : Text) (e : Entry Provider E)
    (call : Call)
    → IsBackingOff e call.now_retry
    → (run_entry remote issuer e call).attempted ≡ false
waits remote issuer e call h = elim (Bool-cases (run_entry remote issuer e call).attempted) [
  | inl again ↦ absurd (((attempted_iff remote issuer e call).0 again).1 h)
  | inr quiet ↦ quiet
]

-- After a discovery that failed while the request was still alive, no call goes out for this issuer
-- in the 5 seconds that follow; where the request itself had ended, the entry is as it was before
-- the call.
pub failed_discovery_waits :
    {Provider E : Type 0} (remote remote' : Remote Provider E) (issuer : Text)
    (e : Entry Provider E) (call call' : Call) (why : DiscoveryError E)
    → (run_entry remote issuer e call).attempted ≡ true
    → discover_provider remote issuer ≡ err why
    → (call.context_ended ≡ true → (run_entry remote issuer e call).entry ≡ e)
      × (call.context_ended ≡ false
          → call'.now_retry <ℤ call.now_after +ℤ discovery_retry_delay
          → (run_entry remote' issuer (run_entry remote issuer e call).entry call').attempted
            ≡ false)
failed_discovery_waits remote remote' issuer e call call' why h failed = (
  λ ended. rw (run_attempted remote issuer e call h, failed, ended),
  λ alive soon.
      let stored : (run_entry remote issuer e call).entry
          ≡ record e { failure = some why; failed_at = call.now_after } =
        rw (run_attempted remote issuer e call h, failed, alive) in
      rw stored (
        waits remote' issuer (record e { failure = some why; failed_at = call.now_after }) call'
          (cc, soon)),
)
