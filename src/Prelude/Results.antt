-- ===== src/Prelude/Results.antt =====
-- Results of calls that may fail, as in a Go pair of a value and an `error`.
use mathlib.Core.Path.{◌≡◌, refl}
use mathlib.Core.Logic.{◌↔◌, ◌⊎◌, inl, inr}
use mathlib.Core.Bool.{Bool, true, false}
use oidc_ssh_ca.Prelude.Tests.{if◌then◌else◌}

pub data Result {ℓ κ} (E : Type ℓ) (A : Type κ) : Type (ℓ ⊔ κ) where
  err : E → Result E A
  ok : A → Result E A

-- The next call after `if err != nil { return err }`; `>>` where the value is not used.
module _ {ℓ κ μ} {E : Type ℓ} {A : Type κ} {B : Type μ} where
  infixl 5 ◌>>=◌
  abbrev pub ◌>>=◌ : Result E A → (A → Result E B) → Result E B
  err e >>= next = err e
  ok a >>= next = next a

  -- A call chain that succeeds has succeeded at its first call.
  pub >>=-eq-ok :
      (r : Result E A) (next : A → Result E B) {b : B}
      → (r >>= next) ≡ ok b
      → (a : A) × (r ≡ ok a) × (next a ≡ ok b)
  >>=-eq-ok (err e) next h = cc
  >>=-eq-ok (ok a) next h = (a, refl, h)

infixl 5 ◌>>◌
abbrev pub ◌>>◌ {ℓ κ} : {E : Type ℓ} {B : Type κ} → Result E (Unit {0}) → Result E B → Result E B
err e >> next = err e
ok _ >> next = next

-- `if !b { return e }`
abbrev pub check {ℓ} : {E : Type ℓ} → Bool → E → Result E (Unit {0})
check true e = ok tt
check false e = err e

-- `if b { return e }`
abbrev pub refuse {ℓ} : {E : Type ℓ} → Bool → E → Result E (Unit {0})
refuse true e = err e
refuse false e = ok tt

abbrev pub map_err {ℓ κ μ} :
    {E : Type ℓ} {F : Type κ} {A : Type μ} → (E → F) → Result E A → Result F A
map_err f (ok a) = ok a
map_err f (err e) = err (f e)

pub Result-cases {ℓ κ} :
    {E : Type ℓ} {A : Type κ} (r : Result E A) → ((a : A) × (r ≡ ok a)) ⊎ ((e : E) × (r ≡ err e))
Result-cases (ok a) = inl (a, refl)
Result-cases (err e) = inr (e, refl)

pub check_passed {ℓ} : {E : Type ℓ} (b : Bool) (e : E) {u : Unit {0}} → check b e ≡ ok u → b ≡ true
check_passed true e h = refl
check_passed false e h = cc

pub refuse_passed {ℓ} :
    {E : Type ℓ} (b : Bool) (e : E) {u : Unit {0}} → refuse b e ≡ ok u → b ≡ false
refuse_passed true e h = cc
refuse_passed false e h = refl

pub if_passed {ℓ κ} :
    {E : Type ℓ} {A : Type κ} (b : Bool) (r : Result E A) (e : E) {a : A}
    → (if b then r else err e) ≡ ok a
    → (b ≡ true) × (r ≡ ok a)
if_passed true r e h = (refl, h)
if_passed false r e h = cc

pub if_failed {ℓ κ} :
    {E : Type ℓ} {A : Type κ} (b : Bool) (r : Result E A) (e : E) {f : E}
    → (if b then r else err e) ≡ err f
    → ((b ≡ true) × (r ≡ err f)) ⊎ ((b ≡ false) × (e ≡ f))
if_failed true r e h = inl (refl, h)
if_failed false r e h = inr (refl, cc)

-- Conditions under which checks in a row pass.
module _ {ℓ} {E : Type ℓ} where
  infixr 20 ◌and_then◌
  pub ◌and_then◌ {κ μ} :
      {m k : Result E (Unit {0})} {P : Type κ} {Q : Type μ}
      → (m ≡ ok tt) ↔ P
      → (k ≡ ok tt) ↔ Q
      → ((m >> k) ≡ ok tt) ↔ (P × Q)
  ◌and_then◌ {m = ok u} p q = (λ h. (p.0 refl, q.0 h), λ h. q.1 h.1)
  ◌and_then◌ {m = err e} p q = (λ h. cc, λ h. absurd (cc (p.1 h.0)))

  pub check_iff {κ} : (b : Bool) (e : E) {P : Type κ} → (b ≡ true) ↔ P → (check b e ≡ ok tt) ↔ P
  check_iff true e p = (λ _. p.0 refl, λ _. refl)
  check_iff false e p = (λ h. cc, λ h. absurd (cc (p.1 h)))

  pub refuse_iff {κ} : (b : Bool) (e : E) {P : Type κ} → (b ≡ false) ↔ P → (refuse b e ≡ ok tt) ↔ P
  refuse_iff false e p = (λ _. p.0 refl, λ _. refl)
  refuse_iff true e p = (λ h. cc, λ h. absurd (cc (p.1 h)))

  pub map_err_iff {κ μ} :
      {F : Type κ} (f : F → E) (m : Result F (Unit {0})) {P : Type μ}
      → (m ≡ ok tt) ↔ P
      → (map_err f m ≡ ok tt) ↔ P
  map_err_iff f (ok u) p = (λ _. p.0 refl, λ _. refl)
  map_err_iff f (err e) p = (λ h. cc, λ h. absurd (cc (p.1 h)))

pub >>-eq-ok {ℓ κ} :
    {E : Type ℓ} {B : Type κ} (r : Result E (Unit {0})) (next : Result E B) {b : B}
    → (r >> next) ≡ ok b
    → (r ≡ ok tt) × (next ≡ ok b)
>>-eq-ok (err e) next h = cc
>>-eq-ok (ok u) next h = (refl, h)

pub map_err_ok {ℓ κ μ} :
    {E : Type ℓ} {F : Type κ} {A : Type μ} (f : E → F) (r : Result E A) {a : A}
    → map_err f r ≡ ok a
    → r ≡ ok a
map_err_ok f (err e) h = cc
map_err_ok f (ok b) h = cc

-- what holds of the error, if there is one
pub record OnErr {ℓ κ μ} {E : Type ℓ} {A : Type κ} (P : E → Type μ) (r : Result E A)
    : Type (ℓ ⊔ κ ⊔ μ) where
  pub of_error : (e : E) → r ≡ err e → P e

pub OnErr-ok {ℓ κ μ} : {E : Type ℓ} {A : Type κ} (P : E → Type μ) (a : A) → OnErr P (ok a)
OnErr-ok P a = record { of_error = λ e h. cc }

pub OnErr-err {ℓ κ μ} :
    {E : Type ℓ} {A : Type κ} (P : E → Type μ) (e : E) → P e → OnErr {A = A} P (err e)
OnErr-err P e p = record { of_error = λ f h. let eq : e ≡ f = cc in rw (← eq) p }

module _ {ℓ μ} {E : Type ℓ} (P : E → Type μ) where
  pub >>=-OnErr {κ ν} :
      {A : Type κ} {B : Type ν} (r : Result E A) (next : A → Result E B)
      → OnErr P r
      → ((a : A) → OnErr P (next a))
      → OnErr P (r >>= next)
  >>=-OnErr {A = A} {B = B} (err e) next now later = OnErr-err P e (now.of_error e refl)
  >>=-OnErr (ok a) next now later = later a

  pub >>-OnErr {κ} :
      {B : Type κ} (r : Result E (Unit {0})) (next : Result E B)
      → OnErr P r
      → OnErr P next
      → OnErr P (r >> next)
  >>-OnErr (err e) next now later = OnErr-err P e (now.of_error e refl)
  >>-OnErr (ok u) next now later = later

  pub check-OnErr : (b : Bool) (e : E) → P e → OnErr P (check b e)
  check-OnErr true e p = OnErr-ok P tt
  check-OnErr false e p = OnErr-err P e p

  pub refuse-OnErr : (b : Bool) (e : E) → P e → OnErr P (refuse b e)
  refuse-OnErr true e p = OnErr-err P e p
  refuse-OnErr false e p = OnErr-ok P tt

  pub map_err-OnErr {κ ν} :
      {F : Type κ} {A : Type ν} (f : F → E) (r : Result F A)
      → ((e : F) → P (f e))
      → OnErr P (map_err f r)
  map_err-OnErr f (ok a) p = OnErr-ok P a
  map_err-OnErr f (err e) p = OnErr-err P (f e) (p e)

-- A chain of calls succeeds if its calls do.
pub >>=-ok {ℓ κ μ} :
    {E : Type ℓ} {A : Type κ} {B : Type μ} {r : Result E A} (next : A → Result E B) {a : A} {b : B}
    → r ≡ ok a
    → next a ≡ ok b
    → (r >>= next) ≡ ok b
>>=-ok {r = ok x} next h k = cc
>>=-ok {r = err e} next h k = absurd (cc (h))

pub >>-ok {ℓ κ} :
    {E : Type ℓ} {B : Type κ} {r : Result E (Unit {0})} {next : Result E B} {b : B}
    → r ≡ ok tt
    → next ≡ ok b
    → (r >> next) ≡ ok b
>>-ok {r = ok u} h k = k
>>-ok {r = err e} h k = absurd (cc (h))

pub check_ok {ℓ} : {E : Type ℓ} {b : Bool} (e : E) → b ≡ true → check b e ≡ ok tt
check_ok {b = true} e h = refl
check_ok {b = false} e h = absurd (cc (h))

pub refuse_ok {ℓ} : {E : Type ℓ} {b : Bool} (e : E) → b ≡ false → refuse b e ≡ ok tt
refuse_ok {b = false} e h = refl
refuse_ok {b = true} e h = absurd (cc (h))

pub ok_map_err {ℓ κ μ} :
    {E : Type ℓ} {F : Type κ} {A : Type μ} (f : E → F) {r : Result E A} {a : A}
    → r ≡ ok a
    → map_err f r ≡ ok a
ok_map_err f {r = ok x} h = cc
ok_map_err f {r = err e} h = absurd (cc (h))
