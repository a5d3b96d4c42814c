-- ===== src/Prelude/Text.antt =====
-- Go strings as the list of their bytes, with the functions of package `strings` that the source
-- calls.
use Prim.Native.Char.{code}
use Prim.Native.Nat.{ℕ}
use Prim.Native.String.{String}
use mathlib.Core.Path.{◌≡◌, refl, ap}
use mathlib.Core.Logic.{◌≢◌, ◌↔◌, ◌⊎◌, inl, inr}
use mathlib.Core.Bool.{Bool, true, false, ◌&&◌, ◌||◌}
use mathlib.Core.Option.{Option, none, some}
use mathlib.Core.List.{List, [], ◌∷◌, ◌++◌}
use native.Mathlib.Omega.{arith}
use oidc_ssh_ca.Prelude.Tests.{◌==◌, if◌then◌else◌, Bool-cases}
use oidc_ssh_ca.Prelude.Lists.{All}

abbrev pub Text : Type 0
Text = List ℕ

-- The bytes of an ASCII literal.
abbrev pub codes : String → Text
codes String.[] = []
codes (String.◌∷◌ c s) = code c ∷ codes s

-- `a == b`
unfoldable pub str_eq : Text → Text → Bool
str_eq [] [] = true
str_eq (a ∷ s) (b ∷ t) = a == b && str_eq s t
str_eq _ _ = false

-- `strings.Contains(s, "c")` for a single byte
unfoldable pub has_byte : ℕ → Text → Bool
has_byte c [] = false
has_byte c (x ∷ s) = x == c || has_byte c s

-- `strings.HasPrefix(s, p)`, with the prefix first
unfoldable pub has_prefix : Text → Text → Bool
has_prefix [] s = true
has_prefix (a ∷ p) [] = false
has_prefix (a ∷ p) (b ∷ s) = a == b && has_prefix p s

-- `strings.Contains(s, sub)`, with `sub` first
unfoldable pub contains_str : Text → Text → Bool
unfolding has_prefix
contains_str sub [] = has_prefix sub []
contains_str sub (c ∷ s) = has_prefix sub (c ∷ s) || contains_str sub s

abbrev cons_before : ℕ → Option (Text × Text) → Option (Text × Text)
cons_before c none = none
cons_before c (some (before, after)) = some (c ∷ before, after)

-- `strings.Cut(s, sep)` for a single byte; `none` stands for `found == false`
unfoldable pub cut : ℕ → Text → Option (Text × Text)
cut sep [] = none
cut sep (c ∷ s) = let rest = cut sep s in if c == sep then some ([], s) else cons_before c rest

-- `containsString`-like loops: `s` is one of the listed texts
unfoldable pub has_str : List Text → Text → Bool
unfolding str_eq
has_str [] s = false
has_str (v ∷ vs) s = if str_eq v s then true else has_str vs s

pub str_eq_refl : (s : Text) → str_eq s s ≡ true
unfolding str_eq
str_eq_refl [] = refl
str_eq_refl (a ∷ s) = ground (arith, str_eq_refl s)

str_eq-eq : (s t : Text) → str_eq s t ≡ true → s ≡ t
unfolding str_eq
str_eq-eq [] [] h = refl
str_eq-eq (a ∷ s) (b ∷ t) h = ground (arith, str_eq-eq s t)
str_eq-eq [] (b ∷ t) h = cc
str_eq-eq (a ∷ s) [] h = cc

pub str_eq_iff : (s t : Text) → (str_eq s t ≡ true) ↔ (s ≡ t)
str_eq_iff s t = (str_eq-eq s t, λ e. rw e (str_eq_refl t))

pub str_ne : (s t : Text) → str_eq s t ≡ false → s ≢ t
str_ne s t h e = ground (arith, str_eq_iff s t)

pub eq-str_eq : {s t : Text} → s ≡ t → str_eq s t ≡ true
eq-str_eq {s} {t} e = (str_eq_iff s t).1 e

-- `s` is one of the listed texts
abbrev pub Listed : Text → List Text → Type 0
Listed s [] = ⊥
Listed s (v ∷ vs) = (v ≡ s) ⊎ Listed s vs

pub has_str_iff : (vs : List Text) (s : Text) → (has_str vs s ≡ true) ↔ Listed s vs
unfolding has_str
has_str_iff [] s = (λ h. cc, λ h. elim h [ ])
has_str_iff (v ∷ vs) s = elim (Bool-cases (str_eq v s)) [
  | inl same ↦ (λ h. inl (str_eq-eq v s same), λ h. rw same)
  | inr other ↦ (
    λ h. inr ((has_str_iff vs s).0 (rw other at h)),
    λ h. elim h [
      | inl e ↦ absurd (str_ne v s other e)
      | inr later ↦ rw other ((has_str_iff vs s).1 later)
    ],
  )
]

abbrev pub Lacks : ℕ → Text → Type 0
Lacks sep = All (λ c. c ≢ sep)

cut_sound : (sep : ℕ) (s a b : Text) → cut sep s ≡ some (a, b) → (s ≡ a ++ sep ∷ b) × Lacks sep a
unfolding cut
cut_sound sep [] a b h = cc
cut_sound sep (c ∷ s) [] b h = ground arith
cut_sound sep (c ∷ s) (x ∷ a) b h = ground (arith, cut_sound sep s a b)

cut_complete : (sep : ℕ) (a b : Text) → Lacks sep a → cut sep (a ++ sep ∷ b) ≡ some (a, b)
unfolding cut
cut_complete sep [] b h = ground arith
cut_complete sep (c ∷ a) b h = ground (arith, cut_complete sep a b h.1)

-- `cut` splits at the first separator.
pub cut_iff :
    (sep : ℕ) (s a b : Text) → (cut sep s ≡ some (a, b)) ↔ ((s ≡ a ++ sep ∷ b) × Lacks sep a)
cut_iff sep s a b = (cut_sound sep s a b, λ h. rw (h.0) (cut_complete sep a b h.1))

pub has_byte_iff : (c : ℕ) (s : Text) → (has_byte c s ≡ false) ↔ Lacks c s
unfolding has_byte
has_byte_iff c [] = (λ _. tt, λ _. refl)
has_byte_iff c (x ∷ s) =
    let later = has_byte_iff c s in
    (λ h. (ground arith, later.0 (ground arith)), λ h. ground (arith, later.1 h.1))

pub has_prefix_iff : (p s : Text) → (has_prefix p s ≡ true) ↔ ((b : Text) × (s ≡ p ++ b))
unfolding has_prefix
has_prefix_iff [] s = (λ _. (s, refl), λ _. refl)
has_prefix_iff (a ∷ p) [] = (λ h. cc, λ h. cc (h.1))
has_prefix_iff (a ∷ p) (x ∷ s) = (
  λ h. let (b, e) = (has_prefix_iff p s).0 (ground arith) in (b, ground arith),
  λ h. ground (arith, (has_prefix_iff p s).1 (h.0, ground arith)),
)

-- `sub` stands somewhere in `s`
abbrev pub Contains : Text → Text → Type 0
Contains sub s = (a : Text) × (b : Text) × (s ≡ a ++ (sub ++ b))

contains_str_sound : (sub s : Text) → contains_str sub s ≡ true → Contains sub s
unfolding contains_str
contains_str_sound sub [] h = let (b, e) = (has_prefix_iff sub []).0 h in ([], b, e)
contains_str_sound sub (c ∷ s) h = elim (Bool-cases (has_prefix sub (c ∷ s))) [
  | inl here ↦ let (b, e) = (has_prefix_iff sub (c ∷ s)).0 here in ([], b, e)
  | inr later ↦
      let (a, b, e) = contains_str_sound sub s (rw later at h) in (c ∷ a, b, ap (λ t. c ∷ t) e)
]

contains_str_prefix : (sub s : Text) → has_prefix sub s ≡ true → contains_str sub s ≡ true
unfolding contains_str
contains_str_prefix sub [] h = h
contains_str_prefix sub (c ∷ s) h = rw h

contains_str_tail :
    (sub : Text) (c : ℕ) (s : Text) → contains_str sub s ≡ true → contains_str sub (c ∷ s) ≡ true
unfolding contains_str
contains_str_tail sub c s h = ground arith

contains_str_complete : (sub a b : Text) → contains_str sub (a ++ (sub ++ b)) ≡ true
contains_str_complete sub [] b =
    contains_str_prefix sub (sub ++ b) ((has_prefix_iff sub (sub ++ b)).1 (b, refl))
contains_str_complete sub (c ∷ a) b =
    contains_str_tail sub c (a ++ (sub ++ b)) (contains_str_complete sub a b)

pub contains_str_iff : (sub s : Text) → (contains_str sub s ≡ false) ↔ (¬ (Contains sub s))
contains_str_iff sub s = (
  λ h c. cc (h, rw (← c.2) at (contains_str_complete sub c.0 c.1)),
  λ h. elim (Bool-cases (contains_str sub s)) [
    | inl yes_it ↦ absurd (h (contains_str_sound sub s yes_it))
    | inr no_it ↦ no_it
  ],
)
