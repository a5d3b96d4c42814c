-- ===== src/Policy/KeyId/Vars.antt =====
-- Which templates `template_vars` accepts.
use oidc_ssh_ca.Prelude.{
  ℕ, ◌≤◌, ◌≡◌, refl, ◌≢◌, ◌↔◌, ◌⊎◌, Bool, true, false, ◌&&◌, List, [], ◌∷◌, arith, All, all, ok,
  check, refuse, >>=-eq-ok, >>-eq-ok, check_passed, all_iff,
}
use oidc_ssh_ca.Prelude.Text.{Text, has_byte}
use oidc_ssh_ca.Policy.KeyId.{
  segments, names, literals, is_claim_name_char, is_key_id_char, is_claim_name, is_key_id_value,
  is_key_id_literal, is_nonempty, collect_vars, template_vars, malformed_variable, bad_literal,
  invalid_claim_name,
}

abbrev pub Between : ℕ → ℕ → ℕ → Type 0
Between lo hi c = (lo ≤ c) × (c ≤ hi)

-- a byte of [a-z0-9_]
abbrev pub IsClaimNameChar : ℕ → Type 0
IsClaimNameChar c = Between b'a' b'z' c ⊎ Between b'0' b'9' c ⊎ (c ≡ b'_')

-- a byte of [A-Za-z0-9._/:@-]; `/` and `:` stand next to the digits, as `-` and `.` do
abbrev pub IsKeyIdChar : ℕ → Type 0
IsKeyIdChar c =
    Between b'A' b'Z' c ⊎ Between b'a' b'z' c ⊎ Between b'-' b':' c ⊎ (c ≡ b'_') ⊎ (c ≡ b'@')

abbrev pub IsClaimName : Text → Type 0
IsClaimName s = (s ≢ []) × All IsClaimNameChar s

abbrev pub IsKeyIdValue : Text → Type 0
IsKeyIdValue s = (s ≢ []) × All IsKeyIdChar s

pub is_claim_name_char_iff : (c : ℕ) → (is_claim_name_char c ≡ true) ↔ IsClaimNameChar c
unfolding is_claim_name_char
is_claim_name_char_iff c = (λ h. ground arith, λ h. ground arith)

pub is_key_id_char_iff : (c : ℕ) → (is_key_id_char c ≡ true) ↔ IsKeyIdChar c
unfolding is_key_id_char
is_key_id_char_iff c = (λ h. ground arith, λ h. ground arith)

pub nonempty_all_iff :
    (p : ℕ → Bool) (P : ℕ → Type 0) (p_iff : (c : ℕ) → (p c ≡ true) ↔ P c) (s : Text)
    → ((is_nonempty s && all p s) ≡ true) ↔ ((s ≢ []) × All P s)
nonempty_all_iff p P p_iff [] = (λ h. cc, λ h. absurd (h.0 refl))
nonempty_all_iff p P p_iff (c ∷ s) =
    (λ h. (cc, (all_iff p P p_iff (c ∷ s)).0 h), λ h. (all_iff p P p_iff (c ∷ s)).1 h.1)

pub is_claim_name_iff : (s : Text) → (is_claim_name s ≡ true) ↔ IsClaimName s
is_claim_name_iff = nonempty_all_iff is_claim_name_char IsClaimNameChar is_claim_name_char_iff

pub is_key_id_value_iff : (s : Text) → (is_key_id_value s ≡ true) ↔ IsKeyIdValue s
is_key_id_value_iff = nonempty_all_iff is_key_id_char IsKeyIdChar is_key_id_char_iff

pub is_key_id_literal_iff : (s : Text) → (is_key_id_literal s ≡ true) ↔ All IsKeyIdChar s
is_key_id_literal_iff = all_iff is_key_id_char IsKeyIdChar is_key_id_char_iff

collect_vars_sound :
    (ns vars : List Text) → collect_vars ns ≡ ok vars → (vars ≡ ns) × All IsClaimName ns
unfolding collect_vars
collect_vars_sound [] vars h = (cc, tt)
collect_vars_sound (n ∷ ns) vars h =
    let (good, rest) = >>-eq-ok (check (is_claim_name n) (invalid_claim_name n)) _ h in
    let (vs, found, same) = >>=-eq-ok (collect_vars ns) (λ vs. ok (n ∷ vs)) rest in
    let (eq, later) = collect_vars_sound ns vs found in
    (cc, ((is_claim_name_iff n).0 (check_passed _ _ good), later))

collect_vars_complete : (ns : List Text) → All IsClaimName ns → collect_vars ns ≡ ok ns
unfolding collect_vars
collect_vars_complete [] h = refl
collect_vars_complete (n ∷ ns) h = rw ((is_claim_name_iff n).1 h.0, collect_vars_complete ns h.1)

no_dollar : (s : Text) → All IsKeyIdChar s → has_byte b'$' s ≡ false
unfolding has_byte
no_dollar [] h = refl
no_dollar (c ∷ s) h = ground (arith, no_dollar s h.1)

refused :
    (t : Text)
    → All IsKeyIdChar (literals (segments t))
    → (has_byte b'$' t && has_byte b'$' (literals (segments t))) ≡ false
refused t h = ground (arith, no_dollar (literals (segments t)) h)

-- A template is accepted with `vars` exactly when `vars` are its references in order, each spelled
-- [a-z0-9_]+, and every byte outside the references is one of [A-Za-z0-9._/:@-].
pub template_vars_iff :
    (t : Text) (vars : List Text)
    → (template_vars t ≡ ok vars) ↔ (
        (vars ≡ names (segments t))
        × All IsClaimName vars
        × All IsKeyIdChar (literals (segments t)))
unfolding template_vars
template_vars_iff t vars = (
  λ h.
      let (_, rest) =
        >>-eq-ok
          (refuse (has_byte b'$' t && has_byte b'$' (literals (segments t))) malformed_variable) _
          h in
      let (vs, found, rest') = >>=-eq-ok (collect_vars (names (segments t))) _ rest in
      let (plain, same) =
        >>-eq-ok (check (is_key_id_literal (literals (segments t))) bad_literal) _ rest' in
      let (eq, good) = collect_vars_sound (names (segments t)) vs found in
      let same' : vs ≡ vars = cc in
      (cc, rw (← same', eq) good, (is_key_id_literal_iff _).0 (check_passed _ _ plain)),
  λ (eq, good, plain).
      rw
        (
          refused t plain,
          collect_vars_complete (names (segments t)) (rw eq at good),
          (is_key_id_literal_iff _).1 plain,
        )
        (cc),
)
