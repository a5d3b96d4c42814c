-- ===== src/Oidc/Time/Windows.antt =====
-- The window in which a token's time claims are accepted.
use oidc_ssh_ca.Prelude.{
  ℕ, ◌≡◌, refl, ◌↔◌, false, Option, none, some, arith, ok, ◌and_then◌, refuse_iff,
}
use oidc_ssh_ca.Prelude.Text.{codes}
use oidc_ssh_ca.Prelude.Int.{ℤ, ltb_ℤ, ◌≤ℤ◌, ◌+ℤ◌, ◌-ℤ◌, int_laws}
use oidc_ssh_ca.Json.{Claims}
use oidc_ssh_ca.Oidc.Time.{
  clock_skew_leeway, numeric_claim, is_early, check_exp, check_time_claims, expired, not_yet_valid,
  issued_in_future,
}

-- absent or not a number, or not after `now` by more than the leeway
abbrev pub NotEarly : Option ℤ → ℤ → Type 0
NotEarly none now = Unit
NotEarly (some t) now = t ≤ℤ now +ℤ clock_skew_leeway

-- there, and not before `now` by more than the leeway
abbrev pub NotExpired : Option ℤ → ℤ → Type 0
NotExpired none now = ⊥
NotExpired (some t) now = now ≤ℤ t +ℤ clock_skew_leeway

not_less_iff : (a b : ℤ) → (ltb_ℤ b a ≡ false) ↔ (a ≤ℤ b)
not_less_iff a b = (λ h. ground arith, λ h. ground arith)

move_leeway : (t now l : ℤ) → (t -ℤ l ≤ℤ now) ↔ (t ≤ℤ now +ℤ l)
move_leeway t now l = (λ h. omega int_laws, λ h. omega int_laws)

module _ (unrepresentable : ℕ → ℤ) where
  is_early_iff :
      (o : Option ℤ) (now : ℤ) → (is_early unrepresentable o now ≡ false) ↔ NotEarly o now
  is_early_iff none now = (λ _. tt, λ _. refl)
  is_early_iff (some t) now =
      let less = not_less_iff (t -ℤ clock_skew_leeway) now in
      let move = move_leeway t now clock_skew_leeway in
      (λ h. move.0 (less.0 h), λ h. less.1 (move.1 h))

  check_exp_iff :
      (o : Option ℤ) (now : ℤ) → (check_exp unrepresentable o now ≡ ok tt) ↔ NotExpired o now
  check_exp_iff none now = (λ h. cc, λ h. elim h [ ])
  check_exp_iff (some t) now =
      refuse_iff (ltb_ℤ (t +ℤ clock_skew_leeway) now) expired
        (not_less_iff now (t +ℤ clock_skew_leeway))

  -- The time claims are accepted exactly when `exp` is a number at most 60 seconds in the past, and
  -- `nbf` and `iat`, where they are numbers, are at most 60 seconds in the future.
  pub check_time_claims_iff :
      (claims : Claims) (now : ℤ)
      → (check_time_claims unrepresentable claims now ≡ ok tt) ↔ (
          NotExpired (numeric_claim unrepresentable claims (codes "exp")) now
          × (NotEarly (numeric_claim unrepresentable claims (codes "nbf")) now
              × NotEarly (numeric_claim unrepresentable claims (codes "iat")) now))
  unfolding check_time_claims
  check_time_claims_iff claims now =
      check_exp_iff (numeric_claim unrepresentable claims (codes "exp")) now
      and_then refuse_iff
          (is_early unrepresentable (numeric_claim unrepresentable claims (codes "nbf")) now)
          not_yet_valid (is_early_iff (numeric_claim unrepresentable claims (codes "nbf")) now)
      and_then refuse_iff
          (is_early unrepresentable (numeric_claim unrepresentable claims (codes "iat")) now)
          issued_in_future (is_early_iff (numeric_claim unrepresentable claims (codes "iat")) now)
