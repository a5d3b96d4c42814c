-- ===== src/Server/Sign/Tokens.antt =====
-- Which header values hold a bearer token.
use oidc_ssh_ca.Prelude.{
  ◌+◌, ◌≡◌, refl, ◌≢◌, ◌↔◌, inl, inr, false, not, ◌||◌, none, some, [], ◌∷◌, ◌++◌, arith,
  if◌then◌else◌, length, ◌==◌, Bool-cases,
}
use oidc_ssh_ca.Prelude.Text.{Text, has_prefix, has_prefix_iff}
use oidc_ssh_ca.Server.{bearer_prefix, bearer_token, slice_from}

pub slice_from-prefix : (p t : Text) → slice_from (length p) (p ++ t) ≡ t
unfolding slice_from
slice_from-prefix [] t = refl
slice_from-prefix (c ∷ p) t = slice_from-prefix p t

length-append : (p t : Text) → length (p ++ t) ≡ length p + length t
length-append [] t = omega arith
length-append (c ∷ p) t = rw (length-append p t) (omega arith)

longer : (p t : Text) → ((length (p ++ t) == length p) ≡ false) ↔ (t ≢ [])
longer p [] = (λ h. absurd (ground (arith, length-append p [])), λ h. absurd (h refl))
longer p (c ∷ t) = (λ h e. cc, λ h. ground (arith, length-append p (c ∷ t)))

after_prefix_iff :
    (p s t : Text)
    → ((if not (has_prefix p s) || length s == length p
          then none
          else some (slice_from (length p) s))
        ≡ some t)
      ↔ ((s ≡ p ++ t) × (t ≢ []))
after_prefix_iff p s t = elim (Bool-cases (has_prefix p s)) [
  | inr other ↦
      (λ h. absurd (cc (rw other at h)), λ h. absurd (cc (other, (has_prefix_iff p s).1 (t, h.0))))
  | inl starts ↦
      let (b, spelled) = (has_prefix_iff p s).0 starts in
      elim (Bool-cases (length s == length p)) [
        | inl same ↦ (
          λ h. absurd (cc (rw (starts, same) at h)),
          λ h. absurd (cc (same, h.0, (longer p t).1 h.1)),
        )
        | inr more ↦ (
          λ h.
              let found : some (slice_from (length p) s) ≡ some t = rw (starts, more) at h in
              let is_t : b ≡ t = cc (found, spelled, slice_from-prefix p b) in
              (cc (spelled, is_t), (longer p t).0 (cc (spelled, is_t, more))),
          λ h. rw (starts, more) (cc (h.0, slice_from-prefix p t)),
        )
      ]
]

-- A bearer token is what follows `Bearer ` in the header, if that is not empty.
pub bearer_token_iff :
    (auth_header t : Text)
    → (bearer_token auth_header ≡ some t) ↔ ((auth_header ≡ bearer_prefix ++ t) × (t ≢ []))
unfolding bearer_token
bearer_token_iff auth_header t = after_prefix_iff bearer_prefix auth_header t
