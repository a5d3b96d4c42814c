-- ===== src/Server/Http/Bodies.antt =====
-- The limit on the body that `handle_sign` reads changes no outcome.
use oidc_ssh_ca.Prelude.{
  ℕ, zero, suc, ◌+◌, ◌≤◌, ◌≡◌, refl, ap, inl, inr, true, [], ◌∷◌, arith, length, ltb, Bool-cases,
}
use oidc_ssh_ca.Prelude.Text.{Text}
use oidc_ssh_ca.Policy.{Policy}
use oidc_ssh_ca.Server.{max_request_body, Packages, Server, State, Draws}
use oidc_ssh_ca.Server.Sign.{before_verify, sign_checked, sign}
use oidc_ssh_ca.Server.Http.{take, reply_with, handle_sign}

take_all : (n : ℕ) (s : Text) → length s ≤ n → take n s ≡ s
unfolding take
take_all zero [] h = refl
take_all zero (c ∷ s) h = absurd (omega arith)
take_all (suc n) [] h = refl
take_all (suc n) (c ∷ s) h = ap (λ t. c ∷ t) (take_all n s (omega arith))

length-take : (n : ℕ) (s : Text) → n ≤ length s → length (take n s) ≡ n
unfolding take
length-take zero s h = refl
length-take (suc n) [] h = absurd (omega arith)
length-take (suc n) (c ∷ s) h = ap (λ k. suc k) (length-take n s (omega arith))

module _ {PublicKey Signature S V E : Type 0} (pkg : Packages PublicKey Signature E)
    (srv : Server PublicKey Signature S V E) where
  before_verify-take :
      (pol : Policy) (method auth_header body : Text)
      → before_verify pkg srv pol method auth_header (take (max_request_body + 1) body)
        ≡ before_verify pkg srv pol method auth_header body
  unfolding before_verify
  before_verify-take pol method auth_header body =
      elim (Bool-cases (ltb max_request_body (length body))) [
        | inl large ↦
            let cut : length (take (max_request_body + 1) body) ≡ max_request_body + 1 =
              length-take (max_request_body + 1) body (ground arith) in
            let still : ltb max_request_body (length (take (max_request_body + 1) body)) ≡ true =
              ground arith in
            rw (large, still) refl
        | inr small ↦ rw (take_all (max_request_body + 1) body (ground arith)) refl
      ]

  -- `handle_sign` answers as `sign` does on the whole body, although it reads at most one byte more
  -- than the limit.
  pub handle_sign_lem :
      (draws : Draws E) (method auth_header body : Text) (st : State S V E)
      → handle_sign pkg srv draws method auth_header body st
        ≡ reply_with pkg srv (sign pkg srv draws method auth_header body st)
  unfolding handle_sign sign
  handle_sign_lem draws method auth_header body st =
      ap (λ r. reply_with pkg srv (sign_checked pkg srv draws st r))
        (before_verify-take st.policy method auth_header body)
