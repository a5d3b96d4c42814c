-- ===== src/Issuer/PublicKey/Tests.antt =====
-- A key of one line, read by a parser that takes any text.
use oidc_ssh_ca.Prelude.{ℕ, ◌≡◌, refl, ◌↔◌, [], ◌∷◌, ◌++◌, ok, err}
use oidc_ssh_ca.Prelude.Text.{Text, codes, has_byte, has_str, contains_str, has_prefix, str_eq}
use oidc_ssh_ca.Issuer.PublicKey.{
  Keys, several_lines, type_not_allowed, trim_right, only_space, validate_public_key,
}
use oidc_ssh_ca.Issuer.PublicKey.Accepts.{Accepted, validate_public_key_iff}

abbrev keys : Keys ℕ ℕ
keys = record {
  parse_authorized_key = λ line. ok (5, codes " ");
  key_type = λ k. codes "ssh-ed25519";
}

abbrev raw : Text
raw = codes "ssh-ed25519 AAAA" ++ 0x0a ∷ []

accepted :
    (validate_public_key keys raw (codes "ssh-ed25519" ∷ []) ≡ ok 5)
    × (validate_public_key keys (raw ++ raw) (codes "ssh-ed25519" ∷ []) ≡ err several_lines)
    × (validate_public_key keys raw (codes "ssh-rsa" ∷ [])
        ≡ err (type_not_allowed (codes "ssh-ed25519")))
unfolding validate_public_key trim_right only_space has_byte has_str contains_str has_prefix str_eq
accepted = (refl, refl, refl)

validate_public_key_iff_example :
    (validate_public_key keys raw (codes "ssh-ed25519" ∷ []) ≡ ok 5)
    ↔ Accepted keys raw (codes "ssh-ed25519" ∷ []) 5
validate_public_key_iff_example = validate_public_key_iff keys raw (codes "ssh-ed25519" ∷ []) 5
