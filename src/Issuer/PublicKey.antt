-- ===== src/Issuer/PublicKey.antt =====
-- internal/issuer/pubkey.go. `ssh.ParseAuthorizedKey` and a key's `Type` are fields of `Keys`.
pub mod Accepts
mod Tests
use oidc_ssh_ca.Prelude.{
  ℕ, Bool, true, false, not, ◌&&◌, ◌||◌, Option, none, some, List, [], ◌∷◌, ◌++◌, is_empty, length,
  all, ltb, leb, ◌==◌, if◌then◌else◌, Result, ok, err, ◌>>=◌, ◌>>◌, check, refuse, map_err,
}
use oidc_ssh_ca.Prelude.Text.{Text, codes, has_byte, has_str, contains_str}

abbrev pub max_public_key_bytes : ℕ
max_public_key_bytes = 4096

-- package golang.org/x/crypto/ssh
pub record Keys (PublicKey E : Type 0) : Type 0 where
  -- ParseAuthorizedKey: the key and the rest of the input
  pub parse_authorized_key : Text → Result E (PublicKey × Text)
  -- pub.Type()
  pub key_type : PublicKey → Text

pub data PublicKeyError (E : Type 0) : Type 0 where
  empty_key too_long several_lines : PublicKeyError E
  unparsable : E → PublicKeyError E
  trailing_data is_certificate : PublicKeyError E
  type_not_allowed : Text → PublicKeyError E

abbrev pub is_line_end : ℕ → Bool
is_line_end c = c == 0x0d || c == 0x0a

-- `strings.TrimRight(s, "\r\n")`: a byte goes if only such bytes follow it and it is one
unfoldable pub trim_right : Text → Text
trim_right [] = []
trim_right (c ∷ s) =
    let rest = trim_right s in if is_line_end c && is_empty rest then [] else c ∷ rest

-- U+0085 and U+00A0 in UTF-8
abbrev is_space2 : ℕ → ℕ → Bool
is_space2 a b = a == 0xc2 && (b == 0x85 || b == 0xa0)

-- U+1680, U+2000 to U+200A, U+2028, U+2029, U+202F, U+205F and U+3000
abbrev is_space3 : ℕ → ℕ → ℕ → Bool
is_space3 a b c =
    (a == 0xe1 && b == 0x9a && c == 0x80)
    || (a == 0xe2
        && b == 0x80
        && ((leb 0x80 c && leb c 0x8a) || c == 0xa8 || c == 0xa9 || c == 0xaf))
    || (a == 0xe2 && b == 0x81 && c == 0x9f)
    || (a == 0xe3 && b == 0x80 && c == 0x80)

abbrev is_space1 : ℕ → Bool
is_space1 c = (leb 0x09 c && leb c 0x0d) || c == 0x20

-- `len(strings.TrimSpace(s)) == 0`: nothing but white space
unfoldable pub only_space : Text → Bool
only_space [] = true
only_space (a ∷ []) = is_space1 a
only_space (a ∷ b ∷ []) = (is_space1 a && is_space1 b) || is_space2 a b
only_space (a ∷ b ∷ c ∷ s) =
    let after_one = only_space (b ∷ c ∷ s) in
    let after_two = only_space (c ∷ s) in
    let after_three = only_space s in
    if is_space1 a
    then after_one
    else if is_space2 a b
    then after_two
    else if is_space3 a b c
    then after_three
    else false

module _ {PublicKey E : Type 0} (keys : Keys PublicKey E) where
  abbrev pub checked_key : List Text → Text → PublicKey → Result (PublicKeyError E) PublicKey
  checked_key allowed type pub_key = do
    refuse (contains_str (codes "-cert-") type) is_certificate
    if has_str allowed type then ok pub_key else err (type_not_allowed type)

  unfoldable pub validate_public_key : Text → List Text → Result (PublicKeyError E) PublicKey
  validate_public_key raw allowed = do
    refuse (is_empty (trim_right raw)) empty_key
    refuse (ltb max_public_key_bytes (length (trim_right raw))) too_long
    refuse (has_byte 0x0d (trim_right raw) || has_byte 0x0a (trim_right raw)) several_lines
    parsed ← map_err unparsable (keys.parse_authorized_key (trim_right raw))
    check (only_space parsed.1) trailing_data
    checked_key allowed (keys.key_type parsed.0) parsed.0
