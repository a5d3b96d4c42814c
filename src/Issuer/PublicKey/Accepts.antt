-- ===== src/Issuer/PublicKey/Accepts.antt =====
-- Which public keys are accepted.
use oidc_ssh_ca.Prelude.{
  ◌≤◌, ◌≡◌, refl, ap, ◌≢◌, ◌↔◌, inl, inr, true, false, ◌&&◌, ◌||◌, List, [], ◌∷◌, ◌++◌, arith, All,
  is_empty, is_empty_iff, not_empty_iff, length, ltb, ok, >>=-eq-ok, >>-eq-ok, Bool-cases, check,
  refuse, check_passed, refuse_passed, if_passed, map_err, map_err_ok,
}
use oidc_ssh_ca.Prelude.Text.{
  Text, codes, has_byte, has_byte_iff, Lacks, has_str, has_str_iff, Listed, contains_str,
  contains_str_iff, Contains,
}
use oidc_ssh_ca.Issuer.PublicKey.{
  Keys, max_public_key_bytes, empty_key, too_long, several_lines, unparsable, trailing_data,
  is_certificate, type_not_allowed, is_line_end, trim_right, only_space, validate_public_key,
}

-- a line without its ends of line
abbrev pub IsLine : Text → Type 0
IsLine line = (line ≢ []) × (length line ≤ max_public_key_bytes) × Lacks 0x0d line × Lacks 0x0a line

-- The request is one line of at most 4096 bytes, with nothing but ends of line behind it, that
-- parses as this key with only white space left over; the key's type is allowed, and is no
-- certificate type.
pub record Accepted {PublicKey E : Type 0} (keys : Keys PublicKey E) (raw : Text)
    (allowed : List Text) (pub_key : PublicKey) : Type 0 where
  pub line : Text
  pub ends : Text
  pub rest : Text
  pub spelled : raw ≡ line ++ ends
  pub only_ends : All (λ c. is_line_end c ≡ true) ends
  pub is_line : IsLine line
  pub parsed : keys.parse_authorized_key line ≡ ok (pub_key, rest)
  pub blank_rest : only_space rest ≡ true
  pub no_certificate : ¬ (Contains (codes "-cert-") (keys.key_type pub_key))
  pub type_allowed : Listed (keys.key_type pub_key) allowed

trim_right-ends : (s : Text) → All (λ c. is_line_end c ≡ true) s → trim_right s ≡ []
unfolding trim_right
trim_right-ends [] h = refl
trim_right-ends (c ∷ s) h = ground (arith, trim_right-ends s h.1)

trim_right-append :
    (line ends : Text)
    → Lacks 0x0d line
    → Lacks 0x0a line
    → All (λ c. is_line_end c ≡ true) ends
    → trim_right (line ++ ends) ≡ line
unfolding trim_right
trim_right-append [] ends a b h = trim_right-ends ends h
trim_right-append (c ∷ line) ends a b h = ground (arith, trim_right-append line ends a.1 b.1 h)

-- what the trimming takes off
trimmed :
    (s : Text) → (ends : Text) × (s ≡ trim_right s ++ ends) × All (λ c. is_line_end c ≡ true) ends
unfolding trim_right
trimmed [] = ([], refl, tt)
trimmed (c ∷ s) =
    let (ends, spelled, only) = trimmed s in
    elim (Bool-cases (is_line_end c && is_empty (trim_right s))) [
      | inl goes ↦
          let empty : trim_right s ≡ [] = (is_empty_iff (trim_right s)).0 (ground arith) in
          rw goes (c ∷ ends, cc (spelled, ap (λ t. t ++ ends) empty), (ground arith, only))
      | inr stays ↦ rw stays (ends, ap (λ t. c ∷ t) spelled, only)
    ]

module _ {PublicKey E : Type 0} (keys : Keys PublicKey E) (raw : Text) (allowed : List Text)
    (pub_key : PublicKey) where
  Accepted-sound :
      validate_public_key keys raw allowed ≡ ok pub_key → Accepted keys raw allowed pub_key
  unfolding validate_public_key
  Accepted-sound h =
      let line = trim_right raw in
      let (some_line, h1) = >>-eq-ok (refuse (is_empty line) empty_key) _ h in
      let (short, h2) = >>-eq-ok (refuse (ltb max_public_key_bytes (length line)) too_long) _ h1 in
      let (single, h3) =
        >>-eq-ok (refuse (has_byte 0x0d line || has_byte 0x0a line) several_lines) _ h2 in
      let (found, parse, h4) =
        >>=-eq-ok (map_err unparsable (keys.parse_authorized_key line)) _ h3 in
      let (blank, h5) = >>-eq-ok (check (only_space found.1) trailing_data) _ h4 in
      let (plain, h6) =
        >>-eq-ok (refuse (contains_str (codes "-cert-") (keys.key_type found.0)) is_certificate) _
          h5 in
      let (listed, same) =
        if_passed (has_str allowed (keys.key_type found.0)) (ok found.0)
          (type_not_allowed (keys.key_type found.0)) h6 in
      let eq : found.0 ≡ pub_key = cc in
      let one = refuse_passed (has_byte 0x0d line || has_byte 0x0a line) several_lines single in
      let fits = refuse_passed (ltb max_public_key_bytes (length line)) too_long short in
      let (ends, spelled, only) = trimmed raw in
      rw (← eq) (record {
        line = line;
        ends = ends;
        rest = found.1;
        spelled = spelled;
        only_ends = only;
        is_line = (
          (not_empty_iff line).0 (refuse_passed (is_empty line) empty_key some_line),
          ground arith,
          (has_byte_iff 0x0d line).0 (ground arith),
          (has_byte_iff 0x0a line).0 (ground arith),
        );
        parsed = map_err_ok unparsable (keys.parse_authorized_key line) parse;
        blank_rest = check_passed (only_space found.1) trailing_data blank;
        no_certificate = (contains_str_iff (codes "-cert-") (keys.key_type found.0)).0 (
            refuse_passed (contains_str (codes "-cert-") (keys.key_type found.0)) is_certificate
              plain);
        type_allowed = (has_str_iff allowed (keys.key_type found.0)).0 listed;
      })

  Accepted-complete :
      Accepted keys raw allowed pub_key → validate_public_key keys raw allowed ≡ ok pub_key
  unfolding validate_public_key
  Accepted-complete a =
      let (ne, fits, no_cr, no_lf) = a.is_line in
      let trim : trim_right raw ≡ a.line =
        rw a.spelled (trim_right-append a.line a.ends no_cr no_lf a.only_ends) in
      let short : ltb max_public_key_bytes (length a.line) ≡ false = ground arith in
      rw (
        trim,
        (not_empty_iff a.line).1 ne,
        short,
        (has_byte_iff 0x0d a.line).1 no_cr,
        (has_byte_iff 0x0a a.line).1 no_lf,
        a.parsed,
        a.blank_rest,
        (contains_str_iff (codes "-cert-") (keys.key_type pub_key)).1 a.no_certificate,
        (has_str_iff allowed (keys.key_type pub_key)).1 a.type_allowed,
      )

  -- A public key is accepted exactly when the request is one non-empty line of at most 4096 bytes,
  -- with nothing but CR and LF behind it, that parses with only white space left over, and the
  -- key's type is listed and does not contain `-cert-`.
  pub validate_public_key_iff :
      (validate_public_key keys raw allowed ≡ ok pub_key) ↔ Accepted keys raw allowed pub_key
  validate_public_key_iff = (Accepted-sound, Accepted-complete)
