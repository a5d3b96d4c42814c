-- ===== src/Policy/KeyId.antt =====
-- internal/policy/keyid.go. The three uses of `templateVarRe` (`\$\{([^}]*)\}`) go through one
-- scanner, which splits a template into literal bytes and variable references.
pub mod Scan
pub mod Vars
pub mod Expand
mod Tests
use oidc_ssh_ca.Prelude.{
  is_empty, ℕ, Bool, true, false, ◌&&◌, ◌||◌, Option, none, some, List, [], ◌∷◌, ◌++◌, length, all,
  leb, ltb, ◌==◌, if◌then◌else◌, Result, ok, err, ◌>>=◌, ◌>>◌, check, refuse,
}
use oidc_ssh_ca.Prelude.Text.{Text, has_byte}
use oidc_ssh_ca.Json.{Json, Claims, lookup, as_string}

abbrev pub max_key_id_length : ℕ
max_key_id_length = 256

abbrev pub is_lower : ℕ → Bool
is_lower c = leb b'a' c && leb c b'z'

abbrev pub is_upper : ℕ → Bool
is_upper c = leb b'A' c && leb c b'Z'

abbrev pub is_digit : ℕ → Bool
is_digit c = leb b'0' c && leb c b'9'

-- [a-z0-9_]
unfoldable pub is_claim_name_char : ℕ → Bool
is_claim_name_char c = is_lower c || is_digit c || c == b'_'

-- [A-Za-z0-9._/:@-]
unfoldable pub is_key_id_char : ℕ → Bool
is_key_id_char c =
    is_upper c
    || is_lower c
    || is_digit c
    || c == b'.'
    || c == b'_'
    || c == b'/'
    || c == b':'
    || c == b'@'
    || c == b'-'

abbrev pub is_nonempty : Text → Bool
is_nonempty [] = false
is_nonempty (_ ∷ _) = true

-- claimNameRe
abbrev pub is_claim_name : Text → Bool
is_claim_name s = is_nonempty s && all is_claim_name_char s

-- keyIDValueRe
abbrev pub is_key_id_value : Text → Bool
is_key_id_value s = is_nonempty s && all is_key_id_char s

-- keyIDLiteralRe
abbrev pub is_key_id_literal : Text → Bool
is_key_id_literal s = all is_key_id_char s

pub data Segment : Type 0 where
  lit : ℕ → Segment
  var : Text → Segment

pub data Mode : Type 0 where
  outside opening : Mode
  inside : Text → Mode

-- Behind a `$`: a `{` follows, and some `}` after it.
unfoldable pub opens : Text → Bool
unfolding has_byte
opens [] = false
opens (c ∷ s) = c == b'{' && has_byte b'}' s

-- The leftmost matches of `\$\{([^}]*)\}`, one after the other, and the bytes between them.
unfoldable pub scan : Mode → Text → List Segment
unfolding opens
scan _ [] = []
scan outside (c ∷ s) =
    let reference = scan opening s in
    let literal = lit c ∷ scan outside s in if c == b'$' && opens s then reference else literal
scan opening (c ∷ s) = scan (inside []) s
scan (inside name) (c ∷ s) =
    let closed = var name ∷ scan outside s in
    let longer = scan (inside (name ++ c ∷ [])) s in if c == b'}' then closed else longer

abbrev pub segments : Text → List Segment
segments tmpl = scan outside tmpl

-- FindAllStringSubmatch, the first group of each match
unfoldable pub names : List Segment → List Text
names [] = []
names (lit c ∷ segs) = names segs
names (var name ∷ segs) = name ∷ names segs

-- ReplaceAllString(tmpl, "")
unfoldable pub literals : List Segment → Text
literals [] = []
literals (lit c ∷ segs) = c ∷ literals segs
literals (var name ∷ segs) = literals segs

pub data TemplateError : Type 0 where
  malformed_variable bad_literal : TemplateError
  invalid_claim_name : Text → TemplateError

-- the loop over the matches
unfoldable pub collect_vars : List Text → Result TemplateError (List Text)
unfolding is_claim_name_char
collect_vars [] = ok []
collect_vars (name ∷ rest) = do
  check (is_claim_name name) (invalid_claim_name name)
  vars ← collect_vars rest
  ok (name ∷ vars)

unfoldable pub template_vars : Text → Result TemplateError (List Text)
unfolding collect_vars is_key_id_char has_byte scan names literals
template_vars tmpl = do
  refuse (has_byte b'$' tmpl && has_byte b'$' (literals (segments tmpl))) malformed_variable
  vars ← collect_vars (names (segments tmpl))
  check (is_key_id_literal (literals (segments tmpl))) bad_literal
  ok vars

pub data KeyIdError : Type 0 where
  claim_missing claim_not_string claim_bad_value : Text → KeyIdError
  too_long bad_result : KeyIdError

abbrev pub value_of_string : Text → Option Text → Result KeyIdError Text
value_of_string name none = err (claim_not_string name)
value_of_string name (some v) = if is_key_id_value v then ok v else err (claim_bad_value name)

abbrev pub value_of : Text → Option Json → Result KeyIdError Text
value_of name none = err (claim_missing name)
value_of name (some raw) = value_of_string name (as_string raw)

-- The replacement function up to its writes to `expandErr`: the value, or the error it stores.
unfoldable pub claim_value : Claims → Text → Result KeyIdError Text
unfolding is_key_id_char lookup
claim_value claims name = value_of name (lookup name claims)

-- the bytes that a reference is replaced by, and `expandErr` behind it
abbrev pub replace : Option KeyIdError → Result KeyIdError Text → Text × Option KeyIdError
replace (some e) r = ([], some e)
replace none (ok v) = (v, none)
replace none (err e) = ([], some e)

-- ReplaceAllStringFunc with `expandErr` threaded through: every match is visited, and after the
-- first error each is replaced by the empty text.
unfoldable pub expand_segments :
    Claims → List Segment → Option KeyIdError → Text × Option KeyIdError
expand_segments claims [] failed = ([], failed)
expand_segments claims (lit c ∷ segs) failed =
    let (out, failed') = expand_segments claims segs failed in (c ∷ out, failed')
expand_segments claims (var name ∷ segs) failed =
    let (value, now_failed) = replace failed (claim_value claims name) in
    let (out, failed') = expand_segments claims segs now_failed in (value ++ out, failed')

abbrev pub finish : Text × Option KeyIdError → Result KeyIdError Text
finish (out, some e) = err e
finish (out, none) =
    if ltb max_key_id_length (length out)
    then err too_long
    else if is_key_id_value out
    then ok out
    else err bad_result

unfoldable pub expand_key_id : Text → Claims → Result KeyIdError Text
unfolding expand_segments claim_value scan
expand_key_id tmpl claims = finish (expand_segments claims (segments tmpl) none)
