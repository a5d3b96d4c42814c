-- ===== src/Policy/KeyId/Scan.antt =====
-- The scanner against a description of the regular expression's matches.
use oidc_ssh_ca.Prelude.{
  ℕ, ◌≡◌, refl, ◌≢◌, ◌↔◌, inl, inr, true, ◌&&◌, List, [], ◌∷◌, ◌++◌, append_assoc, append-nil, ap,
  arith, ◌==◌, Bool-cases, All, All-append, and-true,
}
use oidc_ssh_ca.Prelude.Text.{Text, has_byte}
use oidc_ssh_ca.Policy.KeyId.{
  Segment, lit, var, Mode, outside, opening, inside, opens, scan, segments,
}

-- `${name}` and what follows it
abbrev pub reference_then : Text → Text → Text
reference_then name rest = b'$' ∷ b'{' ∷ (name ++ b'}' ∷ rest)

abbrev pub LacksBrace : Text → Type 0
LacksBrace = All (λ c. c ≢ b'}')

-- `\$\{([^}]*)\}` matches at the start of the text
abbrev pub StartsReference : Text → Type 0
StartsReference t = (name : Text) × (rest : Text) × (t ≡ reference_then name rest)

-- The text read from the left: a match is taken wherever one starts, and its group holds no `}`;
-- every other byte is literal.
pub data Split : Text → List Segment → Type 0 where
  done : Split [] []
  literal :
      {c : ℕ} {s : Text} {segs : List Segment}
      → ¬ (StartsReference (c ∷ s))
      → Split s segs
      → Split (c ∷ s) (lit c ∷ segs)
  reference :
      {t : Text} {segs : List Segment} (name rest : Text)
      → t ≡ reference_then name rest
      → LacksBrace name
      → Split rest segs
      → Split t (var name ∷ segs)

-- what the scanner has read of a reference that it is in
abbrev before : Mode → Text
before outside = []
before opening = b'$' ∷ []
before (inside name) = b'$' ∷ b'{' ∷ name

-- the reference that the scanner is in ends somewhere
abbrev Closes : Mode → Text → Type 0
Closes outside s = Unit
Closes opening s = opens s ≡ true
Closes (inside name) s = (has_byte b'}' s ≡ true) × LacksBrace name

has_byte-append : (c : ℕ) (s t : Text) → has_byte c (s ++ c ∷ t) ≡ true
unfolding has_byte
has_byte-append c [] t = ground arith
has_byte-append c (x ∷ s) t = ground (arith, has_byte-append c s t)

opens_of_reference : (c : ℕ) (s : Text) → StartsReference (c ∷ s) → (c == b'$' && opens s) ≡ true
unfolding opens
opens_of_reference c [] (name, rest, e) = ground arith
opens_of_reference c (d ∷ s) (name, rest, e) = ground (arith, has_byte-append b'}' name rest)

scan-Split : (m : Mode) (s : Text) → Closes m s → Split (before m ++ s) (scan m s)
unfolding scan
scan-Split outside [] h = done
scan-Split opening [] h = unfold opens in cc h
scan-Split (inside name) [] h = unfold has_byte in cc h.0
scan-Split outside (c ∷ s) h = elim (Bool-cases (c == b'$' && opens s)) [
  | inl hit ↦
      let start : c ≡ b'$' = ground arith in rw (hit, start) (scan-Split opening s (and-true hit).1)
  | inr miss ↦
      rw miss (literal (λ r. cc (opens_of_reference c s r, miss)) (scan-Split outside s tt))
]
scan-Split opening (c ∷ s) h =
    let start : c ≡ b'{' = unfold opens in ground arith in
    rw start (scan-Split (inside []) s (unfold opens in ground arith, tt))
scan-Split (inside name) (c ∷ s) (h, lacks) = elim (Bool-cases (c == b'}')) [
  | inl closed ↦
      let stop : c ≡ b'}' = ground arith in
      rw (closed, stop) (reference name s refl lacks (scan-Split outside s tt))
  | inr more ↦ rw more (
      rw append_assoc at (
        scan-Split (inside (name ++ c ∷ [])) s
          (unfold has_byte in ground arith, All-append _ name (c ∷ []) lacks (ground arith, tt))))
]

-- Behind a `$` that opens, the text up to the first `}` is the group of a match.
first_brace :
    (s : Text) → has_byte b'}' s ≡ true → (name : Text) × (rest : Text) × (s ≡ name ++ b'}' ∷ rest)
unfolding has_byte
first_brace [] h = cc
first_brace (c ∷ s) h = elim (Bool-cases (c == b'}')) [
  | inl closed ↦ ([], s, ground arith)
  | inr more ↦ let (name, rest, e) = first_brace s (ground arith) in (c ∷ name, rest, cc)
]

reference_of_opens : (c : ℕ) (s : Text) → (c == b'$' && opens s) ≡ true → StartsReference (c ∷ s)
unfolding opens
reference_of_opens c [] h = absurd (ground arith)
reference_of_opens c (d ∷ s) h =
    let (name, rest, e) = first_brace s (ground arith) in (name, rest, ground arith)

scan-inside :
    (read name rest : Text)
    → LacksBrace name
    → scan (inside read) (name ++ b'}' ∷ rest) ≡ var (read ++ name) ∷ scan outside rest
unfolding scan
scan-inside read [] rest h = rw append-nil
scan-inside read (c ∷ name) rest (h, hs) =
    ground (arith, scan-inside (read ++ c ∷ []) name rest hs, append_assoc read (c ∷ []) name)

scan-reference :
    (name rest : Text)
    → LacksBrace name
    → scan outside (reference_then name rest) ≡ var name ∷ scan outside rest
unfolding scan opens
scan-reference name rest h = rw (has_byte-append b'}' name rest) (scan-inside [] name rest h)

scan-literal :
    (c : ℕ) (s : Text) → ¬ (StartsReference (c ∷ s)) → scan outside (c ∷ s) ≡ lit c ∷ scan outside s
unfolding scan
scan-literal c s no_match = elim (Bool-cases (c == b'$' && opens s)) [
  | inl hit ↦ absurd (no_match (reference_of_opens c s hit))
  | inr miss ↦ rw miss
]

scan_unique : {t : Text} {segs : List Segment} → Split t segs → segments t ≡ segs
scan_unique done = unfold scan in refl
scan_unique (literal {c} {s} no_match r) = rw (scan-literal c s no_match, scan_unique r)
scan_unique (reference name rest e h r) = rw (e, scan-reference name rest h, scan_unique r)

-- The scanner's segments are the split of a template into the leftmost matches of
-- `\$\{([^}]*)\}` and the literal bytes between them, and the only one.
pub segments-Split_iff : (t : Text) (segs : List Segment) → (segments t ≡ segs) ↔ Split t segs
segments-Split_iff t segs = (λ e. rw (← e) (scan-Split outside t tt), scan_unique)

-- the source text of segments
pub render : List Segment → Text
render [] = []
render (lit c ∷ segs) = c ∷ render segs
render (var name ∷ segs) = reference_then name (render segs)

render_of_Split : {t : Text} {segs : List Segment} → Split t segs → render segs ≡ t
unfolding render
render_of_Split done = refl
render_of_Split (literal no_match r) = rw (render_of_Split r)
render_of_Split (reference name rest e h r) = rw (render_of_Split r, e)

-- Printing the segments of a template gives the template back.
pub render-segments : (t : Text) → render (segments t) ≡ t
render-segments t = render_of_Split (scan-Split outside t tt)

pub segments-ne-nil : (t : Text) → t ≢ [] → segments t ≢ []
segments-ne-nil t ne e = unfold render in ne (cc (render-segments t, ap render e))
