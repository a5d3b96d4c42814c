-- ===== src/Net.antt =====
-- What the source uses of package net: `net.ParseCIDR` accepts a text. The address is read as
-- `netip.ParseAddr` reads it, IPv4 with four decimal fields or IPv6 with its `::` and its trailing
-- IPv4 form, and a zone (`%`) is refused.
mod Tests
use oidc_ssh_ca.Prelude.{
  is_empty, ℕ, zero, suc, ◌+◌, ◌-◌, ◌*◌, Bool, true, false, not, ◌&&◌, ◌||◌, Option, none, some,
  List, [], ◌∷◌, leb, ltb, ◌==◌, if◌then◌else◌, length,
}
use oidc_ssh_ca.Prelude.Text.{Text, has_byte, cut}

abbrev is_digit : ℕ → Bool
is_digit c = leb b'0' c && leb c b'9'

-- one field of a dotted address: 1 to 3 digits, no leading zero, at most 255
decimal_field : ℕ → ℕ → Text → Bool
decimal_field digits value [] = ltb 0 digits
decimal_field digits value (c ∷ s) =
    is_digit c
    && not (digits == 1 && value == 0)
    && leb (value * 10 + (c - b'0')) 255
    && decimal_field (suc digits) (value * 10 + (c - b'0')) s

abbrev field_then : Option (Text × Text) → (Text → Bool) → Bool
field_then none rest = false
field_then (some (field, more)) rest = decimal_field 0 0 field && rest more

-- four fields with three dots
ipv4_fields : ℕ → Text → Bool
ipv4_fields zero s = decimal_field 0 0 s
ipv4_fields (suc dots) s = field_then (cut b'.' s) (ipv4_fields dots)

abbrev is_ipv4 : Text → Bool
is_ipv4 = ipv4_fields 3

abbrev is_hex : ℕ → Bool
is_hex c = is_digit c || (leb b'a' c && leb c b'f') || (leb b'A' c && leb c b'F')

-- the hexadecimal digits at the front, and what follows them
hex_run : ℕ → Text → ℕ × Text
hex_run n [] = (n, [])
hex_run n (c ∷ s) = let more = hex_run (suc n) s in if is_hex c then more else (n, c ∷ s)

-- behind a complete group: the end, or `:` and more, where a second `:` is the ellipsis
pub data After : Type 0 where
  finished malformed : After
  group : Text → After
  ellipsis_end : After
  ellipsis_then : Text → After

after_group : Text → After
after_group [] = finished
after_group (c ∷ []) = malformed
after_group (c ∷ d ∷ s) =
    if not (c == b':')
    then malformed
    else if d == b':'
    then (if is_empty s then ellipsis_end else ellipsis_then s)
    else group (d ∷ s)

-- The groups of an IPv6 address: `left` are the 16-bit groups not yet filled, `seen` tells whether
-- `::` has been read. The fuel is `left`, since each round fills a group.
abbrev dot_next : Text → Bool
dot_next [] = false
dot_next (c ∷ s) = c == b'.'

ipv6_groups : ℕ → Bool → Text → Bool
ipv6_groups zero seen s = false
ipv6_groups (suc left) seen s =
    let (digits, rest) = hex_run 0 s in
    let go_on = ipv6_groups left seen in
    let go_on_seen = ipv6_groups left true in
    if digits == 0 || ltb 4 digits
    then false
    else if dot_next rest
    then is_ipv4 s && (if seen then ltb 1 left else left == 1)
    else elim (after_group rest) [
      | finished ↦ if seen then ltb 0 left else left == 0
      | malformed ↦ false
      | group t ↦ go_on t
      | ellipsis_end ↦ not seen && ltb 0 left
      | ellipsis_then t ↦ not seen && go_on_seen t
    ]

is_ipv6 : Text → Bool
is_ipv6 [] = false
is_ipv6 (c ∷ []) = false
is_ipv6 (c ∷ d ∷ s) =
    if c == b':' && d == b':'
    then is_empty s || ipv6_groups 8 true s
    else ipv6_groups 8 false (c ∷ d ∷ s)

-- a prefix length: digits of a value at most `most`
prefix_length : ℕ → ℕ → Text → Bool
prefix_length most value [] = true
prefix_length most value (c ∷ s) =
    is_digit c
    && leb (value * 10 + (c - b'0')) most
    && prefix_length most (value * 10 + (c - b'0')) s

abbrev with_prefix : ℕ → Text → Bool
with_prefix most s = not (is_empty s) && prefix_length most 0 s

-- the first of `.` and `:` tells the family
abbrev Family : Type 0
Family = Option Bool

family : Text → Family
family [] = none
family (c ∷ s) =
    let rest = family s in if c == b'.' then some true else if c == b':' then some false else rest

abbrev check_parts : Option (Text × Text) → Bool
check_parts none = false
check_parts (some (addr, mask)) = not (has_byte b'%' addr) && elim (family addr) [
  | none ↦ false
  | some v4 ↦
      if v4 then is_ipv4 addr && with_prefix 32 mask else is_ipv6 addr && with_prefix 128 mask
]

-- `_, _, err := net.ParseCIDR(s); err == nil`
unfoldable pub is_cidr : Text → Bool
unfolding decimal_field ipv4_fields hex_run after_group ipv6_groups is_ipv6 prefix_length family cut
    has_byte
is_cidr s = check_parts (cut b'/' s)
