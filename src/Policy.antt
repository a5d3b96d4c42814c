-- ===== src/Policy.antt =====
-- internal/policy/policy.go: the policy file's types and the effective values of a rule. A pointer
-- field is an `Option`, an `int` an integer, and a map the list of its entries (see Json).
pub mod KeyId
pub mod Matching
pub mod Validation
pub mod Loading
pub mod Issuers
use oidc_ssh_ca.Prelude.{
  is_empty, ℕ, Bool, true, false, not, ◌&&◌, ◌||◌, Option, none, some, List, [], ◌∷◌, ◌++◌,
  if◌then◌else◌,
}
use oidc_ssh_ca.Prelude.Text.{Text, codes, str_eq, has_str}
use oidc_ssh_ca.Prelude.Int.{ℤ, pos, negsuc}

-- -30
abbrev pub default_valid_after_offset_seconds : ℤ
default_valid_after_offset_seconds = negsuc 29

abbrev pub default_max_valid_for_seconds : ℤ
default_max_valid_for_seconds = pos 900

pub record Extensions : Type 0 where
  pub permit_pty : Bool
  pub permit_port_forwarding : Bool
  pub permit_agent_forwarding : Bool
  pub permit_x11_forwarding : Bool
  pub permit_user_rc : Bool

pub record JwtMatch : Type 0 where
  pub issuer : Text
  pub audience : Text
  pub owner : Text
  pub repo_name : Text
  pub claims_exact : List (Text × Text)

pub record Match : Type 0 where
  pub jwt : Option JwtMatch

pub record Certificate : Type 0 where
  pub principals : List Text
  pub valid_for_seconds : Option ℤ
  pub key_id_template : Text
  pub extensions : Option Extensions
  pub force_command : Text
  pub source_address : List Text

pub record Rule : Type 0 where
  pub name : Text
  pub enabled : Option Bool
  pub match : Match
  pub certificate : Certificate

pub record Defaults : Type 0 where
  pub valid_after_offset_seconds : Option ℤ
  pub max_valid_for_seconds : Option ℤ
  pub allowed_public_key_types : List Text
  pub extensions : Option Extensions
  pub valid_for_seconds : Option ℤ
  pub key_id_template : Text
  pub source_address : List Text

pub record Policy : Type 0 where
  pub version : ℤ
  pub disabled : Bool
  pub defaults : Defaults
  pub rules : List Rule

-- a pointer's value, or what stands in for nil
abbrev pub get_or {ℓ} : {A : Type ℓ} → Option A → A → A
get_or none d = d
get_or (some a) d = a

abbrev pub is_none {ℓ} : {A : Type ℓ} → Option A → Bool
is_none none = true
is_none (some a) = false

unfoldable pub is_enabled : Rule → Bool
is_enabled r = get_or r.enabled true

unfoldable pub valid_after_offset_seconds : Policy → ℤ
valid_after_offset_seconds p =
    get_or p.defaults.valid_after_offset_seconds default_valid_after_offset_seconds

unfoldable pub max_valid_for_seconds : Policy → ℤ
max_valid_for_seconds p = get_or p.defaults.max_valid_for_seconds default_max_valid_for_seconds

abbrev pub nonempty_or {ℓ} : {A : Type ℓ} → List A → List A → List A
nonempty_or [] d = d
nonempty_or (x ∷ xs) d = x ∷ xs

unfoldable pub allowed_public_key_types : Policy → List Text
allowed_public_key_types p =
    nonempty_or p.defaults.allowed_public_key_types (codes "ssh-ed25519" ∷ [])

abbrev pub no_extensions : Extensions
no_extensions = record {
  permit_pty = false;
  permit_port_forwarding = false;
  permit_agent_forwarding = false;
  permit_x11_forwarding = false;
  permit_user_rc = false;
}

unfoldable pub extensions_for : Policy → Rule → Extensions
extensions_for p r = get_or r.certificate.extensions (get_or p.defaults.extensions no_extensions)

unfoldable pub valid_for_seconds_for : Policy → Rule → ℤ
valid_for_seconds_for p r =
    get_or r.certificate.valid_for_seconds (get_or p.defaults.valid_for_seconds (pos 0))

unfoldable pub key_id_template_for : Policy → Rule → Text
key_id_template_for p r = nonempty_or r.certificate.key_id_template p.defaults.key_id_template

unfoldable pub source_address_for : Policy → Rule → List Text
source_address_for p r = nonempty_or r.certificate.source_address p.defaults.source_address

abbrev issuer_of : Option JwtMatch → Text
issuer_of none = []
issuer_of (some m) = m.issuer

-- `r` adds an issuer to the result: it is enabled, has a `match.jwt`, and names an issuer that
-- `seen` lacks.
unfoldable pub adds_issuer : List Text → Rule → Bool
adds_issuer seen r =
    is_enabled r
    && not (is_none r.match.jwt)
    && not (is_empty (issuer_of r.match.jwt))
    && not (has_str seen (issuer_of r.match.jwt))

-- The loop of `Issuers`. Both `seen` and `out` hold the issuers so far, so `out` serves as both.
unfoldable pub issuers_from : List Text → List Rule → List Text
unfolding adds_issuer
issuers_from out [] = out
issuers_from out (r ∷ rs) =
    issuers_from (if adds_issuer out r then out ++ issuer_of r.match.jwt ∷ [] else out) rs

unfoldable pub issuers : Policy → List Text
unfolding issuers_from
issuers p = issuers_from [] p.rules
