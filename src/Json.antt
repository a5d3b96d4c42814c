-- ===== src/Json.antt =====
-- Decoded JSON values (`any` in the source), and the claims of a token, `map[string]any`. A number
-- is the bit pattern of its float64. A Go map is a list of its entries in the order in which one
-- run happens to visit them; `lookup` reads one entry.
use oidc_ssh_ca.Prelude.{ℕ, ◌≡◌, ◌↔◌, Bool, Option, none, some, List, [], ◌∷◌, if◌then◌else◌}
use oidc_ssh_ca.Prelude.Text.{Text, str_eq}

mutual
  pub data Json : Type 0 where
    null : Json
    bool : Bool → Json
    num : ℕ → Json
    str : Text → Json
    arr : Items → Json
    obj : Fields → Json

  pub data Items : Type 0 where
    nil : Items
    cons : Json → Items → Items

  pub data Fields : Type 0 where
    end : Fields
    field : Text → Json → Fields → Fields

abbrev pub Claims : Type 0
Claims = List (Text × Json)

unfoldable pub lookup {ℓ} : {V : Type ℓ} → Text → List (Text × V) → Option V
unfolding str_eq
lookup key [] = none
lookup key ((k, v) ∷ entries) = if str_eq k key then some v else lookup key entries

-- `v, ok := raw.(string)`
abbrev pub as_string : Json → Option Text
as_string (str s) = some s
as_string _ = none

abbrev pub string_of : Option Json → Option Text
string_of none = none
string_of (some v) = as_string v

-- `v, ok := claims[name].(string)`: not ok for an absent claim and for one of another type
unfoldable pub string_claim : Claims → Text → Option Text
unfolding lookup
string_claim claims name = string_of (lookup name claims)

string_of_sound : (o : Option Json) (s : Text) → string_of o ≡ some s → o ≡ some (str s)
string_of_sound none s h = cc
string_of_sound (some (str t)) s h = cc
string_of_sound (some null) s h = cc
string_of_sound (some (bool b)) s h = cc
string_of_sound (some (num n)) s h = cc
string_of_sound (some (arr xs)) s h = cc
string_of_sound (some (obj fs)) s h = cc

pub string_claim_iff :
    (claims : Claims) (name s : Text)
    → (string_claim claims name ≡ some s) ↔ (lookup name claims ≡ some (str s))
unfolding string_claim
string_claim_iff claims name s = (λ h. string_of_sound (lookup name claims) s h, λ h. rw h)
