-- ===== src/Cmd/Flags.antt =====
-- Package flag of the standard library, as the commands use it: string and bool flags, and
-- ExitOnError. A flag set is the list of the flags with their values, at first the defaults.
use oidc_ssh_ca.Prelude.{
  ℕ, Bool, true, false, ◌||◌, Option, none, some, List, [], ◌∷◌, ◌==◌, if◌then◌else◌, Result, ok,
  err,
}
use oidc_ssh_ca.Prelude.Text.{Text, codes, str_eq, has_str, cut}
use oidc_ssh_ca.Json.{lookup}

pub data Value : Type 0 where
  string : Text → Value
  boolean : Bool → Value

abbrev pub FlagSet : Type 0
FlagSet = List (Text × Value)

pub data FlagError : Type 0 where
  help : FlagError
  bad_syntax : Text → FlagError
  not_defined needs_argument : Text → FlagError
  bad_boolean : (name value : Text) → FlagError

-- one argument, before the flags are looked up
pub data Arg : Type 0 where
  plain terminator malformed : Arg
  named : Text → Option Text → Arg

abbrev with_value : Text → Option (Text × Text) → Arg
with_value name none = named name none
with_value name (some (before, value)) = named before (some value)

-- what follows the dashes: a name, and a value behind the first `=`
abbrev named_arg : Text → Arg
named_arg [] = malformed
named_arg (n ∷ ns) =
    if n == b'-' || n == b'=' then malformed else with_value (n ∷ ns) (cut b'=' (n ∷ ns))

abbrev two_dashes : Text → Arg
two_dashes [] = terminator
two_dashes (c ∷ s) = named_arg (c ∷ s)

unfoldable pub classify : Text → Arg
unfolding cut
classify [] = plain
classify (c ∷ []) = plain
classify (c ∷ d ∷ s) =
    if c == b'-' then (if d == b'-' then two_dashes s else named_arg (d ∷ s)) else plain

-- strconv.ParseBool
unfoldable pub parse_bool : Text → Option Bool
unfolding has_str
parse_bool s =
    if has_str (codes "1" ∷ codes "t" ∷ codes "T" ∷ codes "true" ∷ codes "TRUE" ∷ codes "True" ∷ [])
      s
    then some true
    else if has_str
        (codes "0" ∷ codes "f" ∷ codes "F" ∷ codes "false" ∷ codes "FALSE" ∷ codes "False" ∷ []) s
    then some false
    else none

unfoldable pub set : Text → Value → FlagSet → FlagSet
unfolding str_eq
set name v [] = []
set name v ((k, w) ∷ flags) = if str_eq k name then (k, v) ∷ flags else (k, w) ∷ set name v flags

-- what to do with one argument: set a flag, wait for the next argument, or stop
pub data Action : Type 0 where
  assign : Text → Value → Action
  await : Text → Action
  stop_before stop_after : Action
  refuse_with : FlagError → Action

abbrev boolean_action : Text → Text → Option Bool → Action
boolean_action name value none = refuse_with (bad_boolean name value)
boolean_action name value (some b) = assign name (boolean b)

abbrev known_action : Text → Value → Option Text → Action
known_action name (boolean b) none = assign name (boolean true)
known_action name (boolean b) (some value) = boolean_action name value (parse_bool value)
known_action name (string s) none = await name
known_action name (string s) (some value) = assign name (string value)

abbrev named_action : Text → Option Text → Option Value → Action
named_action name value none =
    if str_eq name (codes "help") || str_eq name (codes "h")
    then refuse_with help
    else refuse_with (not_defined name)
named_action name value (some v) = known_action name v value

abbrev action : FlagSet → Text → Arg → Action
action flags arg plain = stop_before
action flags arg terminator = stop_after
action flags arg malformed = refuse_with (bad_syntax arg)
action flags arg (named name value) = named_action name value (lookup name flags)

-- The loop of FlagSet.Parse: the flags, and the arguments that are left. `waiting` is the string flag
-- whose value is the next argument.
unfoldable pub parse_from :
    Option Text → FlagSet → List Text → Result FlagError (FlagSet × List Text)
parse_from none flags [] = ok (flags, [])
parse_from (some name) flags [] = err (needs_argument name)
parse_from (some name) flags (arg ∷ args) = parse_from none (set name (string arg) flags) args
parse_from none flags (arg ∷ args) = elim (action flags arg (classify arg)) [
  | assign name v ↦ parse_from none (set name v flags) args
  | await name ↦ parse_from (some name) flags args
  | stop_before ↦ ok (flags, arg ∷ args)
  | stop_after ↦ ok (flags, args)
  | refuse_with why ↦ err why
]

unfoldable pub parse : FlagSet → List Text → Result FlagError (FlagSet × List Text)
unfolding parse_from classify parse_bool set lookup
parse flags args = parse_from none flags args

-- the status of the exit under ExitOnError
abbrev pub flag_status : FlagError → ℕ
flag_status help = 0
flag_status _ = 2

abbrev string_or : Option Value → Text
string_or (some (string s)) = s
string_or _ = []

abbrev boolean_or : Option Value → Bool
boolean_or (some (boolean b)) = b
boolean_or _ = false

-- `*fs.String(...)` and `*fs.Bool(...)` after the parse
unfoldable pub string_flag : Text → FlagSet → Text
unfolding lookup
string_flag name flags = string_or (lookup name flags)

unfoldable pub boolean_flag : Text → FlagSet → Bool
unfolding lookup
boolean_flag name flags = boolean_or (lookup name flags)
