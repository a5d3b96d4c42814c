-- ===== src/Cmd/Start/CommandLine.antt =====
-- The command line that stands for given options of serve.
use oidc_ssh_ca.Prelude.{◌≡◌, refl, Bool, true, false, List, [], ◌∷◌, ◌++◌, ok}
use oidc_ssh_ca.Prelude.Text.{Text, codes, str_eq, has_str, cut}
use oidc_ssh_ca.Json.{lookup}
use oidc_ssh_ca.Cmd.Flags.{classify, parse_bool, set, parse_from, parse, string_flag, boolean_flag}
use oidc_ssh_ca.Cmd.Start.{Options, serve_options}

-- the four ways to write a flag with a value: `-name value`, `--name value`, `-name=value` and
-- `--name=value`
pub data Style : Type 0 where
  short short_joined long long_joined : Style

unfoldable pub spell : Style → Text → Text → List Text
spell short name value = (b'-' ∷ name) ∷ value ∷ []
spell long name value = (b'-' ∷ b'-' ∷ name) ∷ value ∷ []
spell short_joined name value = (b'-' ∷ name ++ b'=' ∷ value) ∷ []
spell long_joined name value = (b'-' ∷ b'-' ∷ name ++ b'=' ∷ value) ∷ []

-- a flag of bool type takes no value from the next argument
abbrev pub switch : Bool → List Text
switch true = codes "--skip-key-permission-check" ∷ []
switch false = codes "--skip-key-permission-check=false" ∷ []

unfoldable pub command_line : Style → Options → List Text
command_line style o =
    spell style (codes "config") o.config_path
    ++ spell style (codes "listen") o.listen
    ++ spell style (codes "ca-key-file") o.ca_key_file
    ++ switch o.skip_key_perm_check

with_switch :
    (style : Style) (config listen file : Text) (skip : Bool)
    → let o : Options = record {
      config_path = config;
      listen = listen;
      ca_key_file = file;
      skip_key_perm_check = skip;
    } in
      serve_options (command_line style o) ≡ ok o
unfolding command_line spell serve_options parse parse_from classify parse_bool set string_flag
    boolean_flag lookup str_eq has_str cut
with_switch short config listen file true = refl
with_switch short config listen file false = refl
with_switch long config listen file true = refl
with_switch long config listen file false = refl
with_switch short_joined config listen file true = refl
with_switch short_joined config listen file false = refl
with_switch long_joined config listen file true = refl
with_switch long_joined config listen file false = refl

-- The options of serve survive the command line, in every style and with every value: one that is
-- empty, has a `=` in it, or looks like a flag.
pub serve_options-command_line :
    (style : Style) (o : Options) → serve_options (command_line style o) ≡ ok o
serve_options-command_line style o =
    with_switch style o.config_path o.listen o.ca_key_file o.skip_key_perm_check
