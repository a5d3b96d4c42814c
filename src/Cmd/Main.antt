-- ===== src/Cmd/Main.antt =====
-- cmd/oidc-ssh-ca/main.go: the dispatch on the first argument and the exit status. Lines go to standard
-- output and error alike; an error is shown apart.
pub mod Status
pub mod Exit
use oidc_ssh_ca.Prelude.{ℕ, Option, none, some, List, [], ◌∷◌, if◌then◌else◌}
use oidc_ssh_ca.Prelude.Text.{Text, codes, str_eq, has_str}
use oidc_ssh_ca.Cmd.{
  Line, version_is, usage_text, unknown_command, CommandError, Ending, done, panicked, failed,
  exited, Ran, Os,
}
use oidc_ssh_ca.Cmd.CheckConfig.{check_config}
use oidc_ssh_ca.Cmd.Explain.{explain}
use oidc_ssh_ca.Cmd.Start.{version, Options, End, serve}
use oidc_ssh_ca.Serve.Remote.{RemoteState}
use oidc_ssh_ca.Cmd.PrintCaPub.{print_ca_pub}

-- what a run of the program shows, and its exit status; a panic ends with status 2
pub record Process (E : Type 0) : Type 0 where
  pub lines : List Line
  pub error : Option (CommandError E)
  pub status : ℕ

abbrev pub process : {E : Type 0} → List Line → Ending E → Process E
process lines done = record { lines = lines; error = none; status = 0 }
process lines panicked = record { lines = lines; error = none; status = 2 }
process lines (failed why) = record { lines = lines; error = some why; status = 1 }
process lines (exited status) = record { lines = lines; error = none; status = status }

abbrev pub process_of : {E : Type 0} → Ran E → Process E
process_of (lines, ending) = process lines ending

module _ {File PrivateKey PublicKey Signature Provider E : Type 0}
    (os : Os File PrivateKey PublicKey Signature E)
    (life : Options × PrivateKey × RemoteState Provider E → RemoteState Provider E × End E) where
  -- the `switch` on os.Args[1]
  unfoldable pub command : Text → List Text → Ran E
  unfolding str_eq
  command name args =
      if str_eq name (codes "serve")
      then ([], (serve os life args).1)
      else if str_eq name (codes "check-config")
      then check_config os.policies args
      else if str_eq name (codes "explain")
      then explain os args
      else if str_eq name (codes "print-ca-pub")
      then print_ca_pub os args
      else if has_str (codes "version" ∷ codes "--version" ∷ codes "-v" ∷ codes "-V" ∷ []) name
      then (version_is version ∷ [], done)
      else if has_str (codes "help" ∷ codes "--help" ∷ codes "-h" ∷ []) name
      then (usage_text ∷ [], done)
      else (unknown_command name ∷ usage_text ∷ [], exited 2)

  -- os.Args without the program's name
  unfoldable pub main : List Text → Process E
  main [] = process_of (usage_text ∷ [], exited 2)
  main (name ∷ args) = process_of (command name args)
