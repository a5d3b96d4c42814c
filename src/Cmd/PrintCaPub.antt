-- ===== src/Cmd/PrintCaPub.antt =====
-- cmd/oidc-ssh-ca/printcapub.go
pub mod Agrees
use oidc_ssh_ca.Prelude.{◌>>=◌, Bool, false, List, [], ◌∷◌, Result, ok, err, map_err}
use oidc_ssh_ca.Prelude.Text.{Text, codes}
use oidc_ssh_ca.Issuer.CaKey.{load_ca_key}
use oidc_ssh_ca.Cmd.{Line, public_key_line, CommandError, bad_ca_key, exited, Ran, Os, ran_with}
use oidc_ssh_ca.Cmd.Flags.{
  string, boolean, FlagSet, FlagError, parse, flag_status, string_flag, boolean_flag,
}
use oidc_ssh_ca.Cmd.Start.{signer_of}

abbrev pub print_ca_pub_flags : FlagSet
print_ca_pub_flags =
    (codes "ca-key-file", string []) ∷ (codes "skip-key-permission-check", boolean false) ∷ []

module _ {File PrivateKey PublicKey Signature E : Type 0}
    (os : Os File PrivateKey PublicKey Signature E) where
  unfoldable pub ca_pub_lines : Text → Bool → Result (CommandError E) (List Line)
  ca_pub_lines ca_key_file skip_key_perm_check = do
    key ←
        map_err bad_ca_key
          (load_ca_key os.key_files os.key_parser os.getenv ca_key_file skip_key_perm_check)
    ok (public_key_line (os.packages.marshal_key (signer_of os key).public_key) ∷ [])

  abbrev pub print_parsed : Result FlagError (FlagSet × List Text) → Ran E
  print_parsed (err why) = ([], exited (flag_status why))
  print_parsed (ok (flags, rest)) = ran_with (
      ca_pub_lines (string_flag (codes "ca-key-file") flags)
        (boolean_flag (codes "skip-key-permission-check") flags))

  unfoldable pub print_ca_pub : List Text → Ran E
  print_ca_pub args = print_parsed (parse print_ca_pub_flags args)
