-- ===== src/Cmd/PrintCaPub/Agrees.antt =====
-- The key that print-ca-pub prints, and the one that the server hands out.
use oidc_ssh_ca.Prelude.{
  ◌≡◌, refl, sym, subst, ◌↔◌, Bool, List, [], ◌∷◌, Result, ok, >>=-eq-ok, map_err, map_err_ok,
  >>=-ok, ok_map_err,
}
use oidc_ssh_ca.Prelude.Text.{Text, codes, str_eq}
use oidc_ssh_ca.Issuer.CaKey.{env_key_file, env_key, load_ca_key}
use oidc_ssh_ca.Issuer.CaKey.Sources.{OneSource, load_ca_key_iff}
use oidc_ssh_ca.Server.{Verifier}
use oidc_ssh_ca.Server.Http.{written, handle_ca_pub}
use oidc_ssh_ca.Cmd.{Line, public_key_line, CommandError, bad_ca_key, done, Os, ran_with}
use oidc_ssh_ca.Cmd.Flags.{FlagSet, parse, string_flag, boolean_flag}
use oidc_ssh_ca.Cmd.Start.{Options, signer_of, launch}
use oidc_ssh_ca.Cmd.Start.Launches.{launch_iff}
use oidc_ssh_ca.Cmd.PrintCaPub.{print_ca_pub_flags, ca_pub_lines, print_parsed, print_ca_pub}
use oidc_ssh_ca.Serve.Remote.{RemoteState}

module _ {File PrivateKey PublicKey Signature E : Type 0}
    (os : Os File PrivateKey PublicKey Signature E) where
  pub ca_pub_lines_iff :
      (path : Text) (skip : Bool) (lines : List Line)
      → (ca_pub_lines os path skip ≡ ok lines) ↔ (
          (key : PrivateKey) × OneSource os.key_files os.key_parser path
            (os.getenv env_key_file)
            (os.getenv env_key)
            skip
            key
          × (lines ≡ public_key_line (os.packages.marshal_key (signer_of os key).public_key) ∷ []))
  unfolding ca_pub_lines
  ca_pub_lines_iff path skip lines = (
    λ h.
        let (key, found, shown) =
          >>=-eq-ok
            (map_err bad_ca_key (load_ca_key os.key_files os.key_parser os.getenv path skip)) _ h in
        (
          key,
          (load_ca_key_iff os.key_files os.key_parser os.getenv path skip key).0
              (map_err_ok _ _ found),
          cc,
        ),
    λ (key, source, shown).
        >>=-ok _
          (ok_map_err bad_ca_key
            ((load_ca_key_iff os.key_files os.key_parser os.getenv path skip key).1 source))
          (cc (shown)),
  )

  same_source :
      {path file : Text} {skip flag : Bool} {key : PrivateKey}
      → file ≡ path
      → flag ≡ skip
      → OneSource os.key_files os.key_parser path
          (os.getenv env_key_file)
          (os.getenv env_key)
          skip
          key
      → OneSource os.key_files os.key_parser file
          (os.getenv env_key_file)
          (os.getenv env_key)
          flag
          key
  same_source same_file same_flag source = rw (same_file, same_flag) source

  printed :
      {r : Result (CommandError E) (List Line)} {lines : List Line}
      → r ≡ ok lines
      → ran_with r ≡ (lines, done)
  printed h = rw h refl

  -- Where a server starts, print-ca-pub with the same flags for the CA key prints the public key that
  -- the server answers GET /ca-public-key with.
  pub print_ca_pub-handle_ca_pub :
      {Provider S V : Type 0} (args serve_args : List Text) (flags : FlagSet) (rest : List Text)
      (o : Options) (key : PrivateKey) (st : RemoteState Provider E) (verifier : Verifier S V)
      → launch os serve_args ≡ ok (o, key, st)
      → parse print_ca_pub_flags args ≡ ok (flags, rest)
      → string_flag (codes "ca-key-file") flags ≡ o.ca_key_file
      → boolean_flag (codes "skip-key-permission-check") flags ≡ o.skip_key_perm_check
      → (public_key : Text) × (print_ca_pub os args ≡ (public_key_line public_key ∷ [], done))
        × (handle_ca_pub os.packages
              (record { signer = signer_of os key; verifier = verifier })
              (codes "GET")
            ≡ written 200
                ((codes "Content-Type", codes "text/plain; charset=utf-8") ∷ [])
                public_key)
  unfolding print_ca_pub handle_ca_pub str_eq
  print_ca_pub-handle_ca_pub args serve_args flags rest o key st verifier launched parsed same_file
        same_flag =
      let s = ((launch_iff os serve_args o key st).0 launched).1 in
      let lines = public_key_line (os.packages.marshal_key (signer_of os key).public_key) ∷ [] in
      (
        os.packages.marshal_key (signer_of os key).public_key,
        subst (λ r. print_parsed os r ≡ (lines, done)) (sym parsed)
            (printed (
              (ca_pub_lines_iff (string_flag (codes "ca-key-file") flags)
                  (boolean_flag (codes "skip-key-permission-check") flags) lines).1
                (key, same_source same_file same_flag s.one_source, refl))),
        refl,
      )
