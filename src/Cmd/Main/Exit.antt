-- ===== src/Cmd/Main/Exit.antt =====
-- When the program's exit status is 0, for each command.
use oidc_ssh_ca.Prelude.{
  none, some, ◌≡◌, refl, ap, subst, ◌↔◌, ◌⊎◌, inl, inr, arith, List, [], ◌∷◌, Result, ok, err,
}
use oidc_ssh_ca.Prelude.Text.{Text, codes, str_eq}
use oidc_ssh_ca.Cmd.{CommandError, Os}
use oidc_ssh_ca.Cmd.Flags.{FlagError, help, parse}
use oidc_ssh_ca.Cmd.Explain.{explain_flags, explain}
use oidc_ssh_ca.Cmd.PrintCaPub.{print_ca_pub_flags, print_ca_pub}
use oidc_ssh_ca.Serve.Remote.{RemoteState}
use oidc_ssh_ca.Cmd.Start.{
  Options, End, listener_ended, stopped, serve_options, end_with, start, with_options,
  launch_parsed, launch, lives, serve,
}
use oidc_ssh_ca.Cmd.Main.{process, command, main}
use oidc_ssh_ca.Cmd.Main.Status.{
  help_only, Checks, check_config_status, Explains, explain_parsed_status, Prints,
  print_parsed_status,
}

module _ {File PrivateKey PublicKey Signature E : Type 0}
    (os : Os File PrivateKey PublicKey Signature E) where
  module _ {Provider : Type 0}
      (life : Options × PrivateKey × RemoteState Provider E → RemoteState Provider E × End E) where
    abbrev pub ServesParsed : Result FlagError Options → Type 0
    ServesParsed parsed =
        (parsed ≡ err help)
        ⊎ ((o : Options) × (key : PrivateKey) × (st : RemoteState Provider E) × (signal : Text)
            × (launch_parsed os parsed ≡ ok (o, key, st))
            × ((life (o, key, st)).1 ≡ stopped signal none))

    -- the server starts, and a signal ends it without an error; or the help is asked for
    abbrev pub ServesWell : List Text → Type 0
    ServesWell args = ServesParsed (serve_options args)

    end_status :
        (ending : End E) (st : RemoteState Provider E)
        → ((process [] (end_with ending st).1).status ≡ 0)
          ↔ ((signal : Text) × (ending ≡ stopped signal none))
    unfolding end_with
    end_status (listener_ended why) st = (λ h. ground arith, λ (signal, h). cc)
    end_status (stopped signal none) st = (λ h. (signal, refl), λ h. refl)
    end_status (stopped signal (some why)) st = (λ h. ground arith, λ (s, h). cc)

    started_status :
        (o : Options) (r : Result (CommandError E) (PrivateKey × RemoteState Provider E))
        → ((process [] (lives os life (with_options os o r)).1).status ≡ 0) ↔ (
            (p : Options) × (key : PrivateKey) × (st : RemoteState Provider E) × (signal : Text)
            × (with_options os o r ≡ ok (p, key, st))
            × ((life (p, key, st)).1 ≡ stopped signal none))
    started_status o (err why) = (λ h. ground arith, λ (p, key, st, signal, h, ended). cc)
    started_status o (ok (key, st)) =
        let status = end_status (life (o, key, st)).1 (life (o, key, st)).0 in
        (
          λ h. let (signal, ended) = status.0 h in (o, key, st, signal, refl, ended),
          λ (p, k, s, signal, same, ended).
              let eq : Path (Options × PrivateKey × RemoteState Provider E) (p, k, s) (o, key, st) =
                cc in
              status.1 (signal, subst (λ l. (life l).1 ≡ stopped signal none) eq ended),
        )

    serve_status :
        (parsed : Result FlagError Options)
        → ((process [] (lives os life (launch_parsed os parsed)).1).status ≡ 0)
          ↔ ServesParsed parsed
    serve_status (err why) =
        let only = help_only why in
        (
          λ h. inl (ap err (only.0 h)),
          λ h. elim h [ inl helped ↦ only.1 (cc) | inr (o, key, st, signal, launched, ended) ↦ cc ],
        )
    serve_status (ok o) =
        let status = started_status o (start os o) in
        (λ h. inr (status.0 h), λ h. elim h [ inl helped ↦ cc | inr s ↦ status.1 s ])

    -- The exit status is 0 exactly when: for serve, the server starts and a signal ends it, with no
    -- error of the shutdown, or its flags call for help; for check-config, its arguments are one file,
    -- with a policy that loads; for explain, its flags name a policy that loads and a claims file that
    -- gives an identity, or call for help; for print-ca-pub, exactly one source of a CA key is set, one
    -- that can be used, or its flags call for help.
    pub main-Succeeds :
        (args : List Text)
        → (((main os life (codes "serve" ∷ args)).status ≡ 0) ↔ ServesWell args)
          × (((main os life (codes "check-config" ∷ args)).status ≡ 0) ↔ Checks os.policies args)
          × (((main os life (codes "explain" ∷ args)).status ≡ 0) ↔ Explains os args)
          × (((main os life (codes "print-ca-pub" ∷ args)).status ≡ 0) ↔ Prints os args)
    unfolding main command serve launch explain print_ca_pub str_eq
    main-Succeeds args = (
      serve_status (serve_options args),
      check_config_status os.policies args,
      explain_parsed_status os (parse explain_flags args),
      print_parsed_status os (parse print_ca_pub_flags args),
    )
