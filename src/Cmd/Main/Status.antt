-- ===== src/Cmd/Main/Status.antt =====
-- When check-config, explain and print-ca-pub end with status 0.
use oidc_ssh_ca.Prelude.{
  ◌≡◌, refl, sym, ap, subst, ◌≢◌, ◌↔◌, ◌⊎◌, inl, inr, Bool, false, ◌||◌, arith, List, [], ◌∷◌,
  is_empty, not_empty_iff, Result, ok, err, Result-cases, >>=-eq-ok, >>-eq-ok, refuse,
  refuse_passed, refuse_ok, map_err, map_err_ok, >>=-ok, >>-ok, ok_map_err,
}
use oidc_ssh_ca.Prelude.Text.{Text, codes}
use oidc_ssh_ca.Policy.{Policy}
use oidc_ssh_ca.Policy.Loading.{Sources, load}
use oidc_ssh_ca.Policy.Matching.{Identity}
use oidc_ssh_ca.Issuer.CaKey.{env_key_file, env_key}
use oidc_ssh_ca.Issuer.CaKey.Sources.{OneSource}
use oidc_ssh_ca.Cmd.{Line, CommandError, bad_policy, bad_claims, Os, ran_with}
use oidc_ssh_ca.Cmd.Flags.{FlagSet, FlagError, help, parse, flag_status, string_flag, boolean_flag}
use oidc_ssh_ca.Cmd.CheckConfig.{check_config}
use oidc_ssh_ca.Cmd.CheckConfig.Warnings.{check_config-warns}
use oidc_ssh_ca.Cmd.Explain.{load_identity, report, explain_flags, explain_paths, explain_parsed}
use oidc_ssh_ca.Cmd.PrintCaPub.{print_ca_pub_flags, ca_pub_lines, print_parsed}
use oidc_ssh_ca.Cmd.PrintCaPub.Agrees.{ca_pub_lines_iff}
use oidc_ssh_ca.Cmd.Main.{process_of}

-- the only error of the flags that exits with 0
pub help_only : (why : FlagError) → (flag_status why ≡ 0) ↔ (why ≡ help)
help_only help = (λ h. refl, λ h. refl)
help_only why = (λ h. ground arith, λ h. cc)

ran_status :
    {E : Type 0} (r : Result (CommandError E) (List Line))
    → ((process_of (ran_with r)).status ≡ 0) ↔ ((lines : List Line) × (r ≡ ok lines))
ran_status (err why) = (λ h. ground arith, λ (lines, h). cc)
ran_status (ok lines) = (λ h. (lines, refl), λ h. refl)

both_given : (a b : Bool) → (a || b ≡ false) ↔ ((a ≡ false) × (b ≡ false))
both_given a b = (λ h. ground arith, λ h. ground arith)

-- check-config's single argument is a file with a policy that loads
abbrev pub Checks : {E : Type 0} → Sources E → List Text → Type 0
Checks from args = (path : Text) × (p : Policy) × (args ≡ path ∷ []) × (load from path ≡ ok p)

pub check_config_status :
    {E : Type 0} (from : Sources E) (args : List Text)
    → ((process_of (check_config from args)).status ≡ 0) ↔ Checks from args
unfolding check_config
check_config_status from [] = (λ h. ground arith, λ (path, p, one, h). cc)
check_config_status from (path ∷ []) = elim (Result-cases (load from path)) [
  | inr (why, bad) ↦ (λ h. ground (arith, rw bad at h), λ (q, p, one, h). cc (bad, h, one))
  | inl (p, good) ↦
      let (ws, all, rules, each) = check_config-warns from path p good in
      (λ h. (path, p, refl, good), λ h. subst (λ r. (process_of r).status ≡ 0) (sym all) refl)
]
check_config_status from (path ∷ more ∷ args) = (λ h. ground arith, λ (q, p, one, h). cc)

module _ {File PrivateKey PublicKey Signature E : Type 0}
    (os : Os File PrivateKey PublicKey Signature E) where
  -- a policy that loads, and a file with an identity
  abbrev pub Readable : Text → Text → Type 0
  Readable policy_path claims_path =
      (p : Policy) × (id : Identity) × (policy_path ≢ [])
      × (claims_path ≢ [])
      × (load os.policies policy_path ≡ ok p)
      × (load_identity os.policies.read_file os.decode_claims claims_path ≡ ok id)

  abbrev pub ExplainsParsed : Result FlagError (FlagSet × List Text) → Type 0
  ExplainsParsed parsed =
      (parsed ≡ err help)
      ⊎ ((flags : FlagSet) × (rest : List Text) × (parsed ≡ ok (flags, rest))
          × Readable (string_flag (codes "policy") flags) (string_flag (codes "claims") flags))

  -- explain's two flags name such files, or its help is asked for
  abbrev pub Explains : List Text → Type 0
  Explains args = ExplainsParsed (parse explain_flags args)

  explain_paths_iff :
      (a b : Text) → ((lines : List Line) × (explain_paths os a b ≡ ok lines)) ↔ Readable a b
  explain_paths_iff a b =
      let both = both_given (is_empty a) (is_empty b) in
      (
        λ (lines, h).
            let (given, h1) = >>-eq-ok (refuse (is_empty a || is_empty b) _) _ h in
            let (p, loaded, h2) = >>=-eq-ok (map_err bad_policy (load os.policies a)) _ h1 in
            let (id, read, h3) =
              >>=-eq-ok
                (map_err bad_claims (load_identity os.policies.read_file os.decode_claims b)) _
                h2 in
            let (have_a, have_b) = both.0 (refuse_passed _ _ given) in
            (
              p,
              id,
              (not_empty_iff a).0 have_a,
              (not_empty_iff b).0 have_b,
              map_err_ok _ _ loaded,
              map_err_ok _ _ read,
            ),
        λ (p, id, have_a, have_b, loaded, read). (
          report p id,
          >>-ok (refuse_ok _ (both.1 ((not_empty_iff a).1 have_a, (not_empty_iff b).1 have_b))) (
              >>=-ok _ (ok_map_err bad_policy loaded) (>>=-ok _ (ok_map_err bad_claims read) refl)),
        ),
      )

  pub explain_parsed_status :
      (parsed : Result FlagError (FlagSet × List Text))
      → ((process_of (explain_parsed os parsed)).status ≡ 0) ↔ ExplainsParsed parsed
  explain_parsed_status (err why) =
      let only = help_only why in
      (
        λ h. inl (ap err (only.0 h)),
        λ h. elim h [ inl helped ↦ only.1 (cc) | inr (flags, rest, parsed, more) ↦ cc ],
      )
  explain_parsed_status (ok (flags, rest)) =
      let paths =
        explain_paths_iff (string_flag (codes "policy") flags)
          (string_flag (codes "claims") flags) in
      let status = ran_status (
        explain_paths os (string_flag (codes "policy") flags)
          (string_flag (codes "claims") flags)) in
      (
        λ h. inr (flags, rest, refl, paths.0 (status.0 h)),
        λ h. elim h [
          | inl helped ↦ cc
          | inr (fs, others, parsed, readable) ↦
              let same : fs ≡ flags = cc in
              status.1 (
                paths.1 (
                  subst
                    (λ f.
                      Readable (string_flag (codes "policy") f) (string_flag (codes "claims") f))
                    same readable))
        ],
      )

  abbrev pub PrintsParsed : Result FlagError (FlagSet × List Text) → Type 0
  PrintsParsed parsed =
      (parsed ≡ err help)
      ⊎ ((flags : FlagSet) × (rest : List Text) × (parsed ≡ ok (flags, rest))
          × ((key : PrivateKey) × OneSource os.key_files os.key_parser
                (string_flag (codes "ca-key-file") flags) (os.getenv env_key_file)
                (os.getenv env_key) (boolean_flag (codes "skip-key-permission-check") flags) key))

  -- exactly one source holds a CA key, or the help is asked for
  abbrev pub Prints : List Text → Type 0
  Prints args = PrintsParsed (parse print_ca_pub_flags args)

  pub print_parsed_status :
      (parsed : Result FlagError (FlagSet × List Text))
      → ((process_of (print_parsed os parsed)).status ≡ 0) ↔ PrintsParsed parsed
  print_parsed_status (err why) =
      let only = help_only why in
      (
        λ h. inl (ap err (only.0 h)),
        λ h. elim h [ inl helped ↦ only.1 (cc) | inr (flags, rest, parsed, more) ↦ cc ],
      )
  print_parsed_status (ok (flags, rest)) =
      let path = string_flag (codes "ca-key-file") flags in
      let skip = boolean_flag (codes "skip-key-permission-check") flags in
      let status = ran_status (ca_pub_lines os path skip) in
      (
        λ h.
            let (lines, shown) = status.0 h in
            let (key, source, same) = (ca_pub_lines_iff os path skip lines).0 shown in
            inr (flags, rest, refl, (key, source)),
        λ h. elim h [
          | inl helped ↦ cc
          | inr (fs, others, parsed, (key, source)) ↦
              let same : fs ≡ flags = cc in
              status.1 (
                _,
                (ca_pub_lines_iff os path skip _).1 (
                  key,
                  subst
                      (λ f.
                        OneSource os.key_files os.key_parser (string_flag (codes "ca-key-file") f)
                          (os.getenv env_key_file) (os.getenv env_key)
                          (boolean_flag (codes "skip-key-permission-check") f) key)
                      same source,
                  refl,
                ),
              )
        ],
      )
