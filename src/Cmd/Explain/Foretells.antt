-- ===== src/Cmd/Explain/Foretells.antt =====
-- What explain prints for the claims of a token that the server accepted.
use oidc_ssh_ca.Prelude.{
  ℕ, ◌≡◌, refl, sym, subst, ◌≢◌, some, List, [], ◌∷◌, ◌++◌, not_empty_iff, ok, >>=-ok, >>-ok,
  refuse_ok, ok_map_err,
}
use oidc_ssh_ca.Prelude.Text.{Text, codes, str_eq, has_str, cut}
use oidc_ssh_ca.Prelude.Int.{ℤ}
use oidc_ssh_ca.Json.{str, Claims, lookup, string_of}
use oidc_ssh_ca.Policy.{Policy, issuers}
use oidc_ssh_ca.Policy.Loading.{load, load_iff}
use oidc_ssh_ca.Policy.Issuers.{issuers_iff, Grants-Listed}
use oidc_ssh_ca.Policy.Matching.{Identity, evaluate}
use oidc_ssh_ca.Policy.Matching.Decisions.{evaluate-allow_iff}
use oidc_ssh_ca.Oidc.Verify.{Library}
use oidc_ssh_ca.Oidc.Verify.Sound.{Verified}
use oidc_ssh_ca.Server.{Server, State, Draws}
use oidc_ssh_ca.Server.Sign.Issuance.{Issuance}
use oidc_ssh_ca.Cmd.{Line, key_id_is, bad_policy, bad_claims, unread, unparsed, done, Os}
use oidc_ssh_ca.Cmd.Flags.{string_flag, classify, parse_bool, set, parse_from, parse}
use oidc_ssh_ca.Cmd.Explain.{
  audiences_of, identity_of, load_identity, rule_lines, report, explain_paths, explain,
}
use oidc_ssh_ca.Serve.Remote.Keeps.{rule-IsValidRule, rule-Member}
use oidc_ssh_ca.Cmd.Explain.Payload.{
  Audience, OneSpelling, ReadsClaims, audiences_of-Listed, with_audiences, Only-with_audiences,
}
use oidc_ssh_ca.Cmd.Explain.Report.{granted_report}

identity_of-claims :
    {E : Type 0} (issuer : Text) (audiences : List Text) (claims : Claims)
    → issuer ≢ []
    → string_of (lookup (codes "iss") claims) ≡ some issuer
    → audiences_of (lookup (codes "aud") claims) ≡ audiences
    → identity_of {E = E} claims
      ≡ ok (record { issuer = issuer; audiences = audiences; claims = claims })
identity_of-claims issuer audiences claims ne iss aud =
    rw (iss, aud, (not_empty_iff issuer).1 ne) refl

abbrev pub explain_args : Text → Text → List Text
explain_args policy_path claims_path =
    codes "--policy" ∷ policy_path ∷ codes "--claims" ∷ claims_path ∷ []

module _ {File PrivateKey PublicKey Signature E : Type 0}
    (os : Os File PrivateKey PublicKey Signature E) where
  read_report :
      (policy_path claims_path contents : Text) (pol : Policy) (id : Identity)
      → policy_path ≢ []
      → claims_path ≢ []
      → load os.policies policy_path ≡ ok pol
      → os.policies.read_file claims_path ≡ ok contents
      → os.decode_claims contents ≡ ok id.claims
      → identity_of {E = E} id.claims ≡ ok id
      → explain_paths os policy_path claims_path ≡ ok (report pol id)
  unfolding load_identity
  read_report policy_path claims_path contents pol id ne_p ne_c loaded read decoded made =
      >>-ok
        (refuse_ok _
          (rw ((not_empty_iff policy_path).1 ne_p, (not_empty_iff claims_path).1 ne_c) refl))
        (>>=-ok _ (ok_map_err bad_policy loaded) (
          >>=-ok _
            (ok_map_err bad_claims
              (>>=-ok _ (ok_map_err unread read) (>>=-ok _ (ok_map_err unparsed decoded) made)))
            refl))

  explain_printed :
      (policy_path claims_path : Text) (lines : List Line)
      → explain_paths os policy_path claims_path ≡ ok lines
      → explain os (explain_args policy_path claims_path) ≡ (lines, done)
  unfolding explain parse parse_from classify parse_bool set string_flag lookup str_eq has_str cut
  explain_printed policy_path claims_path lines h = rw h refl

  -- Of a request that passed every check, under a valid policy, with a token that was verified and
  -- whose `iss` is a string: given the active policy and the token's claims as files, explain prints the
  -- rule under which the server issues, with what it grants, and the key ID of the certificate. The
  -- hypotheses are that go-oidc decodes the token's issuer and audience from the same payload, and that
  -- no other name in it is taken for one of these.
  pub explain-Issuance :
      {Provider S V : Type 0} (Folds : Text → Text → Type 0) (unrepresentable : ℕ → ℤ)
      (lib : Library Provider E) (IsFor : Text → Provider → Type 0)
      (srv : Server PublicKey Signature S V E) (draws : Draws E) (method auth_header body : Text)
      (st : State S V E) (out : Text) (now : ℤ) (policy_path claims_path contents iss : Text)
      → ReadsClaims Folds lib
      → (i : Issuance os.packages srv draws method auth_header body st out)
      → Verified unrepresentable lib IsFor i.raw_token (issuers st.policy) now i.id
      → OneSpelling Folds i.id.claims
      → lookup (codes "iss") i.id.claims ≡ some (str iss)
      → policy_path ≢ []
      → claims_path ≢ []
      → load os.policies policy_path ≡ ok st.policy
      → os.policies.read_file claims_path ≡ ok contents
      → os.decode_claims contents ≡ ok i.id.claims
      → explain os (explain_args policy_path claims_path)
        ≡ (rule_lines st.policy i.rule ++ key_id_is i.key_id ∷ [], done)
  unfolding report
  explain-Issuance Folds unrepresentable lib IsFor srv draws method auth_header body st out now
        policy_path claims_path contents iss reads i v once has_iss ne_p ne_c loaded read decoded =
      let (same_iss, audience) =
        reads v.signer i.raw_token v.token i.id.claims iss v.signed v.same_claims once has_iss in
      let found = audiences_of (lookup (codes "aud") i.id.claims) in
      let id = with_audiences i.id found in
      let valid = ((load_iff os.policies policy_path st.policy).0 loaded).4 in
      let listed =
        Grants-Listed st.policy i.id i.rule (rule-IsValidRule st.policy i.id i.rule valid i.matched)
          (rule-Member i.id st.policy.rules i.rule i.matched) i.matched.grants in
      let (r, member, (_, _, ne)) = ((issuers_iff st.policy).1 i.id.issuer).0 listed in
      let made : identity_of {E = E} i.id.claims ≡ ok id =
        identity_of-claims i.id.issuer found i.id.claims ne
          (rw has_iss (cc (same_iss, v.same_issuer))) refl in
      let only =
        Only-with_audiences st.policy i.id found i.rule
          (λ a h.
            audiences_of-Listed a (lookup (codes "aud") i.id.claims) i.id.audiences
              (subst (Audience _) (sym v.same_audiences) audience) h)
          valid.rules i.matched in
      let granted =
        granted_report st.policy id i.rule i.key_id st.policy.disabled (evaluate st.policy id)
          i.enabled
          ((evaluate-allow_iff st.policy id i.rule (i.rule.name ∷ [])).1 (i.enabled, only, refl))
          i.expanded in
      explain_printed policy_path claims_path _ (
        subst (λ ls. explain_paths os policy_path claims_path ≡ ok ls) granted
          (read_report policy_path claims_path contents st.policy id ne_p ne_c loaded read decoded
            made))
