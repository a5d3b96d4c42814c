-- ===== src/Cmd/Explain.antt =====
-- cmd/oidc-ssh-ca/explain.go
pub mod Report
pub mod Payload
pub mod Foretells
use oidc_ssh_ca.Prelude.{
  ◌>>◌, ◌>>=◌, ◌||◌, Option, none, some, List, [], ◌∷◌, ◌++◌, is_empty, length, if◌then◌else◌,
  Result, ok, err, refuse, map_err,
}
use oidc_ssh_ca.Prelude.Text.{Text, codes}
use oidc_ssh_ca.Json.{Json, str, arr, Items, nil, cons, Claims, lookup, as_string, string_of}
use oidc_ssh_ca.Policy.{
  Rule, Policy, valid_for_seconds_for, source_address_for, key_id_template_for,
}
use oidc_ssh_ca.Policy.KeyId.{KeyIdError, expand_key_id}
use oidc_ssh_ca.Policy.Loading.{load}
use oidc_ssh_ca.Policy.Matching.{
  Identity, Decision, allow, multiple_rules_matched, no_rule_matched, policy_disabled, Mismatch,
  evaluate, explain_rule,
}
use oidc_ssh_ca.Policy.Matching
use oidc_ssh_ca.Issuer.Certificates.{nonempty}
use oidc_ssh_ca.Cmd.{
  Line, policy_off, matched_rule, principals_are, ttl_is, force_command_is, source_address_is,
  key_id_is, key_id_denied, several_matched, none_matched, rule_fails, ClaimsError, unread,
  unparsed, no_iss, CommandError, usage, bad_policy, bad_claims, exited, Ran, Os, ran_with,
}
use oidc_ssh_ca.Cmd.Flags.{string, FlagSet, FlagError, parse, flag_status, string_flag}

-- the text of a claim, or "" where it is no string
abbrev text_or : Option Text → Text
text_or none = []
text_or (some s) = s

abbrev keep_string : Option Text → List Text → List Text
keep_string none rest = rest
keep_string (some s) rest = s ∷ rest

-- the strings of an array, its other items dropped
unfoldable pub strings : Items → List Text
strings nil = []
strings (cons v vs) = keep_string (as_string v) (strings vs)

-- the `switch` on the type of `aud`
unfoldable pub audiences_of : Option Json → List Text
unfolding strings
audiences_of (some (str s)) = s ∷ []
audiences_of (some (arr vs)) = strings vs
audiences_of _ = []

abbrev pub identity_of : {E : Type 0} → Claims → Result (ClaimsError E) Identity
identity_of claims = do
  refuse (is_empty (text_or (string_of (lookup (codes "iss") claims)))) no_iss
  ok (record {
    issuer = text_or (string_of (lookup (codes "iss") claims));
    audiences = audiences_of (lookup (codes "aud") claims);
    claims = claims;
  })

unfoldable pub load_identity :
    {E : Type 0}
    → (Text → Result E Text)
    → (Text → Result E Claims)
    → Text
    → Result (ClaimsError E) Identity
unfolding audiences_of
load_identity read_file decode_claims path = do
  contents ← map_err unread (read_file path)
  claims ← map_err unparsed (decode_claims contents)
  identity_of claims

-- the lines of a rule that matched, up to its key ID
unfoldable pub rule_lines : Policy → Rule → List Line
rule_lines p r =
    (matched_rule r.name
      ∷ principals_are r.certificate.principals
      ∷ ttl_is (valid_for_seconds_for p r)
      ∷ [])
    ++ (if nonempty r.certificate.force_command
        then force_command_is r.certificate.force_command ∷ []
        else [])
    ++ (if nonempty (source_address_for p r)
        then source_address_is (source_address_for p r) ∷ []
        else [])

abbrev pub key_id_line : Result KeyIdError Text → Line
key_id_line (err why) = key_id_denied why
key_id_line (ok key_id) = key_id_is key_id

abbrev pub mismatch_line : Text → Option Mismatch → List Line → List Line
mismatch_line name none rest = rest
mismatch_line name (some why) rest = rule_fails name why ∷ rest

unfoldable pub mismatch_lines : List Rule → Identity → List Line
mismatch_lines [] id = []
mismatch_lines (r ∷ rs) id = mismatch_line r.name (explain_rule r id) (mismatch_lines rs id)

-- the `switch` on the decision
abbrev pub decision_lines : Policy → Identity → Decision → List Line
decision_lines p id (allow r names) =
    rule_lines p r ++ key_id_line (expand_key_id (key_id_template_for p r) id.claims) ∷ []
decision_lines p id (Matching.deny multiple_rules_matched names) =
    several_matched (length names) names ∷ []
decision_lines p id (Matching.deny policy_disabled names) = none_matched ∷ mismatch_lines p.rules id
decision_lines p id (Matching.deny no_rule_matched names) = none_matched ∷ mismatch_lines p.rules id

unfoldable pub report : Policy → Identity → List Line
unfolding mismatch_lines
report p id = if p.disabled then policy_off ∷ [] else decision_lines p id (evaluate p id)

abbrev pub explain_flags : FlagSet
explain_flags = (codes "policy", string []) ∷ (codes "claims", string []) ∷ []

module _ {File PrivateKey PublicKey Signature E : Type 0}
    (os : Os File PrivateKey PublicKey Signature E) where
  abbrev pub explain_paths : Text → Text → Result (CommandError E) (List Line)
  explain_paths policy_path claims_path = do
    refuse (is_empty policy_path || is_empty claims_path)
        (usage (codes "usage: oidc-ssh-ca explain --policy policy.yaml --claims claims.json"))
    pol ← map_err bad_policy (load os.policies policy_path)
    id ← map_err bad_claims (load_identity os.policies.read_file os.decode_claims claims_path)
    ok (report pol id)

  abbrev pub explain_parsed : Result FlagError (FlagSet × List Text) → Ran E
  explain_parsed (err why) = ([], exited (flag_status why))
  explain_parsed (ok (flags, rest)) =
      ran_with
        (explain_paths (string_flag (codes "policy") flags) (string_flag (codes "claims") flags))

  unfoldable pub explain : List Text → Ran E
  explain args = explain_parsed (parse explain_flags args)
