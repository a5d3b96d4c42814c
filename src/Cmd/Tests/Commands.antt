-- ===== src/Cmd/Tests/Commands.antt =====
-- The other commands beside that server.
use oidc_ssh_ca.Prelude.{
  inl, inr, ap, ◌∙◌, Option, ltb, ◌&&◌, ◌+◌, if◌then◌else◌, ◌≢◌, sym, subst, Result, ℕ, ◌++◌,
  Member, ◌≡◌, ◌↔◌, refl, false, none, some, List, [], ◌∷◌, ok,
}
use oidc_ssh_ca.Prelude.Int.{ℤ}
use oidc_ssh_ca.Oidc.Provider.{Remote, Call}
use oidc_ssh_ca.Oidc.Verify.{unverified_issuer, Token}
use oidc_ssh_ca.Server.{bearer_prefix, Response, new_state}
use oidc_ssh_ca.Serve.Remote.{remote_server, launched, with_policy, RemoteState}
use oidc_ssh_ca.Serve.Remote.Unnamed.{sign-Unnamed}
use oidc_ssh_ca.Prelude.Text.{Listed, Text, codes}
use oidc_ssh_ca.Json.{Json, str, Claims, lookup}
use oidc_ssh_ca.Policy.{Rule, JwtMatch, issuers}
use oidc_ssh_ca.Policy.Loading.{load}
use oidc_ssh_ca.Policy.Validation.Valid.{Distinct, IsValidRule}
use oidc_ssh_ca.Policy.Issuers.{Names, issuers_iff}
use oidc_ssh_ca.Oidc.Verify.Sound.{Verified}
use oidc_ssh_ca.Oidc.Verify.Tests.{
  claims, identity, decoders, lib, only_idp, call, now, open_value, IsForIdp, checks,
}
use oidc_ssh_ca.Server.Sign.Issuance.{Issuance}
use oidc_ssh_ca.Server.Tests.{packages, draws, key}
use oidc_ssh_ca.Server.Http.{written, handle_ca_pub}
use oidc_ssh_ca.Cmd.{Line, warning, public_key_line, key_id_is, Warning, done}
use oidc_ssh_ca.Cmd.Start.{Options, signer_of, End, stopped}
use oidc_ssh_ca.Server.Sign.{sign}
use oidc_ssh_ca.Cmd.Flags.{string_flag, boolean_flag}
use oidc_ssh_ca.Cmd.Flags
use oidc_ssh_ca.Cmd.Start.Launches.{launch-Verified}
use oidc_ssh_ca.Cmd.CheckConfig.{rule_line, check_config}
use oidc_ssh_ca.Cmd.CheckConfig.Warnings.{WarnedOf, check_config-warns}
use oidc_ssh_ca.Cmd.Explain.{rule_lines, report, explain}
use oidc_ssh_ca.Cmd.Explain.Report.{Reports, report-Reports}
use oidc_ssh_ca.Cmd.Explain.Payload.{Audience, many, no_items, text_item, OneSpelling, ReadsClaims}
use oidc_ssh_ca.Cmd.Explain.Foretells.{explain_args, explain-Issuance}
use oidc_ssh_ca.Cmd.PrintCaPub.{print_ca_pub_flags, print_ca_pub}
use oidc_ssh_ca.Cmd.PrintCaPub.Agrees.{print_ca_pub-handle_ca_pub}
use oidc_ssh_ca.Cmd.Main.{main}
use oidc_ssh_ca.Cmd.Main.Status.{Checks, Explains, Prints}
use oidc_ssh_ca.Cmd.Main.Exit.{ServesWell, main-Succeeds}
use oidc_ssh_ca.Cmd.Tests.{
  running, policy, policies, os, config, serve_args, options, first, bearer, World, discovers,
  loads, launches, granted, server,
}

issuers_iff_example :
    Distinct (issuers policy)
    × ((i : Text) → Listed i (issuers policy) ↔ ((r : Rule) × Member r policy.rules × Names r i))
issuers_iff_example = issuers_iff policy

check_config-warns_example :
    (lines : List Line) × (check_config policies (config ∷ []) ≡ (lines, done))
    × ((r : Rule) → Member r policy.rules → Member (rule_line policy r) lines)
    × ((w : Warning)
        → Member (warning w) lines ↔ ((r : Rule) × Member r policy.rules × WarnedOf policy r w))
check_config-warns_example = check_config-warns policies config policy loads

report-Reports_example : Reports policy identity (report policy identity)
report-Reports_example = report-Reports policy identity

served :
    (i : Issuance packages server draws (codes "POST") bearer key first (codes "deployci"))
    × Verified open_value lib IsForIdp i.raw_token (issuers policy) now i.id
    × Listed i.id.issuer (issuers policy)
    × IsValidRule policy i.rule
unfolding new_state
served =
    launch-Verified os open_value decoders lib World IsForIdp checks discovers serve_args options 5
      first first first launches launched launched only_idp call now draws (codes "POST") bearer key
      (codes "deployci") refl granted

abbrev token : Token ℕ
token = record {
  issuer = codes "idp";
  audience = codes "other" ∷ codes "ca" ∷ [];
  claims = ok claims;
}

same_token : {s t : Token ℕ} → Path (Result ℕ (Token ℕ)) (ok s) (ok t) → s ≡ t
same_token h = cc

same_claims : {cs ds : Claims} → Path (Result ℕ Claims) (ok cs) (ok ds) → cs ≡ ds
same_claims h = cc

abbrev lower_byte : ℕ → ℕ
lower_byte c = if ltb 64 c && ltb c 91 then c + 32 else c

-- names that are the same in lower case
lower : Text → Text
lower [] = []
lower (c ∷ s) = lower_byte c ∷ lower s

abbrev Folds : Text → Text → Type 0
Folds a b = lower a ≡ lower b

once : OneSpelling Folds claims
unfolding lower
once = ((λ h. refl, λ h. cc), ((λ h. cc, λ h. refl), ((λ h. cc, λ h. cc), tt)))

abbrev ReadsTo : Token ℕ → Claims → Type 0
ReadsTo t cs =
    (iss : Text)
    → lookup (codes "iss") cs ≡ some (str iss)
    → (t.issuer ≡ iss) × Audience (lookup (codes "aud") cs) t.audience

same_iss : {s t : Text} → Path (Option Json) (some (str s)) (some (str t)) → s ≡ t
same_iss h = cc

token_reads : ReadsTo token claims
unfolding running
token_reads iss h = (same_iss h, many (text_item (codes "other") (text_item (codes "ca") no_items)))

reads : ReadsClaims Folds lib
reads p raw t cs iss signed same spelt has =
    let eq : token ≡ t = same_token signed in
    let eq_claims : claims ≡ cs = same_claims (subst (λ s. s.claims ≡ ok cs) (sym eq) same) in
    subst (λ s. ReadsTo s cs) eq (subst (ReadsTo token) eq_claims token_reads) iss has

abbrev claims_path : Text
claims_path = codes "claims.json"

claims_served : os.decode_claims (codes "version: 1") ≡ ok served.0.id.claims
claims_served =
    subst (λ t. t.claims ≡ ok served.0.id.claims) (sym (same_token served.1.signed))
      served.1.same_claims

claims_same : claims ≡ served.0.id.claims
claims_same = same_claims claims_served

once_served : OneSpelling Folds served.0.id.claims
once_served = subst (OneSpelling Folds) claims_same once

named : lookup (codes "iss") claims ≡ some (str (codes "idp"))
unfolding running
named = refl

named_served : lookup (codes "iss") served.0.id.claims ≡ some (str (codes "idp"))
named_served = subst (λ cs. lookup (codes "iss") cs ≡ some (str (codes "idp"))) claims_same named

first_policy : load policies config ≡ ok first.policy
unfolding new_state
first_policy = loads

not_nil : {c : ℕ} {s : Text} → (c ∷ s) ≢ []
not_nil h = cc

explain-Issuance_example :
    explain os (explain_args config claims_path)
    ≡ (rule_lines first.policy served.0.rule ++ key_id_is served.0.key_id ∷ [], done)
unfolding new_state
explain-Issuance_example =
    explain-Issuance os Folds open_value lib IsForIdp server draws (codes "POST") bearer key first
      (codes "deployci") now config claims_path (codes "version: 1") (codes "idp") reads served.0
      served.1 once_served named_served not_nil not_nil first_policy refl claims_served

abbrev no_args : List Text
no_args = []

parsed : Flags.parse print_ca_pub_flags no_args ≡ ok (print_ca_pub_flags, [])
unfolding running
parsed = refl

same_file : string_flag (codes "ca-key-file") print_ca_pub_flags ≡ []
unfolding running
same_file = refl

same_check : boolean_flag (codes "skip-key-permission-check") print_ca_pub_flags ≡ false
unfolding running
same_check = refl

print_ca_pub-handle_ca_pub_example :
    (public_key : Text) × (print_ca_pub os no_args ≡ (public_key_line public_key ∷ [], done))
    × (handle_ca_pub packages server (codes "GET")
        ≡ written 200 ((codes "Content-Type", codes "text/plain; charset=utf-8") ∷ []) public_key)
print_ca_pub-handle_ca_pub_example =
    print_ca_pub-handle_ca_pub os no_args serve_args print_ca_pub_flags [] options 5 first
      server.verifier launches parsed same_file same_check

abbrev stranger : Text
stranger = codes "h.evil.s"

from_stranger : unverified_issuer decoders stranger ≡ ok (codes "evil")
unfolding running
from_stranger = refl

abbrev issuer_named : Option JwtMatch → Text
issuer_named none = []
issuer_named (some m) = m.issuer

not_evil : codes "idp" ≢ codes "evil"
not_evil h = cc

only_rule : (r : Rule) → Member r policy.rules → ¬ (Names r (codes "evil"))
only_rule r (inl same) (on, (m, given, spelled), filled) =
    let at_rule : codes "idp" ≡ issuer_named r.match.jwt =
      ap (λ s. issuer_named s.match.jwt) same in
    not_evil (at_rule ∙ ap issuer_named given ∙ spelled)
only_rule r (inr later) n = elim later [ ]

sign-Unnamed_example :
    (out : RemoteState ℕ ℕ × Response) × ((outside : Remote ℕ ℕ) (c : Call) (time : ℤ)
      → sign packages
          (remote_server open_value decoders lib (signer_of os 5) outside c time)
          draws
          (codes "POST")
          (bearer_prefix ++ stranger)
          key
          first
        ≡ out)
    × (out.0.verifier_state ≡ first.verifier_state)
    × (out.1.status ≢ 200)
unfolding new_state
sign-Unnamed_example =
    sign-Unnamed open_value decoders lib packages (signer_of os 5) draws (codes "POST") stranger key
      (codes "evil") first from_stranger only_rule

abbrev answered : RemoteState ℕ ℕ
answered =
    with_policy policy
      (sign packages server draws (codes "POST") bearer key (with_policy policy first)).0

abbrev terminated : End ℕ
terminated = stopped (codes "terminated") none

-- the server answers one request, and is told to end
abbrev life : Options × ℕ × RemoteState ℕ ℕ → RemoteState ℕ ℕ × End ℕ
life started = (answered, terminated)

main-Succeeds_example :
    (((main os life (codes "serve" ∷ config ∷ [])).status ≡ 0) ↔ ServesWell os life (config ∷ []))
    × (((main os life (codes "check-config" ∷ config ∷ [])).status ≡ 0)
        ↔ Checks policies (config ∷ []))
    × (((main os life (codes "explain" ∷ config ∷ [])).status ≡ 0) ↔ Explains os (config ∷ []))
    × (((main os life (codes "print-ca-pub" ∷ config ∷ [])).status ≡ 0) ↔ Prints os (config ∷ []))
main-Succeeds_example = main-Succeeds os life (config ∷ [])
