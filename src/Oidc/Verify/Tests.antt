-- ===== src/Oidc/Verify/Tests.antt =====
-- A token that names its issuer in its second part, and a provider that vouches for it.
use oidc_ssh_ca.Prelude.{ℕ, ◌*◌, ◌≡◌, refl, inl, Bool, Result, true, false, some, [], ◌∷◌, ok, err}
use oidc_ssh_ca.Prelude.Text.{Text, codes, str_eq, str_eq_iff, has_str}
use oidc_ssh_ca.Prelude.Int.{ℤ, pos, ◌+ℤ◌, ◌-ℤ◌, ◌*ℤ◌, to_uint64, wrap_int64}
use oidc_ssh_ca.Json.{Claims, str, arr, cons, nil, num, lookup}
use oidc_ssh_ca.Policy.Matching.{Identity}
use oidc_ssh_ca.Oidc.Time.{second, int64_of_float, unix, numeric_claim, check_time_claims}
use oidc_ssh_ca.Oidc.Provider.{
  Remote, Call, Providers, check_jwks, discover_provider, run_entry, put, register, run_issuer,
  provider,
}
use oidc_ssh_ca.Oidc.Provider.Genuine.{IsSound, IsGenuine}
use oidc_ssh_ca.Oidc.Verify.{
  Decoders, Token, Library, split_from, unverified_issuer, verify_with, verify,
}
use oidc_ssh_ca.Oidc.Verify.Sound.{Verified, ChecksIssuer, verify_sound}

verification : Unit {0}
unfolding verify verify_with unverified_issuer split_from provider register run_issuer run_entry put
    discover_provider check_jwks lookup str_eq has_str check_time_claims numeric_claim
    int64_of_float unix ◌+ℤ◌ ◌-ℤ◌ ◌*ℤ◌ to_uint64 wrap_int64
verification = tt

abbrev pub decoders : Decoders
decoders = record { decode_base64 = λ part. some part; decode_issuer = λ json. some json }

abbrev pub claims : Claims
claims =
    (codes "iss", str (codes "idp"))
    ∷ (codes "aud", arr (cons (str (codes "other")) (cons (str (codes "ca")) nil)))
    ∷ (codes "exp", num 4744917124793761792)
    ∷ []

abbrev pub lib : Library ℕ ℕ
lib = record {
  verify_token = λ p raw. ok (record {
    issuer = codes "idp";
    audience = codes "other" ∷ codes "ca" ∷ [];
    claims = ok claims;
  });
}

abbrev pub remote : Remote ℕ ℕ
remote = record {
  new_provider = λ issuer. ok 7;
  jwks_uri = λ p. ok (codes "jwks");
  new_request = λ uri. ok tt;
  send = λ uri.
      ok (record { status_code = 200; status = codes "200"; read_body = λ n. ok (codes "{}") });
  has_keys = λ body. ok true;
}

abbrev pub now : ℤ
now = pos (1700000000 * second)

abbrev pub call : Call
call = record { now = now; now_retry = now; now_after = now; context_ended = false }

abbrev empty_cache : Providers ℕ ℕ
empty_cache = []

abbrev pub open_value : ℕ → ℤ
open_value bits = pos 0

abbrev pub identity : Identity
identity = record {
  issuer = codes "idp";
  audiences = codes "other" ∷ codes "ca" ∷ [];
  claims = claims;
}

-- go-oidc has one provider, 7, for the issuer idp.
abbrev pub IsForIdp : Text → ℕ → Type 0
IsForIdp issuer p = issuer ≡ codes "idp"

abbrev pub one_provider : Bool → Result ℕ ℕ
one_provider true = ok 7
one_provider false = err 1

abbrev pub only_idp : Remote ℕ ℕ
only_idp = record {
  new_provider = λ issuer. one_provider (str_eq issuer (codes "idp"));
  jwks_uri = remote.jwks_uri;
  new_request = remote.new_request;
  send = remote.send;
  has_keys = remote.has_keys;
}

accepted :
    (verify open_value decoders lib only_idp
      (codes "h.idp.s")
      (codes "idp" ∷ [])
      call
      now
      empty_cache).1
    ≡ ok identity
unfolding verification
accepted = refl

provider_is_idp :
    (issuer : Text) (b : Bool) (p : ℕ)
    → (b ≡ true → issuer ≡ codes "idp")
    → one_provider b ≡ ok p
    → issuer ≡ codes "idp"
provider_is_idp issuer true p same h = same refl
provider_is_idp issuer false p same h = cc

pub sound : IsSound IsForIdp only_idp
sound issuer p h =
    provider_is_idp issuer (str_eq issuer (codes "idp")) p (str_eq_iff issuer (codes "idp")).0 h

token_issuer : {t s : Token ℕ} → Path (Result ℕ (Token ℕ)) (ok t) (ok s) → t.issuer ≡ s.issuer
token_issuer h = cc

pub checks : ChecksIssuer open_value decoders lib IsForIdp
checks issuer p raw t for_p h =
    let same : codes "idp" ≡ t.issuer = token_issuer h in let eq : t.issuer ≡ issuer = cc in inl eq

none_cached : IsGenuine IsForIdp empty_cache
unfolding lookup
none_cached issuer e p there has = cc

verify_sound_example :
    Verified open_value lib IsForIdp (codes "h.idp.s") (codes "idp" ∷ []) now identity
verify_sound_example =
    verify_sound open_value decoders lib IsForIdp only_idp (codes "h.idp.s") (codes "idp" ∷ []) call
      now empty_cache identity checks sound none_cached accepted
