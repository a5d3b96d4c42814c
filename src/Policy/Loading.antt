-- ===== src/Policy/Loading.antt =====
-- internal/policy/policy.go: `Load` and `Parse`. os.ReadFile and the YAML decoder are fields of
-- `Sources`.
use oidc_ssh_ca.Prelude.{
  ◌≡◌, refl, subst, ◌↔◌, Bool, true, Result, ok, ◌>>=◌, ◌>>◌, check, map_err, >>=-eq-ok, >>-eq-ok,
  check_passed, map_err_ok, >>=-ok, >>-ok, check_ok, ok_map_err,
}
use oidc_ssh_ca.Prelude.Text.{Text}
use oidc_ssh_ca.Policy.{Policy}
use oidc_ssh_ca.Policy.Validation.{PolicyError, validate}
use oidc_ssh_ca.Policy.Validation.Valid.{IsValid, validate_iff}

same_policy : {E : Type 0} {r : Result E Policy} {p q : Policy} → q ≡ p → r ≡ ok q → r ≡ ok p
same_policy e h = cc

IsValid-policy : {p q : Policy} → q ≡ p → IsValid q → IsValid p
IsValid-policy e v = subst IsValid e v

pub record Sources (E : Type 0) : Type 0 where
  pub read_file : Text → Result E Text
  -- the first strict Decode, into a Policy
  pub decode : Text → Result E Policy
  -- whether the second Decode gives io.EOF
  pub is_single : Text → Bool

pub data LoadError (E : Type 0) : Type 0 where
  unreadable : E → LoadError E
  undecodable : E → LoadError E
  several_documents : LoadError E
  invalid : PolicyError → LoadError E

module _ {E : Type 0} (from : Sources E) where
  unfoldable pub parse : Text → Result (LoadError E) Policy
  parse contents = do
    p ← map_err undecodable (from.decode contents)
    check (from.is_single contents) several_documents
    map_err invalid (validate p)
    ok p

  unfoldable pub load : Text → Result (LoadError E) Policy
  load path = do contents ← map_err unreadable (from.read_file path); parse contents

  -- A policy is loaded exactly when the file can be read, holds a single document that decodes to
  -- it, and it is valid.
  pub load_iff :
      (path : Text) (p : Policy)
      → (load path ≡ ok p) ↔ (
          (contents : Text) × (from.read_file path ≡ ok contents)
          × (from.decode contents ≡ ok p)
          × (from.is_single contents ≡ true)
          × IsValid p)
  unfolding load parse
  load_iff path p = (
    λ h.
        let (contents, read, h1) = >>=-eq-ok (map_err unreadable (from.read_file path)) _ h in
        let (q, decoded, h2) = >>=-eq-ok (map_err undecodable (from.decode contents)) _ h1 in
        let (single, h3) = >>-eq-ok (check (from.is_single contents) several_documents) _ h2 in
        let (good, h4) = >>-eq-ok (map_err invalid (validate q)) _ h3 in
        let same : q ≡ p = cc in
        (
          contents,
          map_err_ok _ _ read,
          same_policy same (map_err_ok _ _ decoded),
          check_passed _ _ single,
          IsValid-policy same ((validate_iff q).0 (map_err_ok _ _ good)),
        ),
    λ (contents, read, decoded, single, valid). >>=-ok _ (ok_map_err unreadable read) (
        >>=-ok _ (ok_map_err undecodable decoded) (
          >>-ok (check_ok several_documents single)
            (>>-ok (ok_map_err invalid ((validate_iff p).1 valid)) refl))),
  )
