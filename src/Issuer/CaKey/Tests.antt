-- ===== src/Issuer/CaKey/Tests.antt =====
-- A key file with mode 0640, and a key in the environment.
use oidc_ssh_ca.Prelude.{ℕ, ◌≡◌, refl, ◌↔◌, true, false, [], ◌∷◌, if◌then◌else◌, ok, err}
use oidc_ssh_ca.Prelude.Text.{Text, codes, str_eq}
use oidc_ssh_ca.Issuer.CaKey.{
  env_key_file, env_key, Files, Parser, bad_permissions, unreadable, multiple_sources,
  read_key_file, sources, parse_source, load_from, load_ca_key,
}
use oidc_ssh_ca.Issuer.CaKey.Sources.{OneSource, load_ca_key_iff}

abbrev pub files : Files ℕ ℕ
files = record {
  open_file = λ path. ok 3;
  stat = λ f. ok (record { is_regular = true; perm = 416 });
  read_all = λ f. ok (codes "PEM");
}

abbrev pub parser : Parser ℕ ℕ
parser = record { parse_private_key = λ pem. ok 5; key_type = λ k. codes "ssh-ed25519" }

-- only OIDC_SSH_CA_KEY is set
abbrev pub getenv : Text → Text
getenv name = if str_eq name env_key then codes "PEM" else []

loaded :
    (load_ca_key files parser getenv [] false ≡ ok 5)
    × (load_ca_key files parser (λ name. []) (codes "/key") false
        ≡ err (unreadable (bad_permissions 416)))
    × (load_ca_key files parser (λ name. []) (codes "/key") true ≡ ok 5)
    × (load_ca_key files parser getenv (codes "/key") true
        ≡ err (multiple_sources (codes "--ca-key-file" ∷ env_key ∷ [])))
unfolding load_ca_key sources load_from parse_source read_key_file str_eq
loaded = (refl, refl, refl, refl)

load_ca_key_iff_example :
    (load_ca_key files parser getenv [] false ≡ ok 5)
    ↔ OneSource files parser [] (getenv env_key_file) (getenv env_key) false 5
load_ca_key_iff_example = load_ca_key_iff files parser getenv [] false 5
