-- ===== src/Issuer/CaKey.antt =====
-- internal/issuer/cakey.go: where the CA key comes from. The system calls on an open file are
-- `Files`, `ssh.ParsePrivateKey` and a key's `Type` are `Parser`, and the environment is a function.
pub mod Sources
pub mod Tests
use oidc_ssh_ca.Prelude.{
  ℕ, ◌%◌, Bool, true, false, not, ◌&&◌, ◌||◌, List, [], ◌∷◌, ◌++◌, map, is_empty, ◌==◌,
  if◌then◌else◌, Result, ok, err, ◌>>=◌, ◌>>◌, check, refuse, map_err,
}
use oidc_ssh_ca.Prelude.Text.{Text, codes, str_eq}
use oidc_ssh_ca.Issuer.Certificates.{Signer, nonempty}

abbrev pub env_key_file : Text
env_key_file = codes "OIDC_SSH_CA_KEY_FILE"

abbrev pub env_key : Text
env_key = codes "OIDC_SSH_CA_KEY"

-- `info.Mode().IsRegular()` and `info.Mode().Perm()`
pub record FileInfo : Type 0 where
  pub is_regular : Bool
  pub perm : ℕ

-- os.OpenFile with O_RDONLY|O_NONBLOCK, and Stat and io.ReadAll on the open file
pub record Files (File E : Type 0) : Type 0 where
  pub open_file : Text → Result E File
  pub stat : File → Result E FileInfo
  pub read_all : File → Result E Text

pub record Parser (PrivateKey E : Type 0) : Type 0 where
  pub parse_private_key : Text → Result E PrivateKey
  pub key_type : PrivateKey → Text

pub data KeyFileError (E : Type 0) : Type 0 where
  system_error : E → KeyFileError E
  not_regular : KeyFileError E
  bad_permissions : ℕ → KeyFileError E
  empty_file : KeyFileError E

pub data CaKeyError (E : Type 0) : Type 0 where
  not_configured : CaKeyError E
  multiple_sources : List Text → CaKeyError E
  unreadable : KeyFileError E → CaKeyError E
  unparsable : Text → E → CaKeyError E
  unsupported_type : Text → Text → CaKeyError E

-- `perm&0o077 != 0`
abbrev pub is_shared : ℕ → Bool
is_shared perm = not (perm % 64 == 0)

-- a `source`: its name, and what `load` does
pub record Source (E : Type 0) : Type 0 where
  pub name : Text
  pub load : Result (KeyFileError E) Text

abbrev pub source_name : {E : Type 0} → Source E → Text
source_name s = s.name

-- `if setting != "" { sources = append(sources, source{name, load}) }`
abbrev pub source_if : {E : Type 0} → Text → Text → Result (KeyFileError E) Text → List (Source E)
source_if setting name load =
    if nonempty setting then record { name = name; load = load } ∷ [] else []

module _ {File E : Type 0} (files : Files File E) where
  abbrev pub checked_contents : Bool → FileInfo → File → Result (KeyFileError E) Text
  checked_contents skip_perm_check info f = do
    check info.is_regular not_regular
    refuse (not skip_perm_check && is_shared info.perm) (bad_permissions info.perm)
    data_read ← map_err system_error (files.read_all f)
    refuse (is_empty data_read) empty_file
    ok data_read

  unfoldable pub read_key_file : Text → Bool → Result (KeyFileError E) Text
  read_key_file path skip_perm_check = do
    f ← map_err system_error (files.open_file path)
    info ← map_err system_error (files.stat f)
    checked_contents skip_perm_check info f

  -- `getenv` gives "" for a variable that is not set.
  unfoldable pub sources : (Text → Text) → Text → Bool → List (Source E)
  sources getenv flag_path skip_perm_check =
      source_if flag_path (codes "--ca-key-file") (read_key_file flag_path skip_perm_check)
      ++ source_if (getenv env_key_file) env_key_file
          (read_key_file (getenv env_key_file) skip_perm_check)
      ++ source_if (getenv env_key) env_key (ok (getenv env_key))

-- `for i := range pem { pem[i] = 0 }`
unfoldable pub scrub : Text → Text
scrub [] = []
scrub (b ∷ pem) = 0 ∷ scrub pem

module _ {PrivateKey E : Type 0} (parser : Parser PrivateKey E) where
  -- what follows the load, with the buffer of the PEM text as it is left
  unfoldable pub parse_pem : Text → Text → Result (CaKeyError E) PrivateKey × Text
  parse_pem name pem = (
    (do
      signer ← map_err (unparsable name) (parser.parse_private_key pem)
      check (str_eq (parser.key_type signer) (codes "ssh-ed25519"))
          (unsupported_type name (parser.key_type signer))
      ok signer),
    scrub pem,
  )

  unfoldable pub parse_source : Source E → Result (CaKeyError E) PrivateKey
  unfolding parse_pem
  parse_source s = do pem ← map_err unreadable s.load; (parse_pem s.name pem).0

  unfoldable pub load_from : List (Source E) → Result (CaKeyError E) PrivateKey
  load_from [] = err not_configured
  load_from (s ∷ []) = parse_source s
  load_from (s ∷ t ∷ rest) = err (multiple_sources (map source_name (s ∷ t ∷ rest)))

module _ {File PrivateKey E : Type 0} (files : Files File E) (parser : Parser PrivateKey E) where
  unfoldable pub load_ca_key : (Text → Text) → Text → Bool → Result (CaKeyError E) PrivateKey
  load_ca_key getenv flag_path skip_perm_check =
      load_from parser (sources files getenv flag_path skip_perm_check)

-- `Fingerprint`, with ssh.FingerprintSHA256
abbrev pub fingerprint :
    {PublicKey Signature E : Type 0} → (PublicKey → Text) → Signer PublicKey Signature E → Text
fingerprint sha256 s = sha256 s.public_key
