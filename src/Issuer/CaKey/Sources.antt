-- ===== src/Issuer/CaKey/Sources.antt =====
-- The key is loaded from exactly one source, and from a file only if the file is a private one.
use oidc_ssh_ca.Prelude.{
  ℕ, ◌≡◌, refl, ◌≢◌, ◌↔◌, ◌⊎◌, inl, inr, ◌%◌, Bool, true, false, not, ◌&&◌, List, [], ◌∷◌, ◌++◌,
  is_empty, not_empty_iff, arith, ok, map_err, check, refuse, >>=-eq-ok, >>-eq-ok, check_passed,
  refuse_passed, map_err_ok,
}
use oidc_ssh_ca.Prelude.Text.{Text, codes, str_eq, str_eq_iff}
use oidc_ssh_ca.Issuer.CaKey.{
  is_shared, empty_file, system_error, unreadable, unparsable, env_key_file, env_key, FileInfo,
  Files, Parser, not_regular, bad_permissions, Source, source_if, read_key_file, sources,
  parse_source, load_from, load_ca_key,
}

module _ {File E : Type 0} (files : Files File E) where
  -- a file that may hold the key: all that is read is of the file that was opened
  abbrev pub KeyFile : Text → Bool → Text → Type 0
  KeyFile path skip_perm_check contents =
      (f : File) × (info : FileInfo) × (files.open_file path ≡ ok f)
      × (files.stat f ≡ ok info)
      × (info.is_regular ≡ true)
      × ((skip_perm_check ≡ true) ⊎ (info.perm % 64 ≡ 0))
      × (files.read_all f ≡ ok contents)
      × (contents ≢ [])

  private_iff :
      (skip : Bool) (perm : ℕ)
      → ((not skip && is_shared perm) ≡ false) ↔ ((skip ≡ true) ⊎ (perm % 64 ≡ 0))
  private_iff true perm = (λ _. inl refl, λ _. refl)
  private_iff false perm =
      (λ h. inr (ground arith), λ h. elim h [ inl e ↦ cc | inr e ↦ ground arith ])

  read_sound :
      (path : Text) (skip : Bool) (contents : Text)
      → read_key_file files path skip ≡ ok contents
      → KeyFile path skip contents
  unfolding read_key_file
  read_sound path skip contents h =
      let (f, opened, h1) = >>=-eq-ok (map_err system_error (files.open_file path)) _ h in
      let (info, stated, h2) = >>=-eq-ok (map_err system_error (files.stat f)) _ h1 in
      let (regular, h3) = >>-eq-ok (check info.is_regular not_regular) _ h2 in
      let (private_bits, h4) =
        >>-eq-ok (refuse (not skip && is_shared info.perm) (bad_permissions info.perm)) _ h3 in
      let (read, have, h5) = >>=-eq-ok (map_err system_error (files.read_all f)) _ h4 in
      let (filled, h6) = >>-eq-ok (refuse (is_empty read) empty_file) _ h5 in
      let same : read ≡ contents = cc in
      (
        f,
        info,
        map_err_ok system_error (files.open_file path) opened,
        map_err_ok system_error (files.stat f) stated,
        check_passed info.is_regular not_regular regular,
        (private_iff skip info.perm).0 (
            refuse_passed (not skip && is_shared info.perm) (bad_permissions info.perm)
              private_bits),
        rw (← same) (map_err_ok system_error (files.read_all f) have),
        rw (← same) ((not_empty_iff read).0 (refuse_passed (is_empty read) empty_file filled)),
      )

  read_complete :
      (path : Text) (skip : Bool) (contents : Text)
      → KeyFile path skip contents
      → read_key_file files path skip ≡ ok contents
  unfolding read_key_file
  read_complete path skip contents (f, info, opened, stated, regular, private_bits, have, filled) =
      rw (
        opened,
        stated,
        regular,
        (private_iff skip info.perm).1 private_bits,
        have,
        (not_empty_iff contents).1 filled,
      )

  -- `read_key_file` succeeds iff the file opens and is a regular one, no permission bit of the group
  -- or of others is set, unless that check is switched off, and it can be read and is not empty. The
  -- result is its contents.
  pub read_key_file_iff :
      (path : Text) (skip_perm_check : Bool) (contents : Text)
      → (read_key_file files path skip_perm_check ≡ ok contents)
        ↔ KeyFile path skip_perm_check contents
  read_key_file_iff path skip contents =
      (read_sound path skip contents, read_complete path skip contents)

module _ {File PrivateKey E : Type 0} (files : Files File E) (parser : Parser PrivateKey E) where
  -- the key that a PEM text holds, of the only type that is supported
  abbrev pub Holds : Text → PrivateKey → Type 0
  Holds pem key =
      (parser.parse_private_key pem ≡ ok key) × (parser.key_type key ≡ codes "ssh-ed25519")

  parse_source_iff :
      (s : Source E) (key : PrivateKey)
      → (parse_source parser s ≡ ok key) ↔ ((pem : Text) × (s.load ≡ ok pem) × Holds pem key)
  unfolding parse_source
  parse_source_iff s key = (
    λ h.
        let (pem, loaded, h1) = >>=-eq-ok (map_err unreadable s.load) _ h in
        let (signer, parsed, h2) =
          >>=-eq-ok (map_err (unparsable s.name) (parser.parse_private_key pem)) _ h1 in
        let (typed, h3) =
          >>-eq-ok (check (str_eq (parser.key_type signer) (codes "ssh-ed25519")) _) _ h2 in
        let same : signer ≡ key = cc in
        (
          pem,
          map_err_ok unreadable s.load loaded,
          rw (← same) (
            map_err_ok (unparsable s.name) (parser.parse_private_key pem) parsed,
            (str_eq_iff (parser.key_type signer) (codes "ssh-ed25519")).0 (check_passed _ _ typed),
          ),
        ),
    λ (pem, loaded, holds).
        rw (loaded, holds.0, (str_eq_iff (parser.key_type key) (codes "ssh-ed25519")).1 holds.1),
  )

  -- The one source that is set, and a key in it: `flag_path` is the flag's value, and `key_file` and
  -- `key_text` are those of the two variables.
  pub data OneSource (flag_path key_file key_text : Text) (skip : Bool) (key : PrivateKey)
      : Type 0 where
    from_flag :
        (pem : Text)
        → flag_path ≢ []
        → key_file ≡ []
        → key_text ≡ []
        → KeyFile files flag_path skip pem
        → Holds pem key
        → OneSource flag_path key_file key_text skip key
    from_file_variable :
        (pem : Text)
        → flag_path ≡ []
        → key_file ≢ []
        → key_text ≡ []
        → KeyFile files key_file skip pem
        → Holds pem key
        → OneSource flag_path key_file key_text skip key
    from_key_variable :
        flag_path ≡ []
        → key_file ≡ []
        → key_text ≢ []
        → Holds key_text key
        → OneSource flag_path key_file key_text skip key

  file_source_iff :
      (name path : Text) (skip : Bool) (key : PrivateKey)
      → (parse_source parser (record { name = name; load = read_key_file files path skip })
          ≡ ok key)
        ↔ ((pem : Text) × KeyFile files path skip pem × Holds pem key)
  file_source_iff name path skip key =
      let inner =
        parse_source_iff (record { name = name; load = read_key_file files path skip }) key in
      (
        λ h.
            let (pem, loaded, holds) = inner.0 h in
            (pem, (read_key_file_iff files path skip pem).0 loaded, holds),
        λ (pem, file, holds). inner.1 (pem, (read_key_file_iff files path skip pem).1 file, holds),
      )

  abbrev all_sources : (flag_path key_file key_text : Text) → Bool → List (Source E)
  all_sources flag_path key_file key_text skip =
      source_if flag_path (codes "--ca-key-file") (read_key_file files flag_path skip)
      ++ source_if key_file env_key_file (read_key_file files key_file skip)
      ++ source_if key_text env_key (ok key_text)

  all_sources_iff :
      (flag_path key_file key_text : Text) (skip : Bool) (key : PrivateKey)
      → (load_from parser (all_sources flag_path key_file key_text skip) ≡ ok key)
        ↔ OneSource flag_path key_file key_text skip key
  unfolding load_from
  all_sources_iff [] [] [] skip key = (
    λ h. cc,
    λ h. absurd (elim h [
      | from_flag pem ne a b file holds ↦ ne refl
      | from_file_variable pem a ne b file holds ↦ ne refl
      | from_key_variable a b ne holds ↦ ne refl
    ]),
  )
  all_sources_iff (c ∷ s) [] [] skip key =
      let inner = file_source_iff (codes "--ca-key-file") (c ∷ s) skip key in
      (
        λ h. let (pem, file, holds) = inner.0 h in from_flag pem (λ e. cc) refl refl file holds,
        λ h. elim h [
          | from_flag pem ne a b file holds ↦ inner.1 (pem, file, holds)
          | from_file_variable pem a ne b file holds ↦ cc
          | from_key_variable a b ne holds ↦ cc
        ],
      )
  all_sources_iff [] (c ∷ s) [] skip key =
      let inner = file_source_iff env_key_file (c ∷ s) skip key in
      (
        λ h.
            let (pem, file, holds) = inner.0 h in
            from_file_variable pem refl (λ e. cc) refl file holds,
        λ h. elim h [
          | from_flag pem ne a b file holds ↦ cc
          | from_file_variable pem a ne b file holds ↦ inner.1 (pem, file, holds)
          | from_key_variable a b ne holds ↦ cc
        ],
      )
  all_sources_iff [] [] (c ∷ s) skip key =
      let inner = parse_source_iff (record { name = env_key; load = ok (c ∷ s) }) key in
      (
        λ h.
            let (pem, same, holds) = inner.0 h in
            let eq : c ∷ s ≡ pem = cc in from_key_variable refl refl (λ e. cc) (rw eq holds),
        λ h. elim h [
          | from_flag pem ne a b file holds ↦ cc
          | from_file_variable pem a ne b file holds ↦ cc
          | from_key_variable a b ne holds ↦ inner.1 (c ∷ s, refl, holds)
        ],
      )
  all_sources_iff (c ∷ s) (d ∷ t) [] skip key = (
    λ h. cc,
    λ h. elim h [
      | from_flag pem ne a b file holds ↦ cc
      | from_file_variable pem a ne b file holds ↦ cc
      | from_key_variable a b ne holds ↦ cc
    ],
  )
  all_sources_iff (c ∷ s) (d ∷ t) (e ∷ u) skip key = (
    λ h. cc,
    λ h. elim h [
      | from_flag pem ne a b file holds ↦ cc
      | from_file_variable pem a ne b file holds ↦ cc
      | from_key_variable a b ne holds ↦ cc
    ],
  )
  all_sources_iff (c ∷ s) [] (e ∷ u) skip key = (
    λ h. cc,
    λ h. elim h [
      | from_flag pem ne a b file holds ↦ cc
      | from_file_variable pem a ne b file holds ↦ cc
      | from_key_variable a b ne holds ↦ cc
    ],
  )
  all_sources_iff [] (d ∷ t) (e ∷ u) skip key = (
    λ h. cc,
    λ h. elim h [
      | from_flag pem ne a b file holds ↦ cc
      | from_file_variable pem a ne b file holds ↦ cc
      | from_key_variable a b ne holds ↦ cc
    ],
  )

  -- A CA key is loaded exactly when one of the three sources is set and the other two are not, the
  -- file, where the source names one, is a file that may hold the key, and its contents, or those of
  -- the variable, parse as an ed25519 key. None of them goes before another.
  pub load_ca_key_iff :
      (getenv : Text → Text) (flag_path : Text) (skip : Bool) (key : PrivateKey)
      → (load_ca_key files parser getenv flag_path skip ≡ ok key)
        ↔ OneSource flag_path (getenv env_key_file) (getenv env_key) skip key
  unfolding load_ca_key sources
  load_ca_key_iff getenv flag_path skip key =
      all_sources_iff flag_path (getenv env_key_file) (getenv env_key) skip key
