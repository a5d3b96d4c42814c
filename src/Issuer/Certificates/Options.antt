-- ===== src/Issuer/Certificates/Options.antt =====
-- The critical options and extensions of a certificate are those that the request names.
use oidc_ssh_ca.Prelude.{
  ◌≡◌, refl, sym, ◌≢◌, ◌↔◌, ◌⊎◌, inl, inr, Bool, true, false, some, List, [], Bool-cases,
}
use oidc_ssh_ca.Prelude.Text.{Text, codes, str_eq, str_eq_iff}
use oidc_ssh_ca.Json.{lookup}
use oidc_ssh_ca.Policy.{Extensions}
use oidc_ssh_ca.Issuer.Certificates.{
  Request, join_comma, set_if, nonempty, critical_option_map, extension_map,
}

lookup-set_if :
    (b : Bool) (key value name : Text) (out : List (Text × Text)) {v : Text}
    → (lookup name (set_if b key value out) ≡ some v) ↔ (
        ((name ≡ key) × (b ≡ true) × (v ≡ value))
        ⊎ ((¬ ((name ≡ key) × (b ≡ true))) × (lookup name out ≡ some v)))
unfolding lookup
lookup-set_if false key value name out =
    (λ h. inr (λ e. cc (e.1), h), λ h. elim h [ inl e ↦ absurd (cc (e.1)) | inr r ↦ r.1 ])
lookup-set_if true key value name out = elim (Bool-cases (str_eq key name)) [
  | inl same ↦
      let eq : name ≡ key = sym ((str_eq_iff key name).0 same) in
      (
        λ h. inl (eq, refl, cc (rw same at h)),
        λ h. elim h [ inl e ↦ rw same (cc (e.2)) | inr r ↦ absurd (r.0 (eq, refl)) ],
      )
  | inr other ↦
      let ne : name ≢ key = λ e. cc (other, (str_eq_iff key name).1 (sym e)) in
      (
        λ h. inr (λ e. ne e.0, rw other at h),
        λ h. elim h [ inl e ↦ absurd (ne e.0) | inr r ↦ rw other r.1 ],
      )
]

-- the extension that each flag stands for
abbrev pub Granted : Extensions → Text → Type 0
Granted e name =
    ((name ≡ codes "permit-pty") × (e.permit_pty ≡ true))
    ⊎ ((name ≡ codes "permit-port-forwarding") × (e.permit_port_forwarding ≡ true))
    ⊎ ((name ≡ codes "permit-agent-forwarding") × (e.permit_agent_forwarding ≡ true))
    ⊎ ((name ≡ codes "permit-X11-forwarding") × (e.permit_x11_forwarding ≡ true))
    ⊎ ((name ≡ codes "permit-user-rc") × (e.permit_user_rc ≡ true))

-- one step of the map, where every value is empty
keeps_empty :
    (b : Bool) (key name : Text) (out : List (Text × Text))
    → lookup name out ≡ some []
    → lookup name (set_if b key [] out) ≡ some []
unfolding lookup
keeps_empty false key name out h = h
keeps_empty true key name out h = elim (Bool-cases (str_eq key name)) [
  | inl same ↦ rw same refl
  | inr other ↦ rw other h
]

flag_iff :
    (b : Bool) (key name : Text) (out : List (Text × Text)) {P : Type 0}
    → (lookup name out ≡ some []) ↔ P
    → (lookup name (set_if b key [] out) ≡ some []) ↔ (((name ≡ key) × (b ≡ true)) ⊎ P)
flag_iff b key name out p = (
  λ h. elim ((lookup-set_if b key [] name out).0 h) [
    | inl e ↦ inl (e.0, e.1)
    | inr r ↦ inr (p.0 r.1)
  ],
  λ h. elim h [
    | inl e ↦ (lookup-set_if b key [] name out).1 (inl (e.0, e.1, refl))
    | inr q ↦ keeps_empty b key name out (p.1 q)
  ],
)

last_flag_iff :
    (b : Bool) (key name : Text)
    → (lookup name (set_if b key [] []) ≡ some []) ↔ ((name ≡ key) × (b ≡ true))
unfolding lookup
last_flag_iff b key name = (
  λ h. elim ((lookup-set_if b key [] name []).0 h) [
    | inl e ↦ (e.0, e.1)
    | inr r ↦ absurd (cc (r.1))
  ],
  λ h. (lookup-set_if b key [] name []).1 (inl (h.0, h.1, refl)),
)

-- A certificate carries an extension, with an empty value, iff the request sets the flag of that
-- name: the five names of OpenSSH, and no other.
pub extension_map_iff :
    (e : Extensions) (name : Text) → (lookup name (extension_map e) ≡ some []) ↔ Granted e name
unfolding extension_map
extension_map_iff e name = flag_iff e.permit_pty (codes "permit-pty") name _ (
    flag_iff e.permit_port_forwarding (codes "permit-port-forwarding") name _ (
      flag_iff e.permit_agent_forwarding (codes "permit-agent-forwarding") name _ (
        flag_iff e.permit_x11_forwarding (codes "permit-X11-forwarding") name _
          (last_flag_iff e.permit_user_rc (codes "permit-user-rc") name))))

-- what a critical option of a certificate may be
abbrev pub Restricts {ℓ} : {A : Type ℓ} → List A → Text → Text → Text → Text → Type 0
Restricts setting value key name v = (name ≡ key) × (nonempty setting ≡ true) × (v ≡ value)

false_not_true : false ≡ true → ⊥
false_not_true h = cc

names_differ : {name : Text} → name ≡ codes "force-command" → name ≡ codes "source-address" → ⊥
unfolding str_eq
names_differ p q =
    absurd
      (false_not_true ((str_eq_iff (codes "force-command") (codes "source-address")).1 (cc (p, q))))

-- A certificate's critical options are exactly force-command, with the command, if the request has
-- one, and source-address, with the addresses joined by commas, if the request has any.
pub critical_option_map_iff :
    {PublicKey : Type 0} (req : Request PublicKey) (name v : Text)
    → (lookup name (critical_option_map req) ≡ some v) ↔ (
        Restricts req.force_command req.force_command (codes "force-command") name v
        ⊎ Restricts req.source_address
            (join_comma req.source_address)
            (codes "source-address")
            name
            v)
unfolding critical_option_map lookup
critical_option_map_iff req name v = (
  λ h. elim ((lookup-set_if (nonempty req.force_command) _ _ name _).0 h) [
    | inl e ↦ inl e
    | inr r ↦ elim ((lookup-set_if (nonempty req.source_address) _ _ name []).0 r.1) [
      | inl e ↦ inr e
      | inr s ↦ absurd (cc (s.1))
    ]
  ],
  λ h. elim h [
    | inl e ↦ (lookup-set_if (nonempty req.force_command) _ _ name _).1 (inl e)
    | inr e ↦ (lookup-set_if (nonempty req.force_command) _ _ name _).1 (
        inr (
          λ both. absurd (names_differ (both.0) (e.0)),
          (lookup-set_if (nonempty req.source_address) _ _ name []).1 (inl e),
        ))
  ],
)
