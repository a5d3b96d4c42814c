-- ===== src/Issuer/Certificates/Tests.antt =====
-- A request with one extension and two source addresses.
use oidc_ssh_ca.Prelude.{ℕ, ◌≡◌, refl, ◌↔◌, ◌⊎◌, true, false, some, [], ◌∷◌}
use oidc_ssh_ca.Prelude.Text.{codes}
use oidc_ssh_ca.Prelude.Int.{pos}
use oidc_ssh_ca.Json.{lookup}
use oidc_ssh_ca.Policy.{Extensions}
use oidc_ssh_ca.Issuer.Certificates.{Request, join_comma, critical_option_map, extension_map}
use oidc_ssh_ca.Issuer.Certificates.Options.{
  Granted, Restricts, extension_map_iff, critical_option_map_iff,
}

abbrev extensions : Extensions
extensions = record {
  permit_pty = true;
  permit_port_forwarding = false;
  permit_agent_forwarding = false;
  permit_x11_forwarding = false;
  permit_user_rc = false;
}

abbrev request : Request ℕ
request = record {
  public_key = 5;
  key_id = codes "gha:main";
  principals = codes "deploy" ∷ [];
  valid_after = pos 0;
  valid_before = pos 1;
  extensions = extensions;
  force_command = [];
  source_address = codes "192.0.2.0/24" ∷ codes "::/0" ∷ [];
}

options :
    (critical_option_map request ≡ (codes "source-address", codes "192.0.2.0/24,::/0") ∷ [])
    × (extension_map extensions ≡ (codes "permit-pty", []) ∷ [])
unfolding critical_option_map extension_map join_comma
options = (refl, refl)

extension_map_iff_example :
    (lookup (codes "permit-pty") (extension_map extensions) ≡ some [])
    ↔ Granted extensions (codes "permit-pty")
extension_map_iff_example = extension_map_iff extensions (codes "permit-pty")

critical_option_map_iff_example :
    (lookup (codes "source-address") (critical_option_map request)
      ≡ some (codes "192.0.2.0/24,::/0"))
    ↔ (Restricts request.force_command request.force_command
          (codes "force-command")
          (codes "source-address")
          (codes "192.0.2.0/24,::/0")
        ⊎ Restricts request.source_address
            (join_comma request.source_address)
            (codes "source-address")
            (codes "source-address")
            (codes "192.0.2.0/24,::/0"))
critical_option_map_iff_example =
    critical_option_map_iff request (codes "source-address") (codes "192.0.2.0/24,::/0")
