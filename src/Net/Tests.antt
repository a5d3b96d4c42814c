-- ===== src/Net/Tests.antt =====
-- Texts that `net.ParseCIDR` accepts and refuses.
use oidc_ssh_ca.Prelude.{◌≡◌, refl, true, false}
use oidc_ssh_ca.Prelude.Text.{codes}
use oidc_ssh_ca.Net.{is_cidr}

accepted :
    (is_cidr (codes "192.0.2.0/24") ≡ true)
    × (is_cidr (codes "2001:db8::/32") ≡ true)
    × (is_cidr (codes "::/0") ≡ true)
    × (is_cidr (codes "::ffff:10.0.0.1/128") ≡ true)
    × (is_cidr (codes "1:2:3:4:5:6:7:8/64") ≡ true)
unfolding is_cidr
accepted = (refl, refl, refl, refl, refl)

refused :
    (is_cidr (codes "192.0.2.10") ≡ false)
    × (is_cidr (codes "192.0.2.256/8") ≡ false)
    × (is_cidr (codes "192.0.2/8") ≡ false)
    × (is_cidr (codes "10.0.0.0/33") ≡ false)
    × (is_cidr (codes "10.0.00.0/8") ≡ false)
    × (is_cidr (codes "1:2:3:4:5:6:7:8:9/64") ≡ false)
    × (is_cidr (codes "1::2::3/64") ≡ false)
    × (is_cidr (codes "fe80::1%eth0/64") ≡ false)
    × (is_cidr (codes "10.0.0.0/") ≡ false)
unfolding is_cidr
refused = (refl, refl, refl, refl, refl, refl, refl, refl, refl)
