-- ===== src/Oidc/Provider/Recovery.antt =====
-- After the last failure, an issuer that answers is served within the retry delay.
use oidc_ssh_ca.Prelude.{◌≡◌, ◌≢◌, none, some}
use oidc_ssh_ca.Prelude.Text.{Text}
use oidc_ssh_ca.Prelude.Int.{ℤ, ◌≤ℤ◌}
use oidc_ssh_ca.Json.{lookup}
use oidc_ssh_ca.Oidc.Provider.{Entry, Providers}
use oidc_ssh_ca.Oidc.Provider.Cache.{Event, registers, runs}

module _ {Provider E : Type 0} (last : ℤ) where
  -- no failure of the entry is later than `last`
  abbrev FailedBy : Entry Provider E → Type 0
  FailedBy e = e.failure ≢ none → e.failed_at ≤ℤ last

  -- nor is one of any entry of the cache
  abbrev pub AllFailedBy : Providers Provider E → Type 0
  AllFailedBy m = (issuer : Text) (e : Entry Provider E) → lookup issuer m ≡ some e → FailedBy e

  -- the clock that a call reads after its discovery is not past `last`
  abbrev pub IsBy : Event Provider E → Type 0
  IsBy (registers issuer) = Unit
  IsBy (runs remote issuer call) = call.now_after ≤ℤ last
