-- ===== src/Audit.antt =====
-- internal/audit/audit.go. The log is the list of the records that were written, oldest first. What
-- a record's attributes may hold is the caller's type `A`.
use oidc_ssh_ca.Prelude.{List, [], ◌∷◌, ◌++◌}
use oidc_ssh_ca.Prelude.Text.{Text, codes}

abbrev pub event_issued : Text
event_issued = codes "certificate_issued"

abbrev pub event_denied : Text
event_denied = codes "certificate_denied"

pub data Level : Type 0 where
  level_info level_warn level_error : Level

pub record Event (A : Type 0) : Type 0 where
  pub level : Level
  pub message : Text
  pub attrs : List (Text × A)

abbrev pub Log : Type 0 → Type 0
Log A = List (Event A)

module _ {A : Type 0} (text : Text → A) where
  -- `Issued`
  unfoldable pub issued : Text → List (Text × A) → Log A → Log A
  issued request_id attrs log =
      log
      ++ record {
        level = level_info;
        message = event_issued;
        attrs = (codes "event", text event_issued) ∷ (codes "request_id", text request_id) ∷ attrs;
      }
        ∷ []

  -- `Denied`, whose detail need not be a text here
  unfoldable pub denied : Text → Text → A → List (Text × A) → Log A → Log A
  denied request_id reason detail attrs log =
      log
      ++ record {
        level = level_warn;
        message = event_denied;
        attrs =
            (codes "event", text event_denied)
            ∷ (codes "request_id", text request_id)
            ∷ (codes "reason", text reason)
            ∷ (codes "detail", detail)
            ∷ attrs;
      }
        ∷ []

module _ {A : Type 0} where
  -- `Error`, `Info` and `Warn`
  unfoldable pub error : Text → List (Text × A) → Log A → Log A
  error message attrs log =
      log ++ record { level = level_error; message = message; attrs = attrs } ∷ []

  unfoldable pub info : Text → List (Text × A) → Log A → Log A
  info message attrs log =
      log ++ record { level = level_info; message = message; attrs = attrs } ∷ []

  unfoldable pub warn : Text → List (Text × A) → Log A → Log A
  warn message attrs log =
      log ++ record { level = level_warn; message = message; attrs = attrs } ∷ []
