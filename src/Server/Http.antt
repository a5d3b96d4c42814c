-- ===== src/Server/Http.antt =====
-- internal/server/server.go: the handlers of /sign and /ca-public-key. What a handler writes is a
-- `Reply`; http.Error is one of its constructors.
pub mod Bodies
use oidc_ssh_ca.Prelude.{
  ℕ, zero, suc, ◌+◌, Bool, true, false, not, ◌&&◌, List, [], ◌∷◌, Result, if◌then◌else◌,
}
use oidc_ssh_ca.Prelude.Text.{Text, codes, str_eq}
use oidc_ssh_ca.Server.{max_request_body, Packages, Server, State, Draws, Response}
use oidc_ssh_ca.Server.Sign.{sign}

pub data Reply : Type 0 where
  written : ℕ → List (Text × Text) → Text → Reply
  http_error : Text → ℕ → Reply

-- what an io.LimitReader lets through
unfoldable pub take : ℕ → Text → Text
take zero s = []
take (suc n) [] = []
take (suc n) (c ∷ s) = c ∷ take n s

abbrev pub reply_of : Response → Reply
reply_of resp =
    written resp.status
      ((codes "Content-Type", resp.content_type) ∷ (codes "X-Request-Id", resp.request_id) ∷ [])
      resp.body

module _ {PublicKey Signature S V E : Type 0} (pkg : Packages PublicKey Signature E)
    (srv : Server PublicKey Signature S V E) where
  abbrev pub reply_with : State S V E × Response → State S V E × Reply
  reply_with (st, resp) = (st, reply_of resp)

  -- `readable` is what the request's body yields up to its end or a read error, which is ignored.
  unfoldable pub handle_sign :
      Draws E → (method auth_header readable : Text) → State S V E → State S V E × Reply
  handle_sign draws method auth_header readable st =
      reply_with (sign pkg srv draws method auth_header (take (max_request_body + 1) readable) st)

  unfoldable pub handle_ca_pub : Text → Reply
  handle_ca_pub method =
      if not (str_eq method (codes "GET")) && not (str_eq method (codes "HEAD"))
      then http_error (codes "method not allowed") 405
      else written 200 ((codes "Content-Type", codes "text/plain; charset=utf-8") ∷ [])
          (pkg.marshal_key srv.signer.public_key)

  -- `Handler`: http.ServeMux with two patterns, each of which matches one path. `elsewhere` is what it
  -- answers for another path.
  unfoldable pub handler :
      Reply
      → Draws E
      → (method path auth_header readable : Text) → State S V E
      → State S V E × Reply
  handler elsewhere draws method path auth_header readable st =
      if str_eq path (codes "/sign")
      then handle_sign draws method auth_header readable st
      else if str_eq path (codes "/ca-public-key")
      then (st, handle_ca_pub method)
      else (st, elsewhere)
