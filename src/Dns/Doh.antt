-- ===== src/Dns/Doh.antt =====
-- `Exchange` of the DoH client of dns/doh.go, and the health check of dns/upstream.go.
use zeus_dns_cli.Base.{
  ℕ, Bool, Option, none, some, ◌==◌, Text, codes, text_eq, Result, ok, err, ◌>>=◌, ◌>>◌, guard,
}
use zeus_dns_cli.Net.Http.{Response, status_ok, read_limited}
use zeus_dns_cli.Dns.Message.{Msg, rcode_success}

pub data DohError : Type 0 where
  pack_failed no_request no_response : DohError
  http_status : ℕ → DohError
  bad_content_type : Text → DohError
  read_failed unpack_failed : DohError

-- What `Exchange` calls: `Pack`, `NewRequestWithContext` with `client.Do` as a POST of the wire form
-- to the URL, and `Unpack`.
pub record DohLib (M : Type 0) : Type 0 where
  pub pack : M → Option Text
  pub request : Text → Bool
  pub post : Text → Text → Option Response
  pub unpack : Text → Option M

abbrev pub dns_message : Text
dns_message = codes "application/dns-message"

abbrev pub some_or {ℓ κ} : {E : Type κ} {A : Type ℓ} → E → Option A → Result E A
some_or e none = err e
some_or e (some a) = ok a

-- The checks of a response.
unfoldable pub read_response : {M : Type 0} → DohLib M → Response → Result DohError M
read_response D resp = do
  guard (resp.status == status_ok) (http_status resp.status)
  guard (text_eq resp.content_type dns_message) (bad_content_type resp.content_type)
  body ← some_or read_failed (read_limited 65536 resp)
  some_or unpack_failed (D.unpack body)

-- `Exchange`
unfoldable pub exchange : {M : Type 0} → DohLib M → Text → M → Result DohError M
exchange D url msg = do
  wire ← some_or pack_failed (D.pack msg)
  guard (D.request url) no_request
  resp ← some_or no_response (D.post url wire)
  read_response D resp

pub data CheckError (E : Type 0) : Type 0 where
  exchange_failed : E → CheckError E
  no_answer : CheckError E
  returned : ℕ → CheckError E

-- `Check` behind the making of its client: what the exchange of the query gives.
unfoldable pub check :
    {E Rr : Type 0} → Result E (Option (Msg Rr)) → Result (CheckError E) (Unit {0})
check (err e) = err (exchange_failed e)
check (ok none) = err no_answer
check (ok (some r)) = guard (r.rcode == rcode_success) (returned r.rcode)
