-- ===== src/Net/Http.antt =====
-- HTTP responses as Go's packages net/http and io give them to the program.
use zeus_dns_cli.Base.{ℕ, Bool, ◌&&◌, Option, none, some, ltb, if◌then◌else◌, Text, length, take}

-- The status, the header `Content-Type`, the body, and whether its stream breaks off at its end.
pub record Response : Type 0 where
  pub status : ℕ
  pub content_type : Text
  pub body : Text
  pub broken : Bool

abbrev pub status_ok : ℕ
status_ok = 200

-- `io.ReadAll(io.LimitReader(resp.Body, limit))`: what lies behind the limit is not read, a break
-- there not noticed.
unfoldable pub read_limited : ℕ → Response → Option Text
read_limited limit r =
    if r.broken && ltb (length r.body) limit then none else some (take limit r.body)

-- `io.ReadAll(resp.Body)`
unfoldable pub read_all : Response → Option Text
read_all r = if r.broken then none else some r.body
