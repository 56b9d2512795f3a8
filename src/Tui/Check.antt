-- ===== src/Tui/Check.antt =====
-- The two commands of tui/configure.go that ask a resolver: `checkUpstreamCmd` for one of the list
-- and `validateResolverCmd` for a new one, over ParseUpstream, Exchanger and Check.
use zeus_dns_cli.Base.{
  ℕ, true, false, Option, [], ◌++◌, Text, codes, Result, ok, err, ◌>>=◌, wrap_err,
}
use zeus_dns_cli.Net.{Url}
use zeus_dns_cli.Dns.Message
use zeus_dns_cli.Dns.Upstream.{Upstream, UpstreamError, Client, parse_upstream, exchanger}
use zeus_dns_cli.Dns.Doh.{CheckError, check}
use zeus_dns_cli.Tui.{Msg, test_result, validate_add}

pub data TestError (E : Type 0) : Type 0 where
  unparsed no_exchanger : UpstreamError → TestError E
  unhealthy : CheckError E → TestError E

-- What the commands call: url.Parse, `Error` of an error, and what the exchange of the test query
-- with a client may give; an `answer` stands for the network at one time.
pub record Checks : Type 1 where
  pub Failure : Type 0
  pub Record : Type 0
  pub parse_url : Text → Option Url
  pub show : TestError Failure → Text
  pub Possible : (Client → Result Failure (Option (Message.Msg Record))) → Type 0

module _ (C : Checks) (answer : Client → Result C.Failure (Option (Message.Msg C.Record))) where
  -- `Check`
  unfoldable pub check_upstream : Upstream → Result (TestError C.Failure) (Unit {0})
  check_upstream u = do
    client ← wrap_err no_exchanger (exchanger u)
    wrap_err unhealthy (check (answer client))

  -- `checkUpstreamCmd`
  unfoldable pub check_upstream_cmd : ℕ → Text → Msg
  check_upstream_cmd i raw = elim (parse_upstream C.parse_url raw) [
    | err e ↦ test_result i false (C.show (unparsed e))
    | ok u ↦ elim (check_upstream u) [
      | err e ↦ test_result i false (C.show e)
      | ok _ ↦ test_result i true []
    ]
  ]

  -- `validateResolverCmd`
  unfoldable pub validate_resolver_cmd : Text → Msg
  validate_resolver_cmd raw = elim (parse_upstream C.parse_url raw) [
    | err e ↦ validate_add false (C.show (unparsed e)) raw
    | ok u ↦ elim (check_upstream u) [
      | err e ↦ validate_add false (codes "resolver didn't respond: " ++ C.show e) raw
      | ok _ ↦ validate_add true [] raw
    ]
  ]
