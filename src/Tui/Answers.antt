-- ===== src/Tui/Answers.antt =====
-- What the commands of tui/configure.go send, by what the resolver answers.
use zeus_dns_cli.Base.{
  ℕ, ◌≡◌, inl, inr, Bool, true, false, Option, [], ◌++◌, Text, codes, arith, Result, Result-cases,
  ok,
}
use zeus_dns_cli.Dns.Message
use zeus_dns_cli.Dns.Upstream.{Upstream, Client, parse_upstream}
use zeus_dns_cli.Tui.{test_result, validate_add}
use zeus_dns_cli.Tui.Check.{
  Checks, unparsed, check_upstream, check_upstream_cmd, validate_resolver_cmd,
}

-- Each command sends its own kind of message.
module _ (C : Checks) (answer : Client → Result C.Failure (Option (Message.Msg C.Record))) where
  pub validate_resolver_cmd-validate_add :
      (raw : Text)
      → (passed : Bool) × (error : Text) × (validate_resolver_cmd C answer raw
          ≡ validate_add passed error raw)
  unfolding validate_resolver_cmd
  validate_resolver_cmd-validate_add raw = elim (Result-cases (parse_upstream C.parse_url raw)) [
    | inr (e, h) ↦ (false, C.show (unparsed e), ground (arith, h))
    | inl (u, h) ↦ elim (Result-cases (check_upstream C answer u)) [
      | inr (e, k) ↦ (false, codes "resolver didn't respond: " ++ C.show e, ground (arith, h, k))
      | inl (_, k) ↦ (true, [], ground (arith, h, k))
    ]
  ]

  pub check_upstream_cmd-test_result :
      (i : ℕ) (raw : Text)
      → (passed : Bool) × (error : Text) × (check_upstream_cmd C answer i raw
          ≡ test_result i passed error)
  unfolding check_upstream_cmd
  check_upstream_cmd-test_result i raw = elim (Result-cases (parse_upstream C.parse_url raw)) [
    | inr (e, h) ↦ (false, C.show (unparsed e), ground (arith, h))
    | inl (u, h) ↦ elim (Result-cases (check_upstream C answer u)) [
      | inr (e, k) ↦ (false, C.show e, ground (arith, h, k))
      | inl (_, k) ↦ (true, [], ground (arith, h, k))
    ]
  ]

  -- A resolver is reported as valid only where its address is read and its check passes.
  pub validate_resolver_cmd-passed :
      (raw error raw' : Text)
      → validate_resolver_cmd C answer raw ≡ validate_add true error raw'
      → (raw' ≡ raw)
        × (u : Upstream) × (parse_upstream C.parse_url raw ≡ ok u)
        × (check_upstream C answer u ≡ ok tt)
  unfolding validate_resolver_cmd
  validate_resolver_cmd-passed raw error raw' p =
      elim (Result-cases (parse_upstream C.parse_url raw)) [
        | inr (e, h) ↦ ground (arith, h)
        | inl (u, h) ↦ elim (Result-cases (check_upstream C answer u)) [
          | inr (e, k) ↦ ground (arith, h, k)
          | inl (_, k) ↦ (ground (arith, h, k), u, h, k)
        ]
      ]
