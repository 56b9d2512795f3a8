-- ===== src/Preflight.antt =====
-- `Preflight` of cmd/util.go: the probe of the local port before the service is installed.
pub mod Frees
use zeus_dns_cli.Base.{
  ℕ, zero, suc, ◌+◌, ◌==◌, Bool, true, false, ◌||◌, not, Option, none, some, if◌then◌else◌, Text,
  codes, to_lower, contains, Result, ok, err, ◌>>◌,
}

-- The error of an attempt to bind the port: the number of the system's error that it wraps, where
-- it does, and its text.
pub record BindError : Type 0 where
  pub errno : Option ℕ
  pub text : Text

-- `isAddrInUse`
unfoldable pub is_addr_in_use : BindError → Bool
is_addr_in_use e = elim e.errno [
  | some n ↦ n == 10048
  | none ↦
      let s = to_lower e.text in
      contains s (codes "in use") || contains s (codes "address already in use")
]

pub data PreflightError : Type 0 where
  udp_in_use tcp_in_use : PreflightError
  bind_error : BindError → PreflightError

-- `maxRetries`
abbrev pub max_retries : ℕ
max_retries = 6

-- The loop of one protocol, from the attempt `i` on with `left` attempts: `attempt i` is the error of
-- the attempt, if it fails, and the last one that finds the port in use ends with `busy`.
unfoldable pub probe_loop :
    PreflightError → (ℕ → Option BindError) → ℕ → ℕ → Result PreflightError (Unit {0})
probe_loop busy attempt zero i = ok tt
probe_loop busy attempt (suc left) i = elim (attempt i) [
  | none ↦ ok tt
  | some e ↦ elim (is_addr_in_use e) [
    | false ↦ err (bind_error e)
    | true ↦ elim left [ zero ↦ err busy | suc more ↦ probe_loop busy attempt left (i + 1) ]
  ]
]

-- `Preflight`
unfoldable pub preflight :
    (ℕ → Option BindError) → (ℕ → Option BindError) → Result PreflightError (Unit {0})
preflight udp tcp =
    probe_loop udp_in_use udp max_retries 0 >> probe_loop tcp_in_use tcp max_retries 0
