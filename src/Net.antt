-- ===== src/Net.antt =====
-- The functions of Go's package net on `host:port` texts that the program calls, after the
-- standard library, and what the program takes of it as a parameter: the reading of IP addresses.
pub mod Address
pub mod Http
use zeus_dns_cli.Base.{
  ℕ, Bool, true, false, ◌||◌, ◌&&◌, not, Option, none, some, [], ◌∷◌, ◌++◌, ◌==◌, if◌then◌else◌,
  Text, codes, Result, ok, err,
}

-- `strings.IndexByte(s, c) >= 0`
unfoldable pub has_byte : ℕ → Text → Bool
has_byte c [] = false
has_byte c (x ∷ s) = x == c || has_byte c s

-- The text before and behind the first `c`, and those before and behind the last `c`.
unfoldable pub cut_first : ℕ → Text → Option (Text × Text)
cut_first c [] = none
cut_first c (x ∷ s) =
    let rest = cut_first c s in
    if x == c
    then some ([], s)
    else elim rest [ none ↦ none | some (before, behind) ↦ some (x ∷ before, behind) ]

unfoldable pub cut_last : ℕ → Text → Option (Text × Text)
cut_last c [] = none
cut_last c (x ∷ s) = elim (cut_last c s) [
  | some (before, behind) ↦ some (x ∷ before, behind)
  | none ↦ if x == c then some ([], s) else none
]

pub data AddrError : Type 0 where
  missing_port too_many_colons missing_bracket unexpected_open unexpected_close : AddrError

-- The two checks for stray brackets at the end of `SplitHostPort`.
unfoldable pub check_brackets : Text → Text → Text × Text → Result AddrError (Text × Text)
check_brackets opens closes host_port =
    if has_byte b'[' opens
    then err unexpected_open
    else if has_byte b']' closes
    then err unexpected_close
    else ok host_port

-- `SplitHostPort` behind a `[`.
unfoldable pub split_bracketed : Text → Result AddrError (Text × Text)
split_bracketed t = elim (cut_first b']' t) [
  | none ↦ err missing_bracket
  | some (host, []) ↦ err missing_port
  | some (host, c ∷ port) ↦
      if not (c == b':')
      then err missing_port
      else if has_byte b':' port
      then err too_many_colons
      else check_brackets t (c ∷ port) (host, port)
]

-- `SplitHostPort` of a text that begins otherwise.
unfoldable pub split_plain : Text → Result AddrError (Text × Text)
split_plain s = elim (cut_last b':' s) [
  | none ↦ err missing_port
  | some (host, port) ↦
      if has_byte b':' host then err too_many_colons else check_brackets s s (host, port)
]

-- `net.SplitHostPort`
unfoldable pub split_host_port : Text → Result AddrError (Text × Text)
split_host_port [] = err missing_port
split_host_port (c ∷ t) =
    if not (has_byte b':' (c ∷ t))
    then err missing_port
    else if c == b'['
    then split_bracketed t
    else split_plain (c ∷ t)

-- `net.JoinHostPort`
unfoldable pub join_host_port : Text → Text → Text
join_host_port host port =
    if has_byte b':' host
    then codes "[" ++ (host ++ (codes "]:" ++ port))
    else host ++ (codes ":" ++ port)

-- `net.ParseIP`, and the tests on an address that the program makes.
pub record IpLib : Type 1 where
  pub Ip : Type 0
  pub parse_ip : Text → Option Ip
  pub is_loopback : Ip → Bool
  pub is_link_local_unicast : Ip → Bool
  pub is_link_local_multicast : Ip → Bool
  pub is_multicast : Ip → Bool
  pub is_unspecified : Ip → Bool

-- `url.Parse`: the parts of a URL that the program reads.
pub record Url : Type 0 where
  pub scheme : Text
  pub hostname : Text
  pub port : Text
