-- ===== src/Windows.antt =====
-- The system DNS settings of windows/dns.go: their backup in prev_dns.json, the takeover, and the
-- restoring. PowerShell, JSON and SHA-256 are parameters.
pub mod System
pub mod Quote
pub mod Script
pub mod Bootstrap
pub mod Path
pub mod Acl
pub mod Wfp
use zeus_dns_cli.Base.{
  is_empty, ℕ, ◌+◌, Bool, true, false, ◌||◌, ◌&&◌, not, Option, none, some, List, [], ◌∷◌, ◌++◌,
  ◌==◌, if◌then◌else◌, Text, codes, text_eq, join, length, Result, ok, err, ◌>>=◌,
}
use zeus_dns_cli.Net.{IpLib}

-- `ifaceDNS`
pub record Iface : Type 0 where
  pub alias : Text
  pub servers : List Text
  pub dhcp : Text

-- `prevDNSFile`
pub record PrevFile : Type 0 where
  pub entries : List Iface
  pub checksum : Text

-- `strings.ReplaceAll(alias, "'", "''")`
unfoldable pub double_quotes : Text → Text
double_quotes [] = []
double_quotes (c ∷ s) = let rest = double_quotes s in if c == b'\'' then c ∷ c ∷ rest else c ∷ rest

-- `quoteAlias`
unfoldable pub quote_alias : Text → Text
quote_alias alias = codes "'" ++ (double_quotes alias ++ codes "'")

-- A value of `any` as encoding/json decodes it.
pub data Json : Type 0 where
  text : Text → Json
  number : (is_one : Bool) → Json
  null : Json
  other : (printed : Text) → Json

-- `dhcpString`
unfoldable pub dhcp_string : Json → Text
dhcp_string (text s) = s
dhcp_string (number is_one) = if is_one then codes "Enabled" else codes "Disabled"
dhcp_string null = []
dhcp_string (other printed) = printed

-- `encoding/json` at the types that the program decodes, and `fmt.Sprintf("%x", sha256.Sum256(b))`.
-- `decode_combined` gives the raw `dns` part and the `dhcp` part where that is there and not null.
pub record JsonLib : Type 0 where
  pub decode_iface : Text → Option Iface
  pub decode_ifaces : Text → Option (List Iface)
  pub decode_dhcp_row : Text → Option (Text × Json)
  pub decode_dhcp_rows : Text → Option (List (Text × Json))
  pub decode_combined : Text → Option (Text × Option Text)
  pub encode_ifaces : List Iface → Text
  pub decode_prev : Text → Option PrevFile
  pub encode_prev : PrevFile → Option Text
  pub decode_errors : Text → Option (List (Text × Text))
  pub sha256_hex : Text → Text

pub data DnsError : Type 0 where
  query_failed bad_combined bad_dns : DnsError
  not_exist denied checksum_mismatch bad_prev : DnsError
  mkdir_failed encode_failed write_failed : DnsError
  script_failed : DnsError
  reported : List (Text × Text) → DnsError

-- The value at a key of the map that `parseDhcpJSON` fills row by row: a later row wins.
unfoldable pub last_dhcp : Text → List (Text × Json) → Option Text
last_dhcp alias [] = none
last_dhcp alias ((a, d) ∷ rows) = elim (last_dhcp alias rows) [
  | some found ↦ some found
  | none ↦ if text_eq a alias then some (dhcp_string d) else none
]

module _ (J : JsonLib) where
  -- `parseDhcpJSON` with the look-up of an alias in its map
  unfoldable pub parse_dhcp_json : Text → Text → Option Text
  parse_dhcp_json b alias =
      let many : Option Text = elim (J.decode_dhcp_rows b) [
        | none ↦ none
        | some rows ↦ last_dhcp alias rows
      ] in
      elim (J.decode_dhcp_row b) [
        | none ↦ many
        | some (a, d) ↦ if is_empty a then many else last_dhcp alias ((a, d) ∷ [])
      ]

  -- `normalizePSJSON`
  unfoldable pub normalize_ps_json : Text → Result DnsError (List Iface)
  normalize_ps_json b =
      let many : Result DnsError (List Iface) = elim (J.decode_ifaces b) [
        | none ↦ err bad_dns
        | some arr ↦ ok arr
      ] in
      elim (J.decode_iface b) [
        | none ↦ many
        | some single ↦ if is_empty single.alias then many else ok (single ∷ [])
      ]

  unfoldable pub annotate : Text → List Iface → List Iface
  annotate b [] = []
  annotate b (e ∷ es) =
      elim (parse_dhcp_json b e.alias) [ none ↦ e | some d ↦ record e { dhcp = d } ] ∷ annotate b es

  -- `getSystemDNSAndDhcp`, from what its script prints
  unfoldable pub get_system_dns : Option Text → Result DnsError (List Iface)
  get_system_dns none = err query_failed
  get_system_dns (some out) = elim (J.decode_combined out) [
    | none ↦ err bad_combined
    | some (dns, dhcp) ↦ normalize_ps_json dns >>= λ entries.
        ok (elim dhcp [ none ↦ entries | some b ↦ annotate b entries ])
  ]

  -- `parsePrevDNS`
  unfoldable pub parse_prev_dns : Text → Result DnsError (List Iface)
  parse_prev_dns b = elim (J.decode_prev b) [
    | none ↦ elim (J.decode_ifaces b) [ none ↦ err bad_prev | some arr ↦ ok arr ]
    | some pf ↦
        if not (is_empty pf.checksum)
          && not (text_eq (J.sha256_hex (J.encode_ifaces pf.entries)) pf.checksum)
        then err checksum_mismatch
        else ok pf.entries
  ]

  -- `loadPrev`; `locked` tells that an existing file cannot be read.
  unfoldable pub load_prev : Bool → Option Text → Result DnsError (List Iface)
  load_prev locked none = err not_exist
  load_prev locked (some b) = if locked then err denied else parse_prev_dns b

  -- The wrapper that `SaveSystemDNS` writes.
  unfoldable pub prev_file : List Iface → PrevFile
  prev_file entries = record {
    entries = entries;
    checksum = J.sha256_hex (J.encode_ifaces entries);
  }

-- The scripts of `SetSystemDNS` and `RestoreSystemDNS`.
unfoldable pub try_line : Text → Text → Text
try_line command alias =
    codes "try{"
    ++ (command
        ++ (codes " -ErrorAction Stop}catch{$errors+=@{iface="
            ++ (alias ++ codes ";err=$_.Exception.Message}}")))

unfoldable pub servers_command : Text → Text → Text
servers_command alias servers =
    codes "Set-DnsClientServerAddress -InterfaceAlias "
    ++ (alias ++ (codes " -ServerAddresses '" ++ (servers ++ codes "'")))

unfoldable pub reset_command : Text → Text
reset_command alias =
    codes "Set-DnsClientServerAddress -InterfaceAlias " ++ (alias ++ codes " -ResetServerAddresses")

unfoldable pub whole_script : List Text → Text
whole_script lines =
    codes "$errors=@();"
    ++ (join lines (codes ";") ++ codes ";ConvertTo-Json -Compress -InputObject $errors")

unfoldable pub set_lines : Text → List Iface → List Text
set_lines addr [] = []
set_lines addr (e ∷ es) =
    let rest = set_lines addr es in
    let alias = quote_alias e.alias in
    if is_empty e.servers then rest else try_line (servers_command alias addr) alias ∷ rest

unfoldable pub restore_line : Iface → Text
restore_line e =
    let alias = quote_alias e.alias in
    try_line
      (if text_eq e.dhcp (codes "Enabled") || is_empty e.servers
        then reset_command alias
        else servers_command alias (join e.servers (codes ",")))
      alias

unfoldable pub restore_lines : List Iface → List Text
restore_lines [] = []
restore_lines (e ∷ es) = restore_line e ∷ restore_lines es

-- The loops of `GetBootstrapDNS`: `seen` holds the texts taken before.
module _ (I : IpLib) where
  unfoldable pub is_usable : Text → Bool
  is_usable s = elim (I.parse_ip s) [
    | none ↦ false
    | some ip ↦
        not (
          I.is_loopback ip
          || I.is_unspecified ip
          || I.is_link_local_unicast ip
          || I.is_multicast ip)
  ]

  unfoldable pub is_seen : Text → List Text → Bool
  is_seen s [] = false
  is_seen s (t ∷ seen) = text_eq t s || is_seen s seen

  -- The inner loop, `ips` in the order in which they were taken.
  unfoldable pub take_servers : List Text → List Text → List Text
  take_servers ips [] = ips
  take_servers ips (s ∷ ss) =
      take_servers (if not (is_usable s) || is_seen s ips then ips else ips ++ (s ∷ [])) ss

  unfoldable pub take_ifaces : List Text → List Iface → List Text
  take_ifaces ips [] = ips
  take_ifaces ips (e ∷ es) = take_ifaces (take_servers ips e.servers) es

  abbrev pub public_bootstrap : List Text
  public_bootstrap = codes "1.1.1.1" ∷ codes "8.8.8.8" ∷ codes "9.9.9.9" ∷ []

  -- `GetBootstrapDNS`
  unfoldable pub get_bootstrap_dns : Result DnsError (List Iface) → List Text
  get_bootstrap_dns (err e) = public_bootstrap
  get_bootstrap_dns (ok entries) =
      let ips = take_ifaces [] entries in if is_empty ips then public_bootstrap else ips
