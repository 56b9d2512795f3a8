-- ===== src/Windows/Wfp.antt =====
-- `LoopbackProtector` of windows/wfp.go: the filters that it installs for loopback DNS, and its
-- session with the Windows Filtering Platform. A dynamic session keeps its rules while it is open.
pub mod Permits
use zeus_dns_cli.Base.{
  ℕ, zero, suc, Bool, true, false, ◌&&◌, ◌||◌, not, Option, none, some, List, [], ◌∷◌, ◌++◌, ◌==◌,
  if◌then◌else◌, map, Result, ok, err,
}

pub data Layer : Type 0 where
  connect_v4 connect_v6 accept_v4 accept_v6 : Layer

pub data Address : Type 0 where
  v4 v6 : ℕ → Address

-- The conditions of a rule, `wf.Match` with the operation equal.
pub data Match : Type 0 where
  ip_protocol : ℕ → Match
  local_address remote_address : Address → Match
  local_port remote_port : ℕ → Match

pub record Rule : Type 0 where
  pub layer : Layer
  pub weight : ℕ
  pub conditions : List Match

-- A connection, at the layer where it is filtered.
pub record Packet : Type 0 where
  pub layer : Layer
  pub protocol : ℕ
  pub local : Address
  pub local_port : ℕ
  pub remote : Address
  pub remote_port : ℕ

abbrev pub udp : ℕ
udp = 17

abbrev pub tcp : ℕ
tcp = 6

-- `127.0.0.1` and `::1`
abbrev pub loopback_v4 : Address
loopback_v4 = v4 0x7f000001

abbrev pub loopback_v6 : Address
loopback_v6 = v6 1

abbrev pub is_inbound : Layer → Bool
is_inbound accept_v4 = true
is_inbound accept_v6 = true
is_inbound l = false

-- `loopbackRule`
unfoldable pub loopback_rule : Layer → Address → ℕ → Rule
loopback_rule layer ip protocol = record {
  layer = layer;
  weight = 0x0fffffff;
  conditions =
      ip_protocol protocol
      ∷ (if is_inbound layer
          then local_address ip ∷ local_port 53 ∷ []
          else remote_address ip ∷ remote_port 53 ∷ []);
}

-- The address of a direction of `buildLoopbackRules`. The code compares with `connect_v6` and
-- `accept_v6`.
abbrev pub loopback_of : Layer → Address
loopback_of connect_v6 = loopback_v6
loopback_of accept_v6 = loopback_v6
loopback_of l = loopback_v4

unfoldable pub rules_of : List Layer → List Rule
rules_of [] = []
rules_of (d ∷ ds) =
    loopback_rule d (loopback_of d) udp ∷ loopback_rule d (loopback_of d) tcp ∷ rules_of ds

-- `buildLoopbackRules`, where each rule gets its GUID
unfoldable pub loopback_rules : List Rule
loopback_rules = rules_of (connect_v4 ∷ connect_v6 ∷ accept_v4 ∷ accept_v6 ∷ [])

-- The rules of the open sessions.
abbrev pub Engine : Type 0
Engine = List (List Rule)

-- `LoopbackProtector`: whether it holds a session, which is then the newest of the engine, and
-- `enabled`.
pub record Protector : Type 0 where
  pub session : Bool
  pub enabled : Bool

pub data WfpError : Type 0 where
  no_session no_sublayer_guid no_sublayer no_rule_guid no_rule : WfpError

-- How the calls of `Enable` end: with the GUIDs of the rules, and at which of them `AddRule` fails.
pub record EnableCalls : Type 0 where
  pub opens : Bool
  pub sublayer_guid : Bool
  pub sublayer : Bool
  pub rule_guids : Bool
  pub fails_at : Option ℕ

-- The loop of `AddRule`: the rules of the session so far, and whether all were added.
unfoldable pub add_rules : Option ℕ → List Rule → List Rule → Bool × List Rule
add_rules fails_at [] added = (true, added)
add_rules (some zero) (r ∷ rs) added = (false, added)
add_rules (some (suc n)) (r ∷ rs) added = add_rules (some n) rs (added ++ r ∷ [])
add_rules none (r ∷ rs) added = add_rules none rs (added ++ r ∷ [])

-- `s.Close()` of the newest session.
abbrev pub close_newest : Engine → Engine
close_newest [] = []
close_newest (s ∷ ss) = ss

-- `Enable` from the session on
unfoldable pub enable_in :
    EnableCalls → Protector → Engine → Result WfpError (Unit {0}) × Protector × Engine
enable_in c p e =
    if not c.sublayer_guid
    then (err no_sublayer_guid, p, close_newest e)
    else if not c.sublayer
    then (err no_sublayer, p, close_newest e)
    else if not c.rule_guids
    then (err no_rule_guid, p, close_newest e)
    else (let (all, added) = add_rules c.fails_at loopback_rules [] in
        let filled = added ∷ close_newest e in
        if all
        then (ok tt, record { session = true; enabled = true }, filled)
        else (err no_rule, p, close_newest filled))

-- `Enable`
unfoldable pub enable :
    EnableCalls → Protector → Engine → Result WfpError (Unit {0}) × Protector × Engine
enable c p e = if not c.opens then (err no_session, p, e) else enable_in c p ([] ∷ e)

-- `Disable`
unfoldable pub disable : Protector → Engine → Protector × Engine
disable p e =
    if p.session then (record { session = false; enabled = false }, close_newest e) else (p, e)
