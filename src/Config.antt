-- ===== src/Config.antt =====
-- `Config` of config/config.go: its defaults, the layers of `Load`, `Validate` and `RedactURL`.
-- What the operating system and yaml.v3 give is a parameter: the environment, the file that is
-- read, `yaml.Unmarshal` over the defaults, and `filepath.Abs`.
pub mod LogPath
pub mod Save
pub mod Atomic
pub mod Layers
pub mod Accepts
pub mod Redact
use zeus_dns_cli.Base.{
  is_empty, ℕ, zero, suc, ◌+◌, ◌-◌, ◌*◌, Bool, true, false, ◌||◌, ◌&&◌, not, Option, none, some,
  List, [], ◌∷◌, ◌++◌, ◌==◌, if◌then◌else◌, ltb, leb, Text, codes, text_eq, has_prefix, to_lower,
  trim_space, split, decimal, length, take, Result, ok, err, ◌>>=◌, ◌>>◌, guard, wrap_err,
}
use zeus_dns_cli.Base.Int.{ℤ, pos, negsuc}
use zeus_dns_cli.Net.{IpLib}

pub record Listener : Type 0 where
  pub ip : Text
  pub port : ℤ

pub record Log : Type 0 where
  pub level : Text
  pub path : Text

pub record Windows : Type 0 where
  pub set_system_dns : Bool
  pub wfp_loopback_protect : Bool

-- The record `Cache` has one field, its size.
pub record Config : Type 0 where
  pub upstreams : List Text
  pub listener : Listener
  pub cache_size : ℤ
  pub log : Log
  pub windows : Windows

abbrev pub default_dir : Text
default_dir = codes "C:\\ProgramData\\ZeusDNS"

abbrev pub default_file : Text
default_file = default_dir ++ codes "\\config.yaml"

-- `Default`
abbrev pub default : Config
default = record {
  upstreams = [];
  listener = record { ip = codes "127.0.0.1"; port = pos 53 };
  cache_size = pos 4096;
  log = record { level = codes "info"; path = default_dir ++ codes "\\zeusdns.log" };
  windows = record { set_system_dns = true; wfp_loopback_protect = true };
}

pub data ConfigError : Type 0 where
  bad_yaml unreadable : Text → ConfigError
  bad_port_env bad_cache_env : Text → ConfigError
  no_upstreams : ConfigError
  bad_port : ℤ → ConfigError
  bad_ip : Text → ConfigError
  bad_upstream : Text → ConfigError
  unresolved_log outside_log : Text → ConfigError

-- `strconv.Atoi` on a 64-bit machine: digits behind one sign at most, within the range.
abbrev pub is_digit : ℕ → Bool
is_digit c = leb b'0' c && leb c b'9'

unfoldable pub digits_loop : ℕ → Text → Option ℕ
digits_loop n [] = some n
digits_loop n (c ∷ s) =
    let rest = digits_loop (n * 10 + (c - b'0')) s in if is_digit c then rest else none

unfoldable pub digits : Text → Option ℕ
digits [] = none
digits (c ∷ s) = digits_loop 0 (c ∷ s)

unfoldable pub negated : ℕ → ℤ
negated zero = pos 0
negated (suc n) = negsuc n

abbrev pub int_limit : ℕ
int_limit = 9223372036854775808

unfoldable pub signed : Bool → Option ℕ → Option ℤ
signed negative none = none
signed true (some n) = if leb n int_limit then some (negated n) else none
signed false (some n) = if ltb n int_limit then some (pos n) else none

unfoldable pub atoi : Text → Option ℤ
atoi [] = none
atoi (c ∷ s) =
    if c == b'-'
    then signed true (digits s)
    else if c == b'+'
    then signed false (digits s)
    else signed false (digits (c ∷ s))

abbrev pub is_some {ℓ} : {A : Type ℓ} → Option A → Bool
is_some none = false
is_some (some a) = true

-- The test `1 <= port && port <= 65535` of `Validate`.
abbrev pub port_in_range : ℤ → Bool
port_in_range (pos n) = leb 1 n && leb n 65535
port_in_range (negsuc n) = false

-- The loop of `splitCSV`
unfoldable pub keep_parts : List Text → List Text
keep_parts [] = []
keep_parts (p ∷ ps) =
    let rest = keep_parts ps in if is_empty (trim_space p) then rest else trim_space p ∷ rest

-- `splitCSV`
unfoldable pub split_csv : Text → List Text
split_csv s = keep_parts (split s b',')

-- `parseBool`
unfoldable pub parse_bool : Text → Bool
parse_bool s =
    let t = to_lower (trim_space s) in
    text_eq t (codes "1")
    || text_eq t (codes "true")
    || text_eq t (codes "yes")
    || text_eq t (codes "y")
    || text_eq t (codes "on")

-- The assignments of `applyEnv`, in its order.
module _ (env : Text → Text) where
  unfoldable pub env_text : Text → Text → Text
  env_text name old = if is_empty (env name) then old else env name

  unfoldable pub env_list : Text → List Text → List Text
  env_list name old = if is_empty (env name) then old else split_csv (env name)

  unfoldable pub env_bool : Text → Bool → Bool
  env_bool name old = if is_empty (env name) then old else parse_bool (env name)

  unfoldable pub env_int : Text → ConfigError → ℤ → Result ConfigError ℤ
  env_int name e old =
      if is_empty (env name)
      then ok old
      else elim (atoi (env name)) [ none ↦ err e | some n ↦ ok n ]

  -- `applyEnv`
  unfoldable pub apply_env : Config → Result ConfigError Config
  apply_env c = do
    let ups = env_list (codes "ZEUSDNS_UPSTREAMS") c.upstreams
    let ip = env_text (codes "ZEUSDNS_LISTENER_IP") c.listener.ip
    port ←
        env_int (codes "ZEUSDNS_LISTENER_PORT") (bad_port_env (env (codes "ZEUSDNS_LISTENER_PORT")))
          c.listener.port
    size ←
        env_int (codes "ZEUSDNS_CACHE_SIZE") (bad_cache_env (env (codes "ZEUSDNS_CACHE_SIZE")))
          c.cache_size
    ok (record {
      upstreams = ups;
      listener = record { ip = ip; port = port };
      cache_size = size;
      log = record {
        level = env_text (codes "ZEUSDNS_LOG_LEVEL") c.log.level;
        path = env_text (codes "ZEUSDNS_LOG_PATH") c.log.path;
      };
      windows = record {
        set_system_dns = env_bool (codes "ZEUSDNS_WINDOWS_SET_SYSTEM_DNS") c.windows.set_system_dns;
        wfp_loopback_protect =
            env_bool (codes "ZEUSDNS_WINDOWS_WFP_LOOPBACK_PROTECT") c.windows.wfp_loopback_protect;
      };
    })

-- What `os.ReadFile` gives.
pub data FileRead : Type 0 where
  contents : Text → FileRead
  absent unreadable_file : FileRead

module _ (read_file : Text → FileRead) (unmarshal : Text → Config → Option Config) where
  -- The file's layer of `Load`.
  unfoldable pub read_config : Text → Result ConfigError Config
  read_config path = elim (read_file path) [
    | absent ↦ ok default
    | unreadable_file ↦ err (unreadable path)
    | contents text ↦ elim (unmarshal text default) [ none ↦ err (bad_yaml path) | some c ↦ ok c ]
  ]

  -- `Load`
  unfoldable pub load : (Text → Text) → Text → Result ConfigError Config
  load env path = do c ← read_config (if is_empty path then default_file else path); apply_env env c

-- The place of the third slash: the loop of `RedactURL`, `count` slashes before `i`.
unfoldable pub third_slash : ℕ → ℕ → Text → ℕ
third_slash count i [] = 0
third_slash count i (c ∷ s) = elim (c == b'/') [
  | false ↦ third_slash count (i + 1) s
  | true ↦ if count + 1 == 3 then i else third_slash (count + 1) (i + 1) s
]

-- `RedactURL`
unfoldable pub redact_url : Text → Text
redact_url raw =
    if ltb (length raw) 8 || not (text_eq (take 8 raw) (codes "https://"))
    then raw
    else let slash = third_slash 0 0 raw in
      if slash == 0 || slash == length raw - 1 then raw else take (slash + 1) raw ++ codes "***"

-- The test of `Validate` on an upstream.
unfoldable pub has_scheme : Text → Bool
has_scheme raw =
    let s = to_lower (trim_space raw) in
    has_prefix s (codes "https://")
    || has_prefix s (codes "tls://")
    || has_prefix s (codes "dot://")

unfoldable pub check_upstreams : List Text → Result ConfigError (Unit {0})
check_upstreams [] = ok tt
check_upstreams (raw ∷ raws) =
    if has_scheme raw then check_upstreams raws else err (bad_upstream (redact_url raw))

module _ (abs : Text → Option Text) where
  -- `ValidateLogPath`
  unfoldable pub validate_log_path : Text → Result ConfigError (Unit {0})
  validate_log_path p = if is_empty p then ok tt else elim (abs p) [
    | none ↦ err (unresolved_log p)
    | some a ↦
        let dir = default_dir ++ codes "\\" in
        if not (has_prefix (a ++ codes "\\") dir) && not (has_prefix (a ++ codes "/") dir)
        then err (outside_log p)
        else ok tt
  ]

  -- `Config.Validate`
  unfoldable pub validate : IpLib → Config → Result ConfigError (Unit {0})
  validate I c = do
    guard (not (length c.upstreams == 0)) no_upstreams
    guard (port_in_range c.listener.port) (bad_port c.listener.port)
    guard (is_some (I.parse_ip c.listener.ip)) (bad_ip c.listener.ip)
    check_upstreams c.upstreams
    validate_log_path c.log.path
