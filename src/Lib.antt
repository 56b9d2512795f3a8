-- ===== src/Lib.antt =====
-- ZeusDNS-CLI: a DNS forwarder for Windows that listens on 127.0.0.1:53, answers from a cache or
-- races its DoH and DoT upstreams, and makes itself the system's DNS server while it runs.
--
-- The parts and how they interact:
--   Base, Net       shared names: tests on numbers, lists, texts as lists of bytes, dictionaries,
--                   results of fallible code, integers; `host:port` texts as Go's package net
--                   splits and joins them.
--   Dns.Message     DNS messages as values; the library miekg/dns is the parameter `DnsLib`.
--   Dns.Ttl         minTTL and negativeTTL of dns/cache.go.
--   Dns.Cache       the cache of dns/cache.go: NewCache, Get, Put, cacheKey over a map and a linked
--                   list whose elements have addresses. Spec is the ideal bounded list, Linked and
--                   Refine relate the two, Runs has whole sequences of calls, Lifetime the TTLs.
--   Dns.RateLimit   ipRateLimiter of dns/server.go; Live and Live.Window prove what it admits.
--   Dns.Race        resolveRace of dns/server.go over the answers in the order of their arrival.
--   Dns.Server      ServeDNS and applyEDNSTruncation of dns/server.go: size limit, rate limit,
--                   cache, flight, reply. A flight of the singleflight group leads or joins.
--   Dns.Upstream    ParseUpstream, Validate and Exchanger of dns/upstream.go.
--   Dns.Setup       NewServer of dns/server.go.
--   Config          config/config.go: Default, Load, applyEnv, Validate, ValidateLogPath,
--                   RedactURL; Config.Save is the write through a temporary file.
--   Tui             the menu of tui/configure.go; Check has its two commands that ask a resolver,
--                   Steps its event loop with commands in flight. View draws. Sound, Asked
--                   and Prompt say what every reachable menu has, where its resolvers come from,
--                   and what it asks before a deletion.
--   Windows         windows/dns.go: the query, the scripts, the backup, the bootstrap servers;
--                   Windows.System has what they do to the computer. Windows.Quote and
--                   Windows.Script are what PowerShell makes of a quoted text and of the scripts,
--                   with the lines (Lines) and the query (Query) of the program against it.
--   Run             Run and cleanup of cmd/runner.go, as the states the computer goes through;
--                   Keeps has what the scripts do to settings that a backup keeps, Backup how it is
--                   made, Safe whole runs.
--   Samples, Tests  concrete instances, and the theorems at concrete inputs.
--   Updater         updater/update.go: the assets, the checksum file and what may be installed;
--                   Updater.Swap is the swap of the binary with its rollback.
--   Service         service/windows.go: the loop of Execute over its events, stopAndWait with its 40
--                   queries; Service.Manager has Install, Uninstall, Start, Stop and Status over
--                   what the service control manager has registered.
--   Preflight       the check of the local port in cmd/util.go, over what its attempts give.
--   Dns.Pool        the DoT client of dns/dot.go: its pool and its semaphore under goroutines that
--                   interleave, each at its place in the code. Conserved has what no interleaving
--                   breaks, Ends the deadlines and the end of an exchange, Frozen what a late
--                   push leaves.
--   Dns.Hosts       the host name cache of dns/resolver_cache.go, and what the clients dial.
--   Dns.Doh         the exchange of dns/doh.go over the answer of net/http (Net.Http).
--   Dns.Lifecycle   Listen, Serve, PreWarm and Stop of dns/server.go, by their effects.
--   Updater.Minisign, Updater.Base64, Updater.Download
--                   updater/minisign.go with its encoding, and the limits of the downloads and of
--                   the archive in updater/update.go; `web_lib` puts them together.
--   Windows.Path, Windows.Wfp, Windows.Acl
--                   the edits of PATH of windows/path.go, the filters of windows/wfp.go, the rights
--                   of windows/acl.go.
--   Logger          internal/log.go: the rotation, the buffered writer and Close; Owed and Writes
--                   follow what the buffer owes the disk, Kept has whole sessions, Late what comes
--                   behind a failed write or behind Close.
--   Cmd             the commands: Promote (cmd/util.go), Install (cmd/install.go, cmd/lifecycle.go),
--                   Setup (the wizard and the menu), Control, Flags and Main (main.go).
-- Run reads a Config, saves the system DNS through Windows.System, makes a Dns.Setup, and serves
-- with Dns.Server, which uses Dns.RateLimit, Dns.Cache and Dns.Race. Cmd.Main chooses a command;
-- Cmd.Install checks the port (Preflight), places the binary and registers the service, whose loop
-- is Service.
--
-- Conventions: an error is a value of `Result`; the clock is an argument in nanoseconds; a mutex
-- makes each call one step. Texts are bytes, and folding and trimming are those of ASCII. Every
-- loop is structural, except `decimal` in Base, whose fuel is the number plus one and so more than
-- its digits. A difference of two times stops at 0, which no comparison with a window can see.
--
-- Not modelled: sockets, TLS and the settings of HTTP, the query for elevation, console output and
-- the banner, which are mostly calls of the system or of libraries. What the code takes from outside
-- the repository is a parameter: miekg/dns, net.ParseIP, url.Parse, yaml.v3, encoding/json, SHA-256,
-- Ed25519, zip, semver, GitHub, PowerShell, the file system and the text field of bubbles.
pub mod Base
pub mod Net
pub mod Dns
pub mod Config
pub mod Tui
pub mod Windows
pub mod Run
pub mod Updater
pub mod Service
pub mod Preflight
pub mod Cmd
pub mod Logger
pub mod Samples
pub mod Tests
