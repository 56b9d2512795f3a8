-- ===== src/Tests/Clients.antt =====
-- The host names of upstreams, and the life of the server, at concrete inputs.
use zeus_dns_cli.Base.{Text, codes}

abbrev host : Text
host = codes "a.org"

abbrev ip : Text
ip = codes "1.2.3.4"
