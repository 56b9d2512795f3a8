-- ===== src/Updater/Download.antt =====
-- The downloads of updater/update.go with their limits, the archive with the new binary, the redirects
-- that the updater's client follows, and the answer of sc.exe.
pub mod Bounded
use zeus_dns_cli.Base.{
  ℕ, zero, suc, ◌+◌, ◌*◌, Bool, true, false, ◌&&◌, not, Option, none, some, List, [], ◌∷◌, ◌==◌,
  ltb, leb, if◌then◌else◌, Text, codes, text_eq, equal_fold, contains, length, take, Result, ok,
  err, is_ok,
}
use zeus_dns_cli.Net.Http.{Response, status_ok, read_limited, read_all}
use zeus_dns_cli.Updater.{Release, UpdaterLib}
use zeus_dns_cli.Updater.Minisign.{embedded_minisign_pubkey, minisig_verify}

-- `maxDownloadSize` and `maxExtractSize`: 64 << 20
abbrev pub max_size : ℕ
max_size = 67108864

-- `allowedDownloadHosts`
abbrev pub allowed_download_hosts : List Text
allowed_download_hosts =
    codes "github.com" ∷ codes "api.github.com" ∷ codes "objects.githubusercontent.com" ∷ []

unfoldable pub is_allowed : List Text → Text → Bool
is_allowed [] host = false
is_allowed (a ∷ hosts) host = if equal_fold host a then true else is_allowed hosts host

-- `CheckRedirect`, behind `via` requests
unfoldable pub check_redirect : ℕ → Text → Bool
check_redirect via host = if leb 10 via then false else is_allowed allowed_download_hosts host

-- The client follows a chain of redirects to these hosts, the first behind one request.
unfoldable pub follows : ℕ → List Text → Bool
follows via [] = true
follows via (host ∷ hosts) = check_redirect via host && follows (via + 1) hosts

-- What can go wrong with a temporary file: its making, and its closing.
pub record TempFaults : Type 0 where
  pub no_create : Bool
  pub no_close : Bool

-- `io.Copy` of a limited stream to a temporary file, with the checks behind it: the content where
-- all is well, and the file that is left. The stream breaks off at its end where `broken`.
unfoldable pub copy_limited : TempFaults → Text → Bool → Option Text × Option Text
copy_limited f content broken =
    if f.no_create
    then (none, none)
    else if broken && ltb (length content) (max_size + 1)
    then (none, none)
    else (let written = take (max_size + 1) content in
        if ltb max_size (length written)
        then (none, none)
        else if f.no_close
        then (none, some written)
        else (some written, some written))

-- `downloadToTemp`: none is a request that failed.
unfoldable pub download_to_temp : TempFaults → Option Response → Option Text × Option Text
download_to_temp f none = (none, none)
download_to_temp f (some resp) =
    if not (resp.status == status_ok) then (none, none) else copy_limited f resp.body resp.broken

-- `downloadMinisig` behind the choice of the asset
unfoldable pub read_minisig : Option Response → Option Text
read_minisig none = none
read_minisig (some resp) = if not (resp.status == status_ok) then none else read_limited 4096 resp

-- The reading of the checksum file in `verifyCandidate`
unfoldable pub read_checksums : Option Response → Option Text
read_checksums none = none
read_checksums (some resp) = if not (resp.status == status_ok) then none else read_all resp

-- `fetchLatestRelease`: `decode_release` is the JSON decoder.
unfoldable pub fetch_latest_release : (Text → Option Release) → Option Response → Option Release
fetch_latest_release decode_release none = none
fetch_latest_release decode_release (some resp) =
    if not (resp.status == status_ok) then none else decode_release resp.body

-- An entry of an archive: its name, the size that it declares, and what reading it gives.
pub record Entry : Type 0 where
  pub name : Text
  pub declared : ℕ
  pub opens : Bool
  pub content : Text
  pub broken : Bool

-- `copyZipEntry`
unfoldable pub copy_zip_entry : TempFaults → Entry → Option Text × Option Text
copy_zip_entry f e =
    if not e.opens
    then (none, none)
    else if ltb max_size e.declared
    then (none, none)
    else copy_limited f e.content e.broken

-- `config.BinaryName`
abbrev pub binary_name : Text
binary_name = codes "zeusdns.exe"

-- The loop of `extractExe`
unfoldable pub find_entry_named : Text → List Entry → Option Entry
find_entry_named name [] = none
find_entry_named name (e ∷ es) = if text_eq e.name name then some e else find_entry_named name es

-- `extractExe`: none is an archive that cannot be opened.
unfoldable pub extract_exe : TempFaults → Option (List Entry) → Option Text × Option Text
extract_exe f none = (none, none)
extract_exe f (some entries) = elim (find_entry_named binary_name entries) [
  | none ↦ (none, none)
  | some e ↦ copy_zip_entry f e
]

-- `serviceStatus`: what `sc query` prints, where it succeeds.
unfoldable pub service_status : Option Text → Option Text
service_status none = none
service_status (some out) =
    if contains out (codes "RUNNING")
    then some (codes "running")
    else if contains out (codes "STOPPED")
    then some (codes "stopped")
    else some (codes "unknown")

-- What the updater finds: the answers to its requests, by URL, and the libraries that it calls.
pub record Web : Type 0 where
  pub get : Text → Option Response
  pub latest_url : Text
  pub decode_release : Text → Option Release
  pub open_zip : Text → Option (List Entry)
  pub is_semver : Text → Bool
  pub is_newer : Text → Text → Bool
  pub ed25519 : Text → Text → Text → Bool
  pub sha256_hex : Text → Text
  pub base : Text → Text
  pub zip_faults : TempFaults
  pub exe_faults : TempFaults

-- The parts of `Update` as the program has them, with this embedded key.
unfoldable pub web_lib : Text → Web → UpdaterLib
web_lib embedded W = record {
  latest = fetch_latest_release W.decode_release (W.get W.latest_url);
  is_semver = W.is_semver;
  is_newer = W.is_newer;
  download_zip = λ url. (download_to_temp W.zip_faults (W.get url)).0;
  download_sig = λ url. read_minisig (W.get url);
  download_sums = λ url. read_checksums (W.get url);
  minisig_verify = λ zip sig. is_ok (minisig_verify W.ed25519 embedded zip sig);
  extract_exe = λ zip. (extract_exe W.exe_faults (W.open_zip zip)).0;
  sha256_hex = W.sha256_hex;
  base = W.base;
}
