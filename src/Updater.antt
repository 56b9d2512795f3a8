-- ===== src/Updater.antt =====
-- `Update` of updater/update.go: the choice of a release, the checks of what is downloaded, and the
-- swap of the installed binary. GitHub, minisign, zip, SHA-256 and semver are parameters.
pub mod Swap
pub mod Verified
pub mod Base64
pub mod Minisign
pub mod Download
use zeus_dns_cli.Base.{
  ℕ, Bool, true, false, ◌||◌, ◌&&◌, not, Option, none, some, List, [], ◌∷◌, ◌++◌, ◌==◌,
  if◌then◌else◌, leb, Text, codes, text_eq, to_lower, equal_fold, trim_space, contains, has_prefix,
  split, drop, length, Result, ok, err, ◌>>=◌, ◌>>◌, guard,
}
use zeus_dns_cli.Net.{has_byte, cut_last}

-- `ghAsset` and `ghRelease`
pub record Asset : Type 0 where
  pub name : Text
  pub url : Text

pub record Release : Type 0 where
  pub tag : Text
  pub assets : List Asset

pub data UpdateError : Type 0 where
  no_release downgrade no_asset no_download no_signature bad_signature no_exe : UpdateError
  no_checksums no_entry mismatch : UpdateError
  not_installed not_aside not_in_place : UpdateError

-- `strings.TrimPrefix(s, "v")`
unfoldable pub trim_v : Text → Text
trim_v s = if has_prefix s (codes "v") then drop 1 s else s

-- `findAsset`
unfoldable pub find_asset : Text → List Asset → Option Asset
find_asset arch [] = none
find_asset arch (a ∷ assets) =
    let low = to_lower a.name in
    if contains low (codes "windows") && contains low arch then some a else find_asset arch assets

-- The loop of `downloadMinisig`
unfoldable pub find_named : Text → List Asset → Option Asset
find_named name [] = none
find_named name (a ∷ assets) = if text_eq a.name name then some a else find_named name assets

-- `strings.TrimSuffix(name, filepath.Ext(name))`
unfoldable pub stem : Text → Text
stem name = elim (cut_last b'.' name) [
  | none ↦ name
  | some (before, ext) ↦ if has_byte b'/' ext || has_byte b'\\' ext then name else before
]

-- `checksumAssetNames`
unfoldable pub checksum_asset_names : Text → List Text
checksum_asset_names name =
    codes "checksums.txt"
    ∷ codes "SHA256SUMS"
    ∷ codes "sha256sums.txt"
    ∷ codes "sha256sums"
    ∷ (name ++ codes ".sha256")
    ∷ (name ++ codes ".sha256sum")
    ∷ (stem name ++ codes ".sha256")
    ∷ (stem name ++ codes ".sha256sum")
    ∷ []

unfoldable pub find_folded : Text → List Asset → Option Asset
find_folded name [] = none
find_folded name (a ∷ assets) = if equal_fold a.name name then some a else find_folded name assets

-- The loops of `findChecksumAsset`
unfoldable pub find_checksum_asset : List Text → List Asset → Option Asset
find_checksum_asset [] assets = none
find_checksum_asset (c ∷ cs) assets = elim (find_folded c assets) [
  | some a ↦ some a
  | none ↦ find_checksum_asset cs assets
]

-- `isHex`
abbrev pub is_hex_digit : ℕ → Bool
is_hex_digit c = leb b'0' c && leb c b'9' || leb b'a' c && leb c b'f' || leb b'A' c && leb c b'F'

unfoldable pub all_hex : Text → Bool
all_hex [] = true
all_hex (c ∷ s) = is_hex_digit c && all_hex s

unfoldable pub is_hex : Text → Bool
is_hex [] = false
is_hex (c ∷ s) = all_hex (c ∷ s)

-- The texts before and behind the first `sep`: `strings.Contains` with `strings.Index`.
unfoldable pub cut_text : Text → Text → Option (Text × Text)
cut_text sep [] = none
cut_text sep (c ∷ s) =
    let rest : Option (Text × Text) = elim (cut_text sep s) [
      | none ↦ none
      | some (before, behind) ↦ some (c ∷ before, behind)
    ] in
    if has_prefix (c ∷ s) sep then some ([], drop (length sep) (c ∷ s)) else rest

-- The hash and the file name of a line, by its first form that fits.
unfoldable pub parse_line : Text → Option (Text × Text)
parse_line line = elim (cut_text (codes "  ") line) [
  | some (hash, name) ↦ some (trim_space hash, trim_space name)
  | none ↦ elim (cut_text (codes " *") line) [
    | some (hash, name) ↦ some (trim_space hash, trim_space name)
    | none ↦ none
  ]
]

-- What the updater calls: `fetchLatestRelease`, `semver`, the downloads by URL,
-- `minisigVerify`, `extractExe`, the SHA-256 digest as hex, and `filepath.Base`.
pub record UpdaterLib : Type 0 where
  pub latest : Option Release
  pub is_semver : Text → Bool
  pub is_newer : Text → Text → Bool
  pub download_zip : Text → Option Text
  pub download_sig : Text → Option Text
  pub download_sums : Text → Option Text
  pub minisig_verify : Text → Text → Bool
  pub extract_exe : Text → Option Text
  pub sha256_hex : Text → Text
  pub base : Text → Text

module _ (L : UpdaterLib) where
  -- The tests of the loop of `verifyCandidate` on a hash and a name.
  unfoldable pub is_entry : Text → Text × Text → Bool
  is_entry name (hash, file) =
      length hash == 64 && is_hex hash && (equal_fold file name || equal_fold (L.base file) name)

  unfoldable pub find_entry : Text → List Text → Option Text
  find_entry name [] = none
  find_entry name (line ∷ lines) = elim (parse_line (trim_space line)) [
    | none ↦ find_entry name lines
    | some entry ↦ if is_entry name entry then some entry.0 else find_entry name lines
  ]

  -- `verifyCandidate`
  unfoldable pub verify_candidate : Release → Text → Text → Result UpdateError (Unit {0})
  verify_candidate r name exe = elim (find_checksum_asset (checksum_asset_names name) r.assets) [
    | none ↦ err no_checksums
    | some sums ↦ elim (L.download_sums sums.url) [
      | none ↦ err no_download
      | some body ↦ elim (find_entry name (split body b'\n')) [
        | none ↦ err no_entry
        | some expected ↦ guard (equal_fold (L.sha256_hex exe) expected) mismatch
      ]
    ]
  ]

  -- `downloadMinisig` with `minisigVerify`
  unfoldable pub check_signature : Release → Text → Text → Result UpdateError (Unit {0})
  check_signature r name zip = elim (find_named (name ++ codes ".minisig") r.assets) [
    | none ↦ err no_signature
    | some sig ↦ elim (L.download_sig sig.url) [
      | none ↦ err no_signature
      | some signature ↦ guard (L.minisig_verify zip signature) bad_signature
    ]
  ]

  -- The extracted binary with its check.
  unfoldable pub extract_verified : Release → Text → Text → Result UpdateError Text
  extract_verified r name zip = elim (L.extract_exe zip) [
    | none ↦ err no_exe
    | some exe ↦ verify_candidate r name exe >> ok exe
  ]

  -- `Update` from the choice of the asset to the verified binary: what may be installed.
  unfoldable pub candidate : Text → Release → Result UpdateError Text
  candidate arch r = elim (find_asset arch r.assets) [
    | none ↦ err no_asset
    | some asset ↦ elim (L.download_zip asset.url) [
      | none ↦ err no_download
      | some zip ↦ check_signature r asset.name zip >> extract_verified r asset.name zip
    ]
  ]
