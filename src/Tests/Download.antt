-- ===== src/Tests/Download.antt =====
-- Downloads, archives and signatures of the updater at concrete inputs.
use zeus_dns_cli.Base.{
  ℕ, zero, suc, ◌≡◌, ◌≢◌, ◌↔◌, ◌≤◌, refl, Bool, true, false, some, [], ◌∷◌, ◌++◌, arith, codes,
  Text, length, if◌then◌else◌, text_eq, ok, split, trim_space, has_prefix, equal_fold, to_lower,
  contains,
}
use zeus_dns_cli.Net.{has_byte, cut_last}
use zeus_dns_cli.Net.Http.{Response, status_ok, read_limited, read_all}
use zeus_dns_cli.Updater.{
  Asset, UpdaterLib, find_asset, find_named, find_folded, find_checksum_asset, checksum_asset_names,
  stem, candidate, check_signature, extract_verified, verify_candidate, find_entry, parse_line,
  is_entry, cut_text, is_hex, all_hex,
}
use zeus_dns_cli.Updater.Swap.{updated, update}
use zeus_dns_cli.Updater.Base64.{
  encode, digit, decode, decode_quanta, drop_newlines, last_quantum, value,
}
use zeus_dns_cli.Updater.Minisign.{
  minisig_verify, parse_minisign_pubkey, read_blob, extract_b64, first_data_line,
  parse_minisig_file, check_parsed,
}
use zeus_dns_cli.Updater.Minisign.Reads.{two_lines, blob, minisig_verify_lem}
use zeus_dns_cli.Updater.Minisign.Unset.{update_unset}
use zeus_dns_cli.Updater.Download.{
  TempFaults, Web, web_lib, max_size, download_to_temp, copy_limited, extract_exe, copy_zip_entry,
  find_entry_named, read_minisig, read_checksums,
}
use zeus_dns_cli.Updater.Download.Bounded.{IsExtracted, candidate-Bounded}
use zeus_dns_cli.Tests.Update.{digest, asset_name, release, machine, no_place}

abbrev ones : ℕ → Text
ones zero = []
ones (suc n) = 1 ∷ ones n

abbrev key_file : Text
key_file = two_lines (codes " minisign public key") (blob 5 (ones 8) (ones 32))

abbrev sig_file : Text
sig_file = two_lines (codes " signature") (blob 69 (ones 8) (ones 64))

abbrev accepting : Text → Text → Text → Bool
accepting key content sig = true

minisig_verify_lem_example :
    (minisig_verify accepting key_file (codes "zip") sig_file ≡ ok tt)
    ↔ ((ones 8 ≡ ones 8) × (accepting (ones 32) (codes "zip") (ones 64) ≡ true))
minisig_verify_lem_example =
    minisig_verify_lem accepting (codes " minisign public key") (codes " signature") (ones 8)
      (ones 32) (ones 8) (ones 64) (codes "zip") (ground arith) (ground arith) (omega arith)
      (omega arith) refl refl refl refl (omega arith) (omega arith)

abbrev answer : Text → Response
answer body = record { status = 200; content_type = []; body = body; broken = false }

abbrev fine : TempFaults
fine = record { no_create = false; no_close = false }

abbrev web : Web
web = record {
  get = λ url.
      some
        (answer (if text_eq url (codes "sums") then digest ++ (codes "  " ++ asset_name) else url));
  latest_url = codes "latest";
  decode_release = λ b. some release;
  open_zip = λ zip. some (
      record {
        name = codes "zeusdns.exe";
        declared = 3;
        opens = true;
        content = codes "new";
        broken = false;
      }
      ∷ []);
  is_semver = λ v. true;
  is_newer = λ a b. false;
  ed25519 = accepting;
  sha256_hex = λ b. digest;
  base = λ p. p;
  zip_faults = fine;
  exe_faults = fine;
}

update_unset_example :
    ((update (web_lib [] web) no_place (codes "amd64") (codes "1.0.0") machine).1 ≡ machine)
    × ((before behind : Text)
        → (update (web_lib [] web) no_place (codes "amd64") (codes "1.0.0") machine).0
          ≢ ok (updated before behind))
update_unset_example =
    update_unset (web_lib [] web) accepting (λ zip sig. unfold web_lib in refl) no_place
      (codes "amd64") (codes "1.0.0") machine

abbrev signed_url : Text → Text
signed_url url =
    if text_eq url (codes "sums")
    then digest ++ (codes "  " ++ asset_name)
    else if text_eq url (codes "sig")
    then sig_file
    else url

abbrev signed_web : Web
signed_web = record web { get = λ url. some (answer (signed_url url)) }

abbrev key_lib : UpdaterLib
key_lib = web_lib key_file signed_web

-- A release whose archive is signed and listed passes all checks.
passed : candidate key_lib (codes "amd64") release ≡ ok (codes "new")
unfolding candidate web_lib find_asset find_named find_folded find_checksum_asset
    checksum_asset_names stem check_signature extract_verified verify_candidate find_entry
    parse_line is_entry cut_text is_hex all_hex contains has_prefix to_lower equal_fold text_eq
    download_to_temp copy_limited extract_exe copy_zip_entry find_entry_named read_minisig
    read_checksums read_limited read_all minisig_verify split trim_space cut_last has_byte
    parse_minisign_pubkey read_blob extract_b64 first_data_line encode digit decode decode_quanta
    drop_newlines last_quantum value parse_minisig_file check_parsed
passed = refl

candidate-Bounded_example :
    (asset : Asset) × (resp : Response) × (find_asset (codes "amd64") release.assets ≡ some asset)
    × (signed_web.get asset.url ≡ some resp)
    × (resp.status ≡ status_ok)
    × (length resp.body ≤ max_size)
    × (resp.broken ≡ false)
    × IsExtracted (signed_web.open_zip resp.body) (codes "new")
candidate-Bounded_example =
    candidate-Bounded key_file signed_web (codes "amd64") (codes "new") release passed
