-- ===== src/Tests/Update.antt =====
-- The updater at a concrete release.
use zeus_dns_cli.Base.{◌≡◌, refl, true, false, none, some, [], ◌∷◌, ◌++◌, Text, codes, text_eq}
use zeus_dns_cli.Updater.{UpdaterLib, Release}
use zeus_dns_cli.Updater.Swap.{Machine, SwapFaults, swap}
use zeus_dns_cli.Updater.Verified.{swap_stopped}

abbrev pub digest : Text
digest = codes "aaaaaaaaaaaaaaaaaaaaaaaaaaaaaaaaaaaaaaaaaaaaaaaaaaaaaaaaaaaaaaaa"

abbrev pub asset_name : Text
asset_name = codes "zeusdns_windows_amd64.zip"

abbrev pub release : Release
release = record {
  tag = codes "v2.0.0";
  assets =
      record { name = asset_name; url = codes "zip" }
      ∷ record { name = asset_name ++ codes ".minisig"; url = codes "sig" }
      ∷ record { name = codes "checksums.txt"; url = codes "sums" }
      ∷ [];
}

abbrev pub sample_updater : UpdaterLib
sample_updater = record {
  latest = some release;
  is_semver = λ v. true;
  is_newer = λ a b. false;
  download_zip = λ url. some url;
  download_sig = λ url. some url;
  download_sums = λ url. some (digest ++ (codes "  " ++ asset_name));
  minisig_verify = λ zip sig. text_eq sig (codes "sig");
  extract_exe = λ zip. some (codes "new");
  sha256_hex = λ b. digest;
  base = λ p. p;
}

abbrev pub machine : Machine
machine = record { bin = some (codes "old"); old = none; running = true }

abbrev pub no_place : SwapFaults
no_place = record {
  no_status = false;
  no_stop = false;
  no_clear = false;
  no_aside = false;
  no_place = true;
  no_back = false;
  no_remove = false;
  no_start = false;
}

swap_stopped_example : (swap no_place (codes "new") machine).1.running ≡ false
swap_stopped_example =
    swap_stopped no_place (codes "new") (codes "old") machine refl refl refl refl refl
