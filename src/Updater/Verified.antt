-- ===== src/Updater/Verified.antt =====
-- `Update` of updater/update.go: what is installed, and what a failure leaves.
use zeus_dns_cli.Base.{
  ◌≢◌, text_eq_iff, ◌&&◌, contains, to_lower, ◌≡◌, ◌⊎◌, inl, inr, true, false, Option, none, some,
  List, [], ◌∷◌, arith, Any, Text, codes, text_eq, split, equal_fold, trim_space, Bool-cases,
  Option-cases, Result-cases, Result, ok, err, guard, guard-eq-ok, ◌||◌, ◌++◌, sym,
}
use zeus_dns_cli.Updater.{
  UpdaterLib, UpdateError, mismatch, find_folded, Release, Asset, find_asset, find_named,
  find_checksum_asset, checksum_asset_names, parse_line, is_entry, find_entry, verify_candidate,
  candidate, check_signature, extract_verified, bad_signature, trim_v,
}
use zeus_dns_cli.Updater.Swap.{
  Machine, SwapFaults, Updated, updated, up_to_date, stop_service, clear_old, rename_both, swap,
}

module _ (L : UpdaterLib) where
  -- A line of the checksum file gives this digest for the asset.
  abbrev pub Lists : Text → Text → Text → Type 0
  Lists name hash line =
      (file : Text) × (parse_line (trim_space line) ≡ some (hash, file))
      × (is_entry L name (hash, file) ≡ true)

  find_entry-Lists :
      (name hash : Text) (lines : List Text)
      → find_entry L name lines ≡ some hash
      → Any (Lists name hash) lines
  unfolding find_entry
  find_entry-Lists name hash [] h = cc
  find_entry-Lists name hash (line ∷ lines) h = elim (Option-cases (parse_line (trim_space line))) [
    | inl e ↦ inr (find_entry-Lists name hash lines (ground (arith, e)))
    | inr ((found, file), e) ↦ elim (Bool-cases (is_entry L name (found, file))) [
      | inr f ↦ inr (find_entry-Lists name hash lines (ground (arith, e, f)))
      | inl t ↦
          let same : found ≡ hash = ground (arith, e, t) in
          inl (file, rw (sym same) e, rw (sym same) t)
    ]
  ]

  -- The release has the asset.
  abbrev pub Has : Release → Asset → Type 0
  Has r a = Any (λ b. b ≡ a) r.assets

  -- The checks that a binary has passed: it is the one in a zip that the URL of a Windows asset of the
  -- release gave; the minisign signature that the URL of the release's asset with the same name and
  -- `.minisig` gave is good for that zip; and what the URL of a checksum asset of the release gave
  -- lists its digest for the asset.
  pub record IsVerified (arch : Text) (r : Release) (exe : Text) : Type 0 where
    pub asset : Asset
    pub zip : Text
    pub signature : Text
    pub signature_asset : Asset
    pub sums : Asset
    pub body : Text
    pub hash : Text
    pub found : find_asset arch r.assets ≡ some asset
    pub chosen : Has r asset
    pub for_windows : contains (to_lower asset.name) (codes "windows") ≡ true
    pub for_arch : contains (to_lower asset.name) arch ≡ true
    pub signature_chosen : Has r signature_asset
    pub signature_named : signature_asset.name ≡ asset.name ++ codes ".minisig"
    pub signature_downloaded : L.download_sig signature_asset.url ≡ some signature
    pub sums_chosen : Has r sums
    pub sums_named : Any (λ n. equal_fold sums.name n ≡ true) (checksum_asset_names asset.name)
    pub sums_downloaded : L.download_sums sums.url ≡ some body
    pub downloaded : L.download_zip asset.url ≡ some zip
    pub signed : L.minisig_verify zip signature ≡ true
    pub extracted : L.extract_exe zip ≡ some exe
    pub listed : Any (Lists asset.name hash) (split body b'\n')
    pub same_digest : equal_fold (L.sha256_hex exe) hash ≡ true

  find_asset-Has :
      (arch : Text) (assets : List Asset) {a : Asset}
      → find_asset arch assets ≡ some a
      → Any (λ b. b ≡ a) assets
        × (contains (to_lower a.name) (codes "windows") ≡ true)
        × (contains (to_lower a.name) arch ≡ true)
  unfolding find_asset
  find_asset-Has arch [] h = cc
  find_asset-Has arch (b ∷ assets) {a} h =
      elim (Bool-cases
        (contains (to_lower b.name) (codes "windows") && contains (to_lower b.name) arch)) [
          | inl t ↦
              let same : b ≡ a = ground (arith, t) in
              (inl same, rw (← same) (ground (arith, t)), rw (← same) (ground (arith, t)))
          | inr f ↦
              let (m, w, v) = find_asset-Has arch assets {a = a} (ground (arith, f)) in
              (inr m, w, v)
        ]

  find_named-Has :
      (name : Text) (assets : List Asset) {a : Asset}
      → find_named name assets ≡ some a
      → Any (λ b. b ≡ a) assets × (a.name ≡ name)
  unfolding find_named
  find_named-Has name [] h = cc
  find_named-Has name (b ∷ assets) {a} h = elim (Bool-cases (text_eq b.name name)) [
    | inl t ↦
        let same : b ≡ a = ground (arith, t) in
        (inl same, rw (← same) ((text_eq_iff b.name name).0 t))
    | inr f ↦ let (m, e) = find_named-Has name assets {a = a} (ground (arith, f)) in (inr m, e)
  ]

  find_folded-Has :
      (name : Text) (assets : List Asset) {a : Asset}
      → find_folded name assets ≡ some a
      → Any (λ b. b ≡ a) assets × (equal_fold a.name name ≡ true)
  unfolding find_folded
  find_folded-Has name [] h = cc
  find_folded-Has name (b ∷ assets) {a} h = elim (Bool-cases (equal_fold b.name name)) [
    | inl t ↦ let same : b ≡ a = ground (arith, t) in (inl same, rw (← same) t)
    | inr f ↦ let (m, e) = find_folded-Has name assets {a = a} (ground (arith, f)) in (inr m, e)
  ]

  find_checksum_asset-Has :
      (names : List Text) (assets : List Asset) {a : Asset}
      → find_checksum_asset names assets ≡ some a
      → Any (λ b. b ≡ a) assets × Any (λ n. equal_fold a.name n ≡ true) names
  unfolding find_checksum_asset
  find_checksum_asset-Has [] assets h = cc
  find_checksum_asset-Has (n ∷ names) assets {a} h = elim (Option-cases (find_folded n assets)) [
    | inr (b, e) ↦
        let same : find_folded n assets ≡ some a = ground (arith, e) in
        let (m, f) = find_folded-Has n assets same in (m, inl f)
    | inl e ↦
        let (m, f) = find_checksum_asset-Has names assets {a = a} (ground (arith, e)) in (m, inr f)
  ]

  verify_candidate-listed :
      (r : Release) (name exe : Text)
      → verify_candidate L r name exe ≡ ok tt
      → (sums : Asset) × (body hash : Text) × Has r sums
        × Any (λ n. equal_fold sums.name n ≡ true) (checksum_asset_names name)
        × (L.download_sums sums.url ≡ some body)
        × Any (Lists name hash) (split body b'\n')
        × (equal_fold (L.sha256_hex exe) hash ≡ true)
  unfolding verify_candidate
  verify_candidate-listed r name exe h =
      elim (Option-cases (find_checksum_asset (checksum_asset_names name) r.assets)) [
        | inl e ↦ ground (arith, e)
        | inr (sums, e) ↦ elim (Option-cases (L.download_sums sums.url)) [
          | inl d ↦ ground (arith, e, d)
          | inr (body, d) ↦ elim (Option-cases (find_entry L name (split body b'\n'))) [
            | inl n ↦ ground (arith, e, d, n)
            | inr (hash, n) ↦
                let checked : guard (equal_fold (L.sha256_hex exe) hash) mismatch ≡ ok tt =
                  rw (e, d, n, verify_candidate) at h in
                let (has, named) = find_checksum_asset-Has (checksum_asset_names name) r.assets e in
                (
                  sums,
                  body,
                  hash,
                  has,
                  named,
                  d,
                  find_entry-Lists name hash _ n,
                  guard-eq-ok _ _ checked,
                )
          ]
        ]
      ]

  check_signature-signed :
      (r : Release) (name zip : Text)
      → check_signature L r name zip ≡ ok tt
      → (sig : Asset) × (signature : Text) × Has r sig
        × (sig.name ≡ name ++ codes ".minisig")
        × (L.download_sig sig.url ≡ some signature)
        × (L.minisig_verify zip signature ≡ true)
  unfolding check_signature
  check_signature-signed r name zip h =
      elim (Option-cases (find_named (name ++ codes ".minisig") r.assets)) [
        | inl e ↦ ground (arith, e)
        | inr (sig, e) ↦ elim (Option-cases (L.download_sig sig.url)) [
          | inl d ↦ ground (arith, e, d)
          | inr (signature, d) ↦
              let checked : guard (L.minisig_verify zip signature) bad_signature ≡ ok tt =
                rw (e, d, check_signature) at h in
              let (has, named) = find_named-Has (name ++ codes ".minisig") r.assets e in
              (sig, signature, has, named, d, guard-eq-ok _ _ checked)
        ]
      ]

  extract_verified-checked :
      (r : Release) (name zip exe : Text)
      → extract_verified L r name zip ≡ ok exe
      → (L.extract_exe zip ≡ some exe) × (verify_candidate L r name exe ≡ ok tt)
  unfolding extract_verified
  extract_verified-checked r name zip exe h = elim (Option-cases (L.extract_exe zip)) [
    | inl e ↦ ground (arith, e)
    | inr (found, e) ↦ elim (Result-cases (verify_candidate L r name found)) [
      | inr (x, bad) ↦ ground (arith, e, bad)
      | inl (u, good) ↦ let same : found ≡ exe = ground (arith, e, good) in rw (sym same) (e, good)
    ]
  ]

  pub candidate-IsVerified :
      (arch : Text) (r : Release) (exe : Text) → candidate L arch r ≡ ok exe → IsVerified arch r exe
  unfolding candidate
  candidate-IsVerified arch r exe h = elim (Option-cases (find_asset arch r.assets)) [
    | inl e ↦ ground (arith, e)
    | inr (asset, e) ↦ elim (Option-cases (L.download_zip asset.url)) [
      | inl d ↦ ground (arith, e, d)
      | inr (zip, d) ↦ elim (Result-cases (check_signature L r asset.name zip)) [
        | inr (x, bad) ↦ ground (arith, e, d, bad)
        | inl (u, good) ↦
            let got : extract_verified L r asset.name zip ≡ ok exe = ground (arith, e, d, good) in
            let (extracted, checked) = extract_verified-checked r asset.name zip exe got in
            let (sig, signature, sig_has, sig_named, sig_got, signed) =
              check_signature-signed r asset.name zip good in
            let (sums, body, hash, sums_has, sums_named, sums_got, listed, digest) =
              verify_candidate-listed r asset.name exe checked in
            let (has, for_windows, for_arch) = find_asset-Has arch r.assets e in
            record {
              asset = asset;
              zip = zip;
              signature = signature;
              body = body;
              hash = hash;
              signature_asset = sig;
              sums = sums;
              found = e;
              chosen = has;
              for_windows = for_windows;
              for_arch = for_arch;
              signature_chosen = sig_has;
              signature_named = sig_named;
              signature_downloaded = sig_got;
              sums_chosen = sums_has;
              sums_named = sums_named;
              sums_downloaded = sums_got;
              downloaded = d;
              signed = signed;
              extracted = extracted;
              listed = listed;
              same_digest = digest;
            }
      ]
    ]
  ]

-- Where a swap ends: the new binary is in place; or the old one is, or, where the rename back
-- fails too, it is in `.old`.
abbrev pub Swapped : Text → Text → Result UpdateError (Unit {0}) × Machine → Type 0
Swapped content exe done =
    ((done.0 ≡ ok tt) × (done.1.bin ≡ some exe))
    ⊎ ((e : UpdateError) × (done.0 ≡ err e)
        × ((done.1.bin ≡ some content) ⊎ ((done.1.bin ≡ none) × (done.1.old ≡ some content))))

-- A swap that fails behind the stop of the service, at either rename, leaves it stopped: it is not
-- started again.
pub swap_stopped :
    (f : SwapFaults) (exe content : Text) (m : Machine)
    → m.bin ≡ some content
    → m.running ≡ true
    → f.no_status ≡ false
    → f.no_stop ≡ false
    → (f.no_aside || f.no_place) ≡ true
    → (swap f exe m).1.running ≡ false
unfolding swap rename_both clear_old stop_service
swap_stopped f exe content m e r s t u = ground (arith, e, r, s, t)

-- Both versions are semantic, and the current one is the newer.
abbrev pub IsDowngrade : UpdaterLib → Text → Text → Type 0
IsDowngrade L current latest =
    (L.is_semver (codes "v" ++ current) ≡ true)
    × (L.is_semver (codes "v" ++ latest) ≡ true)
    × (L.is_newer (codes "v" ++ current) (codes "v" ++ latest) ≡ true)

module _ (L : UpdaterLib) where
  -- Where an update ends: with a new version, with the word that there is none, or with an error.
  abbrev pub Ends :
      Option Release → Text → Text → Text → Machine → Result UpdateError Updated × Machine → Type 0
  Ends latest arch current content m done =
      ((r : Release) × (latest ≡ some r)
        × (trim_v r.tag ≢ current)
        × (¬ IsDowngrade L current (trim_v r.tag))
        × (done.0 ≡ ok (updated current (trim_v r.tag)))
        × (exe : Text) × IsVerified L arch r exe
        × (done.1.bin ≡ some exe))
      ⊎ ((r : Release) × (latest ≡ some r)
          × (trim_v r.tag ≡ current)
          × (done.0 ≡ ok (up_to_date current))
          × (done.1 ≡ m))
      ⊎ ((e : UpdateError) × (done.0 ≡ err e)
          × ((done.1.bin ≡ some content) ⊎ ((done.1.bin ≡ none) × (done.1.old ≡ some content))))
