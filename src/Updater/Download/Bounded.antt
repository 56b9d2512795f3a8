-- ===== src/Updater/Download/Bounded.antt =====
-- The downloads of updater/update.go: what is installed was downloaded and extracted whole, within the
-- limits, and what is left on the disk.
use zeus_dns_cli.Base.{
  ℕ, zero, suc, ◌+◌, ◌≤◌, ◌<◌, ◌≡◌, inl, inr, refl, sym, ◌∙◌, Bool, false, ◌&&◌, Option, none, some,
  List, [], ◌∷◌, ◌==◌, ==_iff, ltb, arith, Bool-cases, Option-cases, Text, text_eq, text_eq_iff,
  length, take, take_of_length-le, ok,
}
use zeus_dns_cli.Net.Http.{Response, status_ok}
use zeus_dns_cli.Updater.{Asset, Release, find_asset, candidate}
use zeus_dns_cli.Updater.Verified.{candidate-IsVerified}
use zeus_dns_cli.Updater.Download.{
  max_size, TempFaults, copy_limited, download_to_temp, Entry, copy_zip_entry, binary_name,
  find_entry_named, extract_exe, Web, web_lib,
}

-- The stream was read to its end, and is within the limit.
abbrev pub IsWhole : Text → Bool → Text → Type 0
IsWhole content broken got = (got ≡ content) × (length content ≤ max_size) × (broken ≡ false)

ltb-le : (a b : ℕ) → ltb a b ≡ false → b ≤ a
ltb-le a b h = ground arith

written-whole : (l : Text) (k : ℕ) → length (take (suc k) l) ≤ k → length l ≤ k
written-whole [] k h = omega arith
written-whole (x ∷ l) zero h = absurd (omega (arith, h))
written-whole (x ∷ l) (suc k) h = omega (arith, written-whole l k (omega (arith, h)))

written-le :
    (content : Text)
    → ltb max_size (length (take (max_size + 1) content)) ≡ false
    → length content ≤ max_size
written-le content h = written-whole content max_size (ltb-le max_size _ h)

some_inj : {a b : Text} → ◌≡◌ {A = Option Text} (some a) (some b) → a ≡ b
some_inj h = cc

not_broken : (b : Bool) (m n : ℕ) → (b && ltb m n) ≡ false → m < n → b ≡ false
not_broken b m n h l = ground arith

copy_limited-IsWhole :
    (f : TempFaults) (content got : Text) (broken : Bool)
    → (copy_limited f content broken).0 ≡ some got
    → IsWhole content broken got
unfolding copy_limited
copy_limited-IsWhole f content got broken h = elim (Bool-cases f.no_create) [
  | inl e ↦ ground (arith, e)
  | inr made ↦ elim (Bool-cases (broken && ltb (length content) (max_size + 1))) [
    | inl e ↦ ground (arith, made, e)
    | inr read ↦ elim (Bool-cases (ltb max_size (length (take (max_size + 1) content)))) [
      | inl e ↦ ground (arith, made, read, e)
      | inr fits ↦ elim (Bool-cases f.no_close) [
        | inl e ↦ ground (arith, made, read, fits, e)
        | inr closed ↦
            let small = written-le content fits in
            let kept : ◌≡◌ {A = Option Text} (some (take (max_size + 1) content)) (some got) =
              rw (made, read, fits, closed) at h in
            (
              sym (some_inj kept) ∙ take_of_length-le (max_size + 1) content (omega (arith, small)),
              small,
              not_broken broken (length content) (max_size + 1) read (omega (arith, small)),
            )
      ]
    ]
  ]
]

download_to_temp-IsWhole :
    (f : TempFaults) (answer : Option Response) (got : Text)
    → (download_to_temp f answer).0 ≡ some got
    → (resp : Response) × (answer ≡ some resp)
      × (resp.status ≡ status_ok)
      × IsWhole resp.body resp.broken got
unfolding download_to_temp
download_to_temp-IsWhole f none got h = cc
download_to_temp-IsWhole f (some resp) got h = elim (Bool-cases (resp.status == status_ok)) [
  | inr e ↦ ground (arith, e)
  | inl e ↦ (
    resp,
    refl,
    (==_iff _ _).0 e,
    copy_limited-IsWhole f resp.body got resp.broken (ground (arith, e)),
  )
]

find_entry_named-eq :
    (name : Text) (es : List Entry) (e : Entry) → find_entry_named name es ≡ some e → e.name ≡ name
unfolding find_entry_named
find_entry_named-eq name [] e h = cc
find_entry_named-eq name (d ∷ es) e h = elim (Bool-cases (text_eq d.name name)) [
  | inr n ↦ find_entry_named-eq name es e (ground (arith, n))
  | inl n ↦ let same : d ≡ e = ground (arith, n) in rw (sym same) ((text_eq_iff _ _).0 n)
]

-- The binary is the whole content of an entry of the archive with exactly its name.
abbrev pub IsExtracted : Option (List Entry) → Text → Type 0
IsExtracted archive exe =
    (entries : List Entry) × (e : Entry) × (archive ≡ some entries)
    × (find_entry_named binary_name entries ≡ some e)
    × (e.name ≡ binary_name)
    × IsWhole e.content e.broken exe

extract_exe-IsExtracted :
    (f : TempFaults) (archive : Option (List Entry)) (exe : Text)
    → (extract_exe f archive).0 ≡ some exe
    → IsExtracted archive exe
unfolding extract_exe copy_zip_entry
extract_exe-IsExtracted f none exe h = cc
extract_exe-IsExtracted f (some entries) exe h =
    elim (Option-cases (find_entry_named binary_name entries)) [
      | inl n ↦ ground (arith, n)
      | inr (e, found) ↦ (
        entries,
        e,
        refl,
        found,
        find_entry_named-eq binary_name entries e found,
        copy_limited-IsWhole f e.content exe e.broken (ground (arith, found)),
      )
    ]

-- What may be installed was received whole and within the limits: the archive is the whole body of
-- an answer with status 200 at the URL of the chosen asset, and the binary the whole content of its
-- first entry of exactly that name, each of at most 64 MiB; a stream that breaks off or is
-- longer installs nothing.
pub candidate-Bounded :
    (embedded : Text) (W : Web) (arch exe : Text) (r : Release)
    → candidate (web_lib embedded W) arch r ≡ ok exe
    → (asset : Asset) × (resp : Response) × (find_asset arch r.assets ≡ some asset)
      × (W.get asset.url ≡ some resp)
      × (resp.status ≡ status_ok)
      × (length resp.body ≤ max_size)
      × (resp.broken ≡ false)
      × IsExtracted (W.open_zip resp.body) exe
unfolding web_lib
candidate-Bounded embedded W arch exe r h =
    let v = candidate-IsVerified (web_lib embedded W) arch r exe h in
    let (resp, got, status, (same, small, whole)) =
      download_to_temp-IsWhole W.zip_faults (W.get v.asset.url) v.zip v.downloaded in
    (
      v.asset,
      resp,
      v.found,
      got,
      status,
      small,
      whole,
      rw (sym same) (extract_exe-IsExtracted W.exe_faults (W.open_zip v.zip) exe v.extracted),
    )
