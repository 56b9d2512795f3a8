-- ===== src/Updater/Swap.antt =====
-- `Update` of updater/update.go from the installed binary on, and the whole of it.
use zeus_dns_cli.Base.{
  Bool, true, false, ◌&&◌, not, Option, none, some, if◌then◌else◌, Text, codes, text_eq, ◌++◌,
  Result, ok, err,
}
use zeus_dns_cli.Updater.{
  UpdaterLib, UpdateError, Release, no_release, downgrade, not_installed, not_aside, not_in_place,
  trim_v, candidate,
}

-- The binary at `config.InstallPath()`, the one beside it with `.old`, and whether the service runs.
pub record Machine : Type 0 where
  pub bin : Option Text
  pub old : Option Text
  pub running : Bool

-- The calls that fail: the query and the stop of the service, the removals of `.old` before and
-- after, the two renames, the rename back, and the start.
pub record SwapFaults : Type 0 where
  pub no_status : Bool
  pub no_stop : Bool
  pub no_clear : Bool
  pub no_aside : Bool
  pub no_place : Bool
  pub no_back : Bool
  pub no_remove : Bool
  pub no_start : Bool

pub data Updated : Type 0 where
  up_to_date : Text → Updated
  updated : (before behind : Text) → Updated

-- `serviceStatus` and `stopService`
unfoldable pub stop_service : SwapFaults → Machine → Machine
stop_service f m =
    if m.running && not f.no_status && not f.no_stop then record m { running = false } else m

-- `startService`, where the service was found running
unfoldable pub restart_service : SwapFaults → Bool → Machine → Machine
restart_service f was m =
    if was && not f.no_status && not f.no_start then record m { running = true } else m

-- The removal of a leftover `.old`.
unfoldable pub clear_old : SwapFaults → Machine → Machine
clear_old f m = if f.no_clear then m else record m { old = none }

-- The end of the swap: `.old` goes now or with the next start of the machine.
unfoldable pub finish : SwapFaults → Bool → Machine → Machine
finish f was m = restart_service f was (if f.no_remove then m else record m { old = none })

-- The two renames, of the binary `content` aside and of the new one into its place, with the
-- rename back.
unfoldable pub rename_both :
    SwapFaults → Bool → Text → Text → Machine → Result UpdateError (Unit {0}) × Machine
rename_both f was content exe m =
    if f.no_aside
    then (err not_aside, m)
    else if f.no_place
    then (
      err not_in_place,
      if f.no_back
          then record m { bin = none; old = some content }
          else record m { bin = some content; old = none },
    )
    else (ok tt, finish f was (record m { bin = some exe; old = some content }))

-- `Update` from `binPath` on
unfoldable pub swap : SwapFaults → Text → Machine → Result UpdateError (Unit {0}) × Machine
swap f exe m = elim m.bin [
  | none ↦ (err not_installed, m)
  | some content ↦ rename_both f m.running content exe (clear_old f (stop_service f m))
]

module _ (L : UpdaterLib) where
  -- The downgrade guard.
  unfoldable pub is_downgrade : Text → Text → Bool
  is_downgrade current latest =
      let cv = codes "v" ++ current in
      let lv = codes "v" ++ latest in L.is_semver cv && L.is_semver lv && L.is_newer cv lv

  -- `Update` of a release that is newer
  unfoldable pub install :
      SwapFaults → Text → Text → Release → Machine → Result UpdateError Updated × Machine
  install f arch current r m = elim (candidate L arch r) [
    | err e ↦ (err e, m)
    | ok exe ↦
        let done = swap f exe m in
        (elim done.0 [ err e ↦ err e | ok u ↦ ok (updated current (trim_v r.tag)) ], done.1)
  ]

  -- `Update`
  unfoldable pub update : SwapFaults → Text → Text → Machine → Result UpdateError Updated × Machine
  update f arch current m = elim L.latest [
    | none ↦ (err no_release, m)
    | some r ↦
        if text_eq (trim_v r.tag) current
        then (ok (up_to_date current), m)
        else if is_downgrade current (trim_v r.tag)
        then (err downgrade, m)
        else install f arch current r m
  ]
