-- ===== src/Cmd/Promote.antt =====
-- `promoteBinary`, `copyFile` and `samePath` of cmd/util.go: the running binary at its place.
use zeus_dns_cli.Base.{
  ℕ, Bool, true, false, not, Option, none, some, if◌then◌else◌, Text, equal_fold, take, Result, ok,
  err,
}
use zeus_dns_cli.Cmd.{install_path}

pub data PromoteError : Type 0 where
  not_located no_directory copy_failed : PromoteError

-- How `copyFile` ends: well; before it opens its destination, which it then truncates; in
-- the copying, with so many bytes written; or at the closing of what is complete.
pub data Copying : Type 0 where
  copies unopened : Copying
  cut : (written : ℕ) → Copying
  unclosed : Copying

-- `copyFile` of `content` to a destination: whether it succeeds, and the destination afterwards.
unfoldable pub copy_file : Copying → Text → Option Text → Bool × Option Text
copy_file copies content dst = (true, some content)
copy_file unopened content dst = (false, dst)
copy_file (cut written) content dst = (false, some (take written content))
copy_file unclosed content dst = (false, some content)

-- `samePath`: `clean` is `filepath.Clean`.
unfoldable pub same_path : (Text → Text) → Text → Text → Bool
same_path clean a b = equal_fold (clean a) (clean b)

-- The running binary: its path and content; none where it cannot be located.
pub record Running : Type 0 where
  pub path : Text
  pub content : Text

-- `promoteBinary`, over the installed binary
unfoldable pub promote_binary :
    (Text → Text)
    → Option Running
    → Bool
    → Copying
    → Option Text
    → Result PromoteError (Unit {0}) × Option Text
promote_binary clean none makes_dir c bin = (err not_located, bin)
promote_binary clean (some exe) makes_dir c bin =
    if same_path clean exe.path install_path
    then (ok tt, bin)
    else if not makes_dir
    then (err no_directory, bin)
    else (let (copied, bin') = copy_file c exe.content bin in
        (if copied then ok tt else err copy_failed, bin'))
