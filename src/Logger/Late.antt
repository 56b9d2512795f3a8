-- ===== src/Logger/Late.antt =====
-- What becomes of records behind a failed write or behind `Close`, in internal/log.go.
use zeus_dns_cli.Base.{◌≤◌, ◌≡◌, refl, true, false, List, [], ◌∷◌, length, Text, arith}
use zeus_dns_cli.Logger.{
  buffer_size, flush, write_last, write_buffered, locked, both, Logger, locked_write, write, Entry,
  log, log_all, flush_locked, close,
}

-- A write to a failed writer changes nothing.
write_failed :
    (p : Text) (l : Logger)
    → l.journal.failed ≡ true
    → l.linked ≡ true
    → l.sink ≡ both
    → (write p l).0 ≡ l
unfolding write locked_write write_buffered write_last
write_failed p l f k s = ground arith

-- With `-v`, once a write to the log file has failed, no record comes to the console any more, nor
-- to the file: every later record leaves the logger as it is, also where the disk has room again.
pub log_all-failed :
    (es : List Entry) (l : Logger)
    → l.journal.failed ≡ true
    → l.linked ≡ true
    → l.sink ≡ both
    → log_all es l ≡ l
unfolding log_all log
log_all-failed [] l f k s = refl
log_all-failed ((level, line) ∷ es) l f k s =
    let same : log (level, line) l ≡ l = ground (arith, write_failed line l) in
    rw same (log_all-failed es l f k s)

-- A record that is written behind a `Close` which flushed all, and that fits into the buffer, is
-- reported as written though the file is closed, and it comes neither to the disk nor, by another
-- `Close`, later.
pub close-write :
    (p : Text) (l : Logger)
    → l.file ≡ true
    → l.bufw ≡ true
    → l.linked ≡ true
    → l.sink ≡ locked
    → (flush l.journal).0.failed ≡ false
    → (flush l.journal).0.held ≡ []
    → length p ≤ buffer_size
    → ((write p (close l)).1 ≡ true)
      × ((close (write p (close l)).0).journal.folder ≡ (close l).journal.folder)
unfolding write locked_write write_buffered write_last close flush_locked
close-write p l o b k s f h fits = ground arith
