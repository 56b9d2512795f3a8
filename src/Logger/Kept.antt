-- ===== src/Logger/Kept.antt =====
-- What the log of internal/log.go holds behind a session: NewLogger, its records, Close.
use mathlib.Core.List.{append_assoc, append-nil}
use zeus_dns_cli.Base.{
  ℕ, ◌≡◌, ◌⊎◌, inl, inr, refl, sym, ap, Bool, true, false, ◌&&◌, not, Option, none, some, List, [],
  ◌∷◌, ◌++◌, ltb, leb, if◌then◌else◌, length, take, is_empty, Text, arith, ok, Bool-cases,
}
use zeus_dns_cli.Logger.{
  Level, rank, parse_level, Folder, Faults, max_log_size, move_aside, rotate, Journal,
  write_buffered, locked, both, Logger, locked_write, write, Entry, log, log_all, opened,
  new_logger, flush_locked, close,
}
use zeus_dns_cli.Logger.Owed.{Writes, Flushed-current}
use zeus_dns_cli.Logger.Writes.{flush-Writes, write_buffered-Writes}

-- The lines of the records at the level or above it.
abbrev pub wanted : Level → List Entry → Text
wanted level [] = []
wanted level ((l, line) ∷ es) =
    if leb (rank level) (rank l) then line ++ wanted level es else wanted level es

-- The log is over the limit and can be renamed.
abbrev pub rotates : Faults → Text → Bool
rotates f content = not f.no_stat && ltb max_log_size (length content) && not f.no_rename

abbrev pub content_of : Folder → Text
content_of d = elim d.current [ none ↦ [] | some content ↦ content ]

module _ (start : Text) (aside : Option Text) (room : ℕ) (level : Level) where
  -- An open logger at a level, whose records so far are `h`.
  record IsOpen (h : Text) (l : Logger) : Type 0 where
    at : l.level ≡ level
    sink : (l.sink ≡ locked) ⊎ (l.sink ≡ both)
    file : l.file ≡ true
    bufw : l.bufw ≡ true
    linked : l.linked ≡ true
    journal : Writes start aside room h l.journal

  -- A write changes the journal, as the buffered writer does, and the console.
  write_both :
      (p : Text) (l : Logger)
      → l.linked ≡ true
      → (l.sink ≡ locked) ⊎ (l.sink ≡ both)
      → (write p l).0
        ≡ record l { journal = (write_buffered p l.journal).0; console = (write p l).0.console }
  unfolding write locked_write
  write_both p l k (inl e) = ground (arith, e, k)
  write_both p l k (inr e) = ground (arith, e, k)

  write-IsOpen : (p : Text) {h : Text} {l : Logger} → IsOpen h l → IsOpen (h ++ p) (write p l).0
  write-IsOpen p {h} {l} o = rw (write_both p l o.linked o.sink) (record {
    at = o.at;
    sink = o.sink;
    file = o.file;
    bufw = o.bufw;
    linked = o.linked;
    journal = write_buffered-Writes start aside room p o.journal;
  })

  log_all-IsOpen :
      (es : List Entry) {h : Text} {l : Logger}
      → IsOpen h l
      → IsOpen (h ++ wanted level es) (log_all es l)
  unfolding log_all log
  log_all-IsOpen [] {h} o = rw (append-nil h) o
  log_all-IsOpen ((k, line) ∷ es) {h} {l} o = elim (Bool-cases (leb (rank level) (rank k))) [
    | inl yes_ ↦
        let shown : leb (rank l.level) (rank k) ≡ true = rw o.at yes_ in
        rw (yes_, shown, ← append_assoc h line (wanted level es))
          (log_all-IsOpen es (write-IsOpen line o))
    | inr no_ ↦
        let dropped : leb (rank l.level) (rank k) ≡ false = rw o.at no_ in
        rw (no_, dropped) (log_all-IsOpen es o)
  ]

  -- `Close` flushes: what the disk had room for is behind `start`, the rest is lost.
  close-IsOpen :
      (h : Text) (l : Logger)
      → IsOpen h l
      → ((close l).journal.folder.current ≡ some (start ++ take room h))
        × ((close l).journal.folder.backup ≡ aside)
  unfolding close flush_locked
  close-IsOpen h l o =
      let (w, done) = flush-Writes start aside room o.journal in
      let (_, _, _, holds) = w in
      ground (arith, o.file, o.bufw, Flushed-current start aside room w done, holds.backup)

-- What stands at the path of the backup behind the rotation.
abbrev pub aside_of : Faults → Folder → Option Text
aside_of f d =
    let content = content_of d in
    if rotates f content
    then d.current
    else if not f.no_stat && ltb max_log_size (length content) && not f.no_remove
    then none
    else d.backup

abbrev pub start_of : Faults → Folder → Text
start_of f d = if rotates f (content_of d) then [] else content_of d

rotate_lem :
    (f : Faults) (d : Folder)
    → opened (rotate f d)
      ≡ record { current = some (start_of f d); backup = aside_of f d; room = d.room }
unfolding rotate move_aside
rotate_lem f d = ground arith

new_logger-IsOpen :
    (f : Faults) (level path : Text) (console : Bool) (d : Folder) (screen : Text) {l : Logger}
    → is_empty path ≡ false
    → new_logger f level path console d screen ≡ ok l
    → IsOpen (start_of f d) (aside_of f d) d.room (parse_level level) [] l
unfolding new_logger
new_logger-IsOpen f level path console d screen {l} p h =
    let begun : Journal = record {
      held = [];
      failed = false;
      shut = false;
      folder = record { current = some (start_of f d); backup = aside_of f d; room = d.room };
    } in
    let j : l.journal ≡ begun = ground (arith, rotate_lem f d) in
    record {
      at = ground arith;
      sink = ground arith;
      file = ground arith;
      bufw = ground arith;
      linked = ground arith;
      journal = rw j (
        [],
        [],
        refl,
        record {
          open_ = refl;
          current = ap some (sym (append-nil _));
          backup = refl;
          spent = omega arith;
          owed = inl (refl, refl);
        },
      );
    }

-- A session with a log file that could be opened leaves there the lines of its records at the level
-- or above it, whole and in order, behind what was there, as far as the disk has room: the buffer
-- neither drops nor repeats nor reorders a byte, and what a full disk lacks is the end of the log.
-- A log over 10 MiB that can be renamed becomes the backup first, and the file starts empty; where
-- it cannot be renamed the file goes on, and only the backup is gone, if that could be removed.
pub session-Logged :
    (f : Faults) (level path : Text) (console : Bool) (d : Folder) (screen : Text) (es : List Entry)
    {l : Logger}
    → is_empty path ≡ false
    → new_logger f level path console d screen ≡ ok l
    → ((close (log_all es l)).journal.folder.current
        ≡ some (start_of f d ++ take d.room (wanted (parse_level level) es)))
      × ((close (log_all es l)).journal.folder.backup ≡ aside_of f d)
session-Logged f level path console d screen es {l} p h =
    close-IsOpen _ _ _ _ _ _
      (log_all-IsOpen _ _ _ _ es (new_logger-IsOpen f level path console d screen p h))
