-- ===== src/Logger.antt =====
-- The log of internal/log.go: ParseLevel, the rotation and the opening of NewLogger, the writers
-- behind the handler, Close. `bufio.Writer` and `io.MultiWriter` are modelled as they are used; a
-- record comes as the line that the text handler makes of it.
pub mod Owed
pub mod Writes
pub mod Kept
pub mod Late
use zeus_dns_cli.Base.{
  ℕ, ◌+◌, ◌-◌, Bool, true, false, ◌&&◌, ◌||◌, not, Option, none, some, List, [], ◌∷◌, ◌++◌, ltb,
  leb, if◌then◌else◌, length, take, drop, is_empty, Text, codes, text_eq, to_lower, trim_space,
  Result, ok, err,
}

-- The levels of `slog`, in their order.
pub data Level : Type 0 where
  debug info warn error : Level

abbrev pub rank : Level → ℕ
rank debug = 0
rank info = 1
rank warn = 2
rank error = 3

-- `ParseLevel`
unfoldable pub parse_level : Text → Level
unfolding text_eq to_lower trim_space
parse_level s =
    let word = to_lower (trim_space s) in
    if text_eq word (codes "debug")
    then debug
    else if text_eq word (codes "verbose")
    then info
    else if text_eq word (codes "warn") || text_eq word (codes "warning")
    then warn
    else if text_eq word (codes "error")
    then error
    else info

-- What the disk has at the path of the log and at its backup, and how many bytes more it takes.
pub record Folder : Type 0 where
  pub current : Option Text
  pub backup : Option Text
  pub room : ℕ

-- The calls that fail.
pub record Faults : Type 0 where
  pub no_stat : Bool
  pub no_remove : Bool
  pub no_rename : Bool
  pub no_open : Bool

-- `maxLogSize` and the size of the buffer
abbrev pub max_log_size : ℕ
max_log_size = 10485760

abbrev pub buffer_size : ℕ
buffer_size = 65536

-- The removal of the backup, and the renaming of the log.
unfoldable pub move_aside : Faults → Text → Folder → Folder
move_aside f content d =
    let cleared : Folder = if f.no_remove then d else record d { backup = none } in
    if f.no_rename then cleared else record cleared { current = none; backup = some content }

-- The rotation at the start of `NewLogger`.
unfoldable pub rotate : Faults → Folder → Folder
unfolding move_aside
rotate f d = elim d.current [
  | none ↦ d
  | some content ↦
      if not f.no_stat && ltb max_log_size (length content) then move_aside f content d else d
]

-- The `bufio.Writer` on the log's file: its bytes and its sticky error, whether the file was
-- closed, and the disk.
pub record Journal : Type 0 where
  pub held : Text
  pub failed : Bool
  pub shut : Bool
  pub folder : Folder

-- `File.Write`: how many bytes came to the disk, and whether all did.
unfoldable pub write_file : Text → Journal → Journal × ℕ × Bool
write_file p j =
    let d = j.folder in
    if j.shut
    then (j, 0, false)
    else let appended : Option Text = elim d.current [
      | none ↦ none
      | some s ↦ some (s ++ take d.room p)
    ] in
      let d' : Folder = record d { current = appended; room = d.room - length p } in
      let all = leb (length p) d.room in
      (record j { folder = d' }, if all then length p else d.room, all)

-- `Writer.Flush`
unfoldable pub flush : Journal → Journal × Bool
flush j =
    if j.failed
    then (j, false)
    else if is_empty j.held
    then (j, true)
    else let (j', n, done) = write_file j.held j in
      (record j' { held = drop n j'.held; failed = not done }, done)

-- The last round of `Writer.Write`, and what stands behind its loop: a text that does not fit goes
-- to the file at once.
unfoldable pub write_last : Text → Journal → Journal × Bool
write_last p j =
    if j.failed
    then (j, false)
    else if leb (length p) (buffer_size - length j.held)
    then (record j { held = j.held ++ p }, true)
    else let (j', n, done) = write_file p j in (record j' { failed = not done }, done)

-- `Writer.Write`. Its loop fills a buffer that has something in it and flushes it, which leaves it
-- empty or the writer failed; so at most one round comes before the last.
unfoldable pub write_buffered : Text → Journal → Journal × Bool
write_buffered p j =
    let free = buffer_size - length j.held in
    if j.failed || leb (length p) free || is_empty j.held
    then write_last p j
    else write_last (drop free p) (flush (record j { held = j.held ++ take free p })).0

-- The writer behind the handler: `io.Discard`, `os.Stdout`, the locked writer, or both.
pub data Sink : Type 0 where
  discard stdout locked both : Sink

-- `Logger` with its handler's writer and level. `file`, `bufw` and `linked`: `l.file`, `l.bufw` and
-- `lw.w` are not nil. `console` is what was written to stdout.
pub record Logger : Type 0 where
  pub sink : Sink
  pub level : Level
  pub file : Bool
  pub bufw : Bool
  pub linked : Bool
  pub journal : Journal
  pub console : Text

-- `lockedWriter.Write`
unfoldable pub locked_write : Text → Logger → Logger × Bool
locked_write p l =
    if not l.linked
    then (l, false)
    else let (j, done) = write_buffered p l.journal in (record l { journal = j }, done)

-- The handler's write. `io.MultiWriter` stops at the first writer that fails.
unfoldable pub write : Text → Logger → Logger × Bool
write p l = elim l.sink [
  | discard ↦ (l, true)
  | stdout ↦ (record l { console = l.console ++ p }, true)
  | locked ↦ locked_write p l
  | both ↦
      let (l', done) = locked_write p l in
      if done then (record l' { console = l'.console ++ p }, true) else (l', false)
]

-- A call of the logger at a level; the error of a write is dropped.
abbrev pub Entry : Type 0
Entry = Level × Text

unfoldable pub log : Entry → Logger → Logger
log (level, line) l = if leb (rank l.level) (rank level) then (write line l).0 else l

unfoldable pub log_all : List Entry → Logger → Logger
log_all [] l = l
log_all (e ∷ es) l = log_all es (log e l)

-- `os.OpenFile` for append: the file is made where it is missing.
abbrev pub opened : Folder → Folder
opened d = record d { current = elim d.current [ none ↦ some [] | some s ↦ some s ] }

-- `NewLogger` on a console with a content; an error comes with the disk as the rotation left it.
unfoldable pub new_logger : Faults → Text → Text → Bool → Folder → Text → Result Folder Logger
new_logger f level path console d screen =
    let fresh : Folder → Bool → Sink → Logger = λ (d' : Folder) (file : Bool) (sink : Sink).
      record {
        sink = sink;
        level = parse_level level;
        file = file;
        bufw = file;
        linked = file;
        journal = record { held = []; failed = false; shut = false; folder = d' };
        console = screen;
      } in
    if is_empty path
    then ok (fresh d false (if console then stdout else discard))
    else if f.no_open
    then err (rotate f d)
    else ok (fresh (opened (rotate f d)) true (if console then both else locked))

-- `flushLocked`
unfoldable pub flush_locked : Logger → Logger
flush_locked l = if not l.bufw then l else record l { journal = (flush l.journal).0 }

-- `Logger.Close`
unfoldable pub close : Logger → Logger
close l =
    if not l.file
    then l
    else let l' = flush_locked l in
      let j : Journal = record l'.journal { shut = true } in
      record l' { journal = j; file = false; bufw = false }
