-- ===== src/Dns/Pool.antt =====
-- The client of dns/dot.go: its pool of warm connections, its semaphore and `Close`, with the
-- goroutines that call it. A goroutine is the place in the code that it has reached; one move runs
-- it to the next point where another can come between: a channel, an atomic, a dial or an exchange.
pub mod Conserved
pub mod Ends
pub mod Frozen
use zeus_dns_cli.Base.{
  ℕ, zero, suc, ◌+◌, Bool, true, false, ◌&&◌, Option, none, some, List, [], ◌∷◌, ◌++◌, ltb,
  if◌then◌else◌, length, get_elem?, set, ◌-◌,
}

abbrev pub dot_pool_size : ℕ
dot_pool_size = 8

-- `dotPerQueryTimeout` and `dotPerAttemptTimeout` in nanoseconds
abbrev pub dot_per_query_timeout : ℕ
dot_per_query_timeout = 5000000000

abbrev pub dot_per_attempt_timeout : ℕ
dot_per_attempt_timeout = 3000000000

-- `dotClient`: a connection is the number of the dial that made it; `shut` has those that were
-- closed, `slots` is what is in `sem`, and `once` and `drained` are `closeOnce`: its function has
-- begun, and has come to its end, until when another `Close` waits.
pub record Client : Type 0 where
  pub pool : List ℕ
  pub slots : ℕ
  pub once : Bool
  pub drained : Bool
  pub closed : Bool
  pub dials : ℕ
  pub shut : List ℕ

-- What the upstream does to a write and a read on a connection.
pub data Io : Type 0 where
  silent replied failed : Io

-- What the world decides at a move: the time, `ctx.Deadline()`, whether `ctx` is cancelled, whether
-- a `select` with two ready cases takes `ctx.Done()`, whether a dial succeeds (a dial ends of itself:
-- it has a time limit of its own, and is one move here), and what the upstream has done by then.
pub record World : Type 0 where
  pub now : ℕ
  pub deadline : Option ℕ
  pub cancelled : Bool
  pub takes_done : Bool
  pub dialed : Bool
  pub upstream : Io

-- Where a goroutine is. `Exchange`: at its start; at the semaphore; at the head of its loop with
-- attempts left; in `getConn` behind its check; with a connection; in `putConn` before and behind
-- its check; and where it gives its slot back. `WarmPool`: at the head of its loop, and in
-- `putConn`. `Close`: at its start, and in its loop.
pub data Place : Type 0 where
  calling : Place
  waiting : (outer : ℕ) → Place
  trying : (outer left : ℕ) → Place
  picking : (outer deadline left : ℕ) → Place
  holding : (outer deadline conn left : ℕ) → Place
  returning pushing : (conn : ℕ) → Place
  leaving : (served : Bool) → Place
  warming : (left : ℕ) → Place
  warm_returning warm_pushing : (conn left : ℕ) → Place
  closing draining : Place
  finished : (served : Bool) → Place

-- `if a.Before(b) { b = a }`
abbrev pub earlier : ℕ → ℕ → ℕ
earlier a b = if ltb a b then a else b

unfoldable pub outer_deadline : World → ℕ
outer_deadline w =
    let own = w.now + dot_per_query_timeout in
    elim w.deadline [ none ↦ own | some given ↦ earlier given own ]

unfoldable pub attempt_deadline : World → ℕ → ℕ
attempt_deadline w outer = earlier (w.now + dot_per_attempt_timeout) outer

-- The next attempt, or the end of the loop.
abbrev pub next_try : ℕ → ℕ → Place
next_try outer zero = leaving false
next_try outer (suc left) = trying outer (suc left)

-- `conn.Close()`
abbrev pub shut_conn : ℕ → Client → Client
shut_conn conn c = record c { shut = conn ∷ c.shut }

-- A dial that succeeds makes the next connection.
abbrev pub dial : Client → Client
dial c = record c { dials = suc c.dials }

-- The `select` of `putConn`.
unfoldable pub push_conn : ℕ → Client → Client
push_conn conn c =
    if ltb (length c.pool) dot_pool_size
    then record c { pool = c.pool ++ conn ∷ [] }
    else shut_conn conn c

-- The `select` of `getConn`: the oldest connection of the pool, or a dial.
unfoldable pub pick_conn : World → Client → ℕ → ℕ → ℕ → Client × Place
pick_conn w c outer deadline left = elim c.pool [
  | conn ∷ pool ↦ (record c { pool = pool }, holding outer deadline conn left)
  | [] ↦
      if w.dialed then (dial c, holding outer deadline c.dials left) else (c, next_try outer left)
]

-- The `select` at the semaphore; it blocks where no case is ready.
unfoldable pub acquire : World → Client → ℕ → Client × Place
acquire w c outer =
    let done : Client × Place = (c, finished false) in
    if w.cancelled && w.takes_done
    then done
    else if ltb c.slots dot_pool_size
    then (record c { slots = c.slots + 1 }, trying outer 2)
    else if w.cancelled
    then done
    else (c, waiting outer)

-- One round of the loop of `Close`.
unfoldable pub drain : Client → Client × Place
drain c = elim c.pool [
  | conn ∷ pool ↦ (shut_conn conn (record c { pool = pool }), draining)
  | [] ↦ (record c { drained = true }, finished true)
]

-- One move of a goroutine. On a connection it waits while the upstream is silent, until the deadline
-- that `SetDeadline` sets, from which on every write and read fails.
unfoldable pub advance : World → Client → Place → Client × Place
unfolding outer_deadline attempt_deadline push_conn pick_conn acquire drain
advance w c calling = if c.closed then (c, finished false) else (c, waiting (outer_deadline w))
advance w c (waiting outer) = acquire w c outer
advance w c (trying outer zero) = (c, leaving false)
advance w c (trying outer (suc left)) =
    if w.cancelled
    then (c, leaving false)
    else if c.closed
    then (c, next_try outer left)
    else (c, picking outer (attempt_deadline w outer) left)
advance w c (picking outer deadline left) = pick_conn w c outer deadline left
advance w c (holding outer deadline conn left) =
    if ltb w.now deadline
    then elim w.upstream [
      | silent ↦ (c, holding outer deadline conn left)
      | replied ↦ (c, returning conn)
      | failed ↦ (shut_conn conn c, next_try outer left)
    ]
    else (shut_conn conn c, next_try outer left)
advance w c (returning conn) =
    if c.closed then (shut_conn conn c, leaving true) else (c, pushing conn)
advance w c (pushing conn) = (push_conn conn c, leaving true)
advance w c (leaving served) = let n = c.slots in (record c { slots = n - 1 }, finished served)
advance w c (warming zero) = (c, finished true)
advance w c (warming (suc left)) =
    if w.cancelled
    then (c, finished true)
    else if w.dialed
    then (dial c, warm_returning c.dials left)
    else (c, warming left)
advance w c (warm_returning conn left) =
    if c.closed then (shut_conn conn c, warming left) else (c, warm_pushing conn left)
advance w c (warm_pushing conn left) = (push_conn conn c, warming left)
advance w c closing =
    if c.once
    then (c, if c.drained then finished true else closing)
    else (record c { once = true; closed = true }, draining)
advance w c draining = drain c
advance w c (finished served) = (c, finished served)

-- `newDoTClient`
unfoldable pub new_client : Client
new_client = record {
  pool = [];
  slots = 0;
  once = false;
  drained = false;
  closed = false;
  dials = 0;
  shut = [];
}

-- The calls that the program makes.
pub data Call : Type 0 where
  exchange warm_pool close : Call

abbrev pub start_of : Call → Place
start_of exchange = calling
start_of warm_pool = warming dot_pool_size
start_of close = closing

-- A turn is a new call, or a move of the goroutine at an index.
pub data Turn : Type 0 where
  call : Call → Turn
  move : (i : ℕ) → World → Turn

pub record System : Type 0 where
  pub client : Client
  pub places : List Place

unfoldable pub step : System → Turn → System
step s (call k) = record s { places = start_of k ∷ s.places }
step s (move i w) = elim (get_elem? s.places i) [
  | none ↦ s
  | some p ↦ let (c, q) = advance w s.client p in record { client = c; places = set s.places i q }
]

unfoldable pub run : System → List Turn → System
run s [] = s
run s (t ∷ ts) = run (step s t) ts

abbrev pub new_system : System
new_system = record { client = new_client; places = [] }
