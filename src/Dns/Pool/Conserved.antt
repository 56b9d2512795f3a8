-- ===== src/Dns/Pool/Conserved.antt =====
-- The client of dns/dot.go: no connection is lost, used twice or closed twice, and the bounds on
-- the pool and on the exchanges under way.
use zeus_dns_cli.Base.{
  ℕ, zero, suc, ◌+◌, ◌≤◌, ◌≡◌, refl, inl, inr, some, List, [], ◌∷◌, arith, ltb, ◌==◌, if◌then◌else◌,
  length, length-append, get_elem?, total, total-set, total-get, count, count-append, Option-cases,
}
use zeus_dns_cli.Dns.Pool.{
  dot_pool_size, Client, World, Place, calling, waiting, trying, picking, holding, returning,
  pushing, leaving, warming, warm_returning, warm_pushing, closing, draining, finished, Call,
  exchange, warm_pool, close, Turn, call, move, System, push_conn, pick_conn, acquire, drain,
  advance, new_client, new_system, step, run,
}

-- The goroutine has the connection.
abbrev pub holds : ℕ → Place → ℕ
holds n (holding outer deadline conn left) = if n == conn then 1 else 0
holds n (returning conn) = if n == conn then 1 else 0
holds n (pushing conn) = if n == conn then 1 else 0
holds n (warm_returning conn left) = if n == conn then 1 else 0
holds n (warm_pushing conn left) = if n == conn then 1 else 0
holds n p = 0

-- The goroutine is in an exchange, behind the semaphore.
abbrev pub has_slot : Place → ℕ
has_slot (trying outer left) = 1
has_slot (picking outer deadline left) = 1
has_slot (holding outer deadline conn left) = 1
has_slot (returning conn) = 1
has_slot (pushing conn) = 1
has_slot (leaving served) = 1
has_slot p = 0

-- The connection has been made.
abbrev pub born : ℕ → Client → ℕ
born n c = if ltb n c.dials then 1 else 0

-- The places of a connection in the client, and with a goroutine.
abbrev pub stored : ℕ → Client → ℕ
stored n c = count n c.pool + count n c.shut

-- A move neither loses a connection nor makes one up, other than by a dial.
abbrev Moves : ℕ → Client → Place → Client × Place → Type 0
Moves n c p (d, q) = stored n d + holds n q + born n c ≡ stored n c + holds n p + born n d

module _ (n : ℕ) (w : World) (c : Client) where
  push_conn-stored :
      (conn : ℕ) → stored n (push_conn conn c) ≡ stored n c + (if n == conn then 1 else 0)
  unfolding push_conn count
  push_conn-stored conn = ground (arith, count-append n c.pool (conn ∷ []))

  push_conn-dials : (conn : ℕ) → (push_conn conn c).dials ≡ c.dials
  unfolding push_conn
  push_conn-dials conn = ground arith

  pick_conn-Moves :
      (outer deadline left : ℕ)
      → Moves n c (picking outer deadline left) (pick_conn w c outer deadline left)
  unfolding pick_conn count
  pick_conn-Moves outer deadline zero = ground arith
  pick_conn-Moves outer deadline (suc left) = ground arith

  drain-Moves : Moves n c draining (drain c)
  unfolding drain count
  drain-Moves = ground arith

  advance-Moves : (p : Place) → Moves n c p (advance w c p)
  unfolding advance acquire count
  advance-Moves (picking outer deadline left) = pick_conn-Moves outer deadline left
  advance-Moves (pushing conn) = ground (arith, push_conn-stored conn, push_conn-dials conn)
  advance-Moves (warm_pushing conn left) =
      ground (arith, push_conn-stored conn, push_conn-dials conn)
  advance-Moves draining = drain-Moves
  advance-Moves (trying outer zero) = ground arith
  advance-Moves (trying outer (suc zero)) = ground arith
  advance-Moves (trying outer (suc (suc left))) = ground arith
  advance-Moves (holding outer deadline conn zero) = ground arith
  advance-Moves (holding outer deadline conn (suc left)) = ground arith
  advance-Moves (warming zero) = ground arith
  advance-Moves (warming (suc left)) = ground arith
  advance-Moves calling = ground arith
  advance-Moves (waiting outer) = ground arith
  advance-Moves (returning conn) = ground arith
  advance-Moves (leaving served) = ground arith
  advance-Moves (warm_returning conn left) = ground arith
  advance-Moves closing = ground arith
  advance-Moves (finished served) = ground arith

-- A move keeps count of the slots, and the bounds.
abbrev Bounds : Client → Place → Client × Place → Type 0
Bounds c p (d, q) =
    (d.slots + has_slot p ≡ c.slots + has_slot q)
    × (d.slots ≤ dot_pool_size)
    × (length d.pool ≤ dot_pool_size)

module _ (w : World) (c : Client) (few : c.slots ≤ dot_pool_size)
    (small : length c.pool ≤ dot_pool_size) where
  push_conn-small :
      (conn : ℕ)
      → ((push_conn conn c).slots ≡ c.slots) × (length (push_conn conn c).pool ≤ dot_pool_size)
  unfolding push_conn
  push_conn-small conn = ground (arith, length-append c.pool (conn ∷ []))

  advance-Bounds : (p : Place) → has_slot p ≤ c.slots → Bounds c p (advance w c p)
  unfolding advance acquire pick_conn drain
  advance-Bounds (picking outer deadline zero) h = ground arith
  advance-Bounds (picking outer deadline (suc left)) h = ground arith
  advance-Bounds (pushing conn) h = ground (arith, push_conn-small conn)
  advance-Bounds (warm_pushing conn left) h = ground (arith, push_conn-small conn)
  advance-Bounds draining h = ground arith
  advance-Bounds (trying outer zero) h = ground arith
  advance-Bounds (trying outer (suc zero)) h = ground arith
  advance-Bounds (trying outer (suc (suc left))) h = ground arith
  advance-Bounds (holding outer deadline conn zero) h = ground arith
  advance-Bounds (holding outer deadline conn (suc left)) h = ground arith
  advance-Bounds (warming zero) h = ground arith
  advance-Bounds (warming (suc left)) h = ground arith
  advance-Bounds calling h = ground arith
  advance-Bounds (waiting outer) h = ground arith
  advance-Bounds (returning conn) h = ground arith
  advance-Bounds (leaving served) h = ground arith
  advance-Bounds (warm_returning conn left) h = ground arith
  advance-Bounds closing h = ground arith
  advance-Bounds (finished served) h = ground arith

-- What holds between two turns: a connection that was made is in the pool, or with one goroutine,
-- or was closed, and is so once; the semaphore counts the exchanges that are behind it; and the
-- two bounds.
pub record IsSound (s : System) : Type 0 where
  pub once : (n : ℕ) → stored n s.client + total (holds n) s.places ≡ born n s.client
  pub counted : s.client.slots ≡ total has_slot s.places
  pub few : s.client.slots ≤ dot_pool_size
  pub small : length s.client.pool ≤ dot_pool_size

call-IsSound : (s : System) (k : Call) → IsSound s → IsSound (step s (call k))
unfolding step total
call-IsSound s exchange v = record {
  once = λ n. omega (arith, v.once n);
  counted = omega (arith, v.counted);
  few = v.few;
  small = v.small;
}
call-IsSound s warm_pool v = record {
  once = λ n. omega (arith, v.once n);
  counted = omega (arith, v.counted);
  few = v.few;
  small = v.small;
}
call-IsSound s close v = record {
  once = λ n. omega (arith, v.once n);
  counted = omega (arith, v.counted);
  few = v.few;
  small = v.small;
}

move-IsSound :
    (s : System) (i : ℕ) (w : World) (p : Place)
    → get_elem? s.places i ≡ some p
    → IsSound s
    → IsSound (step s (move i w))
unfolding step
move-IsSound s i w p e v =
    let (counted, few, small) =
      advance-Bounds w s.client v.few v.small p
        (omega (arith, v.counted, total-get has_slot s.places i p e)) in
    rw (e, step)
      (record {
        once = λ n. omega (
          arith,
          v.once n,
          advance-Moves n w s.client p,
          total-set (holds n) s.places i p (advance w s.client p).1 e,
        );
        counted =
            omega (
              arith,
              v.counted,
              counted,
              total-set has_slot s.places i p (advance w s.client p).1 e,
            );
        few = few;
        small = small;
      })

step-IsSound : (s : System) (t : Turn) → IsSound s → IsSound (step s t)
unfolding step
step-IsSound s (call k) v = call-IsSound s k v
step-IsSound s (move i w) v = elim (Option-cases (get_elem? s.places i)) [
  | inl e ↦ rw (e, step) v
  | inr (p, e) ↦ move-IsSound s i w p e v
]

steps-IsSound : (s : System) (ts : List Turn) → IsSound s → IsSound (run s ts)
unfolding run
steps-IsSound s [] v = v
steps-IsSound s (t ∷ ts) v = steps-IsSound (step s t) ts (step-IsSound s t v)

-- Whatever calls of `Exchange`, `WarmPool` and `Close` are made and however their goroutines
-- interleave, every connection that was dialed is in one place: in the pool, with one goroutine, or
-- closed, and that once. At most eight are in the pool, and at most eight exchanges are
-- behind the semaphore, which counts them.
pub run-IsSound : (ts : List Turn) → IsSound (run new_system ts)
unfolding new_client total count
run-IsSound ts =
    steps-IsSound new_system ts
      (record { once = λ n. ground arith; counted = refl; few = omega arith; small = omega arith })
