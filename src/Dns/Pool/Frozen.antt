-- ===== src/Dns/Pool/Frozen.antt =====
-- The client of dns/dot.go behind a `Close`: what a goroutine that passed the check of `putConn`
-- before it leaves in the pool.
use zeus_dns_cli.Base.{
  ℕ, zero, suc, ◌<◌, ◌≡◌, inl, inr, refl, true, some, List, [], ◌∷◌, ◌++◌, arith, lt→ltb, length,
  get_elem?, set, All, Option-cases, ◌∙◌,
}
use zeus_dns_cli.Dns.Pool.{
  dot_pool_size, Client, World, Place, calling, waiting, trying, picking, holding, returning,
  pushing, leaving, warming, warm_returning, warm_pushing, closing, draining, finished, exchange,
  warm_pool, close, Turn, call, move, System, push_conn, acquire, advance, step, run,
}

-- The goroutine is not between the check for a closed client and what it then does to the pool.
abbrev pub Apart : Place → Type 0
Apart (picking outer deadline left) = ⊥
Apart (pushing conn) = ⊥
Apart (warm_pushing conn left) = ⊥
Apart draining = ⊥
Apart p = Unit {0}

-- The client is closed and has this pool, and no goroutine is about to act on the pool.
pub record IsFrozen (pool : List ℕ) (s : System) : Type 0 where
  pub once : s.client.once ≡ true
  pub closed : s.client.closed ≡ true
  pub same : s.client.pool ≡ pool
  pub apart : All Apart s.places

abbrev Still : Client → Client × Place → Type 0
Still c (d, q) = Apart q × (d.pool ≡ c.pool) × (d.once ≡ true) × (d.closed ≡ true)

module _ (w : World) (c : Client) (once : c.once ≡ true) (closed : c.closed ≡ true) where
  advance-Still : (p : Place) → Apart p → Still c (advance w c p)
  unfolding advance acquire
  advance-Still (trying outer zero) h = ground arith
  advance-Still (trying outer (suc zero)) h = ground arith
  advance-Still (trying outer (suc (suc left))) h = ground arith
  advance-Still (holding outer deadline conn zero) h = ground arith
  advance-Still (holding outer deadline conn (suc left)) h = ground arith
  advance-Still (warming zero) h = ground arith
  advance-Still (warming (suc left)) h = ground arith
  advance-Still calling h = ground arith
  advance-Still (waiting outer) h = ground arith
  advance-Still (returning conn) h = ground arith
  advance-Still (leaving served) h = ground arith
  advance-Still (warm_returning conn left) h = ground arith
  advance-Still closing h = ground arith
  advance-Still (finished served) h = ground arith
  advance-Still (picking outer deadline left) h = absurd h
  advance-Still (pushing conn) h = absurd h
  advance-Still (warm_pushing conn left) h = absurd h
  advance-Still draining h = absurd h

All-set : (ps : List Place) (i : ℕ) (q : Place) → All Apart ps → Apart q → All Apart (set ps i q)
All-set [] i q h k = h
All-set (p ∷ ps) zero q h k = (k, h.1)
All-set (p ∷ ps) (suc i) q h k = (h.0, All-set ps i q h.1 k)

All-get : (ps : List Place) (i : ℕ) (p : Place) → All Apart ps → get_elem? ps i ≡ some p → Apart p
All-get [] i p h e = cc
All-get (q ∷ ps) zero p h e = let same : q ≡ p = cc in rw same at h.0
All-get (q ∷ ps) (suc i) p h e = All-get ps i p h.1 e

step-IsFrozen : (pool : List ℕ) (s : System) (t : Turn) → IsFrozen pool s → IsFrozen pool (step s t)
unfolding step
step-IsFrozen pool s (call exchange) v = record {
  once = v.once;
  closed = v.closed;
  same = v.same;
  apart = (tt, v.apart);
}
step-IsFrozen pool s (call warm_pool) v = record {
  once = v.once;
  closed = v.closed;
  same = v.same;
  apart = (tt, v.apart);
}
step-IsFrozen pool s (call close) v = record {
  once = v.once;
  closed = v.closed;
  same = v.same;
  apart = (tt, v.apart);
}
step-IsFrozen pool s (move i w) v = elim (Option-cases (get_elem? s.places i)) [
  | inl e ↦ rw (e, step) v
  | inr (p, e) ↦
      let (apart, same, once, closed) =
        advance-Still w s.client v.once v.closed p (All-get s.places i p v.apart e) in
      rw (e, step)
        (record {
          once = once;
          closed = closed;
          same = same ∙ v.same;
          apart = All-set s.places i (advance w s.client p).1 v.apart apart;
        })
]

-- Once the client is closed and no goroutine is between a check and its act, its pool stays as it
-- is, whatever calls follow.
run-IsFrozen :
    (pool : List ℕ) (ts : List Turn) (s : System) → IsFrozen pool s → IsFrozen pool (run s ts)
unfolding run
run-IsFrozen pool [] s v = v
run-IsFrozen pool (t ∷ ts) s v = run-IsFrozen pool ts (step s t) (step-IsFrozen pool s t v)

-- A connection that is put back across a `Close` is never closed: where a goroutine is in `putConn`
-- behind the check that the client is open, and `Close` has run in between, the connection goes to
-- the pool, and stays there whatever calls follow, if no other goroutine is between a check and
-- its act.
pub late_push :
    (s : System) (i conn : ℕ) (w : World) (ts : List Turn)
    → s.client.once ≡ true
    → s.client.closed ≡ true
    → get_elem? s.places i ≡ some (pushing conn)
    → length s.client.pool < dot_pool_size
    → All Apart (set s.places i (leaving true))
    → (run (step s (move i w)) ts).client.pool ≡ s.client.pool ++ (conn ∷ [])
unfolding step advance push_conn
late_push s i conn w ts once closed e room apart =
    (run-IsFrozen (s.client.pool ++ (conn ∷ [])) ts (step s (move i w)) (
      rw (e, step, lt→ltb _ _ room)
        (record { once = once; closed = closed; same = refl; apart = apart }))).same
