-- ===== src/Dns/Pool/Ends.antt =====
-- The client of dns/dot.go: an exchange that has its slot comes to its end.
use zeus_dns_cli.Base.{
  ℕ, suc, ◌+◌, ◌*◌, ◌≤◌, ◌≡◌, ◌⊎◌, Bool, Option, some, List, [], ◌∷◌, leb, if◌then◌else◌,
}
use zeus_dns_cli.Dns.Pool.{
  Client, World, Place, trying, picking, holding, returning, pushing, leaving, finished, advance,
}

-- The place of a goroutine behind its next moves, the others having changed the client to anything
-- before each of them.
abbrev pub moved : List (World × Client) → Place → Place
moved [] p = p
moved ((w, c) ∷ turns) p = moved turns (advance w c p).1

-- The number of the moves that are made at this time or later.
abbrev pub late : ℕ → List (World × Client) → ℕ
late limit [] = 0
late limit ((w, c) ∷ turns) =
    let rest = late limit turns in if leb limit w.now then suc rest else rest

-- The deadline is the earlier one of a time and of another where that is given.
pub record IsEarliest (own : ℕ) (given : Option ℕ) (deadline : ℕ) : Type 0 where
  pub in_time : deadline ≤ own
  pub within : (d : ℕ) → given ≡ some d → deadline ≤ d
  pub one_of : (deadline ≡ own) ⊎ (given ≡ some deadline)

-- A bound on the moves that are left.
abbrev rank : Place → ℕ
rank (trying outer left) = 4 * left + 2
rank (picking outer deadline left) = 4 * left + 5
rank (holding outer deadline conn left) = 4 * left + 4
rank (returning conn) = 3
rank (pushing conn) = 2
rank (leaving served) = 1
rank p = 0

-- The exchange has its slot, or has ended, and waits for no reply beyond the limit.
abbrev InFlight : ℕ → Place → Type 0
InFlight limit (trying outer left) = outer ≤ limit
InFlight limit (picking outer deadline left) = (outer ≤ limit) × (deadline ≤ limit)
InFlight limit (holding outer deadline conn left) = (outer ≤ limit) × (deadline ≤ limit)
InFlight limit (returning conn) = Unit
InFlight limit (pushing conn) = Unit
InFlight limit (leaving served) = Unit
InFlight limit (finished served) = Unit
InFlight limit p = ⊥

-- The bound does not grow, and falls where the limit has passed.
abbrev Falls : ℕ → World → Place → Place → Type 0
Falls limit w p q = InFlight limit q × (rank q + (if leb limit w.now then 1 else 0) ≤ rank p)

abbrev Ends : ℕ → World → Place → Place → Type 0
Ends limit w p q = ((served : Bool) × (p ≡ finished served)) ⊎ Falls limit w p q

abbrev Finishes : Place → Type 0
Finishes p = (served : Bool) × (p ≡ finished served)
