-- ===== src/Tests/Pool.antt =====
-- The DoT client under concrete schedules.
use zeus_dns_cli.Base.{ℕ, ◌≡◌, refl, true, false, none, List, [], ◌∷◌, ◌++◌, arith, zero, suc}
use zeus_dns_cli.Dns.Pool.{
  Client, World, silent, replied, exchange, close, warm_pool, Turn, call, move, new_client,
  new_system, step, run, advance,
}
use zeus_dns_cli.Dns.Pool.Conserved.{IsSound, run-IsSound}
use zeus_dns_cli.Dns.Pool.Frozen.{late_push}

abbrev well : World
well = record {
  now = 100;
  deadline = none;
  cancelled = false;
  takes_done = false;
  dialed = true;
  upstream = replied;
}

-- An exchange runs to the push of its connection, and `Close` to its end in between.
abbrev crossing : List Turn
crossing =
    call exchange
    ∷ move 0 well
    ∷ move 0 well
    ∷ move 0 well
    ∷ move 0 well
    ∷ move 0 well
    ∷ move 0 well
    ∷ call close
    ∷ move 0 well
    ∷ move 0 well
    ∷ []

run-IsSound_example : IsSound (run new_system (crossing ++ (call warm_pool ∷ move 0 well ∷ [])))
run-IsSound_example = run-IsSound (crossing ++ (call warm_pool ∷ move 0 well ∷ []))

-- The upstream stays silent; the time has come to the limit.
abbrev mute : World
mute = record well { now = 5000000100; upstream = silent }

abbrev turns : ℕ → List (World × Client)
turns zero = (record mute { now = 200 }, new_client) ∷ []
turns (suc n) = let rest = turns n in (mute, new_client) ∷ rest

-- What the exchange dialed stays open in the closed client.
late_push_example :
    (run
      (step (run new_system crossing) (move 1 well))
      (call exchange ∷ move 0 well ∷ [])).client.pool
    ≡ (run new_system crossing).client.pool ++ (0 ∷ [])
unfolding run step advance new_client
late_push_example =
    late_push (run new_system crossing) 1 0 well (call exchange ∷ move 0 well ∷ []) refl refl refl
      (omega arith) (tt, (tt, tt))
