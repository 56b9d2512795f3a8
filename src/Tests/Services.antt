-- ===== src/Tests/Services.antt =====
-- The Windows service at concrete events and answers, and the check of the port.
use zeus_dns_cli.Base.{
  ℕ, ◌≡◌, ◌⊎◌, ◌↔◌, refl, true, some, none, Option, codes, [], ◌∷◌, ◌++◌, List, ltb, if◌then◌else◌,
  ok,
}
use zeus_dns_cli.Preflight.{BindError, max_retries, preflight}
use zeus_dns_cli.Preflight.Frees.{FreeWithin, preflight-FreeWithin}
use zeus_dns_cli.Service.{
  stopped, start_pending, stop_pending, running, Event, interrogate, stop, done, Scm, stop_and_wait,
  execute,
}
use zeus_dns_cli.Service.Waits.{IsDown, StopsWithin, stop_and_wait-StopsWithin}
use zeus_dns_cli.Service.Ends.{answers, code_of, is_passing, execute-ends}

-- The service needs until the fourth query.
abbrev slow : Scm
slow = record { query = λ i. ok (if ltb i 3 then stop_pending else stopped); control_stop = ok tt }

stop_and_wait-StopsWithin_example :
    (stop_and_wait slow ≡ ok tt)
    ↔ (IsDown slow 0 ⊎ ((IsDown slow 0 → ⊥) × (slow.control_stop ≡ ok tt) × StopsWithin slow 40 1))
stop_and_wait-StopsWithin_example = stop_and_wait-StopsWithin slow

abbrev asked : List Event
asked = interrogate running ∷ []

execute-ends_example : execute (asked ++ (stop ∷ done true ∷ [])) ≡ (record {
  reported = start_pending ∷ running ∷ (answers asked ++ (stop_pending ∷ stopped ∷ []));
  cancelled = true;
  exit_code = some (code_of stop);
})
execute-ends_example =
    execute-ends asked (done true ∷ []) stop (unfold is_passing in (refl, tt))
      (unfold is_passing in refl)

-- The third attempt finds the port free.
abbrev lingering : ℕ → Option BindError
lingering i = if ltb i 2 then some (record { errno = some 10048; text = codes "bind" }) else none

preflight-FreeWithin_example :
    (preflight lingering lingering ≡ ok tt)
    ↔ (FreeWithin lingering max_retries 0 × FreeWithin lingering max_retries 0)
preflight-FreeWithin_example = preflight-FreeWithin lingering lingering
