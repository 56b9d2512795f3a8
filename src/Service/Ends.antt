-- ===== src/Service/Ends.antt =====
-- `Execute` of service/windows.go: how the service ends.
use zeus_dns_cli.Base.{ℕ, ap, ◌≡◌, refl, Bool, true, false, some, List, [], ◌∷◌, ◌++◌, All}
use zeus_dns_cli.Service.{
  State, stopped, start_pending, stop_pending, running, Event, interrogate, stop, shutdown,
  other_request, done, report, serve_loop, execute,
}

-- An event that the loop does not end at, and what it reports for it.
unfoldable pub is_passing : Event → Bool
is_passing (interrogate s) = true
is_passing other_request = true
is_passing e = false

unfoldable pub answers : List Event → List State
answers [] = []
answers (interrogate s ∷ events) = s ∷ answers events
answers (e ∷ events) = answers events

-- The exit code of an event that ends the loop: 1 exactly where `run` ended by itself with an
-- error.
unfoldable pub code_of : Event → ℕ
code_of (done true) = 1
code_of e = 0

abbrev pub Passing : List Event → Type 0
Passing events = All (λ e. is_passing e ≡ true) events

serve_loop-ends :
    (before behind : List Event) (last : Event)
    → Passing before
    → is_passing last ≡ false
    → serve_loop (before ++ (last ∷ behind)) ≡ (record {
      reported = answers before ++ (stop_pending ∷ stopped ∷ []);
      cancelled = true;
      exit_code = some (code_of last);
    })
unfolding serve_loop answers code_of is_passing
serve_loop-ends [] behind (interrogate s) p h = cc
serve_loop-ends [] behind stop p h = refl
serve_loop-ends [] behind shutdown p h = refl
serve_loop-ends [] behind other_request p h = cc
serve_loop-ends [] behind (done true) p h = refl
serve_loop-ends [] behind (done false) p h = refl
serve_loop-ends (interrogate s ∷ before) behind last p h =
    ap (report s) (serve_loop-ends before behind last p.1 h)
serve_loop-ends (other_request ∷ before) behind last p h = serve_loop-ends before behind last p.1 h
serve_loop-ends (stop ∷ before) behind last p h = cc
serve_loop-ends (shutdown ∷ before) behind last p h = cc
serve_loop-ends (done failed ∷ before) behind last p h = cc

-- The service reports that it starts and runs, answers each interrogation with the status it was
-- asked about, and at the first stop, shutdown or end of `run`, whatever comes behind, cancels the
-- run, reports that it stops and has stopped, and returns 1 where `run` ended by itself with an
-- error and 0 otherwise.
pub execute-ends :
    (before behind : List Event) (last : Event)
    → Passing before
    → is_passing last ≡ false
    → execute (before ++ (last ∷ behind)) ≡ (record {
      reported = start_pending ∷ running ∷ (answers before ++ (stop_pending ∷ stopped ∷ []));
      cancelled = true;
      exit_code = some (code_of last);
    })
unfolding execute
execute-ends before behind last p h =
    ap (λ c. report start_pending (report running c)) (serve_loop-ends before behind last p h)
