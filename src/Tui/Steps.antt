-- ===== src/Tui/Steps.antt =====
-- The menu of tui/configure.go in its event loop: keys are pressed, and each command in flight
-- sends its message back at some later time, in any order.
use zeus_dns_cli.Base.{ℕ, ◌≡◌, Option, List, Result, [], ◌∷◌, ◌++◌, Text}
use zeus_dns_cli.Dns.Message
use zeus_dns_cli.Dns.Upstream.{Client}
use zeus_dns_cli.Tui.Check.{Checks, check_upstream_cmd, validate_resolver_cmd}
use zeus_dns_cli.Tui.{
  InputLib, Model, Key, Cmd, Msg, initial_model, handle_key, update, blink, input_cmd, tick,
  validate, check, check_all, clear_delete_pending, other_msg,
}

-- The message that a command sends, with what the network may answer at that time.
pub data Sends (C : Checks) : Cmd → Msg → Type 0 where
  validated :
      (raw : Text) (msg : Msg) (answer : Client → Result C.Failure (Option (Message.Msg C.Record)))
      → C.Possible answer
      → msg ≡ validate_resolver_cmd C answer raw
      → Sends C (validate raw) msg
  checked :
      (i : ℕ) (raw : Text) (msg : Msg)
      (answer : Client → Result C.Failure (Option (Message.Msg C.Record)))
      → C.Possible answer
      → msg ≡ check_upstream_cmd C answer i raw
      → Sends C (check i raw) msg
  ticked : Sends C tick clear_delete_pending
  blinked : Sends C blink other_msg
  field_sent : Sends C input_cmd other_msg

-- A model and the commands in flight.
abbrev pub Loop : InputLib → Type 0
Loop T = Model T × List Cmd

module _ (C : Checks) (T : InputLib) where
  pub data Step : Loop T → Loop T → Type 0 where
    pressed :
        {m : Model T} {fl : List Cmd} {next : Loop T} (k : Key)
        → next ≡ ((handle_key T k m).0, (handle_key T k m).1 ∷ fl)
        → Step (m, fl) next
    delivered :
        {m : Model T} {fl : List Cmd} {next : Loop T} (before behind : List Cmd) (c : Cmd)
        (msg : Msg)
        → fl ≡ before ++ (c ∷ behind)
        → Sends C c msg
        → next ≡ ((update T msg m).0, (update T msg m).1 ∷ (before ++ behind))
        → Step (m, fl) next
    started :
        {m : Model T} {fl : List Cmd} {next : Loop T} (before behind : List Cmd) (i : ℕ)
        (raw : Text) (more : List (ℕ × Text))
        → fl ≡ before ++ (check_all ((i, raw) ∷ more) ∷ behind)
        → next ≡ (m, check i raw ∷ (before ++ (check_all more ∷ behind)))
        → Step (m, fl) next

  -- The loops that are reached from the start.
  pub data Reached (input : T.Input) (current : List Text) : Loop T → Type 0 where
    start : {l : Loop T} → l ≡ (initial_model T input current, []) → Reached input current l
    step : {l next : Loop T} → Reached input current l → Step l next → Reached input current next
