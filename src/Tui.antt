-- ===== src/Tui.antt =====
-- The menu of tui/configure.go: `configureModel` with `Update` and `handleKey`. The text field of
-- bubbles is a parameter, and a command that the model returns is a value; the messages that
-- commands send come back to `update` in any order.
pub mod Check
pub mod Answers
pub mod Steps
pub mod Sound
pub mod Asked
pub mod View
pub mod Prompt
use zeus_dns_cli.Base.{
  is_empty, ℕ, zero, suc, ◌+◌, ◌-◌, Bool, true, false, ◌||◌, ◌&&◌, not, Option, none, some, List,
  [], ◌∷◌, ◌++◌, ◌==◌, if◌then◌else◌, ltb, leb, Text, codes, trim_space, length,
}

pub data Mode : Type 0 where
  listing adding validating : Mode

pub record TestResult : Type 0 where
  pub passed : Bool
  pub error : Text

-- The strings of `msg.String()` that `handleKey` tells apart; `other` stands for all the others.
pub data Key : Type 0 where
  esc enter ctrl_c key_q up key_k down key_j key_a key_d key_x open_bracket close_bracket key_t
        key_s :
      Key
  other : Text → Key

-- `textinput.Model`
pub record InputLib : Type 1 where
  pub Input : Type 0
  pub value : Input → Text
  pub press : Key → Input → Input
  pub reset : Input → Input
  pub focus : Input → Input
  pub blur : Input → Input

-- A command of the model: `validateResolverCmd`, `checkUpstreamCmd` at a place and a resolver, the
-- batch of `testAllCmd`, the timer behind a first press of `d`, those of the framework, and
-- `input_cmd` for what the text field returns.
pub data Cmd : Type 0 where
  no_cmd quit blink input_cmd tick : Cmd
  validate : Text → Cmd
  check : ℕ → Text → Cmd
  check_all : List (ℕ × Text) → Cmd

pub data Msg : Type 0 where
  test_result : ℕ → Bool → Text → Msg
  validate_add : Bool → Text → Text → Msg
  clear_delete_pending : Msg
  key : Key → Msg
  other_msg : Msg

module _ {ℓ} {A : Type ℓ} where
  -- `append(s[:i], s[i+1:]...)`
  unfoldable pub remove_at : ℕ → List A → List A
  remove_at i [] = []
  remove_at zero (x ∷ xs) = xs
  remove_at (suc i) (x ∷ xs) = x ∷ remove_at i xs

  -- `s[i], s[i+1] = s[i+1], s[i]`
  unfoldable pub swap_at : ℕ → List A → List A
  swap_at i [] = []
  swap_at i (x ∷ []) = x ∷ []
  swap_at zero (x ∷ y ∷ xs) = y ∷ x ∷ xs
  swap_at (suc i) (x ∷ y ∷ xs) = x ∷ swap_at i (y ∷ xs)

-- The map of results by place: `results[i] = r`, the newest first.
abbrev pub Results : Type 0
Results = List (ℕ × TestResult)

unfoldable pub enumerate : ℕ → List Text → List (ℕ × Text)
enumerate i [] = []
enumerate i (raw ∷ raws) = (i, raw) ∷ enumerate (i + 1) raws

abbrev pub head_or : Text → List Text → Text
head_or d [] = d
head_or d (x ∷ xs) = x

module _ (T : InputLib) where
  pub record Model : Type 0 where
    pub upstreams : List Text
    pub results : Results
    pub pending_test : ℕ
    pub cursor : ℕ
    pub delete_pending : Option ℕ
    pub mode : Mode
    pub add_input : T.Input
    pub validate_err : Text
    pub saved : Bool
    pub quitting : Bool

  -- `initialConfigureModel`, with the new text field `input`
  abbrev pub initial_model : T.Input → List Text → Model
  initial_model input current = record {
    upstreams = current;
    results = [];
    pending_test = 0;
    cursor = 0;
    delete_pending = none;
    mode = listing;
    add_input = input;
    validate_err = [];
    saved = false;
    quitting = false;
  }

  -- `handleKey` in `modeAdd`
  unfoldable pub key_adding : Key → Model → Model × Cmd
  key_adding esc m = (
    record m { mode = listing; add_input = T.reset (T.blur m.add_input); validate_err = [] },
    no_cmd,
  )
  key_adding enter m =
      let raw = trim_space (T.value m.add_input) in
      if is_empty raw
      then (record m { validate_err = codes "resolver is required" }, no_cmd)
      else (record m { mode = validating; validate_err = [] }, validate raw)
  key_adding k m = (record m { add_input = T.press k m.add_input }, input_cmd)

  -- `handleKey` in `modeValidating`
  unfoldable pub quits : Key → Bool
  quits ctrl_c = true
  quits key_q = true
  quits esc = true
  quits k = false

  unfoldable pub key_validating : Key → Model → Model × Cmd
  key_validating k m = if quits k then (record m { quitting = true }, quit) else (m, no_cmd)

  -- The cases of `handleKey` in `modeList`.
  unfoldable pub cursor_up : Model → Model × Cmd
  cursor_up m = (if ltb 0 m.cursor then record m { cursor = m.cursor - 1 } else m, no_cmd)

  unfoldable pub cursor_down : Model → Model × Cmd
  cursor_down m = (
    if ltb (m.cursor + 1) (length m.upstreams) then record m { cursor = m.cursor + 1 } else m,
    no_cmd,
  )

  unfoldable pub start_add : Model → Model × Cmd
  start_add m =
      if leb 16 (length m.upstreams)
      then (m, no_cmd)
      else (record m { mode = adding; validate_err = []; add_input = T.focus m.add_input }, blink)

  -- The confirmed deletion: the second `d` or `x`.
  unfoldable pub delete_at : ℕ → Model → Model
  delete_at pending m =
      let left = remove_at m.cursor m.upstreams in
      if pending == m.cursor && ltb 1 (length m.upstreams)
      then record m {
        upstreams = left;
        results = [];
        cursor = if leb (length left) m.cursor then length left - 1 else m.cursor;
      }
      else m

  unfoldable pub press_delete : Model → Model × Cmd
  press_delete m = elim m.delete_pending [
    | none ↦
        if leb (length m.upstreams) 1
        then (m, no_cmd)
        else (record m { delete_pending = some m.cursor }, tick)
    | some pending ↦ (record (delete_at pending m) { delete_pending = none }, no_cmd)
  ]

  unfoldable pub move_up : Model → Model × Cmd
  move_up m =
      let moved = swap_at (m.cursor - 1) m.upstreams in
      if ltb 0 m.cursor
      then (
        record m { upstreams = moved; cursor = m.cursor - 1; results = [] },
        check 0 (head_or [] moved),
      )
      else (m, no_cmd)

  unfoldable pub move_down : Model → Model × Cmd
  move_down m =
      let moved = swap_at m.cursor m.upstreams in
      if ltb (m.cursor + 1) (length m.upstreams)
      then (
        record m { upstreams = moved; cursor = m.cursor + 1; results = [] },
        check 0 (head_or [] moved),
      )
      else (m, no_cmd)

  -- `testAllCmd` with its caller
  unfoldable pub test_all : Model → Model × Cmd
  test_all m = if length m.upstreams == 0 then (m, no_cmd) else (
    record m { results = []; pending_test = length m.upstreams },
    check_all (enumerate 0 m.upstreams),
  )

  -- `handleKey` in `modeList`, behind the reset of a pending deletion.
  unfoldable pub key_listing : Key → Model → Model × Cmd
  key_listing ctrl_c m = (record m { quitting = true }, quit)
  key_listing key_q m = (record m { quitting = true }, quit)
  key_listing esc m = (record m { quitting = true }, quit)
  key_listing up m = cursor_up m
  key_listing key_k m = cursor_up m
  key_listing down m = cursor_down m
  key_listing key_j m = cursor_down m
  key_listing key_a m = start_add m
  key_listing key_d m = press_delete m
  key_listing key_x m = press_delete m
  key_listing open_bracket m = move_up m
  key_listing close_bracket m = move_down m
  key_listing key_t m = test_all m
  key_listing key_s m = (record m { saved = true; quitting = true }, quit)
  key_listing k m = (m, no_cmd)

  unfoldable pub keeps_pending : Key → Bool
  keeps_pending key_d = true
  keeps_pending key_x = true
  keeps_pending k = false

  -- The reset of a pending deletion by any other key.
  unfoldable pub forget_pending : Key → Model → Model
  forget_pending k m = if keeps_pending k then m else record m { delete_pending = none }

  -- `handleKey`
  unfoldable pub handle_key : Key → Model → Model × Cmd
  handle_key k m = elim m.mode [
    | adding ↦ key_adding k m
    | validating ↦ key_validating k m
    | listing ↦ key_listing k (forget_pending k m)
  ]

  -- `Update`
  unfoldable pub update : Msg → Model → Model × Cmd
  update (test_result index passed error) m = (
    record m {
      results = (index, record { passed = passed; error = error }) ∷ m.results;
      pending_test = m.pending_test - 1;
    },
    no_cmd,
  )
  update (validate_add passed error raw) m =
      if passed
      then (
        record m {
          upstreams = m.upstreams ++ (raw ∷ []);
          add_input = T.reset m.add_input;
          validate_err = [];
          mode = listing;
          cursor = length m.upstreams;
        },
        no_cmd,
      )
      else (record m { validate_err = error; mode = adding }, no_cmd)
  update clear_delete_pending m = (record m { delete_pending = none }, no_cmd)
  update (key k) m = handle_key k m
  update other_msg m = (m, no_cmd)
