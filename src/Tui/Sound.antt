-- ===== src/Tui/Sound.antt =====
-- The menu of tui/configure.go: what holds of the model in every reachable state.
use zeus_dns_cli.Base.{
  ℕ, zero, suc, ◌+◌, ◌-◌, ◌≤◌, ◌<◌, ◌≡◌, refl, false, Option, none, some, List, [], ◌∷◌, ◌++◌,
  arith, Text, length, length-append, ◌⊎◌, inl, inr,
}
use zeus_dns_cli.Tui.{
  InputLib, Model, Mode, listing, adding, validating, Key, esc, enter, ctrl_c, key_q, up, key_k,
  down, key_j, key_a, key_d, key_x, open_bracket, close_bracket, key_t, key_s, other, check_all,
  Cmd, Msg, handle_key, update, validate, remove_at, swap_at, key_adding, key_validating,
  key_listing, cursor_up, cursor_down, start_add, delete_at, press_delete, move_up, move_down,
  test_all, keeps_pending, forget_pending,
}
use zeus_dns_cli.Tui.Check.{Checks}
use zeus_dns_cli.Tui.Answers.{validate_resolver_cmd-validate_add, check_upstream_cmd-test_result}
use zeus_dns_cli.Tui.Steps.{
  Sends, validated, checked, ticked, blinked, field_sent, Loop, Step, pressed, delivered, started,
  Reached, start, step,
}

-- The number of validations among commands.
abbrev pub validations : Cmd → ℕ
validations (validate raw) = 1
validations c = 0

abbrev pub in_flight : List Cmd → ℕ
in_flight [] = 0
in_flight (c ∷ cs) = validations c + in_flight cs

in_flight-middle :
    (xs ys : List Cmd) (c : Cmd) → in_flight (xs ++ (c ∷ ys)) ≡ validations c + in_flight (xs ++ ys)
in_flight-middle [] ys c = refl
in_flight-middle (x ∷ xs) ys c = omega (arith, in_flight-middle xs ys c)

length-swap_at {ℓ} : {A : Type ℓ} (i : ℕ) (xs : List A) → length (swap_at i xs) ≡ length xs
unfolding swap_at
length-swap_at i [] = refl
length-swap_at i (x ∷ []) = refl
length-swap_at zero (x ∷ y ∷ xs) = refl
length-swap_at (suc i) (x ∷ y ∷ xs) = omega (arith, length-swap_at i (y ∷ xs))

length-remove_at {ℓ} :
    {A : Type ℓ} (i : ℕ) (xs : List A) → suc i ≤ length xs → length (remove_at i xs) + 1 ≡ length xs
unfolding remove_at
length-remove_at i [] h = absurd (omega arith)
length-remove_at zero (x ∷ xs) h = omega arith
length-remove_at (suc i) (x ∷ xs) h = omega (arith, length-remove_at i xs (omega arith))

-- What a mode asks of the number of validations in flight, and of the room in the list.
abbrev pub waits : Mode → ℕ
waits listing = 0
waits adding = 0
waits validating = 1

abbrev pub HasRoom : Mode → ℕ → ℕ → Type 0
HasRoom listing n bound = Unit
HasRoom adding n bound = suc n ≤ bound
HasRoom validating n bound = suc n ≤ bound

abbrev pub MarksCursor : Option ℕ → ℕ → Mode → ℕ → Type 0
MarksCursor none cursor mode n = Unit
MarksCursor (some pending) cursor mode n = (pending ≡ cursor) × (mode ≡ listing) × (1 < n)

Mode-cases : (x : Mode) → (x ≡ listing) ⊎ (x ≡ adding) ⊎ (x ≡ validating)
Mode-cases listing = inl refl
Mode-cases adding = inr (inl refl)
Mode-cases validating = inr (inr refl)

module _ (T : InputLib) (low bound : ℕ) (low-le : low ≤ 1) (le-bound : 16 ≤ bound) where
  pub record IsSound (m : Model T) (n : ℕ) : Type 0 where
    pub cursor : m.cursor ≤ length m.upstreams - 1
    pub size : length m.upstreams ≤ bound
    pub left : low ≤ length m.upstreams
    pub waiting : n ≡ waits m.mode
    pub room : HasRoom m.mode (length m.upstreams) bound
    pub pending : MarksCursor m.delete_pending m.cursor m.mode (length m.upstreams)

  abbrev pub Keeps : Model T × Cmd → ℕ → Type 0
  Keeps (m, c) n = IsSound m (validations c + n)

  key_adding-IsSound :
      (k : Key) (m : Model T) (n : ℕ) → IsSound m n → m.mode ≡ adding → Keeps (key_adding T k m) n
  unfolding key_adding
  key_adding-IsSound k m n s e = ground arith

  cursor_up-IsSound :
      (m : Model T) (n : ℕ) → IsSound m n → m.delete_pending ≡ none → Keeps (cursor_up T m) n
  unfolding cursor_up
  cursor_up-IsSound m n s e = ground arith

  cursor_down-IsSound :
      (m : Model T) (n : ℕ) → IsSound m n → m.delete_pending ≡ none → Keeps (cursor_down T m) n
  unfolding cursor_down
  cursor_down-IsSound m n s e = ground arith

  start_add-IsSound :
      (m : Model T) (n : ℕ)
      → IsSound m n
      → m.delete_pending ≡ none
      → m.mode ≡ listing
      → Keeps (start_add T m) n
  unfolding start_add
  start_add-IsSound m n s e f = ground arith

  press_delete-IsSound :
      (m : Model T) (n : ℕ) → IsSound m n → m.mode ≡ listing → Keeps (press_delete T m) n
  unfolding press_delete delete_at
  press_delete-IsSound m n s f = ground (arith, length-remove_at m.cursor m.upstreams)

  move_up-IsSound :
      (m : Model T) (n : ℕ) → IsSound m n → m.delete_pending ≡ none → Keeps (move_up T m) n
  unfolding move_up
  move_up-IsSound m n s e = ground (arith, length-swap_at (m.cursor - 1) m.upstreams)

  move_down-IsSound :
      (m : Model T) (n : ℕ) → IsSound m n → m.delete_pending ≡ none → Keeps (move_down T m) n
  unfolding move_down
  move_down-IsSound m n s e = ground (arith, length-swap_at m.cursor m.upstreams)

  test_all-IsSound : (m : Model T) (n : ℕ) → IsSound m n → Keeps (test_all T m) n
  unfolding test_all
  test_all-IsSound m n s = ground arith

  key_validating-IsSound :
      (k : Key) (m : Model T) (n : ℕ) → IsSound m n → Keeps (key_validating T k m) n
  unfolding key_validating
  key_validating-IsSound k m n s = ground arith

  forget_pending-IsSound :
      (k : Key) (m : Model T) (n : ℕ)
      → IsSound m n
      → m.mode ≡ listing
      → IsSound (forget_pending T k m) n
        × ((forget_pending T k m).mode ≡ listing)
        × (keeps_pending T k ≡ false → (forget_pending T k m).delete_pending ≡ none)
  unfolding forget_pending
  forget_pending-IsSound k m n s e = ground arith

  key_listing-IsSound :
      (k : Key) (m : Model T) (n : ℕ)
      → IsSound m n
      → m.mode ≡ listing
      → (keeps_pending T k ≡ false → m.delete_pending ≡ none)
      → Keeps (key_listing T k m) n
  unfolding key_listing keeps_pending
  key_listing-IsSound esc m n s e f = ground arith
  key_listing-IsSound ctrl_c m n s e f = ground arith
  key_listing-IsSound key_q m n s e f = ground arith
  key_listing-IsSound key_s m n s e f = ground arith
  key_listing-IsSound enter m n s e f = ground arith
  key_listing-IsSound (other t) m n s e f = ground arith
  key_listing-IsSound up m n s e f = cursor_up-IsSound m n s (f refl)
  key_listing-IsSound key_k m n s e f = cursor_up-IsSound m n s (f refl)
  key_listing-IsSound down m n s e f = cursor_down-IsSound m n s (f refl)
  key_listing-IsSound key_j m n s e f = cursor_down-IsSound m n s (f refl)
  key_listing-IsSound key_a m n s e f = start_add-IsSound m n s (f refl) e
  key_listing-IsSound key_d m n s e f = press_delete-IsSound m n s e
  key_listing-IsSound key_x m n s e f = press_delete-IsSound m n s e
  key_listing-IsSound open_bracket m n s e f = move_up-IsSound m n s (f refl)
  key_listing-IsSound close_bracket m n s e f = move_down-IsSound m n s (f refl)
  key_listing-IsSound key_t m n s e f = test_all-IsSound m n s

  handle_key-IsSound : (k : Key) (m : Model T) (n : ℕ) → IsSound m n → Keeps (handle_key T k m) n
  unfolding handle_key
  handle_key-IsSound k m n s = elim (Mode-cases m.mode) [
    | inl e ↦
        let (s', e', f) = forget_pending-IsSound k m n s e in
        simp (e, handle_key) (key_listing-IsSound k (forget_pending T k m) n s' e' f)
    | inr (inl e) ↦ simp (e, handle_key) (key_adding-IsSound k m n s e)
    | inr (inr e) ↦ simp (e, handle_key) (key_validating-IsSound k m n s)
  ]

module _ (C : Checks) (T : InputLib) (low bound : ℕ) (low-le : low ≤ 1)
    (le-bound : 16 ≤ bound) where
  -- The messages that commands send: a validation that ends was in flight.
  message-IsSound :
      (c : Cmd) (msg : Msg) (m : Model T) (n : ℕ)
      → Sends C c msg
      → IsSound T low bound low-le le-bound m (validations c + n)
      → Keeps T low bound low-le le-bound (update T msg m) n
  unfolding update
  message-IsSound c msg m n (validated raw _ answer possible e) s =
      let (passed, error, e') = validate_resolver_cmd-validate_add C answer raw in
      rw (e, e') (ground (arith, length-append m.upstreams (raw ∷ [])))
  message-IsSound c msg m n (checked i raw _ answer possible e) s =
      let (passed, error, e') = check_upstream_cmd-test_result C answer i raw in
      rw (e, e') (ground arith)
  message-IsSound c msg m n ticked s = ground arith
  message-IsSound c msg m n blinked s = ground arith
  message-IsSound c msg m n field_sent s = ground arith

  Step-IsSound :
      (l next : Loop T)
      → Step C T l next
      → IsSound T low bound low-le le-bound l.0 (in_flight l.1)
      → IsSound T low bound low-le le-bound next.0 (in_flight next.1)
  Step-IsSound (m, fl) next (pressed k e) s =
      rw e (handle_key-IsSound T low bound low-le le-bound k m (in_flight fl) s)
  Step-IsSound (m, fl) next (delivered before behind c msg split sent e) s = rw e (
      message-IsSound c msg m (in_flight (before ++ behind)) sent
        (rw (in_flight-middle before behind c) at (rw split at s)))
  Step-IsSound (m, fl) next (started before behind i raw more split e) s =
      let s' =
        rw (in_flight-middle before behind (check_all ((i, raw) ∷ more))) at (rw split at s) in
      rw (e, in_flight-middle before behind (check_all more)) (ground (arith, s'))

  -- In every state that the menu reaches, whatever keys are pressed and in whatever order the
  -- commands answer: the cursor is within the list; the list has at most 16 entries, or as many as
  -- it had at first where those were more, and does not become empty; a new resolver is being
  -- validated exactly in the mode that waits for it, one at a time and with room left for it; and
  -- a pending deletion is of the entry at the cursor, and not of the only one. Here `low` is 0 or 1 and at most the first
  -- length, and `bound` at least 16 and the first length.
  pub Reached-IsSound :
      (input : T.Input) (current : List Text)
      → low ≤ length current
      → length current ≤ bound
      → (l : Loop T) → Reached C T input current l
      → IsSound T low bound low-le le-bound l.0 (in_flight l.1)
  Reached-IsSound input current h1 h2 l (start e) = rw e (ground arith)
  Reached-IsSound input current h1 h2 next (step {l} r st) =
      Step-IsSound l next st (Reached-IsSound input current h1 h2 l r)
