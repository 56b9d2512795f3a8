-- ===== src/Tui/Asked.antt =====
-- Where the resolvers in the list of tui/configure.go come from.
use zeus_dns_cli.Base.{
  ℕ, zero, suc, ◌-◌, ◌≡◌, refl, ◌⊎◌, inl, inr, true, Option, List, [], ◌∷◌, Any, All, All-append,
  Text, arith, Result, ok, Bool-cases,
}
use zeus_dns_cli.Dns.Message
use zeus_dns_cli.Dns.Upstream.{Upstream, Client, parse_upstream}
use zeus_dns_cli.Tui.{
  InputLib, Model, Key, key_d, key_x, open_bracket, close_bracket, Cmd, Msg, handle_key, update,
  validate_add, remove_at, swap_at, key_adding, key_validating, key_listing, cursor_up, cursor_down,
  start_add, delete_at, press_delete, move_up, move_down, test_all, forget_pending,
}
use zeus_dns_cli.Tui.Check.{Checks, check_upstream, validate_resolver_cmd}
use zeus_dns_cli.Tui.Answers.{
  validate_resolver_cmd-validate_add, validate_resolver_cmd-passed, check_upstream_cmd-test_result,
}
use zeus_dns_cli.Tui.Steps.{
  Sends, validated, checked, ticked, blinked, field_sent, Loop, Step, pressed, delivered, started,
  Reached, start, step,
}

-- A predicate on lists that the deletion and the swap of entries keep is kept by every key.
module _ (T : InputLib) (Q : List Text → Type 0)
    (removes : (i : ℕ) (xs : List Text) → Q xs → Q (remove_at i xs))
    (swaps : (i : ℕ) (xs : List Text) → Q xs → Q (swap_at i xs)) where
  key_listing-keeps : (k : Key) (m : Model T) → Q m.upstreams → Q (key_listing T k m).0.upstreams
  unfolding key_listing cursor_up cursor_down start_add press_delete delete_at move_up move_down
      test_all
  key_listing-keeps key_d m q = ground (arith, removes m.cursor m.upstreams q)
  key_listing-keeps key_x m q = ground (arith, removes m.cursor m.upstreams q)
  key_listing-keeps open_bracket m q = ground (arith, swaps (m.cursor - 1) m.upstreams q)
  key_listing-keeps close_bracket m q = ground (arith, swaps m.cursor m.upstreams q)
  key_listing-keeps k m q = ground arith

  handle_key-keeps : (k : Key) (m : Model T) → Q m.upstreams → Q (handle_key T k m).0.upstreams
  unfolding handle_key key_adding key_validating forget_pending
  handle_key-keeps k m q = ground (arith, key_listing-keeps k (forget_pending T k m))

All-remove_at {ℓ} :
    {A : Type ℓ} (P : A → Type 0) (i : ℕ) (xs : List A) → All P xs → All P (remove_at i xs)
unfolding remove_at
All-remove_at P i [] h = h
All-remove_at P zero (x ∷ xs) h = h.1
All-remove_at P (suc i) (x ∷ xs) h = (h.0, All-remove_at P i xs h.1)

All-swap_at {ℓ} :
    {A : Type ℓ} (P : A → Type 0) (i : ℕ) (xs : List A) → All P xs → All P (swap_at i xs)
unfolding swap_at
All-swap_at P i [] h = h
All-swap_at P i (x ∷ []) h = h
All-swap_at P zero (x ∷ y ∷ xs) h = (h.1.0, (h.0, h.1.1))
All-swap_at P (suc i) (x ∷ y ∷ xs) h = (h.0, All-swap_at P i (y ∷ xs) h.1)

All-same :
    (P : Text → Type 0) (xs : List Text) → ((x : Text) → Any (λ y. y ≡ x) xs → P x) → All P xs
All-same P [] h = tt
All-same P (x ∷ xs) h = (h x (inl refl), All-same P xs (λ y a. h y (inr a)))

-- The address is read, and the check of its resolver passed at a time when the network answered so.
abbrev pub Accepted : (C : Checks) → Text → Type 0
Accepted C raw =
    (u : Upstream) × (answer : Client → Result C.Failure (Option (Message.Msg C.Record)))
    × (parse_upstream C.parse_url raw ≡ ok u)
    × C.Possible answer
    × (check_upstream C answer u ≡ ok tt)

abbrev pub Origin : Checks → List Text → Text → Type 0
Origin C current raw = Any (λ r. r ≡ raw) current ⊎ Accepted C raw

module _ (C : Checks) (T : InputLib) (current : List Text) where
  abbrev Comes : List Text → Type 0
  Comes = All (Origin C current)

  message-Comes :
      (c : Cmd) (msg : Msg) (m : Model T)
      → Sends C c msg
      → Comes m.upstreams
      → Comes (update T msg m).0.upstreams
  unfolding update
  message-Comes c msg m (validated raw _ answer possible e) h =
      let (passed, error, e') = validate_resolver_cmd-validate_add C answer raw in
      elim (Bool-cases passed) [
        | inr f ↦ rw (e, e', f) h
        | inl p ↦
            let sent : validate_resolver_cmd C answer raw ≡ validate_add true error raw =
              rw p at e' in
            let (_, u, parsed, healthy) =
              validate_resolver_cmd-passed C answer raw error raw sent in
            rw (e, e', p)
              (All-append (Origin C current) m.upstreams (raw ∷ []) h
                (inr (u, answer, parsed, possible, healthy), tt))
      ]
  message-Comes c msg m (checked i raw _ answer possible e) h =
      let (passed, error, e') = check_upstream_cmd-test_result C answer i raw in rw (e, e') h
  message-Comes c msg m ticked h = h
  message-Comes c msg m blinked h = h
  message-Comes c msg m field_sent h = h

  Step-Comes : (l next : Loop T) → Step C T l next → Comes l.0.upstreams → Comes next.0.upstreams
  Step-Comes (m, fl) next (pressed k e) h = rw e (
      handle_key-keeps T Comes (All-remove_at (Origin C current)) (All-swap_at (Origin C current)) k
        m h)
  Step-Comes (m, fl) next (delivered before behind c msg split sent e) h =
      rw e (message-Comes c msg m sent h)
  Step-Comes (m, fl) next (started before behind i raw more split e) h = rw e h

  -- In every state that the menu reaches, and so in the list that it saves, each resolver was in
  -- the list that it began with, or was read by `ParseUpstream` and passed `Check` with an answer
  -- that the network gave, as the text that was checked: no key and no order of messages brings an
  -- unchecked resolver in.
  pub Reached-Origin :
      (input : T.Input) (l : Loop T)
      → Reached C T input current l
      → All (Origin C current) l.0.upstreams
  Reached-Origin input l (start e) = rw e (All-same (Origin C current) current (λ x a. inl a))
  Reached-Origin input next (step {l} r st) = Step-Comes l next st (Reached-Origin input l r)
