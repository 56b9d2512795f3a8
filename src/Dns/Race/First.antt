-- ===== src/Dns/Race/First.antt =====
-- Who wins the race of dns/server.go.
use zeus_dns_cli.Base.{
  ℕ, ◌≡◌, refl, sym, ap, ◌∙◌, ◌≢◌, ◌⊎◌, inl, inr, Bool, true, Option, none, some, List, [], ◌∷◌,
  ◌++◌, ◌==◌, Result, ok, err, Bool-cases, arith, All, Any,
}
use zeus_dns_cli.Dns.Message.{Msg, DnsLib, rcode_server_failure}
use zeus_dns_cli.Dns.Race.{
  Answer, failed, nothing, reply, RaceError, upstream_error, all_empty, keep_first, race_loop,
}

module _ {E : Type 0} (L : DnsLib) where
  -- The answers that the race passes over.
  unfoldable pub is_loser : Answer E L.Rr → Bool
  is_loser (failed e) = true
  is_loser nothing = true
  is_loser (reply m) = m.rcode == rcode_server_failure

  abbrev pub Loses : ℕ × Answer E L.Rr → Type 0
  Loses (i, a) = is_loser a ≡ true

  -- The first error among the answers, behind one that is known already.
  pub first_error : Option E → List (ℕ × Answer E L.Rr) → Option E
  first_error (some e) answers = some e
  first_error none [] = none
  first_error none ((i, failed e) ∷ rest) = some e
  first_error none ((i, nothing) ∷ rest) = first_error none rest
  first_error none ((i, reply m) ∷ rest) = first_error none rest

  pub race_error : Option E → RaceError E
  race_error none = all_empty
  race_error (some e) = upstream_error e

  -- The race is won by the first answer that is neither an error nor empty nor SERVFAIL, whatever
  -- comes behind it.
  pub race_loop-first :
      (first_err : Option E) (losers rest : List (ℕ × Answer E L.Rr)) (i : ℕ) (m : Msg L.Rr)
      → All Loses losers
      → m.rcode ≢ rcode_server_failure
      → race_loop L first_err (losers ++ (i, reply m) ∷ rest) ≡ ok m
  unfolding race_loop is_loser
  race_loop-first first_err [] rest i m a good = ground arith
  race_loop-first first_err ((j, failed e) ∷ losers) rest i m a good =
      race_loop-first (keep_first first_err e) losers rest i m a.1 good
  race_loop-first first_err ((j, nothing) ∷ losers) rest i m a good =
      race_loop-first first_err losers rest i m a.1 good
  race_loop-first first_err ((j, reply m') ∷ losers) rest i m a good =
      rw (a.0, race_loop) (race_loop-first first_err losers rest i m a.1 good)

  abbrev Won : Result (RaceError E) (Msg L.Rr) → List (ℕ × Answer E L.Rr) → Type 0
  Won r answers =
      (m : Msg L.Rr) × (r ≡ ok m)
      × (m.rcode ≢ rcode_server_failure)
      × Any (λ a. a.1 ≡ reply m) answers

  abbrev Lost : Option E → Result (RaceError E) (Msg L.Rr) → List (ℕ × Answer E L.Rr) → Type 0
  Lost first_err r answers =
      All Loses answers × (r ≡ err (race_error (first_error first_err answers)))

  later_Won :
      (r : Result (RaceError E) (Msg L.Rr)) (a : ℕ × Answer E L.Rr)
      (answers : List (ℕ × Answer E L.Rr))
      → Won r answers
      → Won r (a ∷ answers)
  later_Won r a answers (m, won, good, there) = (m, won, good, inr there)

  -- An answer that is passed over without an error to keep.
  pass_over :
      (first_err : Option E) (r r' : Result (RaceError E) (Msg L.Rr)) (i : ℕ) (a : Answer E L.Rr)
      (rest : List (ℕ × Answer E L.Rr))
      → r' ≡ r
      → is_loser a ≡ true
      → first_error first_err ((i, a) ∷ rest) ≡ first_error first_err rest
      → Lost first_err r rest ⊎ Won r rest
      → Lost first_err r' ((i, a) ∷ rest) ⊎ Won r' ((i, a) ∷ rest)
  pass_over first_err r r' i a rest e loses same (inl (all, lost)) =
      inl ((loses, all), e ∙ lost ∙ sym (ap (λ o. err (race_error o)) same))
  pass_over first_err r r' i a rest e loses same (inr (m, won, good, there)) =
      inr (m, e ∙ won, good, inr there)

  first_error-nothing :
      (first_err : Option E) (i : ℕ) (rest : List (ℕ × Answer E L.Rr))
      → first_error first_err ((i, nothing) ∷ rest) ≡ first_error first_err rest
  unfolding first_error
  first_error-nothing none i rest = refl
  first_error-nothing (some e) i rest = refl

  first_error-reply :
      (first_err : Option E) (i : ℕ) (m : Msg L.Rr) (rest : List (ℕ × Answer E L.Rr))
      → first_error first_err ((i, reply m) ∷ rest) ≡ first_error first_err rest
  unfolding first_error
  first_error-reply none i m rest = refl
  first_error-reply (some e) i m rest = refl

  race_loop_cases :
      (first_err : Option E) (answers : List (ℕ × Answer E L.Rr))
      → Lost first_err (race_loop L first_err answers) answers
        ⊎ Won (race_loop L first_err answers) answers
  unfolding race_loop is_loser first_error race_error
  race_loop_cases none [] = inl (tt, refl)
  race_loop_cases (some e) [] = inl (tt, refl)
  race_loop_cases none ((i, failed e) ∷ rest) = elim (race_loop_cases (some e) rest) [
    | inl (a, lost) ↦ inl ((refl, a), lost)
    | inr won ↦ inr (later_Won _ (i, failed e) rest won)
  ]
  race_loop_cases (some f) ((i, failed e) ∷ rest) = elim (race_loop_cases (some f) rest) [
    | inl (a, lost) ↦ inl ((refl, a), lost)
    | inr won ↦ inr (later_Won _ (i, failed e) rest won)
  ]
  race_loop_cases first_err ((i, nothing) ∷ rest) =
      pass_over first_err _ _ i nothing rest refl refl (first_error-nothing first_err i rest)
        (race_loop_cases first_err rest)
  race_loop_cases first_err ((i, reply m) ∷ rest) =
      elim (Bool-cases (m.rcode == rcode_server_failure)) [
        | inl servfail ↦
            pass_over first_err _ _ i (reply m) rest (rw (servfail, race_loop)) servfail
              (first_error-reply first_err i m rest) (race_loop_cases first_err rest)
        | inr good ↦ inr (m, rw (good, race_loop), ground arith, inl refl)
      ]

  -- The race fails exactly if every answer loses, so in whatever order they come; the error is then
  -- the first that came, or the general one if all answers were empty or SERVFAIL. Else it returns
  -- a message that is no SERVFAIL and that some upstream sent.
  race_loop-fails :
      (answers : List (ℕ × Answer E L.Rr))
      → (All Loses answers
          × (race_loop L none answers ≡ err (race_error (first_error none answers))))
        ⊎ ((m : Msg L.Rr) × (race_loop L none answers ≡ ok m)
            × (m.rcode ≢ rcode_server_failure)
            × Any (λ a. a.1 ≡ reply m) answers)
  race_loop-fails answers = race_loop_cases none answers
