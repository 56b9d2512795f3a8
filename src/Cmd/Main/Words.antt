-- ===== src/Cmd/Main/Words.antt =====
-- `run` of main.go: flags before and behind the command, and the flag for help.
use zeus_dns_cli.Base.{
  ◌≡◌, ◌⊎◌, inl, inr, refl, List, [], ◌∷◌, ◌++◌, arith, Text, codes, text_eq, ok,
}
use zeus_dns_cli.Net.{cut_first}
use zeus_dns_cli.Cmd.{exit_bad_arg}
use zeus_dns_cli.Cmd.Flags.{
  Options, no_options, FlagError, Read, stops, ends, takes, goes_on, failed, classify, plain,
  read_word, parse,
}
use zeus_dns_cli.Cmd.Main.{Env, run_command, run}

plain-stops : (o : Options) (name : Text) → classify name ≡ plain → read_word o name ≡ stops
unfolding read_word
plain-stops o name h = rw (h, read_word)

parse-plain :
    (o : Options) (name : Text) (args : List Text)
    → classify name ≡ plain
    → parse o (name ∷ args) ≡ ok (o, name ∷ args)
unfolding parse
parse-plain o name [] h = rw (plain-stops o name h, parse)
parse-plain o name (a ∷ args) h = rw (plain-stops o name h, parse)

Read-cases :
    (r : Read)
    → (r ≡ stops)
      ⊎ (r ≡ ends)
      ⊎ (r ≡ takes)
      ⊎ ((o : Options) × (r ≡ goes_on o))
      ⊎ ((e : FlagError) × (r ≡ failed e))
Read-cases stops = inl refl
Read-cases ends = inr (inl refl)
Read-cases takes = inr (inr (inl refl))
Read-cases (goes_on o) = inr (inr (inr (inl (o, refl))))
Read-cases (failed e) = inr (inr (inr (inr (e, refl))))

-- A command behind flags that are all read is what is left.
parse-append :
    (o o' : Options) (flags : List Text) (name : Text)
    → classify name ≡ plain
    → parse o flags ≡ ok (o', [])
    → parse o (flags ++ (name ∷ [])) ≡ ok (o', name ∷ [])
unfolding parse
parse-append o o' [] name h e = let same : o ≡ o' = cc in rw (same) (parse-plain o' name [] h)
parse-append o o' (s ∷ []) name h e = elim (Read-cases (read_word o s)) [
  | inl r ↦ absurd (ground (arith, r))
  | inr (inl r) ↦ let same : o ≡ o' = ground (arith, r) in rw (r, parse) (rw same)
  | inr (inr (inl r)) ↦ absurd (ground (arith, r))
  | inr (inr (inr (inl (p, r)))) ↦
      let same : p ≡ o' = ground (arith, r) in rw (r, parse) (rw same (parse-plain o' name [] h))
  | inr (inr (inr (inr (x, r)))) ↦ absurd (ground (arith, r))
]
parse-append o o' (s ∷ v ∷ flags) name h e = elim (Read-cases (read_word o s)) [
  | inl r ↦ absurd (ground (arith, r))
  | inr (inl r) ↦ absurd (ground (arith, r))
  | inr (inr (inl r)) ↦
      rw (r, parse)
        (parse-append (record o { config_path = v }) o' flags name h (rw (r, parse) at e))
  | inr (inr (inr (inl (p, r)))) ↦
      rw (r, parse) (parse-append p o' (v ∷ flags) name h (rw (r, parse) at e))
  | inr (inr (inr (inr (x, r)))) ↦ absurd (ground (arith, r))
]

-- Flags may stand before the command or behind it: where a list of words is read as flags with
-- nothing left, the program does the same and ends with the same code for both orders.
pub run_flags :
    (e : Env) (flags : List Text) (o : Options) (name : Text)
    → classify name ≡ plain
    → parse no_options flags ≡ ok (o, [])
    → run e (flags ++ (name ∷ [])) ≡ run e (name ∷ flags)
unfolding run run_command
run_flags e [] o name h p = refl
run_flags e (s ∷ flags) o name h p = simp (
  parse-append no_options o (s ∷ flags) name h p,
  parse-plain no_options name (s ∷ flags) h,
  p,
  run,
  run_command,
)

-- The flag for help ends with the code for a bad argument, whatever follows it: the package flag
-- takes it for an error before the command is looked at.
pub run_help :
    (e : Env) (args : List Text)
    → (run e (codes "-h" ∷ args) ≡ exit_bad_arg) × (run e (codes "--help" ∷ args) ≡ exit_bad_arg)
unfolding run parse read_word cut_first text_eq
run_help e [] = (refl, refl)
run_help e (a ∷ args) = (refl, refl)
