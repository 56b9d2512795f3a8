-- ===== src/Cmd/Flags.antt =====
-- The command line of main.go, as Go's package flag reads it with the flags that `run` declares.
use zeus_dns_cli.Base.{
  Bool, true, false, ◌||◌, not, Option, none, some, List, [], ◌∷◌, ◌==◌, is_empty, if◌then◌else◌,
  Text, codes, text_eq, Result, ok, err,
}
use zeus_dns_cli.Net.{cut_first}

-- The variables of the flags `-v`, `-c` or `-config`, and `-version`.
pub record Options : Type 0 where
  pub verbose : Bool
  pub config_path : Text
  pub show_version : Bool

abbrev pub no_options : Options
no_options = record { verbose = false; config_path = []; show_version = false }

pub data FlagError : Type 0 where
  bad_syntax not_defined bad_value no_argument : FlagError

-- What a word of the command line is: no flag, the end of the flags, or a flag by its name, with
-- the value behind `=`.
pub data Word : Type 0 where
  plain dashes malformed : Word
  flag : (name : Text) → (value : Option Text) → Word

-- The name and the value of a flag, from its text behind the dashes.
unfoldable pub read_flag : Text → Word
read_flag [] = malformed
read_flag (c ∷ name) = if c == b'-' || c == b'=' then malformed else elim (cut_first b'=' name) [
  | none ↦ flag (c ∷ name) none
  | some (before, value) ↦ flag (c ∷ before) (some value)
]

unfoldable pub classify : Text → Word
unfolding read_flag
classify [] = plain
classify (c ∷ []) = plain
classify (c ∷ d ∷ s) =
    if not (c == b'-')
    then plain
    else if not (d == b'-')
    then read_flag (d ∷ s)
    else if is_empty s
    then dashes
    else read_flag s

-- `strconv.ParseBool`
unfoldable pub is_one_of : Text → List Text → Bool
is_one_of s [] = false
is_one_of s (t ∷ ts) = text_eq s t || is_one_of s ts

unfoldable pub parse_bool : Text → Option Bool
parse_bool s =
    if is_one_of s
      (codes "1" ∷ codes "t" ∷ codes "T" ∷ codes "TRUE" ∷ codes "true" ∷ codes "True" ∷ [])
    then some true
    else if is_one_of s
        (codes "0" ∷ codes "f" ∷ codes "F" ∷ codes "FALSE" ∷ codes "false" ∷ codes "False" ∷ [])
    then some false
    else none

-- What a flag does: it sets its variable, or takes the next word for its value.
pub data Action : Type 0 where
  sets : Options → Action
  takes_next : Action
  fails : FlagError → Action

-- A Boolean flag with its value.
abbrev pub set_bool : (Bool → Options) → Option Text → Action
set_bool put none = sets (put true)
set_bool put (some value) = elim (parse_bool value) [
  | none ↦ fails bad_value
  | some b ↦ sets (put b)
]

abbrev pub set_path : Options → Option Text → Action
set_path o none = takes_next
set_path o (some value) = sets (record o { config_path = value })

unfoldable pub act : Options → Text → Option Text → Action
act o name value =
    if text_eq name (codes "v")
    then set_bool (λ b. record o { verbose = b }) value
    else if text_eq name (codes "version")
    then set_bool (λ b. record o { show_version = b }) value
    else if text_eq name (codes "c") || text_eq name (codes "config")
    then set_path o value
    else fails not_defined

-- What a word does at the head of the rest of the line.
pub data Read : Type 0 where
  stops ends takes : Read
  goes_on : Options → Read
  failed : FlagError → Read

unfoldable pub read_word : Options → Text → Read
unfolding classify act
read_word o s = elim (classify s) [
  | plain ↦ stops
  | dashes ↦ ends
  | malformed ↦ failed bad_syntax
  | flag name value ↦ elim (act o name value) [
    | sets o' ↦ goes_on o'
    | takes_next ↦ takes
    | fails e ↦ failed e
  ]
]

-- `fs.Parse`: the options, and `fs.Args()`.
unfoldable pub parse : Options → List Text → Result FlagError (Options × List Text)
parse o [] = ok (o, [])
parse o (s ∷ []) = elim (read_word o s) [
  | stops ↦ ok (o, s ∷ [])
  | ends ↦ ok (o, [])
  | takes ↦ err no_argument
  | goes_on o' ↦ ok (o', [])
  | failed e ↦ err e
]
parse o (s ∷ v ∷ args) = elim (read_word o s) [
  | stops ↦ ok (o, s ∷ v ∷ args)
  | ends ↦ ok (o, v ∷ args)
  | takes ↦ parse (record o { config_path = v }) args
  | goes_on o' ↦ parse o' (v ∷ args)
  | failed e ↦ err e
]
