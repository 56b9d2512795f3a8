-- ===== src/Tests/Shell.antt =====
-- A PowerShell that reads the scripts of windows/dns.go with one command, and fails at all others.
use zeus_dns_cli.Base.{
  ◌≡◌, refl, inl, inr, true, false, ◌==◌, if◌then◌else◌, Option, none, some, List, [], ◌∷◌, ◌++◌,
  Text, codes, text_eq, join,
}
use mathlib.Core.List.{append_assoc}
use zeus_dns_cli.Windows.{JsonLib}
use zeus_dns_cli.Windows.Quote.{read_quoted, begins_with_quote}
use zeus_dns_cli.Windows.Script.{
  Settings, Command, reset, assign, alias_of, apply, Quotes, Argument, Says, Runs,
}

-- The text behind a prefix.
unfoldable strip : Text → Text → Option Text
strip [] t = some t
strip (x ∷ p) [] = none
strip (x ∷ p) (y ∷ t) = elim (x == y) [ true ↦ strip p t | false ↦ none ]

unfoldable read_text : Text → Option (Text × Text)
read_text [] = none
read_text (x ∷ t) = if x == b'\'' then read_quoted t else none

abbrev catch : Text
catch = codes " -ErrorAction Stop}catch{$errors+=@{iface="

abbrev message : Text
message = codes ";err=$_.Exception.Message}}"

-- The command where the rest of the line is as it must be.
unfoldable read_catch : Command → Text → Option (Command × Text)
read_catch c t = elim (strip catch t) [
  | none ↦ none
  | some u ↦ elim (read_text u) [
    | none ↦ none
    | some (alias, v) ↦ elim (strip message v) [ none ↦ none | some rest ↦ some (c, rest) ]
  ]
]

unfoldable read_argument : Text → Text → Option (Command × Text)
read_argument alias t = elim (strip (codes " -ResetServerAddresses") t) [
  | some u ↦ read_catch (reset alias) u
  | none ↦ elim (strip (codes " -ServerAddresses ") t) [
    | none ↦ none
    | some u ↦ elim (read_text u) [
      | none ↦ none
      | some (servers, v) ↦ read_catch (assign alias servers) v
    ]
  ]
]

unfoldable read_command : Text → Option (Command × Text)
read_command t =
    elim (strip (codes "$errors=@();try{Set-DnsClientServerAddress -InterfaceAlias ") t) [
      | none ↦ none
      | some u ↦ elim (read_text u) [ none ↦ none | some (alias, v) ↦ read_argument alias v ]
    ]

abbrev print_errors : Text
print_errors = codes ";ConvertTo-Json -Compress -InputObject $errors"

pub shell : Text → Settings → Settings × Option Text
shell script s = elim (read_command script) [
  | none ↦ (s, none)
  | some (c, rest) ↦ if text_eq rest print_errors then (apply c s, some (codes "[]")) else (s, none)
]

read_text-Quotes :
    (q alias rest : Text)
    → Quotes q alias
    → begins_with_quote rest ≡ false
    → read_text (q ++ rest) ≡ some (alias, rest)
unfolding read_text
read_text-Quotes q alias rest quotes h = let (t, e, r) = quotes rest h in rw (e, read_text) r

read_catch-Quotes :
    (c : Command) (q rest : Text)
    → Quotes q (alias_of c)
    → read_catch c (catch ++ (q ++ (message ++ rest))) ≡ some (c, rest)
unfolding read_catch strip
read_catch-Quotes c q rest quotes =
    rw (read_text-Quotes q (alias_of c) (message ++ rest) quotes refl, read_catch) refl

read_argument-Argument :
    (c : Command) (q r rest : Text)
    → Quotes q (alias_of c)
    → Argument c r
    → read_argument (alias_of c) (r ++ (catch ++ (q ++ (message ++ rest)))) ≡ some (c, rest)
unfolding read_argument strip
read_argument-Argument (reset alias) q r rest quotes a =
    rw (a, read_argument) (read_catch-Quotes (reset alias) q rest quotes)
read_argument-Argument (assign alias servers) q r rest quotes (s, reads, a) =
    rw (a, append_assoc (codes " -ServerAddresses ") s)
      (rw (read_text-Quotes s servers (catch ++ (q ++ (message ++ rest))) reads refl, read_argument)
        (read_catch-Quotes (assign alias servers) q rest quotes))

Argument-unquoted :
    (c : Command) (r rest : Text) → Argument c r → begins_with_quote (r ++ rest) ≡ false
Argument-unquoted (reset alias) r rest a = rw a refl
Argument-unquoted (assign alias servers) r rest (s, reads, a) = rw a refl

read_command-Says :
    (c : Command) (line rest : Text)
    → Says c line
    → read_command (codes "$errors=@();" ++ (line ++ rest)) ≡ some (c, rest)
unfolding read_command strip
read_command-Says c line rest (q, r, quotes, a, e) =
    let behind : Text = r ++ (catch ++ (q ++ (message ++ rest))) in
    let reads : read_text (q ++ behind) ≡ some (alias_of c, behind) =
      read_text-Quotes q (alias_of c) behind quotes (Argument-unquoted c r _ a) in
    let parts : line ++ rest
        ≡ codes "try{Set-DnsClientServerAddress -InterfaceAlias " ++ (q ++ behind) =
      rw e (rw (append_assoc q) (rw (append_assoc r) (rw (append_assoc q) refl))) in
    rw (parts, read_command) (rw reads (read_argument-Argument c q r rest quotes a))

join-begins :
    (l u : Text) (lines : List Text)
    → l ≡ b't' ∷ u
    → (v : Text) × (join (l ∷ lines) (codes ";") ≡ b't' ∷ v)
unfolding join
join-begins l u [] e = (u, e)
join-begins l u (m ∷ lines) e = (u ++ (codes ";" ++ join (m ∷ lines) (codes ";")), rw (e) refl)

pub shell-Runs : (J : JsonLib) → J.decode_errors (codes "[]") ≡ some [] → Runs J shell
unfolding shell read_command strip text_eq join
shell-Runs J d [] [] s h = inr ([], [], [], refl, refl, (refl, refl))
shell-Runs J d [] (line ∷ lines) s h = absurd h
shell-Runs J d (c ∷ cs) [] s h = absurd h
shell-Runs J d (c ∷ []) (line ∷ []) s (says, h) =
    rw (read_command-Says c line print_errors says, shell)
      (inl (codes "[]", [], refl, d, inl (refl, refl)))
shell-Runs J d (c ∷ []) (line ∷ l ∷ lines) s (says, h) = absurd h
shell-Runs J d (c ∷ e ∷ cs) (line ∷ []) s (says, h) = absurd h
shell-Runs J d (c ∷ e ∷ cs) (line ∷ l ∷ lines) s (says, ((q, r, quotes, a, eq), h)) =
    let (v, begins) = join-begins l _ lines eq in
    let behind : Text = codes ";" ++ (join (l ∷ lines) (codes ";") ++ print_errors) in
    let more : text_eq behind print_errors ≡ false = rw (begins, text_eq) refl in
    rw (append_assoc line, read_command-Says c line behind says, more, shell)
      (inr ([], c ∷ e ∷ cs, [], refl, refl, (refl, refl)))
