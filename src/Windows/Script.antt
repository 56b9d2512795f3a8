-- ===== src/Windows/Script.antt =====
-- What Windows documents of the scripts that windows/dns.go runs: the DNS settings of the
-- interfaces, the cmdlet that changes them, and how PowerShell runs a script of such commands.
pub mod Lines
pub mod Query
use zeus_dns_cli.Base.{
  ◌≡◌, refl, ◌⊎◌, inl, inr, Option, none, some, List, [], ◌∷◌, ◌++◌, All, Text, codes, text_eq,
  text_eq_refl, text_eq_iff, join, false, Bool-cases, ◌∙◌, sym, if◌then◌else◌,
}
use zeus_dns_cli.Windows.{JsonLib}
use zeus_dns_cli.Windows.Quote.{read_quoted, begins_with_quote}

-- The servers of each interface, with commas between: `none` where they are automatic.
abbrev pub Settings : Type 0
Settings = Text → Option Text

-- `Set-DnsClientServerAddress` with `-ResetServerAddresses`, and with `-ServerAddresses`.
pub data Command : Type 0 where
  reset : (alias : Text) → Command
  assign : (alias servers : Text) → Command

abbrev pub alias_of : Command → Text
alias_of (reset alias) = alias
alias_of (assign alias servers) = alias

abbrev pub value_of : Command → Option Text
value_of (reset alias) = none
value_of (assign alias servers) = some servers

abbrev pub apply : Command → Settings → Settings
apply c s a = if text_eq (alias_of c) a then value_of c else s a

-- PowerShell reads the text as this alias, whatever but a quote stands behind it.
abbrev pub Quotes : Text → Text → Type 0
Quotes q alias =
    (rest : Text)
    → begins_with_quote rest ≡ false
    → (t : Text) × (q ++ rest ≡ b'\'' ∷ t) × (read_quoted t ≡ some (alias, rest))

-- The text is what stands behind the alias.
abbrev pub Argument : Command → Text → Type 0
Argument (reset alias) r = r ≡ codes " -ResetServerAddresses"
Argument (assign alias servers) r =
    (q : Text) × Quotes q servers × (r ≡ codes " -ServerAddresses " ++ q)

-- The line is the command, with its failure added to `$errors`.
abbrev pub Says : Command → Text → Type 0
Says c line =
    (q r : Text) × Quotes q (alias_of c)
    × Argument c r
    × (line
        ≡ codes "try{Set-DnsClientServerAddress -InterfaceAlias "
          ++ (q
              ++ (r
                  ++ (codes " -ErrorAction Stop}catch{$errors+=@{iface="
                      ++ (q ++ codes ";err=$_.Exception.Message}}")))))

abbrev pub SaysAll : List Command → List Text → Type 0
SaysAll [] [] = Unit
SaysAll [] (line ∷ lines) = ⊥
SaysAll (c ∷ cs) [] = ⊥
SaysAll (c ∷ cs) (line ∷ lines) = Says c line × SaysAll cs lines

-- The commands were tried in their order: each has been applied, or has changed nothing and left
-- an error.
abbrev pub Tried : List Command → Settings → Settings → List (Text × Text) → Type 0
Tried [] s t es = (t ≡ s) × (es ≡ [])
Tried (c ∷ cs) s t es =
    Tried cs (apply c s) t es
    ⊎ ((message : Text) × (rest : List (Text × Text)) × (es ≡ (alias_of c, message) ∷ rest)
        × Tried cs s t rest)

-- A script ends behind its last command, and prints the errors as JSON, or fails somewhere.
abbrev pub Ran : JsonLib → List Command → Settings → Settings × Option Text → Type 0
Ran J cs s (t, out) =
    ((text : Text) × (es : List (Text × Text)) × (out ≡ some text)
      × (J.decode_errors text ≡ some es)
      × Tried cs s t es)
    ⊎ ((before after : List Command) × (es : List (Text × Text)) × (cs ≡ before ++ after)
        × (out ≡ none)
        × Tried before s t es)

-- How PowerShell runs a script.
abbrev pub Runs : JsonLib → (Text → Settings → Settings × Option Text) → Type 0
Runs J powershell =
    (cs : List Command) (lines : List Text) (s : Settings)
    → SaysAll cs lines
    → Ran J cs s (
        powershell
          (codes "$errors=@();"
            ++ (join lines (codes ";") ++ codes ";ConvertTo-Json -Compress -InputObject $errors"))
          s)

abbrev pub Names : List Command → Text → Type 0
Names [] a = ⊥
Names (c ∷ cs) a = (alias_of c ≡ a) ⊎ Names cs a

-- Outside the interfaces of `P` the settings are `own`.
abbrev pub Differs : Settings → (Text → Type 0) → Settings → Type 0
Differs own P s = (a : Text) → (s a ≡ own a) ⊎ P a

module _ (own : Settings) where
  -- A command that gives its interface back what it has in `own`.
  abbrev pub Restores : Command → Type 0
  Restores c = value_of c ≡ own (alias_of c)

  apply-own :
      (c : Command) (s : Settings) (a : Text) → Restores c → s a ≡ own a → apply c s a ≡ own a
  apply-own c s a r h = elim (Bool-cases (text_eq (alias_of c) a)) [
    | inl t ↦ let same : alias_of c ≡ a = (text_eq_iff _ _).0 t in rw t (rw same at r)
    | inr f ↦ rw f h
  ]

  apply-named :
      (c : Command) (s : Settings) (a : Text) → Restores c → alias_of c ≡ a → apply c s a ≡ own a
  apply-named c s a r e = rw (sym e) (rw (text_eq_refl (alias_of c)) r)

  apply-Differs :
      (P : Text → Type 0) (c : Command) (s : Settings)
      → P (alias_of c)
      → Differs own P s
      → Differs own P (apply c s)
  apply-Differs P c s p h a = elim (Bool-cases (text_eq (alias_of c) a)) [
    | inl t ↦ let same : alias_of c ≡ a = (text_eq_iff _ _).0 t in inr (rw same at p)
    | inr f ↦ rw f (h a)
  ]

  pub Tried-Differs :
      (P : Text → Type 0) (cs : List Command) (s t : Settings) (es : List (Text × Text))
      → All (λ c. P (alias_of c)) cs
      → Differs own P s
      → Tried cs s t es
      → Differs own P t
  Tried-Differs P [] s t es p h (e, f) = λ a. rw e (h a)
  Tried-Differs P (c ∷ cs) s t es p h (inl k) =
      Tried-Differs P cs (apply c s) t es p.1 (apply-Differs P c s p.0 h) k
  Tried-Differs P (c ∷ cs) s t es p h (inr (m, rest, e, k)) = Tried-Differs P cs s t rest p.1 h k

  Tried-own :
      (cs : List Command) (s t : Settings) (es : List (Text × Text)) (a : Text)
      → All Restores cs
      → s a ≡ own a
      → Tried cs s t es
      → t a ≡ own a
  Tried-own [] s t es a r h (e, f) = rw e h
  Tried-own (c ∷ cs) s t es a r h (inl k) =
      Tried-own cs (apply c s) t es a r.1 (apply-own c s a r.0 h) k
  Tried-own (c ∷ cs) s t es a r h (inr (m, rest, e, k)) = Tried-own cs s t rest a r.1 h k

  Tried-Names :
      (cs : List Command) (s t : Settings) (es : List (Text × Text)) (a : Text)
      → es ≡ []
      → All Restores cs
      → Names cs a
      → Tried cs s t es
      → t a ≡ own a
  Tried-Names [] s t es a nil r n k = absurd n
  Tried-Names (c ∷ cs) s t es a nil r (inl e) (inl k) =
      Tried-own cs (apply c s) t es a r.1 (apply-named c s a r.0 e) k
  Tried-Names (c ∷ cs) s t es a nil r (inr n) (inl k) =
      Tried-Names cs (apply c s) t es a nil r.1 n k
  Tried-Names (c ∷ cs) s t es a nil r n (inr (m, rest, e, k)) = cc

  -- Commands that all succeed, and that name every interface that differs, restore the settings.
  pub Tried-Restored :
      (cs : List Command) (s t : Settings)
      → All Restores cs
      → Differs own (Names cs) s
      → Tried cs s t []
      → (a : Text) → t a ≡ own a
  Tried-Restored cs s t r h k a = elim (h a) [
    | inl e ↦ Tried-own cs s t [] a r e k
    | inr n ↦ Tried-Names cs s t [] a refl r n k
  ]
