-- ===== src/Windows/Quote.antt =====
-- `quoteAlias` of windows/dns.go against PowerShell's reading of a single-quoted text. A text is its
-- characters here: `'` is in UTF-8 one byte, which is no part of another character.
use zeus_dns_cli.Base.{
  ℕ, ◌≡◌, refl, inl, inr, Bool-cases, Bool, true, false, ◌||◌, ◌&&◌, leb, Option, none, some, [],
  ◌∷◌, ◌++◌, ◌==◌, if◌then◌else◌, arith, All, Text, codes,
}
use mathlib.Core.List.{append_assoc}
use zeus_dns_cli.Windows.{double_quotes, quote_alias}

-- The typographic single quotes, U+2018 to U+201B, which PowerShell takes for quotes too.
abbrev pub is_typographic : ℕ → Bool
is_typographic c = leb 0x2018 c && leb c 0x201B

abbrev pub is_quote : ℕ → Bool
is_quote c = c == b'\'' || is_typographic c

-- What PowerShell reads behind the opening quote: a doubled quote is one character, and a single
-- quote ends the text. The rest behind the closing quote is given with it.
unfoldable pub read_quoted : Text → Option (Text × Text)
read_quoted [] = none
read_quoted (c ∷ []) = if is_quote c then some ([], []) else none
read_quoted (c ∷ d ∷ s) = elim (is_quote c) [
  | false ↦ elim (read_quoted (d ∷ s)) [ none ↦ none | some (t, rest) ↦ some (c ∷ t, rest) ]
  | true ↦ elim (is_quote d) [
    | false ↦ some ([], d ∷ s)
    | true ↦ elim (read_quoted s) [ none ↦ none | some (t, rest) ↦ some (c ∷ t, rest) ]
  ]
]

abbrev pub begins_with_quote : Text → Bool
begins_with_quote [] = false
begins_with_quote (x ∷ s) = is_quote x

-- No character of the text is a typographic quote.
abbrev pub Plain : Text → Type 0
Plain s = All (λ c. is_typographic c ≡ false) s

read_quoted-∷ :
    (c : ℕ) (t : Text) {a r : Text}
    → is_quote c ≡ false
    → read_quoted t ≡ some (a, r)
    → read_quoted (c ∷ t) ≡ some (c ∷ a, r)
unfolding read_quoted
read_quoted-∷ c [] f h = cc
read_quoted-∷ c (d ∷ s) f h = rw (f, read_quoted) (rw h refl)

closed-read_quoted :
    (rest : Text) → begins_with_quote rest ≡ false → read_quoted (b'\'' ∷ rest) ≡ some ([], rest)
unfolding read_quoted
closed-read_quoted [] h = refl
closed-read_quoted (d ∷ s) h = rw (h, read_quoted) refl

-- No character of the text is a quote.
abbrev pub Clean : Text → Type 0
Clean s = All (λ c. is_quote c ≡ false) s

pub Clean-read_quoted :
    (s rest : Text)
    → Clean s
    → begins_with_quote rest ≡ false
    → read_quoted (s ++ (b'\'' ∷ rest)) ≡ some (s, rest)
Clean-read_quoted [] rest p h = closed-read_quoted rest h
Clean-read_quoted (c ∷ s) rest (other, p) h = read_quoted-∷ c _ other (Clean-read_quoted s rest p h)

doubled-read_quoted :
    (alias rest : Text)
    → Plain alias
    → begins_with_quote rest ≡ false
    → read_quoted (double_quotes alias ++ (b'\'' ∷ rest)) ≡ some (alias, rest)
unfolding double_quotes read_quoted
doubled-read_quoted [] rest p h = closed-read_quoted rest h
doubled-read_quoted (c ∷ alias) rest (plain, p) h = elim (Bool-cases (c == b'\'')) [
  | inl t ↦
      let same : c ≡ b'\'' = ground arith in
      rw (same) (rw (doubled-read_quoted alias rest p h, read_quoted) refl)
  | inr f ↦
      let other : is_quote c ≡ false = rw (f, plain) refl in
      rw f (read_quoted-∷ c _ other (doubled-read_quoted alias rest p h))
]

-- The alias that `quoteAlias` quotes is read back whole, and the reading goes on with what the
-- script has behind it, whatever ASCII quotes the alias holds, provided that it holds no
-- typographic single quote and that the script goes on with no quote.
pub quote_alias-read_quoted :
    (alias rest : Text)
    → Plain alias
    → begins_with_quote rest ≡ false
    → (t : Text) × (quote_alias alias ++ rest ≡ b'\'' ∷ t) × (read_quoted t ≡ some (alias, rest))
unfolding quote_alias
quote_alias-read_quoted alias rest p h = (
  double_quotes alias ++ (b'\'' ∷ rest),
  ground (arith, append_assoc (double_quotes alias) (codes "'") rest),
  doubled-read_quoted alias rest p h,
)

-- Where the alias has a typographic quote that no quote follows, PowerShell ends the text there, and
-- reads the rest of the alias as script.
quote_alias_typographic :
    (alias behind : Text) (c x : ℕ)
    → Plain alias
    → is_typographic c ≡ true
    → is_quote x ≡ false
    → Clean alias
    → read_quoted (alias ++ (c ∷ x ∷ behind)) ≡ some (alias, x ∷ behind)
unfolding read_quoted
quote_alias_typographic [] behind c x p t f h = ground arith
quote_alias_typographic (y ∷ alias) behind c x p t f h =
    read_quoted-∷ y _ h.0 (quote_alias_typographic alias behind c x p.1 t f h.1)
