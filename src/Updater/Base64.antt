-- ===== src/Updater/Base64.antt =====
-- `base64.StdEncoding` of Go's package encoding/base64.
pub mod Decodes
use zeus_dns_cli.Base.{
  ℕ, ◌+◌, ◌-◌, ◌*◌, ◌/◌, ◌%◌, Bool, true, false, ◌||◌, ◌&&◌, not, Option, none, some, List, [], ◌∷◌,
  ◌++◌, ◌==◌, ltb, leb, is_empty, if◌then◌else◌, Text,
}

-- The digit of a number below 64, and the number of a digit.
unfoldable pub digit : ℕ → ℕ
digit n =
    if ltb n 26
    then b'A' + n
    else if ltb n 52
    then b'a' + (n - 26)
    else if ltb n 62
    then b'0' + (n - 52)
    else if n == 62
    then b'+'
    else b'/'

unfoldable pub value : ℕ → Option ℕ
value c =
    if leb b'A' c && leb c b'Z'
    then some (c - b'A')
    else if leb b'a' c && leb c b'z'
    then some (c - b'a' + 26)
    else if leb b'0' c && leb c b'9'
    then some (c - b'0' + 52)
    else if c == b'+'
    then some 62
    else if c == b'/'
    then some 63
    else none

-- `EncodeToString`
unfoldable pub encode : Text → Text
encode [] = []
encode (x ∷ []) = digit (x / 4) ∷ digit (x % 4 * 16) ∷ b'=' ∷ b'=' ∷ []
encode (x ∷ y ∷ []) = digit (x / 4) ∷ digit (x % 4 * 16 + y / 16) ∷ digit (y % 16 * 4) ∷ b'=' ∷ []
encode (x ∷ y ∷ z ∷ s) =
    digit (x / 4)
    ∷ digit (x % 4 * 16 + y / 16)
    ∷ digit (y % 16 * 4 + z / 64)
    ∷ digit (z % 64)
    ∷ encode s

-- The ends of lines, which the decoder passes over.
unfoldable pub drop_newlines : Text → Text
drop_newlines [] = []
drop_newlines (c ∷ s) =
    let rest = drop_newlines s in if c == b'\n' || c == b'\r' then rest else c ∷ rest

abbrev pub bind {ℓ κ} : {A : Type ℓ} {B : Type κ} → Option A → (A → Option B) → Option B
bind none f = none
bind (some a) f = f a

-- The bytes of four digits, the last two of which may be padding.
unfoldable pub last_quantum : ℕ → ℕ → ℕ → ℕ → Option Text
last_quantum a b c d = bind (value a) λ i. bind (value b) λ j.
    if c == b'='
    then (if d == b'=' then some ((i * 4 + j / 16) ∷ []) else none)
    else bind (value c) λ k.
      if d == b'='
      then some ((i * 4 + j / 16) ∷ (j % 16 * 16 + k / 4) ∷ [])
      else bind (value d)
          λ l. some ((i * 4 + j / 16) ∷ (j % 16 * 16 + k / 4) ∷ (k % 4 * 64 + l) ∷ [])

-- Only the last four digits may have padding.
unfoldable pub decode_quanta : Text → Option Text
decode_quanta [] = some []
decode_quanta (a ∷ []) = none
decode_quanta (a ∷ b ∷ []) = none
decode_quanta (a ∷ b ∷ c ∷ []) = none
decode_quanta (a ∷ b ∷ c ∷ d ∷ s) =
    let rest = decode_quanta s in
    bind (last_quantum a b c d) λ bytes.
      if d == b'='
      then (if is_empty s then some bytes else none)
      else bind rest λ more. some (bytes ++ more)

-- `DecodeString`
unfoldable pub decode : Text → Option Text
decode s = decode_quanta (drop_newlines s)
