-- ===== src/Updater/Base64/Decodes.antt =====
-- The standard base64 encoding decodes to what was encoded.
use zeus_dns_cli.Base.{
  ℕ, ◌+◌, ◌*◌, ◌/◌, ◌%◌, ◌<◌, ◌≡◌, refl, ◌∙◌, false, some, [], ◌∷◌, ◌==◌, arith, All, Text,
  is_space, IsDense,
}
use zeus_dns_cli.Updater.Base64.{
  digit, value, encode, drop_newlines, last_quantum, decode_quanta, decode,
}

abbrev pub IsBytes : Text → Type 0
IsBytes s = All (λ c. c < 256) s

value-digit : (n : ℕ) → n < 64 → value (digit n) ≡ some n
unfolding value digit
value-digit n h = ground arith

-- A digit is neither padding nor white space.
abbrev IsDigit : ℕ → Type 0
IsDigit c =
    ((c == b'=') ≡ false) × ((c == b'\n') ≡ false) × ((c == b'\r') ≡ false) × (is_space c ≡ false)

digit-IsDigit : (n : ℕ) → n < 64 → IsDigit (digit n)
unfolding digit
digit-IsDigit n h = ground arith

quantum :
    (i j k l : ℕ)
    → i < 64
    → j < 64
    → k < 64
    → l < 64
    → last_quantum (digit i) (digit j) (digit k) (digit l)
      ≡ some ((i * 4 + j / 16) ∷ (j % 16 * 16 + k / 4) ∷ (k % 4 * 64 + l) ∷ [])
unfolding last_quantum
quantum i j k l hi hj hk hl = rw (
  value-digit i hi,
  value-digit j hj,
  value-digit k hk,
  value-digit l hl,
  (digit-IsDigit k hk).0,
  (digit-IsDigit l hl).0,
)

whole :
    (x y z : ℕ)
    → x < 256
    → y < 256
    → z < 256
    → last_quantum
        (digit (x / 4))
        (digit (x % 4 * 16 + y / 16))
        (digit (y % 16 * 4 + z / 64))
        (digit (z % 64))
      ≡ some (x ∷ y ∷ z ∷ [])
whole x y z hx hy hz =
    quantum (x / 4) (x % 4 * 16 + y / 16) (y % 16 * 4 + z / 64) (z % 64) (omega arith) (omega arith)
      (omega arith) (omega arith)
    ∙ ground arith

three_bytes-IsDigit :
    (x y z : ℕ)
    → x < 256
    → y < 256
    → z < 256
    → IsDigit (digit (x / 4))
      × IsDigit (digit (x % 4 * 16 + y / 16))
      × IsDigit (digit (y % 16 * 4 + z / 64))
      × IsDigit (digit (z % 64))
three_bytes-IsDigit x y z hx hy hz = (
  digit-IsDigit (x / 4) (omega arith),
  digit-IsDigit (x % 4 * 16 + y / 16) (omega arith),
  digit-IsDigit (y % 16 * 4 + z / 64) (omega arith),
  digit-IsDigit (z % 64) (omega arith),
)

one :
    (x : ℕ) → x < 256 → last_quantum (digit (x / 4)) (digit (x % 4 * 16)) b'=' b'=' ≡ some (x ∷ [])
unfolding last_quantum
one x hx =
    rw (value-digit (x / 4) (omega arith), value-digit (x % 4 * 16) (omega arith)) (ground arith)

two :
    (x y : ℕ)
    → x < 256
    → y < 256
    → last_quantum (digit (x / 4)) (digit (x % 4 * 16 + y / 16)) (digit (y % 16 * 4)) b'='
      ≡ some (x ∷ y ∷ [])
unfolding last_quantum
two x y hx hy =
    rw
      (
        value-digit (x / 4) (omega arith),
        value-digit (x % 4 * 16 + y / 16) (omega arith),
        value-digit (y % 16 * 4) (omega arith),
        (digit-IsDigit (y % 16 * 4) (omega arith)).0,
      )
      (ground arith)

-- An encoding has no white space.
pub encode-IsDense : (s : Text) → IsBytes s → IsDense (encode s)
unfolding encode
encode-IsDense [] h = tt
encode-IsDense (x ∷ []) (hx, _) = (
  (digit-IsDigit (x / 4) (omega arith)).3,
  ((digit-IsDigit (x % 4 * 16) (omega arith)).3, (refl, (refl, tt))),
)
encode-IsDense (x ∷ y ∷ []) (hx, (hy, _)) = (
  (digit-IsDigit (x / 4) (omega arith)).3,
  (
    (digit-IsDigit (x % 4 * 16 + y / 16) (omega arith)).3,
    ((digit-IsDigit (y % 16 * 4) (omega arith)).3, (refl, tt)),
  ),
)
encode-IsDense (x ∷ y ∷ z ∷ s) (hx, (hy, (hz, hs))) =
    let (a, b, c, d) = three_bytes-IsDigit x y z hx hy hz in
    (a.3, (b.3, (c.3, (d.3, encode-IsDense s hs))))

dense-kept : (s : Text) → IsDense s → drop_newlines s ≡ s
unfolding drop_newlines
dense-kept [] h = refl
dense-kept (c ∷ s) (h, hs) = ground (arith, dense-kept s hs)

encoded-decodes : (s : Text) → IsBytes s → decode_quanta (encode s) ≡ some s
unfolding decode_quanta encode
encoded-decodes [] h = refl
encoded-decodes (x ∷ []) (hx, _) = rw (one x hx)
encoded-decodes (x ∷ y ∷ []) (hx, (hy, _)) = rw (two x y hx hy)
encoded-decodes (x ∷ y ∷ z ∷ s) (hx, (hy, (hz, hs))) =
    rw (whole x y z hx hy hz, (digit-IsDigit (z % 64) (omega arith)).0, encoded-decodes s hs)

-- The decoding of an encoding of bytes is those bytes.
pub decode-encode : (s : Text) → IsBytes s → decode (encode s) ≡ some s
unfolding decode
decode-encode s h = rw (dense-kept (encode s) (encode-IsDense s h)) (encoded-decodes s h)
