-- ===== src/Updater/Minisign/Reads.antt =====
-- updater/minisign.go: what is read of a key file and a signature file in the format that its
-- comments describe, and when a signature passes.
use zeus_dns_cli.Base.{
  ℕ, zero, suc, ◌≤◌, ◌<◌, ◌*◌, leb, ◌≡◌, ◌↔◌, inl, inr, refl, ap, Bool, true, false, List, [], ◌∷◌,
  ◌++◌, ◌==◌, le→ltb, is_empty, arith, All-append, Bool-cases, Text, codes, text_eq_iff, has_prefix,
  has_prefix-append, has_prefix-IsDense, trim_space, trim_left, trim_right, trim_right-append,
  trim_space-dense, split, split-first, Without, IsDense, length, length-append, take, drop,
  take_of_length-le, ok, err,
}
use zeus_dns_cli.Updater.Base64.{encode}
use zeus_dns_cli.Updater.Base64.Decodes.{IsBytes, encode-IsDense, decode-encode}
use zeus_dns_cli.Updater.Minisign.{
  invalid_key, bad_key_algorithm, comment_start, max_scan_token_size, first_data_line, extract_b64,
  read_blob, parse_minisign_pubkey, parse_minisig_file, check_parsed, minisig_verify,
}

-- A file of two lines: a comment, and data in base64.
abbrev pub two_lines : Text → Text → Text
two_lines comment raw = comment_start ++ (comment ++ (b'\n' ∷ (encode raw ++ (b'\n' ∷ []))))

dense-Without : (s : Text) → IsDense s → Without b'\n' s
dense-Without [] h = tt
dense-Without (c ∷ s) (h, hs) = (ground arith, dense-Without s hs)

-- The comment line is passed over.
comment-skipped :
    (comment : Text) (ls : List Text)
    → leb max_scan_token_size (length (comment_start ++ comment)) ≡ false
    → first_data_line ((comment_start ++ comment) ∷ ls) ≡ first_data_line ls
unfolding first_data_line trim_space trim_left
comment-skipped comment ls fits = rw (
  fits,
  trim_right-append (codes "untrusted comment") b':' comment refl,
  has_prefix-append comment_start (trim_right comment),
)

no_comment : (s : Text) → IsDense s → has_prefix s comment_start ≡ false
no_comment s h = elim (Bool-cases (has_prefix s comment_start)) [
  | inr e ↦ e
  | inl e ↦
      let d : IsDense comment_start = has_prefix-IsDense s comment_start e h in
      absurd (ground (arith, d))
]

data_line :
    (s : Text) (ls : List Text)
    → leb max_scan_token_size (length s) ≡ false
    → IsDense s
    → is_empty s ≡ false
    → first_data_line (s ∷ ls) ≡ s
unfolding first_data_line
data_line s ls fits h e = rw (fits, trim_space-dense s h, e, no_comment s h)

extract_b64-two_lines :
    (comment s : Text)
    → Without b'\n' comment
    → IsDense s
    → is_empty s ≡ false
    → length comment < 65518
    → length s < 65536
    → extract_b64 (comment_start ++ (comment ++ (b'\n' ∷ (s ++ (b'\n' ∷ []))))) ≡ s
unfolding extract_b64
extract_b64-two_lines comment s h d e short small =
    let first : Without b'\n' (comment_start ++ comment) =
      All-append _ comment_start comment (ground arith) h in
    rw
      (
        split-first b'\n' (comment_start ++ comment) (s ++ (b'\n' ∷ [])) first,
        comment-skipped comment (split (s ++ (b'\n' ∷ [])) b'\n')
            (ground (arith, length-append comment_start comment)),
        split-first b'\n' s [] (dense-Without s d),
      )
      (data_line s _ (ground arith) d e)

take-length : (xs ys : Text) (n : ℕ) → length xs ≡ n → take n (xs ++ ys) ≡ xs
take-length [] ys zero h = refl
take-length (x ∷ xs) ys (suc n) h = ap (λ l. x ∷ l) (take-length xs ys n (omega arith))
take-length [] ys (suc n) h = absurd (omega arith)
take-length (x ∷ xs) ys zero h = absurd (omega arith)

drop-length : (xs ys : Text) (n : ℕ) → length xs ≡ n → drop n (xs ++ ys) ≡ ys
drop-length [] ys zero h = refl
drop-length (x ∷ xs) ys (suc n) h = drop-length xs ys n (omega arith)
drop-length [] ys (suc n) h = absurd (omega arith)
drop-length (x ∷ xs) ys zero h = absurd (omega arith)

encode-filled : (c : ℕ) (s : Text) → is_empty (encode (c ∷ s)) ≡ false
unfolding encode
encode-filled c [] = refl
encode-filled c (d ∷ []) = refl
encode-filled c (d ∷ e ∷ s) = refl

length-encode : (s : Text) → length (encode s) ≤ 4 * length s
unfolding encode
length-encode [] = omega arith
length-encode (c ∷ []) = omega arith
length-encode (c ∷ d ∷ []) = omega arith
length-encode (c ∷ d ∷ e ∷ s) = omega (arith, length-encode s)

read_blob-two_lines :
    (comment : Text) (c : ℕ) (s : Text) (size : ℕ)
    → Without b'\n' comment
    → IsBytes (c ∷ s)
    → size ≤ length (c ∷ s)
    → length comment < 65518
    → length (c ∷ s) < 16384
    → read_blob size (two_lines comment (c ∷ s)) ≡ ok (c ∷ s)
unfolding read_blob
read_blob-two_lines comment c s size h b long short small = rw (
  extract_b64-two_lines comment (encode (c ∷ s)) h (encode-IsDense (c ∷ s) b) (encode-filled c s)
      short (omega (arith, length-encode (c ∷ s))),
  encode-filled c s,
  decode-encode (c ∷ s) b,
  le→ltb (length (c ∷ s)) size long,
)

-- The data of a file: a byte for the algorithm, eight for the key's identifier, and the rest.
abbrev pub blob : ℕ → Text → Text → Text
blob algorithm key_id rest = algorithm ∷ (key_id ++ rest)

module _ (comment key_id : Text) (h : Without b'\n' comment) (short : length comment < 65518)
    (i : length key_id ≡ 8) where
  parse_minisign_pubkey_lem :
      (key : Text)
      → length key ≡ 32
      → IsBytes (blob 5 key_id key)
      → parse_minisign_pubkey (two_lines comment (blob 5 key_id key)) ≡ ok (key, key_id)
  unfolding parse_minisign_pubkey
  parse_minisign_pubkey_lem key k b =
      let long : 41 ≤ length (blob 5 key_id key) = omega (arith, length-append key_id key) in
      rw (
        read_blob-two_lines comment 5 (key_id ++ key) 41 h b long short
            (omega (arith, length-append key_id key)),
        drop-length key_id key 8 i,
        take-length key_id key 8 i,
        take_of_length-le 32 key (omega arith),
      )

  parse_minisig_file_lem :
      (algorithm : ℕ) (bytes : Text)
      → length bytes ≡ 64
      → IsBytes (blob algorithm key_id bytes)
      → parse_minisig_file (two_lines comment (blob algorithm key_id bytes))
        ≡ ok (record { algorithm = algorithm; key_id = key_id; bytes = bytes })
  unfolding parse_minisig_file
  parse_minisig_file_lem algorithm bytes k b =
      let long : 73 ≤ length (blob algorithm key_id bytes) =
        omega (arith, length-append key_id bytes) in
      rw (
        read_blob-two_lines comment algorithm (key_id ++ bytes) 73 h b long short
            (omega (arith, length-append key_id bytes)),
        drop-length key_id bytes 8 i,
        take-length key_id bytes 8 i,
        take_of_length-le 64 bytes (omega arith),
      )

-- With an embedded key file and a signature file in the described format, each of a comment line
-- that fits the scanner's 64 KiB and a line of base64, the content passes exactly when both name the same key and the
-- Ed25519 signature of the content is good under it.
pub minisig_verify_lem :
    (ed25519 : Text → Text → Text → Bool)
    (key_comment sig_comment id key sig_id bytes content : Text)
    → Without b'\n' key_comment
    → Without b'\n' sig_comment
    → length key_comment < 65518
    → length sig_comment < 65518
    → length id ≡ 8
    → length sig_id ≡ 8
    → length key ≡ 32
    → length bytes ≡ 64
    → IsBytes (blob 5 id key)
    → IsBytes (blob 69 sig_id bytes)
    → (minisig_verify ed25519
          (two_lines key_comment (blob 5 id key))
          content
          (two_lines sig_comment (blob 69 sig_id bytes))
        ≡ ok tt)
      ↔ ((sig_id ≡ id) × (ed25519 key content bytes ≡ true))
unfolding minisig_verify check_parsed
minisig_verify_lem ed25519 key_comment sig_comment id key sig_id bytes content hk hs sk ss li ls lk
      lb bk bs =
    simp
      (
        parse_minisign_pubkey_lem key_comment id hk sk li key lk bk,
        parse_minisig_file_lem sig_comment sig_id hs ss ls 69 bytes lb bs,
        lb,
      )
      (ground (arith, text_eq_iff sig_id id))

-- A key file whose data does not begin with the byte 5 is refused, so also one of the program
-- minisign itself, whose data begins with the letters `Ed`.
pub minisig_verify_other_key :
    (ed25519 : Text → Text → Text → Bool) (comment content sig_file : Text) (first : ℕ)
    (rest : Text)
    → Without b'\n' comment
    → length comment < 65518
    → IsBytes (first ∷ rest)
    → 41 ≤ length (first ∷ rest)
    → length (first ∷ rest) < 16384
    → (first == 5) ≡ false
    → minisig_verify ed25519 (two_lines comment (first ∷ rest)) content sig_file
      ≡ err (invalid_key (bad_key_algorithm first))
unfolding minisig_verify parse_minisign_pubkey
minisig_verify_other_key ed25519 comment content sig_file first rest h short b long small other =
    simp (read_blob-two_lines comment first rest 41 h b long short small, other) refl
