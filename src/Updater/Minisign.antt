-- ===== src/Updater/Minisign.antt =====
-- updater/minisign.go: the files of minisign keys and signatures, and `minisigVerify`. The check of
-- an Ed25519 signature is a parameter.
pub mod Reads
pub mod Unset
use zeus_dns_cli.Base.{
  ℕ, ◌+◌, Bool, true, false, ◌||◌, not, Option, none, some, List, [], ◌∷◌, ◌++◌, ◌==◌, ltb, leb,
  is_empty, if◌then◌else◌, Text, codes, text_eq, has_prefix, trim_space, split, length, take, drop,
  Result, ok, err, ◌>>=◌, ◌>>◌, guard, wrap_err,
}
use zeus_dns_cli.Updater.Base64.{decode}

pub data MinisignError : Type 0 where
  no_base64 bad_base64 too_short : MinisignError
  bad_key_algorithm : ℕ → MinisignError
  not_configured : MinisignError
  invalid_key invalid_file : MinisignError → MinisignError
  unsupported_algorithm : ℕ → MinisignError
  key_mismatch bad_length not_verified : MinisignError

-- `EmbeddedMinisignPubkey`
abbrev pub embedded_minisign_pubkey : Text
embedded_minisign_pubkey = []

abbrev pub comment_start : Text
comment_start = codes "untrusted comment:"

-- `bufio.MaxScanTokenSize`: a scanner stops at a line that fills its buffer.
abbrev pub max_scan_token_size : ℕ
max_scan_token_size = 65536

-- The loop of `extractB64`
unfoldable pub first_data_line : List Text → Text
first_data_line [] = []
first_data_line (l ∷ ls) =
    let line = trim_space l in
    let rest = first_data_line ls in
    if leb max_scan_token_size (length l)
    then []
    else if is_empty line || has_prefix line comment_start
    then rest
    else line

-- `extractB64`
unfoldable pub extract_b64 : Text → Text
extract_b64 s = first_data_line (split s b'\n')

-- The decoded data of a file, of at least `size` bytes.
unfoldable pub read_blob : ℕ → Text → Result MinisignError Text
read_blob size s =
    if is_empty (extract_b64 s) then err no_base64 else elim (decode (extract_b64 s)) [
      | none ↦ err bad_base64
      | some raw ↦ if ltb (length raw) size then err too_short else ok raw
    ]

-- `raw[0]`
abbrev pub first_byte : Text → ℕ
first_byte [] = 0
first_byte (c ∷ s) = c

-- `parseMinisignPubkey`: the key and its identifier.
unfoldable pub parse_minisign_pubkey : Text → Result MinisignError (Text × Text)
parse_minisign_pubkey s = do
  raw ← read_blob 41 s
  guard (first_byte raw == 5) (bad_key_algorithm (first_byte raw))
  ok (take 32 (drop 9 raw), take 8 (drop 1 raw))

-- `parseMinisigFile`: the algorithm, the identifier of the key and the signature.
pub record Signature : Type 0 where
  pub algorithm : ℕ
  pub key_id : Text
  pub bytes : Text

unfoldable pub parse_minisig_file : Text → Result MinisignError Signature
parse_minisig_file s = do
  raw ← read_blob 73 s
  ok (record {
    algorithm = first_byte raw;
    key_id = take 8 (drop 1 raw);
    bytes = take 64 (drop 9 raw);
  })

module _ (ed25519 : Text → Text → Text → Bool) where
  -- The checks of `minisigVerify` on what it parsed.
  unfoldable pub check_parsed : Text × Text → Signature → Text → Result MinisignError (Unit {0})
  check_parsed (key, key_id) sig content = do
    guard (sig.algorithm == 69) (unsupported_algorithm sig.algorithm)
    guard (text_eq sig.key_id key_id) key_mismatch
    guard (length sig.bytes == 64) bad_length
    guard (ed25519 key content sig.bytes) not_verified

  -- `minisigVerify`, with the embedded key as an argument
  unfoldable pub minisig_verify : Text → Text → Text → Result MinisignError (Unit {0})
  minisig_verify embedded content sig_file =
      if is_empty embedded
      then err not_configured
      else (wrap_err invalid_key (parse_minisign_pubkey embedded) >>= λ key.
          wrap_err invalid_file (parse_minisig_file sig_file) >>= λ sig.
          check_parsed key sig content)
