-- ===== src/Config/LogPath.antt =====
-- `ValidateLogPath` of config/config.go: which log paths are accepted.
use zeus_dns_cli.Base.{
  ℕ, ◌≡◌, ◌↔◌, ◌⊎◌, inl, inr, refl, true, Option, some, [], ◌∷◌, ◌++◌, arith, Text, codes,
  has_prefix, Option-cases, Bool-cases, ok,
}
use zeus_dns_cli.Config.{default_dir, validate_log_path}

-- The directory itself, or a path beneath it.
abbrev pub Within : Text → Text → Type 0
Within dir a = (a ≡ dir) ⊎ ((rest : Text) × (a ≡ dir ++ (b'\\' ∷ rest)))

pub Within-∷ : (c : ℕ) {dir a : Text} → Within dir a → Within (c ∷ dir) (c ∷ a)
Within-∷ c (inl e) = inl (rw e refl)
Within-∷ c (inr (rest, e)) = inr (rest, rw e refl)

-- A text closed by a character has the directory with its separator as a prefix only beneath it.
has_prefix-Within :
    (e : ℕ) (dir a : Text) → has_prefix (a ++ (e ∷ [])) (dir ++ codes "\\") ≡ true → Within dir a
unfolding has_prefix
has_prefix-Within e [] [] h = inl refl
has_prefix-Within e [] (c ∷ a) h = let same : c ≡ b'\\' = ground arith in inr (a, rw same refl)
has_prefix-Within e (d ∷ []) [] h = ground arith
has_prefix-Within e (d ∷ d' ∷ dir) [] h = ground arith
has_prefix-Within e (d ∷ dir) (c ∷ a) h =
    let same : c ≡ d = ground arith in
    let below : has_prefix (a ++ (e ∷ [])) (dir ++ codes "\\") ≡ true = ground arith in
    rw same (Within-∷ d (has_prefix-Within e dir a below))

beneath-has_prefix :
    (dir rest s : Text) → has_prefix ((dir ++ (b'\\' ∷ rest)) ++ s) (dir ++ codes "\\") ≡ true
unfolding has_prefix
beneath-has_prefix [] rest s = ground arith
beneath-has_prefix (c ∷ dir) rest s = ground (arith, beneath-has_prefix dir rest s)

itself-has_prefix : (s : Text) → has_prefix s s ≡ true
unfolding has_prefix
itself-has_prefix [] = refl
itself-has_prefix (c ∷ s) = ground (arith, itself-has_prefix s)

Within-has_prefix :
    (dir a : Text) → Within dir a → has_prefix (a ++ codes "\\") (dir ++ codes "\\") ≡ true
Within-has_prefix dir a (inl e) = rw e (itself-has_prefix (dir ++ codes "\\"))
Within-has_prefix dir a (inr (rest, e)) = rw e (beneath-has_prefix dir rest (codes "\\"))

module _ (abs : Text → Option Text) where
  accepted-Within :
      (p : Text)
      → validate_log_path abs p ≡ ok tt
      → (p ≡ []) ⊎ ((a : Text) × (abs p ≡ some a) × Within default_dir a)
  unfolding validate_log_path
  accepted-Within [] h = inl refl
  accepted-Within (c ∷ p) h = elim (Option-cases (abs (c ∷ p))) [
    | inl e ↦ ground (arith, e)
    | inr (a, e) ↦ elim (Bool-cases (has_prefix (a ++ codes "\\") (default_dir ++ codes "\\"))) [
      | inl t ↦ inr (a, e, has_prefix-Within _ default_dir a t)
      | inr f ↦ elim (Bool-cases (has_prefix (a ++ codes "/") (default_dir ++ codes "\\"))) [
        | inl t ↦ inr (a, e, has_prefix-Within _ default_dir a t)
        | inr g ↦ ground (arith, e, f, g)
      ]
    ]
  ]

  Within-accepted :
      (p a : Text) → abs p ≡ some a → Within default_dir a → validate_log_path abs p ≡ ok tt
  unfolding validate_log_path
  Within-accepted [] a e w = refl
  Within-accepted (c ∷ p) a e w = rw (e, Within-has_prefix default_dir a w) refl

  -- A path is accepted exactly when it is empty (the default) or resolves to the protected
  -- directory or beneath it.
  pub validate_log_path-Within :
      (p : Text)
      → (validate_log_path abs p ≡ ok tt)
        ↔ ((p ≡ []) ⊎ ((a : Text) × (abs p ≡ some a) × Within default_dir a))
  unfolding validate_log_path
  validate_log_path-Within p = (
    accepted-Within p,
    λ h. elim h [ inl e ↦ rw e refl | inr (a, e, w) ↦ Within-accepted p a e w ],
  )
