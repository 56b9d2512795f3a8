-- ===== src/Config/Atomic.antt =====
-- `Save` of config/config.go: no failure leaves a partial configuration.
use zeus_dns_cli.Base.{
  ◌≡◌, ◌≢◌, ◌⊎◌, inl, inr, refl, Bool, false, Option, none, some, if◌then◌else◌, arith, Text,
  text_eq, text_eq_iff, Bool-cases, Result, ok, err,
}
use zeus_dns_cli.Config.{Config}
use zeus_dns_cli.Config.Save.{
  SaveStep, make_dir, create_temp, write_temp, close_temp, chmod_temp, rename_temp, remove_temp,
  Files, set_file, cleanup, write_through, save_encoded, save_at,
}

module _ (fails : SaveStep → Bool) (encode_yaml : Config → Option Text) (tmp partial : Text) where
  -- What `Save` leaves at every path `q`: after a success the whole text at `path` and no
  -- temporary file; after a failure every file as before, but for the temporary one.
  abbrev pub Atomic :
      Text → Text → Option Text → Files → Result SaveStep (Unit {0}) × Files → Type 0
  Atomic q path encoded old outcome =
      ((outcome.0 ≡ ok tt)
        × (text : Text) × (encoded ≡ some text)
        × (outcome.1 q ≡ (if text_eq q path then some text else old q)))
      ⊎ ((e : SaveStep) × (outcome.0 ≡ err e)
          × ((fails remove_temp ≡ false) ⊎ (q ≢ tmp) → outcome.1 q ≡ old q))

  cleanup-old :
      (q : Text) (v : Option Text) (old : Files)
      → old tmp ≡ none
      → (fails remove_temp ≡ false) ⊎ (q ≢ tmp)
      → cleanup fails encode_yaml tmp partial (set_file tmp v old) q ≡ old q
  unfolding cleanup
  cleanup-old q v old fresh kept = elim (Bool-cases (text_eq q tmp)) [
    | inl t ↦
        let same : q ≡ tmp = (text_eq_iff q tmp).0 t in
        elim (Bool-cases (fails remove_temp)) [
          | inl r ↦ absurd (elim kept [ inl n ↦ cc | inr n ↦ n same ])
          | inr r ↦ rw (r, t, same, fresh) refl
        ]
    | inr f ↦ elim (Bool-cases (fails remove_temp)) [
      | inl r ↦ rw (r, f) refl
      | inr r ↦ rw (r, f) refl
    ]
  ]

  write_through-Atomic :
      (q path text : Text) (old : Files)
      → old tmp ≡ none
      → Atomic q path (some text) old (write_through fails encode_yaml tmp partial path text old)
  unfolding write_through
  write_through-Atomic q path text old fresh = elim (Bool-cases (fails write_temp)) [
    | inl w ↦ rw w (inr (_, refl, cleanup-old q _ old fresh))
    | inr w ↦ elim (Bool-cases (fails close_temp)) [
      | inl x ↦ rw (w, x) (inr (_, refl, cleanup-old q _ old fresh))
      | inr x ↦ elim (Bool-cases (fails chmod_temp)) [
        | inl y ↦ rw (w, x, y) (inr (_, refl, cleanup-old q _ old fresh))
        | inr y ↦ elim (Bool-cases (fails rename_temp)) [
          | inl z ↦ rw (w, x, y, z) (inr (_, refl, cleanup-old q _ old fresh))
          | inr z ↦ rw (w, x, y, z) (inl (refl, text, refl, ground (arith, text_eq_iff q tmp)))
        ]
      ]
    ]
  ]

  save_encoded-Atomic :
      (q path : Text) (m : Option Text) (old : Files)
      → old tmp ≡ none
      → Atomic q path m old (save_encoded fails encode_yaml tmp partial path m old)
  unfolding save_encoded
  save_encoded-Atomic q path none old fresh = inr (_, refl, λ k. refl)
  save_encoded-Atomic q path (some text) old fresh = elim (Bool-cases (fails create_temp)) [
    | inl t ↦ rw t (inr (_, refl, λ k. refl))
    | inr t ↦ rw t (write_through-Atomic q path text old fresh)
  ]

  -- A file that `Save` writes holds the whole new text when it returns without error, and any
  -- other file is as before; when it returns an error every file is as before, the one at `path`
  -- among them, except that the temporary file stays where its removal fails too. The temporary
  -- file did not exist before.
  pub save_at-Atomic :
      (q path : Text) (c : Config) (old : Files)
      → old tmp ≡ none
      → Atomic q path (encode_yaml c) old (save_at fails encode_yaml tmp partial path c old)
  unfolding save_at
  save_at-Atomic q path c old fresh = elim (Bool-cases (fails make_dir)) [
    | inl m ↦ rw m (inr (_, refl, λ k. refl))
    | inr m ↦ rw m (save_encoded-Atomic q path (encode_yaml c) old fresh)
  ]
