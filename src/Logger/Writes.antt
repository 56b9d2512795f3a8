-- ===== src/Logger/Writes.antt =====
-- The flush and the write of the buffered writer of internal/log.go keep what is owed.
use mathlib.Core.List.{append_assoc, append-nil}
use mathlib.Core.Path.{subst}
use zeus_dns_cli.Base.{
  drop-length, ℕ, ◌-◌, ◌≤◌, ◌<◌, ◌≡◌, ◌≢◌, ◌⊎◌, inl, inr, refl, sym, ap, ◌∙◌, true, false, ◌||◌,
  Option, [], ◌++◌, leb, length, take, drop, is_empty, Text, arith, Bool-cases, List-cases,
}
use zeus_dns_cli.Logger.{buffer_size, Journal, flush, write_last, write_buffered}
use zeus_dns_cli.Logger.Owed.{
  write_file-fits, write_file-full, Holds, Writes, Flushed, took_all, took_part, Holds-took_all,
  Holds-took_part, split_part,
}

module _ (start : Text) (aside : Option Text) (room : ℕ) where
  flush_fits :
      (out : Text) (j : Journal)
      → j.failed ≡ false
      → j.held ≢ []
      → length j.held ≤ j.folder.room
      → Holds start aside room out j.held j
      → Writes start aside room (out ++ j.held) (flush j).0 × Flushed (flush j).0
  unfolding flush
  flush_fits out j f some_ fits w =
      let e : (flush j).0 ≡ record j {
        held = [];
        failed = false;
        folder = took_all (start ++ out) j.held j.folder;
      } =
        ground (
          arith,
          write_file-fits j.held j (start ++ out) w.open_ w.current fits,
          drop-length j.held,
        ) in
      rw e (
        (out ++ j.held, [], append-nil _, Holds-took_all start aside room j.held out _ j fits w),
        inr refl,
      )

  flush_full :
      (out : Text) (j : Journal)
      → j.failed ≡ false
      → j.held ≢ []
      → j.folder.room < length j.held
      → Holds start aside room out j.held j
      → Writes start aside room (out ++ j.held) (flush j).0 × Flushed (flush j).0
  unfolding flush
  flush_full out j f some_ over w =
      let rest : Text = drop j.folder.room j.held in
      let e : (flush j).0 ≡ record j {
        held = rest;
        failed = true;
        folder = took_part (start ++ out) j.held j.folder;
      } =
        ground (arith, write_file-full j.held j (start ++ out) w.open_ w.current over) in
      rw e (
        (
          _,
          rest,
          split_part j.held out _,
          Holds-took_part start aside room j.held out _ rest j over w,
        ),
        inl refl,
      )

  pub flush-Writes :
      {h : Text} {j : Journal}
      → Writes start aside room h j
      → Writes start aside room h (flush j).0 × Flushed (flush j).0
  flush-Writes {h} {j} (out, tail, e, w) = elim w.owed [
    | inr (f, full) ↦
        let same : (flush j).0 ≡ j = unfold flush in ground (arith, f) in
        rw same ((out, tail, e, w), inl f)
    | inl (f, t) ↦ elim (List-cases j.held) [
      | inl none_ ↦
          let same : (flush j).0 ≡ j = unfold flush in ground (arith, f, none_) in
          rw same ((out, tail, e, w), inr none_)
      | inr (c, r, some_) ↦
          let held : out ++ j.held ≡ h = rw t at e in
          let w' : Holds start aside room out j.held j =
            subst (λ u. Holds start aside room out u j) (t) w in
          let nonempty : j.held ≢ [] = λ z. cc in
          elim (Bool-cases (leb (length j.held) j.folder.room)) [
            | inl fits ↦
                subst (λ u. Writes start aside room u (flush j).0 × Flushed (flush j).0) (held)
                  (flush_fits out j f nonempty (ground (arith, fits)) w')
            | inr over ↦
                subst (λ u. Writes start aside room u (flush j).0 × Flushed (flush j).0) (held)
                  (flush_full out j f nonempty (ground (arith, over)) w')
          ]
    ]
  ]

  -- A text that goes to the buffer.
  Writes-append :
      (p : Text) {h : Text} {j : Journal}
      → j.failed ≡ false
      → Writes start aside room h j
      → Writes start aside room (h ++ p) (record j { held = j.held ++ p })
  Writes-append p {h} {j} f (out, tail, e, w) =
      let t : tail ≡ j.held = elim w.owed [ inl (g, t) ↦ t | inr (g, full) ↦ cc ] in
      (
        out,
        tail ++ p,
        sym (append_assoc out tail p) ∙ ap (λ (u : Text). u ++ p) e,
        record {
          open_ = w.open_;
          backup = w.backup;
          current = w.current;
          spent = w.spent;
          owed = inl (f, ap (λ (u : Text). u ++ p) t);
        },
      )

  -- A text that goes straight to the file.
  write_last_direct :
      (p out t : Text) (j : Journal)
      → j.failed ≡ false
      → buffer_size < length p
      → j.held ≡ []
      → Holds start aside room out t j
      → Writes start aside room (out ++ p) (write_last p j).0
  unfolding write_last
  write_last_direct p out t j f over none_ w = elim (Bool-cases (leb (length p) j.folder.room)) [
    | inl fits ↦
        let fits : length p ≤ j.folder.room = ground (arith, fits) in
        let e : (write_last p j).0
            ≡ record j { held = []; failed = false; folder = took_all (start ++ out) p j.folder } =
          ground (arith, write_file-fits p j (start ++ out) w.open_ w.current fits) in
        rw e (out ++ p, [], append-nil _, Holds-took_all start aside room p out t j fits w)
    | inr full ↦
        let full : j.folder.room < length p = ground (arith, full) in
        let e : (write_last p j).0
            ≡ record j { held = []; failed = true; folder = took_part (start ++ out) p j.folder } =
          ground (arith, write_file-full p j (start ++ out) w.open_ w.current full) in
        rw e (_, _, split_part p out _, Holds-took_part start aside room p out t [] j full w)
  ]

  -- A failed writer takes nothing any more.
  Writes-failed :
      (p : Text) {h : Text} {j : Journal}
      → j.failed ≡ true
      → Writes start aside room h j
      → Writes start aside room (h ++ p) j
  Writes-failed p {h} {j} f (out, tail, e, w) =
      let stuck : j.folder.room ≡ 0 = elim w.owed [ inl (g, t) ↦ cc | inr (g, full) ↦ full ] in
      (
        out,
        tail ++ p,
        sym (append_assoc out tail p) ∙ ap (λ (u : Text). u ++ p) e,
        record {
          open_ = w.open_;
          backup = w.backup;
          current = w.current;
          spent = w.spent;
          owed = inr (f, stuck);
        },
      )

  write_last-Writes :
      (p : Text) {h : Text} {j : Journal}
      → Flushed j ⊎ (length p ≤ buffer_size - length j.held)
      → Writes start aside room h j
      → Writes start aside room (h ++ p) (write_last p j).0
  write_last-Writes p {h} {j} ready (out, tail, e, w) = elim w.owed [
    | inr (f, full) ↦
        let same : (write_last p j).0 ≡ j = unfold write_last in ground (arith, f) in
        rw same (Writes-failed p f (out, tail, e, w))
    | inl (f, t) ↦ elim (Bool-cases (leb (length p) (buffer_size - length j.held))) [
      | inl fits ↦
          let same : (write_last p j).0 ≡ record j { held = j.held ++ p } =
            unfold write_last in ground (arith, f, fits) in
          rw same (Writes-append p f (out, tail, e, w))
      | inr over ↦
          let none_ : j.held ≡ [] = elim ready [
            | inl (inl g) ↦ cc
            | inl (inr z) ↦ z
            | inr fits ↦ absurd (ground (arith, over))
          ] in
          let e' : out ≡ h =
            sym (append-nil out) ∙ ap (λ (u : Text). out ++ u) (sym (t ∙ none_)) ∙ e in
          rw (← e') (write_last_direct p out tail j f (ground (arith, over, none_)) none_ w)
    ]
  ]

  pub write_buffered-Writes :
      (p : Text) {h : Text} {j : Journal}
      → Writes start aside room h j
      → Writes start aside room (h ++ p) (write_buffered p j).0
  unfolding write_buffered
  write_buffered-Writes p {h} {j} w =
      let free = buffer_size - length j.held in
      elim (Bool-cases (j.failed || leb (length p) free || is_empty j.held)) [
        | inl now ↦ rw now (write_last-Writes p (ground (arith, now)) w)
        | inr filled ↦
            let some_ : Writes start aside room (h ++ take free p)
                (record j { held = j.held ++ take free p }) =
              Writes-append (take free p) (ground (arith, filled)) w in
            let (w', done) = flush-Writes some_ in
            let whole : (h ++ take free p) ++ drop free p ≡ h ++ p = split_part p h free in
            rw filled (rw (← whole) (write_last-Writes (drop free p) (inl done) w'))
      ]
