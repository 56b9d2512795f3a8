-- ===== src/Logger/Owed.antt =====
-- What the buffered writer of internal/log.go still owes the disk, and a write of its file.
use mathlib.Core.List.{append_assoc, append-nil}
use zeus_dns_cli.Base.{
  take-drop, length-take, take-append_left, ℕ, ◌+◌, ◌-◌, ◌≤◌, ◌<◌, ◌≡◌, ◌⊎◌, inl, inr, refl, sym,
  ap, ◌∙◌, true, false, Option, some, [], ◌++◌, length, take, drop, Text, arith, take_of_length-le,
  length-append,
}
use zeus_dns_cli.Logger.{Folder, Journal, write_file}

-- The journal has brought `out` behind `start` to a disk that had room for `room` bytes, and owes
-- `tail`: it is in the buffer, or was lost where the disk is full.
pub record Holds (start : Text) (aside : Option Text) (room : ℕ) (out tail : Text) (j : Journal)
    : Type 0 where
  pub open_ : j.shut ≡ false
  pub current : j.folder.current ≡ some (start ++ out)
  pub backup : j.folder.backup ≡ aside
  pub spent : length out + j.folder.room ≡ room
  pub owed : ((j.failed ≡ false) × (tail ≡ j.held)) ⊎ ((j.failed ≡ true) × (j.folder.room ≡ 0))

abbrev pub Writes : Text → Option Text → ℕ → Text → Journal → Type 0
Writes start aside room h j =
    (out : Text) × (tail : Text) × (out ++ tail ≡ h) × Holds start aside room out tail j

-- The disk behind a write of `p` behind `s`, whole or as far as there is room.
abbrev pub took_all : Text → Text → Folder → Folder
took_all s p d = record d { current = some (s ++ p); room = d.room - length p }

abbrev pub took_part : Text → Text → Folder → Folder
took_part s p d = record d { current = some (s ++ take d.room p); room = 0 }

-- A write of `p` by a writer without an error: `n` bytes reach the disk, all or what it has room
-- for.
pub write_file-fits :
    (p : Text) (j : Journal) (s : Text)
    → j.shut ≡ false
    → j.folder.current ≡ some s
    → length p ≤ j.folder.room
    → write_file p j ≡ (
      record j {
        folder = record j.folder { current = some (s ++ p); room = j.folder.room - length p };
      },
      length p,
      true,
    )
unfolding write_file
write_file-fits p j s o c h = ground (arith, take_of_length-le j.folder.room p)

pub write_file-full :
    (p : Text) (j : Journal) (s : Text)
    → j.shut ≡ false
    → j.folder.current ≡ some s
    → j.folder.room < length p
    → write_file p j ≡ (
      record j {
        folder = record j.folder { current = some (s ++ take j.folder.room p); room = 0 };
      },
      j.folder.room,
      false,
    )
unfolding write_file
write_file-full p j s o c h = ground arith

-- Nothing is in the buffer, or the writer has failed.
abbrev pub Flushed : Journal → Type 0
Flushed j = (j.failed ≡ true) ⊎ (j.held ≡ [])

pub split_part : (p out : Text) (n : ℕ) → (out ++ take n p) ++ drop n p ≡ out ++ p
split_part p out n = append_assoc out _ _ ∙ ap (λ (t : Text). out ++ t) (take-drop n p)

module _ (start : Text) (aside : Option Text) (room : ℕ) where
  pub Holds-took_all :
      (p out t : Text) (j : Journal)
      → length p ≤ j.folder.room
      → Holds start aside room out t j
      → Holds start aside room
          (out ++ p)
          []
          (record j { held = []; failed = false; folder = took_all (start ++ out) p j.folder })
  Holds-took_all p out t j fits w = record {
    open_ = w.open_;
    backup = w.backup;
    current = ap some (append_assoc start out p);
    spent = omega (arith, w.spent, length-append out p);
    owed = inl (refl, refl);
  }

  pub Holds-took_part :
      (p out t held : Text) (j : Journal)
      → j.folder.room < length p
      → Holds start aside room out t j
      → Holds start aside room
          (out ++ take j.folder.room p)
          (drop j.folder.room p)
          (record j { held = held; failed = true; folder = took_part (start ++ out) p j.folder })
  Holds-took_part p out t held j over w =
      let sent : Text = take j.folder.room p in
      record {
        open_ = w.open_;
        backup = w.backup;
        current = ap some (append_assoc start out sent);
        spent =
            omega
              (arith, w.spent, length-append out sent, length-take j.folder.room p (omega arith));
        owed = inr (refl, refl);
      }

  -- Behind a flush the disk has what it had room for.
  pub Flushed-current :
      {h : Text} {j : Journal}
      → Writes start aside room h j
      → Flushed j
      → j.folder.current ≡ some (start ++ take room h)
  Flushed-current {h} {j} (out, tail, e, w) done =
      let all : take room h ≡ out = elim w.owed [
        | inr (f, full) ↦
            let n : length out ≡ room = omega (arith, w.spent) in
            rw (← n, ← e) (take-append_left out tail)
        | inl (f, t) ↦
            let none_ : j.held ≡ [] = elim done [ inl g ↦ cc | inr z ↦ z ] in
            let whole : h ≡ out =
              sym e ∙ ap (λ (u : Text). out ++ u) (t ∙ none_) ∙ append-nil out in
            rw whole (take_of_length-le room out (omega (arith, w.spent)))
      ] in
      w.current ∙ ap (λ (u : Text). some (start ++ u)) (sym all)
