-- ===== src/Tui/Prompt.antt =====
-- The question of the menu of tui/configure.go before a deletion, and what its answer deletes.
use zeus_dns_cli.Base.{
  ℕ, zero, suc, ◌+◌, ◌<◌, ◌≡◌, refl, Option, some, List, [], ◌∷◌, ◌++◌, arith, Text, codes, length,
  get_elem?,
}
use zeus_dns_cli.Net.{Url}
use zeus_dns_cli.Tui.{
  InputLib, Model, listing, key_d, key_x, handle_key, key_listing, forget_pending, keeps_pending,
  press_delete, delete_at, remove_at,
}
use zeus_dns_cli.Tui.Check.{Checks}
use zeus_dns_cli.Tui.Steps.{Loop, Reached}
use zeus_dns_cli.Tui.Sound.{IsSound, Reached-IsSound}
use zeus_dns_cli.Tui.View.{Styles, truncate, view, view_list, view_prompt}

get_elem?-within {ℓ} :
    {A : Type ℓ} (xs : List A) (i : ℕ) → i < length xs → (x : A) × (get_elem? xs i ≡ some x)
get_elem?-within [] i h = absurd (omega arith)
get_elem?-within (x ∷ xs) zero h = (x, refl)
get_elem?-within (x ∷ xs) (suc i) h = get_elem?-within xs i (omega arith)

press_deletes :
    (T : InputLib) (m : Model T) (i : ℕ)
    → m.delete_pending ≡ some i
    → m.mode ≡ listing
    → i ≡ m.cursor
    → 1 < length m.upstreams
    → ((handle_key T key_d m).0.upstreams ≡ remove_at i m.upstreams)
      × ((handle_key T key_x m).0.upstreams ≡ remove_at i m.upstreams)
unfolding handle_key key_listing forget_pending keeps_pending press_delete delete_at
press_deletes T m i p l c n = ground arith

module _ (C : Checks) (T : InputLib) (S : Styles T) (parse_url : Text → Option Url) where
  -- Wherever a first press of `d` is pending in a menu that is reached, the screen ends with the
  -- question for one entry of the list, and a second `d` or `x` then removes just that entry,
  -- whatever was pressed and whatever messages came in between.
  pub Reached-prompt :
      (input : T.Input) (current : List Text) (l : Loop T) (i : ℕ)
      → Reached C T input current l
      → l.0.delete_pending ≡ some i
      → (raw : Text) × (get_elem? l.0.upstreams i ≡ some raw)
        × (view T S parse_url l.0
            ≡ view_list T S parse_url l.0
              ++ (codes "\n" ++ S.yellow (codes "  press d again to delete " ++ truncate raw 40)))
        × ((handle_key T key_d l.0).0.upstreams ≡ remove_at i l.0.upstreams)
        × ((handle_key T key_x l.0).0.upstreams ≡ remove_at i l.0.upstreams)
  unfolding view view_prompt
  Reached-prompt input current l i r p =
      let s : IsSound T 0 (16 + length current) (omega arith) (omega arith) l.0 _ =
        Reached-IsSound C T 0 (16 + length current) (omega arith) (omega arith) input current
          (omega arith) (omega arith) l r in
      let (here, lists, more) = rw p at s.pending in
      let (raw, at) = get_elem?-within l.0.upstreams i (let c = s.cursor in omega (arith, here)) in
      let (with_d, with_x) = press_deletes T l.0 i p lists here more in
      (raw, at, ground (arith, p, lists, at), with_d, with_x)
