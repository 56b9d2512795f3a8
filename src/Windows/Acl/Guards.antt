-- ===== src/Windows/Acl/Guards.antt =====
-- What `ProtectConfigDir` of windows/acl.go leaves on the disk.
use mathlib.Core.Path.{subst}
use zeus_dns_cli.Base.{
  All, not, ◌≡◌, inl, inr, refl, Bool, true, false, ◌&&◌, ◌||◌, List, [], ◌∷◌, if◌then◌else◌, Text,
  text_eq, text_eq_iff, ok, arith, Bool-cases, Option-cases, Result-cases,
}
use zeus_dns_cli.Config.{default_dir, default_file}
use zeus_dns_cli.Windows.Acl.{
  system, administrators, Inheritance, no_inheritance, object_and_container, Dacl, Dacls, Win,
  Documented, ExplicitAccess, generic_all, grant_access, handed_down, entries_for, set_dacl,
  prev_dns_file, known_config_files, protect_path, protect_files, protect_config_dir,
}

-- Full access for SYSTEM and the administrators.
abbrev pub both_full : Inheritance → List ExplicitAccess
both_full inherit =
    record {
      permissions = generic_all;
      mode = grant_access;
      inheritance = inherit;
      trustee = system;
    }
    ∷ record {
      permissions = generic_all;
      mode = grant_access;
      inheritance = inherit;
      trustee = administrators;
    }
    ∷ []

-- These rights and nothing inherited.
abbrev pub guarded : Inheritance → Dacl
guarded inherit = record { entries = both_full inherit; inherited = []; protected = true }

abbrev pub inheritance_of : Bool → Inheritance
inheritance_of is_dir = if is_dir then object_and_container else no_inheritance

unfoldable pub is_one_of : List Text → Text → Bool
is_one_of [] p = false
is_one_of (path ∷ paths) p = text_eq path p || is_one_of paths p

dir-not_known : is_one_of known_config_files default_dir ≡ false
unfolding is_one_of text_eq
dir-not_known = refl

module _ (w : Win) (documented : Documented w) where
  -- What the protection of a path leaves at a path that is not it and not beneath it, at the path
  -- itself, and beneath the directory.
  protect_path-ok :
      (path : Text) (is_dir : Bool) (s : Dacls)
      → (protect_path w path is_dir s).0 ≡ ok tt
      → (p : Text)
      → (protect_path w path is_dir s).1 p ≡ (
          if text_eq path p
          then guarded (inheritance_of is_dir)
          else if w.beneath path p && not (s p).protected
          then record (s p) { inherited = if is_dir then both_full object_and_container else [] }
          else s p)
  unfolding protect_path entries_for set_dacl handed_down
  protect_path-ok path true s h p = elim (Option-cases (w.acl_from_entries (entries_for true))) [
    | inl none_ ↦ ground (arith, none_)
    | inr (acl, made) ↦ ground (arith, made, documented.builds (entries_for true) acl made)
  ]
  protect_path-ok path false s h p = elim (Option-cases (w.acl_from_entries (entries_for false))) [
    | inl none_ ↦ ground (arith, none_)
    | inr (acl, made) ↦ ground (arith, made, documented.builds (entries_for false) acl made)
  ]

  protect_files-ok :
      (paths : List Text) (s : Dacls)
      → All (λ path. (p : Text) → w.beneath path p ≡ false) paths
      → (protect_files w paths s).0 ≡ ok tt
      → (p : Text)
      → (protect_files w paths s).1 p
        ≡ (if is_one_of paths p && w.exists p then guarded no_inheritance else s p)
  unfolding protect_files is_one_of
  protect_files-ok [] s leaf h p = refl
  protect_files-ok (path ∷ paths) s leaf h p = elim (Bool-cases (w.exists path)) [
    | inr gone ↦
        ground (
          arith,
          text_eq_iff path p,
          gone,
          protect_files-ok paths s leaf.1 (ground (arith, gone)) p,
        )
    | inl here_ ↦ elim (Result-cases (protect_path w path false s).0) [
      | inr (e, bad) ↦ ground (arith, bad, here_)
      | inl (_, good) ↦
          let s' : Dacls = (protect_path w path false s).1 in
          ground (
            arith,
            here_,
            good,
            text_eq_iff path p,
            leaf.0 p,
            protect_path-ok path false s (ground (arith, good)) p,
            protect_files-ok paths s' leaf.1 (ground (arith, good, here_)) p,
          )
    ]
  ]

  -- Behind a `ProtectConfigDir` that reports no error, the configuration directory, config.yaml and
  -- prev_dns.json give full access to SYSTEM and the administrators, nothing to anybody else, and
  -- inherit nothing, each file where it exists; the directory's entries are inheritable, and what else
  -- exists beneath it and is not protected inherits just them, besides the entries of its own; and the
  -- rights on every other path are what they were. It is assumed of Windows that a list made from
  -- entries has these entries, and that nothing is beneath a file.
  pub protect_config_dir-Guarded :
      (s : Dacls)
      → (protect_config_dir w s).0 ≡ ok tt
      → (p : Text)
      → (protect_config_dir w s).1 p ≡ (
          if text_eq default_dir p
          then guarded object_and_container
          else if is_one_of (default_file ∷ prev_dns_file ∷ []) p && w.exists p
          then guarded no_inheritance
          else if w.beneath default_dir p && not (s p).protected
          then record (s p) { inherited = both_full object_and_container }
          else s p)
  unfolding protect_config_dir
  protect_config_dir-Guarded s h p = elim (Result-cases (protect_path w default_dir true s).0) [
    | inr (e, bad) ↦ ground (arith, bad)
    | inl (_, good) ↦
        let s' : Dacls = (protect_path w default_dir true s).1 in
        let set_ = protect_path-ok default_dir true s (ground (arith, good)) p in
        let leaf : All (λ (path : Text). (q : Text) → w.beneath path q ≡ false) known_config_files =
          (λ q. (documented.no_children q).0, (λ q. (documented.no_children q).1, tt)) in
        let files = protect_files-ok known_config_files s' leaf (ground (arith, good)) p in
        elim (Bool-cases (text_eq default_dir p)) [
          | inr other ↦ ground (arith, good, other, set_, files)
          | inl dir ↦
              let same : default_dir ≡ p = (text_eq_iff default_dir p).0 dir in
              let apart : is_one_of known_config_files p ≡ false =
                subst (λ q. is_one_of known_config_files q ≡ false) (same) dir-not_known in
              ground (arith, good, dir, set_, files, apart)
        ]
  ]
