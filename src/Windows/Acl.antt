-- ===== src/Windows/Acl.antt =====
-- The access control of windows/acl.go: which rights stand on the configuration directory and on
-- its files. The calls of Windows are parameters.
pub mod Guards
use zeus_dns_cli.Base.{
  ◌≡◌, ℕ, Bool, true, false, ◌&&◌, not, Option, none, some, List, [], ◌∷◌, ◌++◌, if◌then◌else◌,
  Text, codes, text_eq, Result, ok, err,
}
use zeus_dns_cli.Config.{default_dir, default_file}

-- The well-known accounts, and `GENERIC_ALL` with the inheritance flags of an entry: none, or for
-- files and directories (`OBJECT_INHERIT_ACE | CONTAINER_INHERIT_ACE`).
pub data Sid : Type 0 where
  system administrators : Sid

pub data Right : Type 0 where
  generic_all generic_read : Right

pub data AccessMode : Type 0 where
  grant_access deny_access : AccessMode

pub data Inheritance : Type 0 where
  no_inheritance object_and_container : Inheritance

-- `EXPLICIT_ACCESS`, and an entry of an access control list: a right granted.
pub record ExplicitAccess : Type 0 where
  pub permissions : Right
  pub mode : AccessMode
  pub inheritance : Inheritance
  pub trustee : Sid

pub record Dacl : Type 0 where
  pub entries : List ExplicitAccess
  pub inherited : List ExplicitAccess
  pub protected : Bool

-- The rights on every path: those of its own, and those that it has from a directory above.
abbrev pub Dacls : Type 0
Dacls = Text → Dacl

-- `config.PrevDNSFile` and `knownConfigFiles`
abbrev pub prev_dns_file : Text
prev_dns_file = default_dir ++ codes "\\prev_dns.json"

abbrev pub known_config_files : List Text
known_config_files = default_file ∷ prev_dns_file ∷ []

-- `CreateWellKnownSid`, `ACLFromEntries` with no old list, `SetNamedSecurityInfo`, `os.Stat`: which
-- calls succeed, and the list that the entries give. `beneath` says of a path and another that the
-- other exists below it with no protected directory in between.
pub record Win : Type 0 where
  pub makes_sid : Sid → Bool
  pub acl_from_entries : List ExplicitAccess → Option (List ExplicitAccess)
  pub applies : Text → Bool
  pub exists : Text → Bool
  pub beneath : Text → Text → Bool

-- What is relied on: a list that is made from entries alone has these entries, and nothing is
-- beneath the two files.
pub record Documented (w : Win) : Type 0 where
  pub builds : (es acl : List ExplicitAccess) → w.acl_from_entries es ≡ some acl → acl ≡ es
  pub no_children :
      (p : Text) → (w.beneath default_file p ≡ false) × (w.beneath prev_dns_file p ≡ false)

pub data AclError : Type 0 where
  no_sid : Sid → AclError
  no_dacl not_applied : Text → AclError
  dir_unprotected : AclError → AclError
  file_unprotected : Text → AclError → AclError

abbrev pub full_access : Inheritance → Sid → ExplicitAccess
full_access inherit sid = record {
  permissions = generic_all;
  mode = grant_access;
  inheritance = inherit;
  trustee = sid;
}

-- The entries of `protectPath`.
unfoldable pub entries_for : Bool → List ExplicitAccess
entries_for is_dir =
    let inherit : Inheritance = if is_dir then object_and_container else no_inheritance in
    full_access inherit system ∷ full_access inherit administrators ∷ []

-- The entries that a directory hands down.
unfoldable pub handed_down : List ExplicitAccess → List ExplicitAccess
handed_down [] = []
handed_down (e ∷ es) = elim e.inheritance [
  | no_inheritance ↦ handed_down es
  | object_and_container ↦ e ∷ handed_down es
]

module _ (w : Win) where
  -- `SetNamedSecurityInfo` with a list and `PROTECTED_DACL_SECURITY_INFORMATION`: what exists beneath
  -- the path and is not protected inherits anew.
  unfoldable pub set_dacl : Text → List ExplicitAccess → Dacls → Dacls
  set_dacl path acl s p =
      if text_eq path p
      then record { entries = acl; inherited = []; protected = true }
      else if w.beneath path p && not (s p).protected
      then record (s p) { inherited = handed_down acl }
      else s p

  -- `protectPath`
  unfoldable pub protect_path : Text → Bool → Dacls → Result AclError (Unit {0}) × Dacls
  unfolding entries_for
  protect_path path is_dir s =
      if w.makes_sid system
      then if w.makes_sid administrators
        then elim (w.acl_from_entries (entries_for is_dir)) [
          | none ↦ (err (no_dacl path), s)
          | some acl ↦
              if w.applies path then (ok tt, set_dacl path acl s) else (err (not_applied path), s)
        ]
        else (err (no_sid administrators), s)
      else (err (no_sid system), s)

  -- The loop of `ProtectConfigDir` over the known files.
  unfoldable pub protect_files : List Text → Dacls → Result AclError (Unit {0}) × Dacls
  protect_files [] s = (ok tt, s)
  protect_files (path ∷ paths) s = elim (w.exists path) [
    | false ↦ protect_files paths s
    | true ↦
        let (r, s') = protect_path path false s in
        elim r [ err e ↦ (err (file_unprotected path e), s') | ok _ ↦ protect_files paths s' ]
  ]

  -- `ProtectConfigDir`
  unfoldable pub protect_config_dir : Dacls → Result AclError (Unit {0}) × Dacls
  protect_config_dir s =
      let (r, s') = protect_path default_dir true s in
      elim r [ err e ↦ (err (dir_unprotected e), s') | ok _ ↦ protect_files known_config_files s' ]
