-- ===== src/Windows/Path.antt =====
-- `AddToMachinePath` and `RemoveFromMachinePath` of windows/path.go: what their PowerShell scripts
-- make of the PATH of the machine. A pipeline that yields one text gives PowerShell that text and
-- not a list, so that `+` joins texts there.
pub mod Edits
use zeus_dns_cli.Base.{
  ℕ, Bool, true, false, not, List, [], ◌∷◌, ◌++◌, is_empty, if◌then◌else◌, Text, codes, equal_fold,
  split, join, zero, suc,
}

-- `Where-Object`
unfoldable pub where_object : (Text → Bool) → List Text → List Text
where_object keep [] = []
where_object keep (p ∷ ps) = let rest = where_object keep ps in if keep p then p ∷ rest else rest

-- `$p -split ';' | Where-Object { $_ -ne '' }`
unfoldable pub parts : Text → List Text
parts p = where_object (λ s. not (is_empty s)) (split p b';')

-- `$parts -contains $d`
unfoldable pub contains_entry : Text → List Text → Bool
contains_entry d [] = false
contains_entry d (p ∷ ps) = if equal_fold p d then true else contains_entry d ps

-- `$parts + $d`
unfoldable pub plus_entry : List Text → Text → List Text
plus_entry [] d = d ∷ []
plus_entry (p ∷ []) d = (p ++ d) ∷ []
plus_entry (p ∷ q ∷ ps) d = (p ∷ q ∷ ps) ++ (d ∷ [])

-- The script of `AddToMachinePath`
unfoldable pub add_to_path : Text → Text → Text
add_to_path d p =
    if contains_entry d (parts p) then p else join (plus_entry (parts p) d) (codes ";")

-- The script of `RemoveFromMachinePath`
unfoldable pub remove_from_path : Text → Text → Text
remove_from_path d p =
    let before = join (parts p) (codes ";") in
    let behind = join (where_object (λ s. not (equal_fold s d)) (parts p)) (codes ";") in
    if equal_fold before behind then p else behind
