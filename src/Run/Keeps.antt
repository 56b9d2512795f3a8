-- ===== src/Run/Keeps.antt =====
-- The system DNS settings while the server runs: what a backup keeps of the user's own, and what the
-- scripts of windows/dns.go do to them.
use zeus_dns_cli.Base.{
  ◌≡◌, ◌≢◌, refl, inl, inr, Option, none, some, List, [], ◌∷◌, ◌++◌, Text, codes, All, ok, err,
}
use zeus_dns_cli.Windows.{
  Iface, JsonLib, script_failed, reported, get_system_dns, prev_file, whole_script, restore_lines,
}
use zeus_dns_cli.Windows.Quote.{Plain, Clean}
use zeus_dns_cli.Windows.Script.{
  Settings, Command, alias_of, SaysAll, Runs, Differs, Tried-Differs, Tried-Restored,
}
use zeus_dns_cli.Windows.Script.Lines.{Describes, Listed, restore_lines-SaysAll}
use zeus_dns_cli.Windows.Script.Query.{Printed}
use zeus_dns_cli.Windows.System.{Os, script_result}

All-front :
    (P : Command → Type 0) (before after : List Command) → All P (before ++ after) → All P before
All-front P [] after h = tt
All-front P (c ∷ before) after h = (h.0, All-front P before after h.1)

pub Describes-Plain :
    (own : Settings) (es : List Iface) → All (Describes own) es → All (λ e. Plain e.alias) es
Describes-Plain own [] h = tt
Describes-Plain own (e ∷ es) h = (h.0.0, Describes-Plain own es h.1)

pub loopback-Clean : Clean (codes "127.0.0.1")
loopback-Clean = (refl, (refl, (refl, (refl, (refl, (refl, (refl, (refl, (refl, tt)))))))))

module _ (J : JsonLib) (O : Os) (own : Settings) where
  -- The settings are the user's own.
  abbrev pub Own : Settings → Type 0
  Own s = (a : Text) → s a ≡ own a

  -- The entries tell the user's own settings of their interfaces, and all other interfaces have
  -- their own settings still.
  abbrev pub Keeps : List Iface → Settings → Type 0
  Keeps es s = All (Describes own) es × Differs own (Listed es) s

  -- A backup of these entries, once encoded, decodes to itself.
  abbrev pub Decodes : List Iface → Type 0
  Decodes es =
      (b : Text) → J.encode_prev (prev_file J es) ≡ some b → J.decode_prev b ≡ some (prev_file J es)

  -- What is relied on: what the query prints of the user's own settings, how PowerShell runs a
  -- script, and that an encoded backup decodes to itself.
  pub record Laws : Type 0 where
    pub printed :
        (s : Settings) (out dns : Text) (dhcp : Option Text)
        → Own s
        → O.query s ≡ some out
        → J.decode_combined out ≡ some (dns, dhcp)
        → Printed J own dns dhcp
    pub runs : Runs J O.powershell
    pub decoded :
        (s : Settings) (es : List Iface) → Own s → get_system_dns J (O.query s) ≡ ok es → Decodes es

  script_result-errors :
      (out : Option Text) (text : Text) (errors : List (Text × Text))
      → out ≡ some text
      → J.decode_errors text ≡ some errors
      → script_result J O out ≡ ok tt
      → errors ≡ []
  unfolding script_result
  script_result-errors out text [] e d h = refl
  script_result-errors out text (x ∷ errors) e d h =
      let bad : err (reported (x ∷ errors)) ≡ ok tt = (rw (e, d, script_result) at h) in cc

  script_result-failed : (out : Option Text) → out ≡ none → script_result J O out ≢ ok tt
  unfolding script_result
  script_result-failed out e h =
      let bad : err script_failed ≡ ok tt = (rw (e, script_result) at h) in cc

  pub script-Keeps :
      (es : List Iface) (cs : List Command) (lines : List Text) (s : Settings)
      → Laws
      → SaysAll cs lines
      → All (λ c. Listed es (alias_of c)) cs
      → Keeps es s
      → Keeps es (O.powershell (whole_script lines) s).0
  unfolding whole_script
  script-Keeps es cs lines s laws says listed (described, h) = elim (laws.runs cs lines s says) [
    | inl (text, errors, e, d, tried) ↦
        (described, Tried-Differs own (Listed es) cs s _ errors listed h tried)
    | inr (before, after, errors, split, e, tried) ↦ (
      described,
      Tried-Differs own (Listed es) before s _ errors
          (All-front (λ c. Listed es (alias_of c)) before after (rw split at listed)) h tried,
    )
  ]

  -- The script that restores the entries keeps them, and brings the user's own settings back where it
  -- reports no error.
  pub restore_script-Own :
      (es : List Iface) (s : Settings)
      → Laws
      → Keeps es s
      → Keeps es (O.powershell (whole_script (restore_lines es)) s).0
        × (script_result J O (O.powershell (whole_script (restore_lines es)) s).1 ≡ ok tt
            → Own (O.powershell (whole_script (restore_lines es)) s).0)
  unfolding whole_script
  restore_script-Own es s laws (described, h) =
      let (cs, says, restores, listed, names) = restore_lines-SaysAll own es described in
      (
        script-Keeps es cs (restore_lines es) s laws says listed (described, h),
        λ well. elim (laws.runs cs (restore_lines es) s says) [
          | inl (text, errors, e, d, tried) ↦
              Tried-Restored own cs s _ restores
                (λ a. elim (h a) [ inl same ↦ inl same | inr l ↦ inr (names a l) ])
                (rw (script_result-errors _ text errors e d well) at tried)
          | inr (before, after, errors, split, e, tried) ↦ absurd (script_result-failed _ e well)
        ],
      )
