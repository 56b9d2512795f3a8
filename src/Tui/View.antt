-- ===== src/Tui/View.antt =====
-- What the menu of tui/configure.go draws: `View` with `typeTag` and `truncate`. The styles of
-- lipgloss, the banner and the text field are parameters; `%-50s` pads by the bytes of ASCII.
use zeus_dns_cli.Base.{
  is_empty, ℕ, zero, suc, ◌+◌, ◌-◌, Bool, true, false, Option, none, some, List, [], ◌∷◌, ◌++◌,
  ◌==◌, if◌then◌else◌, ltb, leb, Text, codes, length, take, get_elem?, decimal, ok, err,
}
use zeus_dns_cli.Net.{Url}
use zeus_dns_cli.Dns.Upstream.{doh, dot, parse_upstream}
use zeus_dns_cli.Tui.{InputLib, Model, listing, adding, validating, Results, TestResult}

pub record Styles (T : InputLib) : Type 0 where
  pub banner : Text
  pub sub_title : Text → Text
  pub err_style : Text → Text
  pub ok_style : Text → Text
  pub dim : Text → Text
  pub cursor_style : Text → Text
  pub primary_badge : Text → Text
  pub label : Text → Text
  pub yellow : Text → Text
  pub input_view : T.Input → Text

-- The signs `…`, `✓` and `✗` in UTF-8.
abbrev pub ellipsis : Text
ellipsis = 226 ∷ 128 ∷ 166 ∷ []

abbrev pub tick_mark : Text
tick_mark = 226 ∷ 156 ∷ 147 ∷ []

abbrev pub cross_mark : Text
cross_mark = 226 ∷ 156 ∷ 151 ∷ []

-- `truncate`
unfoldable pub truncate : Text → ℕ → Text
truncate s n = if leb (length s) n then s else take (n - 1) s ++ ellipsis

-- `typeTag`, with the texts of `Protocol`
unfoldable pub type_tag : (Text → Option Url) → Text → Text
type_tag parse_url raw = elim (parse_upstream parse_url raw) [
  | err e ↦ codes "?"
  | ok u ↦ elim u.proto [ doh ↦ codes "DoH" | dot ↦ codes "DoT" ]
]

unfoldable pub spaces : ℕ → Text
spaces zero = []
spaces (suc n) = b' ' ∷ spaces n

-- `%-Ns`
unfoldable pub pad_right : ℕ → Text → Text
unfolding spaces
pad_right n s = s ++ spaces (n - length s)

unfoldable pub result_at : ℕ → Results → Option TestResult
result_at i [] = none
result_at i ((j, r) ∷ rs) = if j == i then some r else result_at i rs

module _ (T : InputLib) (S : Styles T) (parse_url : Text → Option Url) where
  abbrev pub newlines : Text
  newlines = codes "\n\n"

  -- The screen of `modeAdd` and `modeValidating`.
  unfoldable pub view_add : Bool → Model T → Text
  view_add waits m =
      S.banner
      ++ (newlines
          ++ (S.sub_title (codes "Add a resolver")
              ++ (newlines
                  ++ (codes "  "
                      ++ (S.input_view m.add_input
                          ++ (newlines
                              ++ ((if is_empty m.validate_err
                                    then []
                                    else S.err_style (codes "  ! " ++ truncate m.validate_err 70)
                                      ++ newlines)
                                  ++ ((if waits
                                        then S.dim (codes "  validating...") ++ newlines
                                        else [])
                                      ++ S.dim
                                          (codes "  enter = validate & add   esc = cancel")))))))))

  -- The mark of a result.
  unfoldable pub view_result : Option TestResult → Text
  view_result none = []
  view_result (some r) =
      if r.passed
      then S.ok_style tick_mark
      else S.err_style (cross_mark ++ (codes " " ++ truncate r.error 30))

  -- The line of an entry.
  unfoldable pub view_row : ℕ → ℕ → Results → Text → Text
  unfolding view_result
  view_row i cursor results raw =
      let mark = if i == cursor then S.cursor_style (codes "> ") else codes "  " in
      let badge =
        if ltb 0 i then S.label (codes "[fallback]") else S.primary_badge (codes "[primary]") in
      let tag = S.label (type_tag parse_url raw) in
      mark
      ++ (pad_right 2 (decimal (i + 1))
          ++ (codes ". "
              ++ (pad_right 50 raw
                  ++ (codes " "
                      ++ (badge
                          ++ (codes " "
                              ++ (tag
                                  ++ (codes " "
                                      ++ (view_result (result_at i results) ++ codes "\n")))))))))

  unfoldable pub view_rows : ℕ → ℕ → Results → List Text → Text
  view_rows i cursor results [] = []
  view_rows i cursor results (raw ∷ raws) =
      view_row i cursor results raw ++ view_rows (i + 1) cursor results raws

  -- The question behind a first press of `d`.
  unfoldable pub view_prompt : Model T → Text
  view_prompt m = elim m.delete_pending [
    | none ↦ []
    | some i ↦ elim (get_elem? m.upstreams i) [
      | none ↦ []
      | some raw ↦ codes "\n" ++ S.yellow (codes "  press d again to delete " ++ truncate raw 40)
    ]
  ]

  -- The screen of `modeList`, down to the line of keys.
  unfoldable pub view_list : Model T → Text
  view_list m =
      S.banner
      ++ (newlines
          ++ (S.sub_title (codes "Configure Upstreams")
              ++ (newlines
                  ++ ((if is_empty m.upstreams
                        then S.dim (codes "  No upstreams. Press 'a' to add one.\n")
                        else view_rows 0 m.cursor m.results m.upstreams)
                      ++ (codes "\n"
                          ++ ((if ltb 0 m.pending_test
                                then S.yellow (codes "testing...") ++ newlines
                                else [])
                              ++ S.dim (
                                  codes
                                    "  [a]dd  [d]elete  [[]move up  ]]move down  [t]est all  [s]ave  [q]uit")))))))

  -- `View`
  unfoldable pub view : Model T → Text
  view m = elim m.mode [
    | adding ↦ view_add false m
    | validating ↦ view_add true m
    | listing ↦ view_list m ++ view_prompt m
  ]
