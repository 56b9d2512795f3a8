-- ===== src/Tests/Menu.antt =====
-- The menu at a session that adds a resolver.
use zeus_dns_cli.Base.{
  ◌≡◌, refl, ◌++◌, get_elem?, List, [], ◌∷◌, All, Text, codes, ok, true, Result, Option, some,
  text_eq, trim_space, to_lower, has_prefix,
}
use zeus_dns_cli.Net.{
  split_host_port, join_host_port, has_byte, split_plain, cut_last, check_brackets,
}
use zeus_dns_cli.Dns.Doh.{check}
use zeus_dns_cli.Dns.Message.{Msg}
use zeus_dns_cli.Dns.Upstream.{
  Client, parse_upstream, parse_trimmed, parse_dot, dot_address, exchanger,
}
use zeus_dns_cli.Tui.{
  Model, handle_key, update, initial_model, remove_at, key_d, key_x, press_delete, key_a, enter,
  validate, validate_add, key_listing, start_add, forget_pending, keeps_pending, key_adding,
}
use zeus_dns_cli.Tui.Check.{check_upstream, validate_resolver_cmd}
use zeus_dns_cli.Tui.Steps.{Loop, Reached, start, step, pressed, delivered, validated}
use zeus_dns_cli.Tui.Asked.{Origin, Reached-Origin}
use zeus_dns_cli.Tui.View.{Styles, view, view_list, truncate}
use zeus_dns_cli.Tui.Prompt.{Reached-prompt}
use zeus_dns_cli.Samples.{sample_url, sample_checks, sample_dns, sample_input, response}

abbrev current : List Text
current = codes "tls://a.org" ∷ []

abbrev typed : Text
typed = codes "dot://b.org"

abbrev answer : Client → Result sample_checks.Failure (Option (Msg sample_dns.Rr))
answer client = ok (some response)

-- `a` is pressed, then enter behind the text that is typed, and the check passes.
abbrev opened : Model sample_input
opened = (handle_key sample_input key_a (initial_model sample_input typed current)).0

abbrev sent : Model sample_input
sent = (handle_key sample_input enter opened).0

abbrev added : Loop sample_input
added = (
  (update sample_input (validate_add true [] typed) sent).0,
  (update sample_input (validate_add true [] typed) sent).1
      ∷ (handle_key sample_input key_a (initial_model sample_input typed current)).1
      ∷ [],
)

asked : validate_add true [] typed ≡ validate_resolver_cmd sample_checks answer typed
unfolding validate_resolver_cmd check_upstream parse_upstream exchanger check text_eq trim_space
    to_lower has_prefix split_host_port join_host_port has_byte parse_trimmed parse_dot dot_address
    split_plain cut_last check_brackets
asked = refl

sent_command : (handle_key sample_input enter opened).1 ≡ validate typed
unfolding handle_key key_listing start_add forget_pending keeps_pending key_adding trim_space
sent_command = refl

added-Reached : Reached sample_checks sample_input typed current added
added-Reached = step (step (step (start refl) (pressed key_a refl)) (pressed enter refl)) (
    delivered [] ((handle_key sample_input key_a (initial_model sample_input typed current)).1 ∷ [])
      (validate typed) (validate_add true [] typed) (rw sent_command refl)
      (validated typed (validate_add true [] typed) answer (λ client. refl) asked) refl)

Reached-Origin_example : All (Origin sample_checks current) added.0.upstreams
Reached-Origin_example = Reached-Origin sample_checks sample_input current typed added added-Reached

-- Both resolvers are there.
both_listed : added.0.upstreams ≡ codes "tls://a.org" ∷ typed ∷ []
unfolding handle_key update key_listing start_add forget_pending keeps_pending key_adding trim_space
both_listed = refl

-- A first press of `d` in a list of two.
abbrev styles : Styles sample_input
styles = record {
  banner = codes "ZeusDNS";
  sub_title = λ t. t;
  err_style = λ t. t;
  ok_style = λ t. t;
  dim = λ t. t;
  cursor_style = λ t. t;
  primary_badge = λ t. t;
  label = λ t. t;
  yellow = λ t. t;
  input_view = λ t. t;
}

abbrev two : List Text
two = codes "tls://a.org" ∷ codes "tls://b.org" ∷ []

abbrev first_press : Loop sample_input
first_press = (
  (handle_key sample_input key_d (initial_model sample_input [] two)).0,
  (handle_key sample_input key_d (initial_model sample_input [] two)).1 ∷ [],
)

Reached-prompt_example :
    (raw : Text) × (get_elem? first_press.0.upstreams 0 ≡ some raw)
    × (view sample_input styles sample_url first_press.0
        ≡ view_list sample_input styles sample_url first_press.0
          ++ (codes "\n" ++ (codes "  press d again to delete " ++ truncate raw 40)))
    × ((handle_key sample_input key_d first_press.0).0.upstreams
        ≡ remove_at 0 first_press.0.upstreams)
    × ((handle_key sample_input key_x first_press.0).0.upstreams
        ≡ remove_at 0 first_press.0.upstreams)
Reached-prompt_example =
    Reached-prompt sample_checks sample_input styles sample_url [] two first_press 0
      (step (start refl) (pressed key_d refl))
      (unfold handle_key key_listing forget_pending keeps_pending press_delete in refl)
