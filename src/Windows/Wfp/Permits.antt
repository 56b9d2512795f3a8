-- ===== src/Windows/Wfp/Permits.antt =====
-- `LoopbackProtector` of windows/wfp.go: which connections its rules permit, and what a session leaves.
use zeus_dns_cli.Base.{
  ℕ, zero, suc, ◌≡◌, ◌⊎◌, inl, inr, refl, sym, ◌∙◌, Bool, true, false, ◌&&◌, ◌||◌, Option, none,
  some, List, [], ◌∷◌, ◌++◌, ◌==◌, arith, Bool-cases, ok, err,
}
use mathlib.Core.List.{append-nil, append_assoc}
use zeus_dns_cli.Windows.Wfp.{
  no_session, no_sublayer_guid, no_sublayer, no_rule_guid, no_rule, Layer, connect_v4, connect_v6,
  accept_v4, accept_v6, Address, v4, v6, Match, ip_protocol, local_address, remote_address,
  local_port, remote_port, Rule, Packet, udp, tcp, loopback_v4, loopback_v6, loopback_rule,
  rules_of, loopback_rules, Engine, Protector, WfpError, EnableCalls, add_rules, enable_in, enable,
  disable,
}

-- How the platform reads a rule: it applies at its layer, where all its conditions hold.
abbrev pub same_layer : Layer → Layer → Bool
same_layer connect_v4 connect_v4 = true
same_layer connect_v6 connect_v6 = true
same_layer accept_v4 accept_v4 = true
same_layer accept_v6 accept_v6 = true
same_layer l m = false

abbrev pub same_address : Address → Address → Bool
same_address (v4 a) (v4 b) = a == b
same_address (v6 a) (v6 b) = a == b
same_address a b = false

abbrev pub holds : Packet → Match → Bool
holds p (ip_protocol n) = p.protocol == n
holds p (local_address a) = same_address p.local a
holds p (remote_address a) = same_address p.remote a
holds p (local_port n) = p.local_port == n
holds p (remote_port n) = p.remote_port == n

abbrev pub hold_all : Packet → List Match → Bool
hold_all p [] = true
hold_all p (m ∷ ms) = holds p m && hold_all p ms

abbrev pub permits : List Rule → Packet → Bool
permits [] p = false
permits (r ∷ rs) p = same_layer r.layer p.layer && hold_all p r.conditions || permits rs p

-- The connections that are meant: DNS over UDP or TCP to the loopback address, by its port.
abbrev pub is_dns : ℕ → Address → ℕ → Address → Bool
is_dns protocol loopback port address =
    (protocol == udp || protocol == tcp) && same_address address loopback && port == 53

abbrev pub is_loopback_dns : Layer → Packet → Bool
is_loopback_dns connect_v4 p = is_dns p.protocol loopback_v4 p.remote_port p.remote
is_loopback_dns connect_v6 p = is_dns p.protocol loopback_v6 p.remote_port p.remote
is_loopback_dns accept_v4 p = is_dns p.protocol loopback_v4 p.local_port p.local
is_loopback_dns accept_v6 p = is_dns p.protocol loopback_v6 p.local_port p.local

permits_by_layer :
    (l : Layer) (p : Packet) → p.layer ≡ l → permits loopback_rules p ≡ is_loopback_dns l p
unfolding loopback_rules rules_of loopback_rule
permits_by_layer connect_v4 p e = ground (arith, e)
permits_by_layer connect_v6 p e = ground (arith, e)
permits_by_layer accept_v4 p e = ground (arith, e)
permits_by_layer accept_v6 p e = ground (arith, e)

add_rules-all :
    (fails_at : Option ℕ) (rs added : List Rule)
    → (add_rules fails_at rs added).0 ≡ true
    → (add_rules fails_at rs added).1 ≡ added ++ rs
unfolding add_rules
add_rules-all none [] added h = sym (append-nil added)
add_rules-all (some n) [] added h = sym (append-nil added)
add_rules-all (some zero) (r ∷ rs) added h = cc
add_rules-all (some (suc n)) (r ∷ rs) added h =
    add_rules-all (some n) rs (added ++ r ∷ []) h ∙ append_assoc added (r ∷ []) rs
add_rules-all none (r ∷ rs) added h =
    add_rules-all none rs (added ++ r ∷ []) h ∙ append_assoc added (r ∷ []) rs

-- Where `Enable` succeeds, its session holds rules that permit exactly DNS over UDP and TCP
-- with the loopback address of the family at port 53, as the remote side of what goes out and the
-- local side of what comes in; `Disable` then removes them. Where it fails, the sessions are those
-- of before, and the protector is too.
pub enable-Permits :
    (c : EnableCalls) (p : Protector) (e : Engine)
    → (((enable c p e).0 ≡ ok tt)
        × ((rules : List Rule) × ((enable c p e).2 ≡ rules ∷ e)
            × ((q : Packet) → permits rules q ≡ is_loopback_dns q.layer q))
        × ((disable (enable c p e).1 (enable c p e).2).1 ≡ e))
      ⊎ ((x : WfpError) × ((enable c p e).0 ≡ err x)
          × ((enable c p e).1 ≡ p)
          × ((enable c p e).2 ≡ e))
unfolding enable enable_in disable
enable-Permits c p e = elim (Bool-cases c.opens) [
  | inr f ↦ simp (f, enable) (inr (no_session, refl, refl, refl))
  | inl opens ↦ elim (Bool-cases c.sublayer_guid) [
    | inr f ↦ simp (opens, f, enable, enable_in) (inr (no_sublayer_guid, refl, refl, refl))
    | inl guid ↦ elim (Bool-cases c.sublayer) [
      | inr f ↦ simp (opens, guid, f, enable, enable_in) (inr (no_sublayer, refl, refl, refl))
      | inl sub ↦ elim (Bool-cases c.rule_guids) [
        | inr f ↦
            simp (opens, guid, sub, f, enable, enable_in) (inr (no_rule_guid, refl, refl, refl))
        | inl guids ↦ elim (Bool-cases (add_rules c.fails_at loopback_rules []).0) [
          | inr f ↦
              simp (opens, guid, sub, guids, f, enable, enable_in) (inr (no_rule, refl, refl, refl))
          | inl all ↦
              simp
                (
                  opens,
                  guid,
                  sub,
                  guids,
                  all,
                  add_rules-all c.fails_at loopback_rules [] all,
                  enable,
                  enable_in,
                  disable,
                )
                (inl (refl, (loopback_rules, refl, λ q. permits_by_layer q.layer q refl), refl))
        ]
      ]
    ]
  ]
]
