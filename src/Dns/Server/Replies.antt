-- ===== src/Dns/Server/Replies.antt =====
-- What a client of dns/server.go receives.
use zeus_dns_cli.Base.{
  ℕ, ◌≡◌, refl, ◌∙◌, List-cases, inl, inr, Option, some, List, [], ◌∷◌, arith, ltb, Text, Result,
  ok, err, Bool-cases, Option-cases,
}
use zeus_dns_cli.Dns.Message.{
  Msg, DnsLib, IsReply, rcode_format_error, rcode_refused, rcode_server_failure,
}
use zeus_dns_cli.Dns.Cache.{Cache, get, get_key}
use zeus_dns_cli.Dns.Race.{RaceError, resolve_race}
use zeus_dns_cli.Dns.Server.{
  Server, Flight, leads, joins, max_accepted_msg_size, over_limit, apply_edns_truncation, reply_of,
  fly, serve_dns,
}

module _ (L : DnsLib) where
  get-id :
      (c : Cache L.Rr) (q : Msg L.Rr) (now : ℕ) {m : Msg L.Rr}
      → (get L c q now).1 ≡ some m
      → m.id ≡ q.id
  unfolding get get_key
  get-id c q now h = ground arith

  truncation-id : (r m : Msg L.Rr) → (apply_edns_truncation L r m).id ≡ m.id
  unfolding apply_edns_truncation
  truncation-id r m = ground arith

  reply_of-id :
      {E : Type 0} (lib : IsReply L) (r : Msg L.Rr) (result : Result (RaceError E) (Msg L.Rr))
      → (reply_of L r result).id ≡ r.id
  unfolding reply_of
  reply_of-id lib r (ok m) = truncation-id r (record m { id = r.id })
  reply_of-id lib r (err e) = lib.set_rcode-id r rcode_server_failure

  abbrev pub OneReply : Msg L.Rr → List (Msg L.Rr) → Type 0
  OneReply r written = (m : Msg L.Rr) × (written ≡ m ∷ []) × (m.id ≡ r.id)

  fly-OneReply :
      {E : Type 0} (lib : IsReply L) (s : Server L.Rr) (r : Msg L.Rr) (now : ℕ)
      (flight : Flight E L.Rr)
      → OneReply r (fly L s r now flight).1
  unfolding fly
  fly-OneReply lib s r now (joins result) = (_, refl, reply_of-id lib r result)
  fly-OneReply lib s r now (leads arrivals) =
      (_, refl, reply_of-id lib r (resolve_race L s.cache r now arrivals).1)

  -- Every query is answered by exactly one message, and that message carries the query's id: on
  -- each branch, refusals and failures included.
  pub serve_dns-OneReply :
      {E : Type 0} (lib : IsReply L) (s : Server L.Rr) (remote : Option Text) (now : ℕ)
      (flight : Flight E L.Rr) (r : Msg L.Rr)
      → OneReply r (serve_dns L s remote now flight r).1
  unfolding serve_dns
  serve_dns-OneReply lib s remote now flight r =
      elim (Bool-cases (ltb max_accepted_msg_size (L.msg_len r))) [
        | inl big ↦ rw (big, serve_dns) (_, refl, lib.set_rcode-id r rcode_format_error)
        | inr small ↦ elim (Bool-cases (over_limit s remote now).1) [
          | inl over ↦ rw (small, over, serve_dns) (_, refl, lib.set_rcode-id r rcode_refused)
          | inr under ↦ elim (List-cases r.question) [
            | inl bare ↦
                rw (small, under, bare, serve_dns)
                  (_, refl, lib.set_rcode-id r rcode_server_failure)
            | inr (qu, more, asks) ↦
                elim (Option-cases (get L (over_limit s remote now).0.cache r now).1) [
                  | inl miss ↦
                      rw (small, under, asks, miss, serve_dns) (fly-OneReply lib _ _ now flight)
                  | inr (m, hit) ↦
                      rw (small, under, asks, hit, serve_dns)
                        (_, refl, truncation-id r m ∙ get-id _ r now hit)
                ]
          ]
        ]
      ]
