-- ===== src/Service/Waits.antt =====
-- `stopAndWait` of service/windows.go: when it succeeds.
use zeus_dns_cli.Base.{
  ℕ, zero, suc, ◌+◌, ◌≡◌, ◌↔◌, ◌⊎◌, refl, inl, inr, true, false, Result, Result-cases, Bool-cases,
  ok,
}
use zeus_dns_cli.Service.{
  State, is_stopped, ServiceError, Scm, wait_loop, stop_running, stop_and_wait,
}

module _ (S : Scm) where
  -- The query answers with a state that is not stopped.
  abbrev pub Going : ℕ → Type 0
  Going i = (s : State) × (S.query i ≡ ok s) × (is_stopped s ≡ false)

  abbrev pub IsDown : ℕ → Type 0
  IsDown i = (s : State) × (S.query i ≡ ok s) × (is_stopped s ≡ true)

  -- From `i` on, the first query that does not answer "going on" answers "stopped", within `left`.
  abbrev pub StopsWithin : ℕ → ℕ → Type 0
  StopsWithin zero i = ⊥
  StopsWithin (suc left) i = IsDown i ⊎ (Going i × StopsWithin left (i + 1))

  wait_loop-StopsWithin : (left i : ℕ) → (wait_loop S left i ≡ ok tt) ↔ StopsWithin left i
  unfolding wait_loop
  wait_loop-StopsWithin zero i = (λ h. cc, λ h. absurd h)
  wait_loop-StopsWithin (suc left) i = elim (Result-cases (S.query i)) [
    | inr (e, q) ↦
        rw (q, wait_loop) (λ h. cc, λ h. elim h [ inl (s, p, t) ↦ cc | inr ((s, p, f), r) ↦ cc ])
    | inl (s, q) ↦ elim (Bool-cases (is_stopped s)) [
      | inl t ↦ rw (q, wait_loop) (rw t (λ h. inl (s, refl, t), λ h. refl))
      | inr f ↦
          let (there, back) = wait_loop-StopsWithin left (i + 1) in
          rw (q, wait_loop)
            (rw f (
              λ h. inr ((s, refl, f), there h),
              λ h. elim h [ inl (s', p, t) ↦ cc | inr (g, r) ↦ back r ],
            ))
    ]
  ]

  absurd_down :
      (s : State)
      → is_stopped s ≡ false
      → (s' : State) × (◌≡◌ {A = Result ServiceError State} (ok s) (ok s')) × (is_stopped s' ≡ true)
      → ⊥
  absurd_down s f (s', p, t) = cc

  stop_running-StopsWithin :
      (stop_running S ≡ ok tt) ↔ ((S.control_stop ≡ ok tt) × StopsWithin 40 1)
  unfolding stop_running
  stop_running-StopsWithin =
      let (there, back) = wait_loop-StopsWithin 40 1 in
      elim (Result-cases S.control_stop) [
        | inl (u, c) ↦ simp (c, stop_running) (λ h. (refl, there h), λ h. back h.1)
        | inr (e, c) ↦ simp (c, stop_running) (λ h. cc, λ h. cc)
      ]

  -- `stopAndWait` succeeds exactly when the service is stopped at the first query, or takes the
  -- request to stop and is found stopped by one of the next 40 queries, all before it having
  -- answered with another state.
  pub stop_and_wait-StopsWithin :
      (stop_and_wait S ≡ ok tt)
      ↔ (IsDown 0 ⊎ ((IsDown 0 → ⊥) × (S.control_stop ≡ ok tt) × StopsWithin 40 1))
  unfolding stop_and_wait stop_running
  stop_and_wait-StopsWithin =
      let (there, back) = stop_running-StopsWithin in
      elim (Result-cases (S.query 0)) [
        | inl (s, q) ↦ elim (Bool-cases (is_stopped s)) [
          | inl t ↦ rw (q, stop_and_wait) (rw t (λ h. inl (s, refl, t), λ h. refl))
          | inr f ↦
              rw (q, stop_and_wait)
                (rw f (
                  λ h. inr (λ d. absurd_down s f d, (there h).0, (there h).1),
                  λ h. elim h [ inl (s', p, t) ↦ cc | inr (n, c, r) ↦ back (c, r) ],
                ))
        ]
        | inr (e, q) ↦
            rw (q, stop_and_wait)
              (
                λ h. inr (λ d. let (s', p, t) = d in cc, (there h).0, (there h).1),
                λ h. elim h [ inl (s', p, t) ↦ cc | inr (n, c, r) ↦ back (c, r) ],
              )
      ]
