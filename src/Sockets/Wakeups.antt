-- ===== src/Sockets/Wakeups.antt =====
-- The loop of h3_wakeup_drain under wait_for_event, and the exits of h3_socket_open.
use mod_http3_stage.Prelude.{
  ℕ, zero, suc, ◌≡◌, ◌⊎◌, refl, false, none, some, ◌==◌, one_if, Bool-cases, inl, inr,
}
use mod_http3_stage.Sockets.{success, OpenAnswers, socket_open, Wakeup, wait_for_event}

-- wait_for_event several times, whose poll does not fail
abbrev pub waits : ℕ → Wakeup → Wakeup
waits zero w = w
waits (suc n) w = waits n (wait_for_event false w)

-- h3_socket_open either answers APR_SUCCESS with the descriptor of a socket that it leaves open, or it
-- gives no descriptor, and has closed the socket, once, if there was one.
pub socket_open_closes :
    (a : OpenAnswers)
    → ((socket_open a).status ≡ success)
        × ((socket_open a).out_fd ≡ some a.os_sock)
        × ((socket_open a).closed ≡ 0)
      ⊎ ((socket_open a).out_fd ≡ none) × ((socket_open a).closed ≡ one_if (a.created == 0))
unfolding socket_open
socket_open_closes a = elim (Bool-cases (a.created == 0)) [
  | inr n ↦ rw (n, socket_open) (inr (refl, refl))
  | inl c ↦ elim (Bool-cases (a.addressed == 0)) [
    | inr n ↦ rw (c, n, socket_open) (inr (refl, refl))
    | inl d ↦ elim (Bool-cases (a.bound == 0)) [
      | inr n ↦ rw (c, d, n, socket_open) (inr (refl, refl))
      | inl e ↦ elim (Bool-cases (a.non_blocking == 0)) [
        | inr n ↦ rw (c, d, e, n, socket_open) (inr (refl, refl))
        | inl f ↦ elim (Bool-cases (a.got == 0)) [
          | inr n ↦ rw (c, d, e, f, n, socket_open) (inr (refl, refl))
          | inl g ↦ rw (c, d, e, f, g, socket_open) (inl (refl, refl, refl))
        ]
      ]
    ]
  ]
]
