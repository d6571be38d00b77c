-- ===== src/Sockets.antt =====
-- mod_http3/src/h3_socket.c, the UDP socket of the listener and the pair of sockets by which a worker
-- wakes the event thread, and wait_for_event of mod_http3/src/h3_io.c. What APR and the operating
-- system answer comes as arguments.

pub mod Wakeups
use mod_http3_stage.Prelude.{
  ℕ, zero, suc, ◌+◌, ◌-◌, ◌<◌, Bool, true, false, not, ◌&&◌, ◌||◌, Option, none, some, ltb, ◌==◌,
  if◌then◌else◌, is_some,
}
use mod_http3_stage.Quic.Write.{want_timeout}

-- An `apr_status_t`: APR_SUCCESS, APR_EAGAIN, or another one.
pub data Status : Type 0 where
  success again : Status
  other : ℕ → Status

-- What the calls of h3_socket_open answer, 0 for APR_SUCCESS.
pub record OpenAnswers : Type 0 where
  pub created : ℕ
  pub addressed : ℕ
  pub bound : ℕ
  pub is_eaddrinuse : ℕ → Bool
  pub non_blocking : ℕ
  pub got : ℕ
  pub os_sock : ℕ

-- The answer, `*out_fd`, and how often the socket was closed.
pub record Opened : Type 0 where
  pub status : Status
  pub out_fd : Option ℕ
  pub closed : ℕ

-- `apr_socket_close(sock)` and `return`
abbrev pub close_with : Status → Opened
close_with rv = record { status = rv; out_fd = none; closed = 1 }

pub socket_open : OpenAnswers → Opened
socket_open a =
    if not (a.created == 0)
    then record { status = other a.created; out_fd = none; closed = 0 }
    else if not (a.addressed == 0)
    then close_with (other a.addressed)
    else if not (a.bound == 0)
    then close_with (if a.is_eaddrinuse a.bound then again else other a.bound)
    else if not (a.non_blocking == 0)
    then close_with (other a.non_blocking)
    else if not (a.got == 0)
    then close_with (other a.got)
    else record { status = success; out_fd = some a.os_sock; closed = 0 }

-- h3_wakeup, with the datagrams that wait at the reader
pub record Wakeup : Type 0 where
  pub reader : Bool
  pub writer : Bool
  pub reader_fd : Option ℕ
  pub queued : ℕ

-- Whether the calls of h3_wakeup_create succeed, in their order.
pub record CreateAnswers : Type 0 where
  pub addressed : Bool
  pub reader_created : Bool
  pub reader_bound : Bool
  pub reader_named : Bool
  pub writer_created : Bool
  pub writer_addressed : Bool
  pub writer_bound : Bool
  pub writer_connected : Bool
  pub writer_named : Bool
  pub reader_connected : Bool
  pub reader_non_blocking : Bool
  pub writer_non_blocking : Bool
  pub got : Option ℕ

-- `memset`, and -1 for the descriptor
abbrev pub uncreated : Wakeup
uncreated = record { reader = false; writer = false; reader_fd = none; queued = 0 }

-- h3_wakeup_create; each failure goes to `fail`. The answer is whether it is APR_SUCCESS.
pub wakeup_create : CreateAnswers → Wakeup × Bool
wakeup_create a =
    if a.addressed
      && a.reader_created
      && a.reader_bound
      && a.reader_named
      && a.writer_created
      && a.writer_addressed
      && a.writer_bound
      && a.writer_connected
      && a.writer_named
      && a.reader_connected
      && a.reader_non_blocking
      && a.writer_non_blocking
      && is_some a.got
    then (record { reader = true; writer = true; reader_fd = a.got; queued = 0 }, true)
    else (uncreated, false)

-- h3_wakeup_signal; a datagram is dropped when the reader's buffer, of `capacity`, is full.
pub wakeup_signal : ℕ → Wakeup → Wakeup
wakeup_signal capacity w =
    if w.writer && ltb w.queued capacity then record w { queued = w.queued + 1 } else w

-- apr_socket_recv on the reader, and whether it gives a byte
pub receive_one : Wakeup → Wakeup × Bool
receive_one w = (record w { queued = w.queued - 1 }, ltb 0 w.queued)

-- The loop of h3_wakeup_drain, over the rounds that are left.
pub drain_rounds : ℕ → Wakeup → Wakeup
unfolding receive_one
drain_rounds zero w = w
drain_rounds (suc rounds) w =
    let (w', got) = receive_one w in let rest = drain_rounds rounds w' in if got then rest else w'

pub wakeup_drain : Wakeup → Wakeup
wakeup_drain w = if w.reader then drain_rounds 64 w else w

-- What wait_for_event passes to h3_poll: the events of the UDP socket, the descriptor of the reader if
-- it is polled, and the timeout.
pub record Polled : Type 0 where
  pub pollin : Bool
  pub pollout : Bool
  pub reader_fd : Option ℕ
  pub timeout_ms : ℕ

-- The wake-up socket is polled if it is there and its descriptor is not -1.
abbrev pub polled_fd : Wakeup → Option ℕ
polled_fd w = if w.reader then w.reader_fd else none

-- `want_read`, `want_write` and the timer are what h3q_engine_want gives.
pub poll_arguments : Bool → Option (ℕ × ℕ) → Bool → Bool → Wakeup → Polled
poll_arguments has_listener timer want_read want_write w = record {
  pollin = want_read || not want_write;
  pollout = want_write;
  reader_fd = polled_fd w;
  timeout_ms = want_timeout has_listener timer 1000;
}

-- h3_poll returns when a descriptor is ready, the UDP socket or the reader, or at the timeout; when it
-- fails nothing is drained.
pub wait_for_event : (poll_failed : Bool) → Wakeup → Wakeup
unfolding wakeup_drain
wait_for_event poll_failed w =
    if not poll_failed && is_some (polled_fd w) && ltb 0 w.queued then wakeup_drain w else w
