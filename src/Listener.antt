-- ===== src/Listener.antt =====
-- Starting and stopping the QUIC listener of a child process: h3_io_listen_start, h3_io_listen_stop and
-- teardown of mod_http3/src/h3_io.c, and mod_http3/src/h3_server.c. The operating system, APR and the
-- QUIC engine answer through `Answers`; the calls that close the UDP descriptor are logged.
pub mod Close
use mod_http3_stage.Prelude.{
  ℕ, zero, suc, Bool, true, false, not, ◌&&◌, ◌||◌, Option, none, some, List, [], ◌∷◌, ◌++◌, ltb,
  ◌==◌, if◌then◌else◌, is_some,
}
use mod_http3_stage.Config.Defs.{ServerConf}
use mod_http3_stage.Config.Resolve.{Vhost, get_server_port, has_key_pair}

-- The parts of h3_io_t that starting and stopping touch. `udp_fd` is `none` for -1.
pub record Io : Type 0 where
  pub udp_fd : Option ℕ
  pub event_thread : Bool
  pub worker_pool : Bool
  pub qengine : Bool
  pub thread_running : Bool
  pub active_sessions : ℕ

-- `child_h3_io`, and the descriptors that h3_socket_close has closed, the latest first
pub record Process : Type 0 where
  pub child_io : Option Io
  pub closes : List ℕ

-- What the calls of h3_io_listen_start answer.
pub record Answers : Type 0 where
  pub wakeup_created : Bool
  pub worker_pool_created : Bool
  pub engine_created : Bool
  pub conn_notes_found : Bool
  pub thread_started : Bool

-- h3_socket_close
pub socket_close : Option ℕ → Process → Process
socket_close none p = p
socket_close (some fd) p = record p { closes = fd ∷ p.closes }

-- Joining the event thread: its loop ends only when no session is left.
pub join_event_thread : Io → Io
join_event_thread io =
    if io.event_thread
    then record io { event_thread = false; thread_running = false; active_sessions = 0 }
    else io

-- teardown: `none` is the wait for sessions that no thread serves any more
pub teardown : Io → Process → Option (Io × Process)
unfolding join_event_thread socket_close
teardown io p =
    let joined = join_event_thread io in
    if ltb 0 joined.active_sessions
    then none
    else some (
      record joined { worker_pool = false; qengine = false; udp_fd = none },
      socket_close joined.udp_fd p,
    )

pub data Status : Type 0 where
  success egeneral : Status

-- teardown and APR_EGENERAL
pub abandon : Io → Process → Option (Status × Process)
unfolding teardown
abandon io p = elim (teardown io p) [
  | none ↦ none
  | some (io', p') ↦ some (egeneral, record p' { child_io = none })
]

abbrev pub new_io : ℕ → Io
new_io fd = record {
  udp_fd = some fd;
  event_thread = false;
  worker_pool = false;
  qengine = false;
  thread_running = false;
  active_sessions = 0;
}

-- `child_h3_io` is set just before the event thread is created, and is NULL again if that fails; the
-- other failures leave it as it is, which is NULL in a child that has not listened yet.
pub listen_start : Answers → ℕ → Process → Option (Status × Process)
unfolding abandon
listen_start a fd p =
    if not a.wakeup_created
    then some (egeneral, p)
    else if not a.worker_pool_created
    then some (egeneral, p)
    else if not a.engine_created
    then elim (teardown (record (new_io fd) { worker_pool = true }) p) [
      | none ↦ none
      | some (io, p') ↦ some (egeneral, p')
    ]
    else if not a.conn_notes_found
    then elim (teardown (record (new_io fd) { worker_pool = true; qengine = true }) p) [
      | none ↦ none
      | some (io, p') ↦ some (egeneral, p')
    ]
    else if not a.thread_started
    then abandon (record (new_io fd) { worker_pool = true; qengine = true }) p
    else some (
      success,
      record p {
        child_io = some (record (new_io fd) {
          worker_pool = true;
          qengine = true;
          thread_running = true;
          event_thread = true;
        });
      },
    )

-- h3_io_listen_stop on `child_h3_io`
pub listen_stop : Process → Option Process
unfolding teardown
listen_stop p = elim p.child_io [
  | none ↦ some p
  | some io ↦ elim (teardown io p) [
    | none ↦ none
    | some (io', p') ↦ some (record p' { child_io = none })
  ]
]

-- h3_socket_open
pub data Opened : Type 0 where
  opened : ℕ → Opened
  eagain failed : Opened

-- The end of h3_child_init and of a round of port_acquire_thread_fn: a failed start closes the
-- descriptor.
pub start_or_close : Answers → ℕ → Process → Option Process
start_or_close a fd p = elim (listen_start a fd p) [
  | none ↦ none
  | some (success, p') ↦ some p'
  | some (egeneral, p') ↦ some (socket_close (some fd) p')
]

-- find_h3_server: the first server with a key pair, its host port looked up again
pub find_h3_server : List Vhost → Option ServerConf
find_h3_server [] = none
find_h3_server (current ∷ next) =
    if has_key_pair current.conf
    then some (record current.conf { host_port = get_server_port current.addrs })
    else find_h3_server next

-- h3_child_init; the Boolean is the port acquirer thread that it starts. `open_socket` is
-- h3_socket_open on the port.
pub child_init : (ℕ → Opened) → Answers → List Vhost → Process → Option (Process × Bool)
child_init open_socket a servers p = elim (find_h3_server servers) [
  | none ↦ some (p, false)
  | some conf ↦ elim (open_socket conf.port) [
    | eagain ↦ some (p, true)
    | failed ↦ some (p, false)
    | opened fd ↦ elim (start_or_close a fd p) [ none ↦ none | some p' ↦ some (p', false) ]
  ]
]

-- A round of port_acquire_thread_fn: `child_stopping` before and after the attempt, and the answers.
pub record Round : Type 0 where
  pub stopping_before : Bool
  pub attempt : Opened
  pub stopping_after : Bool
  pub answers : Answers

-- port_acquire_thread_fn over the rounds that it makes; the Boolean says that it is still trying.
pub port_acquire : List Round → Process → Option (Process × Bool)
port_acquire [] p = some (p, true)
port_acquire (r ∷ rs) p =
    let again = port_acquire rs p in
    if r.stopping_before then some (p, false) else elim r.attempt [
      | eagain ↦ again
      | failed ↦ some (p, false)
      | opened fd ↦
          if r.stopping_after
          then some (socket_close (some fd) p, false)
          else elim (start_or_close r.answers fd p) [ none ↦ none | some p' ↦ some (p', false) ]
    ]
