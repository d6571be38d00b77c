-- ===== src/Listener/Close.antt =====
-- How often the UDP descriptor is closed.
use mod_http3_stage.Prelude.{
  ℕ, ◌≡◌, refl, Bool, true, false, not, ◌&&◌, Option, none, some, List, [], ◌∷◌, ◌++◌, arith,
  if◌then◌else◌, is_some, ◌<◌,
}
use mod_http3_stage.Listener.{Io, Process, Answers, listen_start, listen_stop, start_or_close}

-- The start succeeds when all that it needs is there.
abbrev pub all_there : Answers → Bool
all_there a =
    a.wakeup_created && a.worker_pool_created && a.engine_created && a.conn_notes_found
    && a.thread_started

-- It fails before the engine is created, so without a teardown.
abbrev pub fails_early : Answers → Bool
fails_early a = not (a.wakeup_created && a.worker_pool_created)

-- The descriptor is closed never, once, or twice.
abbrev pub closed_by_start : Answers → ℕ → List ℕ
closed_by_start a fd = if all_there a then [] else if fails_early a then fd ∷ [] else fd ∷ fd ∷ []

abbrev pub answers : Bool → Bool → Bool → Bool → Bool → Answers
answers w p e n t = record {
  wakeup_created = w;
  worker_pool_created = p;
  engine_created = e;
  conn_notes_found = n;
  thread_started = t;
}

-- What a start leaves, and nothing else.
record Leaves (a : Answers) (fd : ℕ) (closes : List ℕ) (o : Option Process) : Type 0 where
  process : Process
  returned : o ≡ some process
  closed : process.closes ≡ closed_by_start a fd ++ closes
  listens : is_some process.child_io ≡ all_there a

start-Leaves :
    (w p e n t : Bool) (fd : ℕ) (closes : List ℕ)
    → Leaves
        (answers w p e n t)
        fd
        closes
        (start_or_close (answers w p e n t) fd (record { child_io = none; closes = closes }))
unfolding start_or_close listen_start
start-Leaves false p e n t fd closes = record {
  process = _;
  returned = refl;
  closed = refl;
  listens = refl;
}
start-Leaves true false e n t fd closes = record {
  process = _;
  returned = refl;
  closed = refl;
  listens = refl;
}
start-Leaves true true false n t fd closes = record {
  process = _;
  returned = refl;
  closed = refl;
  listens = refl;
}
start-Leaves true true true false t fd closes = record {
  process = _;
  returned = refl;
  closed = refl;
  listens = refl;
}
start-Leaves true true true true false fd closes = record {
  process = _;
  returned = refl;
  closed = refl;
  listens = refl;
}
start-Leaves true true true true true fd closes = record {
  process = _;
  returned = refl;
  closed = refl;
  listens = refl;
}

-- After a start that did not succeed, h3_child_init and the port acquirer close the descriptor, whose
-- teardown inside h3_io_listen_start has closed it already unless the failure came before the engine.
-- So it stays open on success, is closed once after an early failure, and twice after a later one.
-- The start always returns, and leaves a listener exactly on success.
pub start_or_close_closes :
    (a : Answers) (fd : ℕ) (closes : List ℕ)
    → (p : Process) × (start_or_close a fd (record { child_io = none; closes = closes }) ≡ some p)
      × (p.closes ≡ closed_by_start a fd ++ closes)
      × (is_some p.child_io ≡ all_there a)
start_or_close_closes a fd closes =
    let l : Leaves a fd closes (start_or_close a fd (record { child_io = none; closes = closes })) =
      start-Leaves a.wakeup_created a.worker_pool_created a.engine_created a.conn_notes_found
        a.thread_started fd closes in
    (l.process, l.returned, l.closed, l.listens)

-- Stopping a listener whose event thread runs always returns: the descriptor is closed once more, and
-- no listener is left.
pub listen_stop_closes :
    (io : Io) (closes : List ℕ) (fd : ℕ)
    → io.event_thread ≡ true
    → io.udp_fd ≡ some fd
    → listen_stop (record { child_io = some io; closes = closes })
      ≡ some (record { child_io = none; closes = fd ∷ closes })
unfolding listen_stop
listen_stop_closes io closes fd t u = ground (arith, t, u)

-- A session that no event thread serves makes the stop wait for ever.
pub listen_stop_stuck :
    (io : Io) (closes : List ℕ)
    → io.event_thread ≡ false
    → 0 < io.active_sessions
    → listen_stop (record { child_io = some io; closes = closes }) ≡ none
unfolding listen_stop
listen_stop_stuck io closes t n = ground (arith, t)
