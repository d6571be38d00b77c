-- ===== src/Tests/Rounds.antt =====
-- The theorems on the rounds of the event thread and on the QUIC engine.
use mod_http3_stage.Prelude.{
  ℕ, zero, suc, refl, ◌+◌, ◌≡◌, ◌<◌, ◌≤◌, ◌⊎◌, Bool, true, false, Option, none, some, [], ◌∷◌,
  arith, count, ltb, ◌==◌,
}
use mod_http3_stage.Connections.{Io}
use mod_http3_stage.Connections.Rounds.{
  leaves, Passed, Round, Events, service_sessions, event_round,
}
use mod_http3_stage.Connections.Rounds.Conserve.{home, event_round_conserves}
use mod_http3_stage.Connections.Limit.{held}
use mod_http3_stage.Connections.Rounds.Within.{event_round_within}
use mod_http3_stage.Connections.Rounds.Settle.{sessions_settle}
use mod_http3_stage.Connections.Rounds.Thread.{Turn, event_thread}
use mod_http3_stage.Connections.Rounds.Thread.Ends.{Ended, event_thread_ends}
use mod_http3_stage.Connections.Remove.{tally}
use mod_http3_stage.Quic.Engine.{failed, worked, engine_create, engine_pump}
use mod_http3_stage.Quic.Engine.Lifetime.{IsBalanced, engine_create-IsBalanced}
use mod_http3_stage.Quic.Engine.Pump.{engine_pump_ends}

abbrev passed : Passed
passed = record {
  data_read = λ c. true;
  aborted = λ c. ltb c 3;
  shutdown_done = λ c. true;
  active_tasks = λ c. 0;
}

abbrev io : Io
io = record {
  active_sessions = 1 ∷ 5 ∷ 2 ∷ [];
  active_session_count = 3;
  total_connections = 4;
  pending_handshakes = record { conn = 9; accepted_at = 5 } ∷ [];
  freed = [];
}

abbrev round : Round
round = record { io = io; serviced = []; work_pending = false }

sessions_settle_example :
    count 2 (service_sessions passed round).serviced ≡ 0 + tally (λ d. 2 == d) (1 ∷ 5 ∷ 2 ∷ [])
sessions_settle_example = (sessions_settle passed round).0 2

abbrev events : Events
events = record {
  pumped = some true;
  accepted = 7 ∷ 8 ∷ [];
  answers = record {
    closed = λ c. false;
    handshake_done = λ c. true;
    pool_created = λ c. true;
    session_created = λ c. true;
    control_streams_created = λ c. true;
    closed_by_now = λ c. false;
    conn_synthesized = λ c. true;
    prepared = λ c. true;
  };
  now = 100;
  passed = passed;
}

event_round_conserves_example :
    home 7 (event_round 4 10 true events io).0 ≡ home 7 io + count 7 (7 ∷ 8 ∷ [])
event_round_conserves_example = event_round_conserves 4 10 true events io 7

event_round_within_example : held (event_round 4 10 true events io).0 ≤ 4
event_round_within_example = event_round_within 4 10 true events io (omega arith) (omega arith)

abbrev turn : Bool → (ℕ → Bool) → Turn
turn running aborted = record {
  running_at_test = running;
  running = running;
  events = record events { passed = record passed { aborted = aborted } };
}

event_thread_ends_example :
    Ended (turn true (λ c. false) ∷ turn false (λ c. true) ∷ turn false (λ c. true) ∷ []) io (
      event_thread 4 10
        (turn true (λ c. false) ∷ turn false (λ c. true) ∷ turn false (λ c. true) ∷ [])
        io)
unfolding leaves
event_thread_ends_example =
    event_thread_ends 4 10 (turn true (λ c. false) ∷ []) (turn false (λ c. true))
      (turn false (λ c. true)) io refl refl (λ conn. refl) refl

-- An engine whose filter BIO cannot be created.
abbrev no_filter : mod_http3_stage.Quic.Engine.Answers
no_filter = record {
  calloc = true;
  ctx_created = true;
  method_created = true;
  handlers_set = true;
  addr_created = true;
  index_created = true;
  listener_created = true;
  dgram_created = true;
  filter_created = false;
  listens = true;
  non_blocking = true;
}

engine_create-IsBalanced_example : IsBalanced (engine_create no_filter)
engine_create-IsBalanced_example = engine_create-IsBalanced no_filter

-- An engine that is the number of its datagrams.
abbrev handle_one : ℕ → Option ℕ
handle_one zero = some zero
handle_one (suc n) = some n

abbrev is_waiting : ℕ → Bool
is_waiting zero = false
is_waiting (suc n) = true

one_less : (e e' : ℕ) → is_waiting e ≡ true → handle_one e ≡ some e' → e' < e
one_less zero e' w h = cc
one_less (suc n) e' w h = ground arith

engine_pump_ends_example :
    ((engine_pump handle_one is_waiting 5 true 4).0 ≡ failed)
      × (handle_one (engine_pump handle_one is_waiting 5 true 4).1 ≡ none)
    ⊎ ((first : ℕ) × (handle_one 4 ≡ some first)
        × ((engine_pump handle_one is_waiting 5 true 4).0 ≡ worked (is_waiting first))
        × (is_waiting (engine_pump handle_one is_waiting 5 true 4).1 ≡ false))
engine_pump_ends_example =
    engine_pump_ends handle_one is_waiting (λ n. n) one_less 5 4 (λ e' h. ground arith)
