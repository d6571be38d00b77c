-- ===== src/Tests/Network.antt =====
-- The theorems on the listener, the connections and the QUIC layer, on small examples.
use mod_http3_stage.Prelude.{
  ℕ, ◌≤◌, ◌≡◌, refl, ap, true, false, none, some, is_some, List, [], ◌∷◌, ◌++◌, arith, length, map,
  min,
}
use mathlib.Core.Path.{subst}
use mod_http3_stage.Listener.{Process, start_or_close}
use mod_http3_stage.Listener.Close.{answers, start_or_close_closes}
use mod_http3_stage.Connections.{Io, Answers, progress_pending_handshakes}
use mod_http3_stage.Connections.Handshakes.{Settled, progress_settles}
use mod_http3_stage.Quic.Datagrams.{Engine, Source, Message}
use mod_http3_stage.Quic.Datagrams.Deliver.{IsSource, AllSources, AllItems, tag, of_source}
use mod_http3_stage.Quic.Datagrams.Drain.{run_drains}
use mod_http3_stage.Quic.Datagrams.Order.{Call, IsCall, AllCalls, run, run_in_order}
use mod_http3_stage.Quic.Write.{Written, wrote, write_loop, stream_write}
use mod_http3_stage.Quic.Write.Laws.{AcceptsAtMost}

start_or_close_closes_example :
    (p : Process) × (start_or_close
        (answers true true true false true)
        9
        (record { child_io = none; closes = [] })
      ≡ some p)
    × (p.closes ≡ 9 ∷ 9 ∷ [])
    × (is_some p.child_io ≡ false)
start_or_close_closes_example = start_or_close_closes (answers true true true false true) 9 []

abbrev io : Io
io = record {
  active_sessions = 1 ∷ [];
  active_session_count = 1;
  total_connections = 3;
  pending_handshakes =
      record { conn = 2; accepted_at = 5 } ∷ record { conn = 3; accepted_at = 90 } ∷ [];
  freed = [];
}

abbrev outcomes : Answers
outcomes = record {
  closed = λ c. false;
  handshake_done = λ c. true;
  pool_created = λ c. true;
  session_created = λ c. true;
  control_streams_created = λ c. true;
  closed_by_now = λ c. false;
  conn_synthesized = λ c. true;
  prepared = λ c. true;
}

progress_settles_example :
    Settled outcomes 100 10 io (progress_pending_handshakes outcomes 100 10 io)
progress_settles_example = progress_settles outcomes 100 10 io

-- It accepts at most two bytes at a time.
abbrev two_at_most : ℕ → ℕ → Written
two_at_most n len = wrote (min 2 len)

two_at_most_accepts : AcceptsAtMost two_at_most
two_at_most_accepts n len w e = ground arith

not_blocked : (stream_write two_at_most (1 ∷ 2 ∷ []) true).blocked ≡ false
unfolding stream_write write_loop
not_blocked = refl

not_broken : (stream_write two_at_most (1 ∷ 2 ∷ []) true).broken ≡ false
unfolding stream_write write_loop
not_broken = refl

abbrev packet : Source
packet = record {
  bytes = some (1 ∷ 2 ∷ []);
  peer = some 5;
  local = none;
  item_allocated = true;
  copies_allocated = true;
}

abbrev message : Message
message = record { has_buffer = true; data_len = 8; bytes = []; peer = some 0; local = none }

abbrev call : Call
call = record {
  socket = record {
    rv = true;
    received = packet ∷ packet ∷ [];
    first = record {
      has_buffer = true;
      data_len = 2;
      bytes = 1 ∷ 2 ∷ [];
      peer = some 5;
      local = none;
    };
  };
  msg = message;
}

abbrev head : List Source → Source
head [] = packet
head (s ∷ ss) = s

packet-IsSource : IsSource 8 packet
packet-IsSource = record {
  bytes = 1 ∷ 2 ∷ [];
  there = refl;
  not_empty = omega arith;
  fits = omega arith;
  from = 5;
  address = refl;
  item = refl;
  copies = refl;
}

call-IsCall : IsCall 8 call
call-IsCall = record {
  buffer = refl;
  room = omega arith;
  place = refl;
  first_buffer = refl;
  first_room = λ s ss e. subst (λ p. length (of_source p).bytes ≤ 2) (ap head e) (omega arith);
  first_place = refl;
  sources = AllSources.also packet-IsSource (AllSources.also packet-IsSource AllSources.nothing);
}

abbrev engine : Engine
engine = record { queue = []; current_peer_addr = none }

run_in_order_example :
    (run (call ∷ call ∷ []) engine).delivered
      ++ map tag (run (call ∷ call ∷ []) engine).engine.queue
    ≡ [] ++ map tag (map of_source (run (call ∷ call ∷ []) engine).network)
run_in_order_example =
    run_in_order 8 (call ∷ call ∷ []) engine
      (AllCalls.also call-IsCall (AllCalls.also call-IsCall AllCalls.nothing)) AllItems.nothing

-- A queue of two datagrams, the first of which does not fit.
abbrev full : Engine
full = record {
  queue =
      record { bytes = 1 ∷ 2 ∷ 3 ∷ 4 ∷ 5 ∷ 6 ∷ 7 ∷ 8 ∷ 9 ∷ []; peer = none; local = none }
      ∷ record { bytes = 1 ∷ []; peer = none; local = none }
      ∷ [];
  current_peer_addr = none;
}

run_drains_example : (run (call ∷ call ∷ []) full).engine.queue ≡ []
run_drains_example = run_drains (call ∷ call ∷ []) full (refl, (refl, tt)) (omega arith)
