-- ===== src/Lib.antt =====
-- mod_http3, a module that adds HTTP/3 over QUIC to Apache httpd.
--
-- The program. In every child process of httpd, mod_http3/src/h3_server.c opens a UDP socket and
-- starts a listener (mod_http3/src/h3_io.c) with a QUIC engine of OpenSSL, a pool of workers and one event
-- thread (mod_http3/src/h3_threads.c). The event thread accepts connections, waits for their
-- handshakes and then serves a session per connection: it reads the streams that have data, feeds
-- them to nghttp3, which calls back into mod_http3/src/h3_callbacks.c, hands complete requests to the
-- workers (mod_http3/src/h3_request.c), and writes out what nghttp3 asks for (mod_http3/src/h3_stream.c).
-- A worker runs the request through httpd; its output filter (mod_http3/src/h3_filter.c) appends the
-- response to the bounded queue of the stream (mod_http3/src/h3_session.c), from which nghttp3 reads.
-- The session mutex guards the streams of a session, and the queue's producer waits on it for room.
--
-- The files.
--   Prelude            names of the library passed on, lists and tests on native numbers, counting
--   Config             mod_http3/src/h3_config.c: Defs has h3_server_conf and the limits of h3.h,
--                      Directives the set_h3_* handlers and h3_cmds, Merge h3_merge_server_config,
--                      Resolve get_server_port and h3_post_config
--   State              h3_stream with its request body and response queue
--   Body               Receive is on_recv_data, Serve is serve_request_body, Capture is
--                      capture_body_bucket, Grow the doubling loop of both buffers
--   ResponseQueue      h3_session_read_data and h3_stream_response_ack_locked, cancel_locked,
--                      cleanup_locked and complete; Append is h3_stream_response_append
--   Streams            h3_stream_find and the nghttp3 callbacks; Dispatch has track_stream,
--                      h3_process_request, the ends of stream_worker and the reclaiming of streams,
--                      and the steps of the threads; Answers what workers and nghttp3 do to a response; Marks
--                      the flags that the event thread sets;
--                      Outside what a session meets of nghttp3, OpenSSL and the peer; Flush
--                      flush_nghttp3 and unblock_writable_streams; Drain drain_one_stream and
--                      feed_stream_fin; Ready drain_ready_streams; Pass service_session_pass of
--                      mod_http3/src/h3_io.c; Lifetime h3_session_create_control_streams and
--                      h3_session_destroy
--   Filters            h3_filter_out_proto, h3_filter_in_proto and input_filter_eos of
--                      mod_http3/src/h3_filter.c
--   Requests           build_response_nva, submit_response_nva and h3_response_start of h3_request.c;
--                      Worker has the request that stream_worker makes and the response it leaves
--   Hooks              mod_http3/src/h3_hooks.c
--   Listener           h3_io_listen_start, h3_io_listen_stop, teardown, h3_child_init and the port
--                      acquirer
--   Connections        h3_io_at_connection_limit, prepare_accepted_connection, spawn_serviced_session,
--                      remove_pending_handshake, progress_pending_handshakes and the accept loop;
--                      Rounds has the rounds of h3_event_thread, Rounds.Thread its run
--   Quic               mod_http3/src/quic: Datagrams is detail/h3q_addr.c, Write is h3q_stream.c with
--                      h3q_engine_want, Engine has h3q_engine_create, h3q_engine_destroy,
--                      h3q_engine_pump and h3q_engine_peer_addr of h3q.c, and h3q_conn_prepare and
--                      h3q_conn_shutdown of h3q_conn.c
--   Sockets            mod_http3/src/h3_socket.c and wait_for_event of h3_io.c
--   Tests              the theorems applied to concrete input
--
-- How the code is read. A C struct is a record of the fields that the functions use; a flag is a Bool
-- and a pointer that may be NULL an Option. An object that is shared is named by its address, so that
-- freeing it twice or reaching it after it was freed can be said. A function that changes state
-- returns the new state; a fault, such as a write past a buffer, a dangling pointer or a loop that does not
-- end, is `none` in its result. `size_t`, apr_port_t and apr_uint32_t keep their wrap-around where the
-- code adds or subtracts. What httpd, APR, OpenSSL, nghttp3 and the operating system answer comes as
-- arguments. Threads appear as sequences of turns, each the time that one of them holds the mutex:
-- Turn in ResponseQueue.Append with arbitrary others in between, and Step in Streams.Dispatch.
--
-- Fuel. The doubling loops of the buffers run on 64 rounds, which double any capacity past every
-- size_t. progress_loop and sessions_loop run on the number of entries from the index on: a round
-- removes one or moves past it. The loop of flush_nghttp3 runs on a number that is at least as large as
-- what nghttp3 can have to send: each round leaves less. The loop of h3q_engine_pump runs on one round more
-- than its size, as far as its calls make that less. read_loop runs on the reads that are left of
-- H3_STREAM_DRAIN_READ_BUDGET, digits_loop on the ten digits that a number below 2^32 has. All other
-- loops are by recursion on a list.
--
-- The steps. `Step` of Streams.Dispatch says what one thread may do to the streams of a session while it
-- holds the session mutex, without saying when. It is the abstract view of a session; the functions of
-- Flush, Drain, Ready and Pass are the detailed one, with the order, the budgets and the totals of the
-- code. In Pass the workers take steps, and change nghttp3, wherever the code lets go of the mutex:
-- `answers` is a worker that submits, appends to or completes a response (Streams.Answers).
--
-- Not modelled: the set-up of nghttp3 in h3_session_create; h3_synth_conn and peer_addr_resolve of
-- mod_http3/src/h3_request.c, which fill in structures of httpd; mod_http3/src/h3_socket_os.c and
-- mod_http3/src/quic/detail/h3q_tls.c, which pass arguments on; the module table
-- mod_http3/src/mod_http3.c; logging. nghttp3 reads the data of a response while
-- flush_nghttp3 asks it what to send: this is a step of its own (`reads`), and Flush has the lengths
-- alone. When a worker has to wake the event thread, and that some changes do not wake it, is left out.
-- The programs under examples and test are not part of the module.
pub mod Prelude
pub mod Config
pub mod State
pub mod Body
pub mod ResponseQueue
pub mod Listener
pub mod Connections
pub mod Quic
pub mod Streams
pub mod Filters
pub mod Hooks
pub mod Requests
pub mod Sockets
mod Tests
