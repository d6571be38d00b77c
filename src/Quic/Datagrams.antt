-- ===== src/Quic/Datagrams.antt =====
-- The queue of received datagrams that keeps the address of each with it: h3q_queue_fill,
-- h3q_queue_pop, h3q_peer_addr_bio_recvmmsg and h3q_new_pending_conn_cb of
-- mod_http3/src/quic/detail/h3q_addr.c. Bytes and addresses are numbers; what the socket and the
-- allocator answer comes with each call.
pub mod Deliver
pub mod Drain
pub mod Order
use mod_http3_stage.Prelude.{
  ℕ, zero, suc, Bool, true, false, not, ◌&&◌, ◌||◌, Option, none, some, List, [], ◌∷◌, ◌++◌, ltb,
  ◌==◌, if◌then◌else◌, is_some, length,
}

-- struct h3q_datagram
pub record Datagram : Type 0 where
  pub bytes : List ℕ
  pub peer : Option ℕ
  pub local : Option ℕ

-- The queue from its head on, and `current_peer_addr`, `none` when it is cleared.
pub record Engine : Type 0 where
  pub queue : List Datagram
  pub current_peer_addr : Option ℕ

-- A message that the socket filled, and whether the item and its copies can be allocated.
pub record Source : Type 0 where
  pub bytes : Option (List ℕ)
  pub peer : Option ℕ
  pub local : Option ℕ
  pub item_allocated : Bool
  pub copies_allocated : Bool

-- The message that the caller passes: the room in its buffer, and what its addresses hold, `none`
-- when it has no place for one.
pub record Message : Type 0 where
  pub has_buffer : Bool
  pub data_len : ℕ
  pub bytes : List ℕ
  pub peer : Option ℕ
  pub local : Option ℕ

-- h3q_peer_addr_queue_clear
abbrev pub queue_clear : Engine → Engine
queue_clear engine = record engine { queue = [] }

-- h3q_queue_fill
pub queue_fill : List Source → Engine → Engine × Bool
queue_fill [] engine = (engine, true)
queue_fill (source ∷ sources) engine = elim source.bytes [
  | none ↦ (queue_clear engine, false)
  | some bytes ↦
      let filled = queue_fill sources (record engine {
        queue =
            engine.queue ++ record { bytes = bytes; peer = source.peer; local = source.local } ∷ [];
      }) in
      if not source.item_allocated || length bytes == 0
      then (queue_clear engine, false)
      else if not source.copies_allocated
      then (queue_clear engine, false)
      else filled
]

-- BIO_ADDR_copy, when there is an address and a place for it
pub copy_address : Option ℕ → Option ℕ → Option ℕ
copy_address none address = none
copy_address (some old) none = some old
copy_address (some old) (some address) = some address

pub record Popped : Type 0 where
  pub engine : Engine
  pub msg : Message
  pub ok : Bool

-- h3q_queue_pop
pub queue_pop : Message → Engine → Popped
unfolding copy_address
queue_pop msg engine = elim engine.queue [
  | [] ↦ record { engine = engine; msg = msg; ok = false }
  | item ∷ next ↦
      if not msg.has_buffer
      then record { engine = engine; msg = msg; ok = false }
      else if ltb msg.data_len (length item.bytes)
      then record { engine = record engine { queue = next }; msg = msg; ok = false }
      else record {
        engine = record engine { queue = next };
        msg = record msg {
          bytes = item.bytes;
          data_len = length item.bytes;
          peer = copy_address msg.peer item.peer;
          local = copy_address msg.local item.local;
        };
        ok = true;
      }
]

-- What BIO_recvmmsg answers: its return value, the messages it filled, and the caller's first message
-- afterwards, which is the first of them.
pub record Socket : Type 0 where
  pub rv : Bool
  pub received : List Source
  pub first : Message

pub record Outcome : Type 0 where
  pub engine : Engine
  pub msg : Message
  pub msgs_processed : ℕ
  pub rv : Bool

abbrev with_peer : Message → Engine → Engine
with_peer msg engine =
    if is_some msg.peer then record engine { current_peer_addr = msg.peer } else engine

-- A pop, and the address of what it gave
pub deliver : Message → Engine → Outcome
unfolding queue_pop
deliver msg engine =
    let popped = queue_pop msg engine in
    if popped.ok
    then record {
      engine = with_peer popped.msg popped.engine;
      msg = popped.msg;
      msgs_processed = 1;
      rv = true;
    }
    else record { engine = popped.engine; msg = popped.msg; msgs_processed = 0; rv = false }

abbrev pub fill_then_pop : Socket → Engine × Bool → Outcome
fill_then_pop socket (filled, true) = deliver socket.first filled
fill_then_pop socket (filled, false) = record {
  engine = filled;
  msg = socket.first;
  msgs_processed = 0;
  rv = false;
}

-- h3q_peer_addr_bio_recvmmsg with its arguments there and `num_msg` above 0
pub recvmmsg : Socket → Message → Engine → Outcome
unfolding deliver queue_fill
recvmmsg socket msg engine =
    let cleared = record engine { current_peer_addr = none } in
    if not (length engine.queue == 0)
    then deliver msg cleared
    else if socket.rv && not (length socket.received == 0)
    then fill_then_pop socket (queue_fill socket.received cleared)
    else record {
      engine = cleared;
      msg = socket.first;
      msgs_processed = length socket.received;
      rv = socket.rv;
    }

-- h3q_new_pending_conn_cb: its return value, and the address recorded for the connection
pub new_pending_conn : Bool → Bool → Bool → Engine → Bool × Option ℕ
new_pending_conn has_index copied stored engine = elim engine.current_peer_addr [
  | none ↦ (true, none)
  | some peer ↦
      if not has_index
      then (true, none)
      else if not copied || not stored
      then (false, none)
      else (true, some peer)
]
