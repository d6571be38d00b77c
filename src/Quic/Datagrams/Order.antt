-- ===== src/Quic/Datagrams/Order.antt =====
-- The order of the datagrams that calls of h3q_peer_addr_bio_recvmmsg give out, with their addresses.
use mod_http3_stage.Prelude.{
  ℕ, suc, ◌≤◌, ◌≡◌, ◌⊎◌, ◌∙◌, refl, sym, ap, true, false, not, ◌&&◌, Option, none, List, [], ◌∷◌,
  ◌++◌, arith, ◌==◌, if◌then◌else◌, is_some, length, map, append-nil, append_assoc, Bool-cases, inl,
  inr,
}
use mathlib.Core.Path.{subst}
use mod_http3_stage.Quic.Datagrams.{
  Datagram, Engine, Source, Message, queue_fill, Socket, Outcome, deliver, fill_then_pop, recvmmsg,
}
use mod_http3_stage.Quic.Datagrams.Deliver.{
  of_source, AllSources, AllItems, tag, fill-Filled, Delivers, deliver-Delivers,
}

-- A call of recvmmsg: what the socket would answer, and the message passed.
pub record Call : Type 0 where
  pub socket : Socket
  pub msg : Message

-- There is room for a datagram of at most `limit` bytes and for its address. After the socket was
-- asked, the first message has the length of the first datagram.
pub record IsCall (limit : ℕ) (c : Call) : Type 0 where
  pub buffer : c.msg.has_buffer ≡ true
  pub room : limit ≤ c.msg.data_len
  pub place : is_some c.msg.peer ≡ true
  pub first_buffer : c.socket.first.has_buffer ≡ true
  pub first_room :
      (s : Source) (ss : List Source)
      → c.socket.received ≡ s ∷ ss
      → length (of_source s).bytes ≤ c.socket.first.data_len
  pub first_place : is_some c.socket.first.peer ≡ true
  pub sources : AllSources limit c.socket.received

pub data AllCalls (limit : ℕ) : List Call → Type 0 where
  nothing : AllCalls limit []
  also :
      {c : Call} → {cs : List Call} → IsCall limit c → AllCalls limit cs → AllCalls limit (c ∷ cs)

-- the datagrams taken from the network by a call
abbrev pub taken : Call → Engine → List Source
taken c engine =
    if not (length engine.queue == 0) then [] else if c.socket.rv then c.socket.received else []

-- what a call hands out, with the address that the engine takes it to come from
abbrev pub handed : Outcome → List (List ℕ × Option ℕ)
handed o =
    if o.rv && o.msgs_processed == 1 then (o.msg.bytes, o.engine.current_peer_addr) ∷ [] else []

pub record Run : Type 0 where
  pub engine : Engine
  pub delivered : List (List ℕ × Option ℕ)
  pub network : List Source

-- calls one after the other
unfoldable pub run : List Call → Engine → Run
run [] engine = record { engine = engine; delivered = []; network = [] }
run (c ∷ cs) engine =
    let o = recvmmsg c.socket c.msg engine in
    let rest = run cs o.engine in
    record {
      engine = rest.engine;
      delivered = handed o ++ rest.delivered;
      network = taken c engine ++ rest.network;
    }

record Called (limit : ℕ) (engine : Engine) (network : List Source) (o : Outcome) : Type 0 where
  items : AllItems limit o.engine.queue
  content :
      handed o ++ map tag o.engine.queue ≡ map tag engine.queue ++ map tag (map of_source network)

from_Delivers :
    (limit : ℕ) (engine : Engine) (network : List Source) (d : Datagram) (q : List Datagram)
    (o : Outcome)
    → Delivers d q o
    → AllItems limit q
    → map tag (d ∷ q) ≡ map tag engine.queue ++ map tag (map of_source network)
    → Called limit engine network o
from_Delivers limit engine network d q o h items e = record {
  items = subst (AllItems limit) (sym h.queue) items;
  content = rw (h.queue, h.returned, h.processed) (rw (h.bytes, h.current) e);
}

-- A batch is queued, and its first datagram delivered.
batch :
    (limit : ℕ) (socket : Socket) (current : Option ℕ) (s : Source) (ss : List Source)
    → queue_fill (s ∷ ss) (record { queue = []; current_peer_addr = none })
      ≡ (record { queue = of_source s ∷ map of_source ss; current_peer_addr = none }, true)
    → AllItems limit (of_source s ∷ map of_source ss)
    → socket.first.has_buffer ≡ true
    → length (of_source s).bytes ≤ socket.first.data_len
    → is_some socket.first.peer ≡ true
    → Called limit
        (record { queue = []; current_peer_addr = current })
        (s ∷ ss)
        (fill_then_pop socket
          (queue_fill (s ∷ ss) (record { queue = []; current_peer_addr = none })))
batch limit socket current s ss e (AllItems.also i items) buffer room place = rw e (
    from_Delivers limit (record { queue = []; current_peer_addr = current }) (s ∷ ss) (of_source s)
      (map of_source ss)
      (deliver socket.first
        (record { queue = of_source s ∷ map of_source ss; current_peer_addr = none }))
      (deliver-Delivers limit socket.first none (of_source s) (map of_source ss) i buffer room
        place)
      items refl)

List-cases :
    (ss : List Source) → (ss ≡ []) ⊎ ((s : Source) × (rest : List Source) × (ss ≡ s ∷ rest))
List-cases [] = inl refl
List-cases (s ∷ ss) = inr (s, ss, refl)

call-Called :
    (limit : ℕ) (c : Call) (queue : List Datagram) (current : Option ℕ)
    → IsCall limit c
    → AllItems limit queue
    → Called limit
        (record { queue = queue; current_peer_addr = current })
        (taken c (record { queue = queue; current_peer_addr = current }))
        (recvmmsg c.socket c.msg (record { queue = queue; current_peer_addr = current }))
unfolding recvmmsg
call-Called limit c (d ∷ q) current k (AllItems.also i items) =
    let e : (suc (length q) == 0) ≡ false = ground arith in
    let fits = i.fits in
    let room = k.room in
    let o = deliver-Delivers limit c.msg none d q i k.buffer (omega arith) k.place in
    rw (e, recvmmsg)
      (from_Delivers limit (record { queue = d ∷ q; current_peer_addr = current }) [] d q
        (deliver c.msg (record { queue = d ∷ q; current_peer_addr = none })) o items
        (sym (append-nil (map tag (d ∷ q)))))
call-Called limit c [] current k items = elim (Bool-cases c.socket.rv) [
  | inl r ↦ elim (List-cases c.socket.received) [
    | inl n ↦ rw (r, n, recvmmsg) (record { items = AllItems.nothing; content = refl })
    | inr (s, ss, n) ↦
        let e : (suc (length ss) == 0) ≡ false = ground arith in
        let f =
          fill-Filled limit (s ∷ ss) (record { queue = []; current_peer_addr = none })
            (subst (AllSources limit) n k.sources) AllItems.nothing in
        rw (r, n, recvmmsg)
          (rw e (
            batch limit (record { rv = true; received = s ∷ ss; first = c.socket.first }) current s
              ss
              (f.result
                ∙ ap
                    (λ q.
                      (let g : Engine = record { queue = q; current_peer_addr = none } in g, true))
                    f.content)
              (subst (AllItems limit) f.content f.items) k.first_buffer (k.first_room s ss n)
              k.first_place))
  ]
  | inr r ↦ rw (r, recvmmsg) (record { items = AllItems.nothing; content = refl })
]

tagged-append :
    (ss ts : List Source)
    → map tag (map of_source ss) ++ map tag (map of_source ts) ≡ map tag (map of_source (ss ++ ts))
tagged-append [] ts = refl
tagged-append (s ∷ ss) ts = ap (λ t. tag (of_source s) ∷ t) (tagged-append ss ts)

-- When the datagrams of the network have at most `limit` bytes, come with their addresses and can be
-- copied, and each call has room for that many bytes and for an address, any number of calls hands out
-- the datagrams queued before, followed by those taken from the network, in this order, except for the
-- ones that are still queued afterwards. Each comes with its own address as that of the current peer.
pub run_in_order :
    (limit : ℕ) (cs : List Call) (engine : Engine)
    → AllCalls limit cs
    → AllItems limit engine.queue
    → (run cs engine).delivered ++ map tag (run cs engine).engine.queue
      ≡ map tag engine.queue ++ map tag (map of_source (run cs engine).network)
unfolding run
run_in_order limit [] engine all items = sym (append-nil (map tag engine.queue))
run_in_order limit (c ∷ cs) engine (AllCalls.also k all) items =
    let later = map tag (map of_source (run cs (recvmmsg c.socket c.msg engine).engine).network) in
    let h = call-Called limit c engine.queue engine.current_peer_addr k items in
    let o = recvmmsg c.socket c.msg engine in
    let r = run_in_order limit cs (recvmmsg c.socket c.msg engine).engine all h.items in
    append_assoc (handed o) (run cs o.engine).delivered (map tag (run cs o.engine).engine.queue)
    ∙ ap (λ t. handed o ++ t) r
    ∙ sym (append_assoc (handed o) (map tag o.engine.queue) later)
    ∙ ap (λ t. t ++ later) h.content
    ∙ append_assoc (map tag engine.queue) (map tag (map of_source (taken c engine))) later
    ∙ ap (λ t. map tag engine.queue ++ t) (tagged-append (taken c engine) (run cs o.engine).network)
