-- ===== src/Quic/Datagrams/Deliver.antt =====
-- A datagram that is queued, and one that is handed out.
use mod_http3_stage.Prelude.{
  ℕ, ◌≤◌, ◌<◌, ◌≡◌, ◌∙◌, refl, sym, true, false, Option, none, some, List, [], ◌∷◌, ◌++◌, arith,
  ltb, ◌==◌, is_some, length, map, append-nil, append_assoc,
}
use mod_http3_stage.Quic.Datagrams.{
  Datagram, Engine, Source, Message, queue_fill, copy_address, queue_pop, Outcome, deliver,
}

-- a datagram that the socket gave, and whether it holds bytes, at most `limit` of them, comes with its
-- address, and can be copied
abbrev pub of_source : Source → Datagram
of_source s = record {
  bytes = elim s.bytes [ none ↦ [] | some bytes ↦ bytes ];
  peer = s.peer;
  local = s.local;
}

pub record IsSource (limit : ℕ) (s : Source) : Type 0 where
  pub bytes : List ℕ
  pub there : s.bytes ≡ some bytes
  pub not_empty : 0 < length bytes
  pub fits : length bytes ≤ limit
  pub from : ℕ
  pub address : s.peer ≡ some from
  pub item : s.item_allocated ≡ true
  pub copies : s.copies_allocated ≡ true

pub data AllSources (limit : ℕ) : List Source → Type 0 where
  nothing : AllSources limit []
  also :
      {s : Source}
      → {ss : List Source} → IsSource limit s
      → AllSources limit ss
      → AllSources limit (s ∷ ss)

-- a queued datagram of this kind
pub record IsItem (limit : ℕ) (d : Datagram) : Type 0 where
  pub fits : length d.bytes ≤ limit
  pub from : ℕ
  pub address : d.peer ≡ some from

pub data AllItems (limit : ℕ) : List Datagram → Type 0 where
  nothing : AllItems limit []
  also :
      {d : Datagram}
      → {ds : List Datagram} → IsItem limit d
      → AllItems limit ds
      → AllItems limit (d ∷ ds)

AllItems-append :
    (limit : ℕ) (ds : List Datagram) (d : Datagram)
    → AllItems limit ds
    → IsItem limit d
    → AllItems limit (ds ++ d ∷ [])
AllItems-append limit [] d all i = AllItems.also i AllItems.nothing
AllItems-append limit (e ∷ ds) d (AllItems.also j all) i =
    AllItems.also j (AllItems-append limit ds d all i)

source-IsItem : (limit : ℕ) (s : Source) → IsSource limit s → IsItem limit (of_source s)
source-IsItem limit s i =
    let e = i.there in
    let b = i.fits in record { fits = ground arith; from = i.from; address = i.address }

-- The queue after a batch that can be copied.
fill_step :
    (limit : ℕ) (s : Source) (ss : List Source) (engine : Engine)
    → IsSource limit s
    → queue_fill (s ∷ ss) engine
      ≡ queue_fill ss (record engine { queue = engine.queue ++ of_source s ∷ [] })
unfolding queue_fill
fill_step limit s ss engine i =
    let there = i.there in
    let pos = i.not_empty in
    let not_empty : (length i.bytes == 0) ≡ false = ground arith in
    rw (i.there, i.item, i.copies, queue_fill) (rw not_empty refl)

-- a datagram with its address
abbrev pub tag : Datagram → List ℕ × Option ℕ
tag d = (d.bytes, d.peer)

pub record Filled (limit : ℕ) (ss : List Source) (engine : Engine) : Type 0 where
  pub queue : List Datagram
  pub result : queue_fill ss engine ≡ (record engine { queue = queue }, true)
  pub items : AllItems limit queue
  pub content : queue ≡ engine.queue ++ map of_source ss

pub fill-Filled :
    (limit : ℕ) (ss : List Source) (engine : Engine)
    → AllSources limit ss
    → AllItems limit engine.queue
    → Filled limit ss engine
unfolding queue_fill
fill-Filled limit [] engine all items = record {
  queue = engine.queue;
  result = refl;
  items = items;
  content = sym (append-nil engine.queue);
}
fill-Filled limit (s ∷ ss) engine (AllSources.also i all) items =
    let f =
      fill-Filled limit ss (record engine { queue = engine.queue ++ of_source s ∷ [] }) all
        (AllItems-append limit engine.queue (of_source s) items (source-IsItem limit s i)) in
    record {
      queue = f.queue;
      result = fill_step limit s ss engine i ∙ f.result;
      items = f.items;
      content = f.content ∙ append_assoc engine.queue (of_source s ∷ []) (map of_source ss);
    }

-- The head of the queue is delivered.
pub record Delivers (d : Datagram) (q : List Datagram) (o : Outcome) : Type 0 where
  pub queue : o.engine.queue ≡ q
  pub bytes : o.msg.bytes ≡ d.bytes
  pub current : o.engine.current_peer_addr ≡ d.peer
  pub processed : o.msgs_processed ≡ 1
  pub returned : o.rv ≡ true

copied :
    (place address : Option ℕ) (from : ℕ)
    → is_some place ≡ true
    → address ≡ some from
    → copy_address place address ≡ some from
unfolding copy_address
copied none address from p e = ground arith
copied (some old) address from p e = rw e refl

pop_lem :
    (limit : ℕ) (msg : Message) (current : Option ℕ) (d : Datagram) (q : List Datagram)
    (i : IsItem limit d)
    → msg.has_buffer ≡ true
    → length d.bytes ≤ msg.data_len
    → is_some msg.peer ≡ true
    → queue_pop msg (record { queue = d ∷ q; current_peer_addr = current }) ≡ record {
      engine = record { queue = q; current_peer_addr = current };
      msg = record msg {
        bytes = d.bytes;
        data_len = length d.bytes;
        peer = some i.from;
        local = copy_address msg.local d.local;
      };
      ok = true;
    }
unfolding queue_pop
pop_lem limit msg current d q i buffer room place =
    let fits : ltb msg.data_len (length d.bytes) ≡ false = ground arith in
    let address = i.address in
    rw (buffer, queue_pop) (rw fits (rw (copied msg.peer d.peer i.from place address) refl))

pub deliver-Delivers :
    (limit : ℕ) (msg : Message) (current : Option ℕ) (d : Datagram) (q : List Datagram)
    → IsItem limit d
    → msg.has_buffer ≡ true
    → length d.bytes ≤ msg.data_len
    → is_some msg.peer ≡ true
    → Delivers d q (deliver msg (record { queue = d ∷ q; current_peer_addr = current }))
unfolding deliver
deliver-Delivers limit msg current d q i buffer room place =
    rw (pop_lem limit msg current d q i buffer room place, deliver)
      (record {
        queue = refl;
        bytes = refl;
        current = sym i.address;
        processed = refl;
        returned = refl;
      })
