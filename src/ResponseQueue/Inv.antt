-- ===== src/ResponseQueue/Inv.antt =====
-- The representation invariant of the response queue, and its abstract view: how many bytes nghttp3
-- has been handed and has not acknowledged, and the bytes that it has not been handed yet.
use mod_http3_stage.Prelude.{
  ℕ, ◌+◌, ◌-◌, ◌≤◌, ◌<◌, ◌≡◌, ◌≢◌, ◌^◌, ◌∙◌, refl, sym, ap, Option, none, some, List, [], ◌∷◌, ◌++◌,
  arith, length, append_assoc,
}
use mod_http3_stage.State.{Chunk, Response}
use mod_http3_stage.ResponseQueue.{head_addr, chunks_from}

-- A chunk in the list: its bytes are there, and it is not used up.
pub record IsChunk (c : Chunk) : Type 0 where
  pub count : length c.bytes ≡ c.len
  pub alive : c.acked < c.len
  pub small : c.len < 2 ^ 62

abbrev pub AllChunks : List Chunk → Type 0
AllChunks [] = Unit
AllChunks (c ∷ cs) = IsChunk c × AllChunks cs

-- No chunk of the list has the address.
abbrev pub IsFresh : ℕ → List Chunk → Type 0
IsFresh a [] = Unit
IsFresh a (c ∷ cs) = (c.addr ≢ a) × IsFresh a cs

abbrev pub AreDistinct : List Chunk → Type 0
AreDistinct [] = Unit
AreDistinct (c ∷ cs) = IsFresh c.addr cs × AreDistinct cs

-- the bytes of the chunks that are not acknowledged
abbrev pub outstanding : List Chunk → ℕ
outstanding [] = 0
outstanding (c ∷ cs) = (c.len - c.acked) + outstanding cs

abbrev pub bytes_of : List Chunk → List ℕ
bytes_of [] = []
bytes_of (c ∷ cs) = c.bytes ++ bytes_of cs

-- None of the chunks has been acknowledged in part.
abbrev pub AllWhole : List Chunk → Type 0
AllWhole [] = Unit
AllWhole (c ∷ cs) = (c.acked ≡ 0) × AllWhole cs

abbrev pub last_addr : List Chunk → Option ℕ
last_addr [] = none
last_addr (c ∷ []) = some c.addr
last_addr (c ∷ d ∷ cs) = last_addr (d ∷ cs)

-- The chunks split into those that nghttp3 has been handed and those behind `response_submit_chunk`.
pub record IsQueue (handed pending : List Chunk) (r : Response) : Type 0 where
  pub split : r.chunks ≡ handed ++ pending
  pub chunks : AllChunks (handed ++ pending)
  pub distinct : AreDistinct (handed ++ pending)
  pub whole : AllWhole pending
  pub submit : r.submit_chunk ≡ head_addr pending
  pub offset : r.submit_offset ≡ 0
  pub tail : r.tail ≡ last_addr (handed ++ pending)
  pub buffered : r.buffered ≡ outstanding (handed ++ pending)
  pub bounded : r.buffered ≤ r.buffer_limit
  pub small : r.buffer_limit < 2 ^ 62

pub AllChunks-append : (xs ys : List Chunk) → AllChunks xs → AllChunks ys → AllChunks (xs ++ ys)
AllChunks-append [] ys a b = b
AllChunks-append (c ∷ cs) ys a b = (a.0, AllChunks-append cs ys a.1 b)

pub AllChunks-left : (xs ys : List Chunk) → AllChunks (xs ++ ys) → AllChunks xs
AllChunks-left [] ys a = tt
AllChunks-left (c ∷ cs) ys a = (a.0, AllChunks-left cs ys a.1)

pub AllChunks-right : (xs ys : List Chunk) → AllChunks (xs ++ ys) → AllChunks ys
AllChunks-right [] ys a = a
AllChunks-right (c ∷ cs) ys a = AllChunks-right cs ys a.1

pub outstanding-append :
    (xs ys : List Chunk) → outstanding (xs ++ ys) ≡ outstanding xs + outstanding ys
outstanding-append [] ys = omega arith
outstanding-append (c ∷ cs) ys = omega (arith, outstanding-append cs ys)

pub bytes_of-append : (xs ys : List Chunk) → bytes_of (xs ++ ys) ≡ bytes_of xs ++ bytes_of ys
bytes_of-append [] ys = refl
bytes_of-append (c ∷ cs) ys =
    ap (λ bs. c.bytes ++ bs) (bytes_of-append cs ys)
    ∙ sym (append_assoc c.bytes (bytes_of cs) (bytes_of ys))

pub IsFresh-append :
    (a : ℕ) (xs ys : List Chunk) → IsFresh a xs → IsFresh a ys → IsFresh a (xs ++ ys)
IsFresh-append a [] ys p q = q
IsFresh-append a (c ∷ cs) ys p q = (p.0, IsFresh-append a cs ys p.1 q)

pub IsFresh-right : (a : ℕ) (xs ys : List Chunk) → IsFresh a (xs ++ ys) → IsFresh a ys
IsFresh-right a [] ys p = p
IsFresh-right a (c ∷ cs) ys p = IsFresh-right a cs ys p.1

pub AreDistinct-right : (xs ys : List Chunk) → AreDistinct (xs ++ ys) → AreDistinct ys
AreDistinct-right [] ys p = p
AreDistinct-right (c ∷ cs) ys p = AreDistinct-right cs ys p.1

-- A fresh address at the end keeps the addresses distinct.
pub AreDistinct-snoc :
    (xs : List Chunk) (c : Chunk) → AreDistinct xs → IsFresh c.addr xs → AreDistinct (xs ++ c ∷ [])
AreDistinct-snoc [] c d f = (tt, tt)
AreDistinct-snoc (x ∷ xs) c d f =
    (IsFresh-append x.addr xs (c ∷ []) d.0 ((λ e. f.0 (sym e)), tt), AreDistinct-snoc xs c d.1 f.1)

pub last_addr-snoc : (xs : List Chunk) (c : Chunk) → last_addr (xs ++ c ∷ []) ≡ some c.addr
last_addr-snoc [] c = refl
last_addr-snoc (x ∷ []) c = refl
last_addr-snoc (x ∷ y ∷ xs) c = last_addr-snoc (y ∷ xs) c

-- The first chunk that has not been handed out is found behind those that have.
pub chunks_from-append :
    (handed : List Chunk) (c : Chunk) (pending : List Chunk)
    → AreDistinct (handed ++ c ∷ pending)
    → chunks_from c.addr (handed ++ c ∷ pending) ≡ some (c ∷ pending)
unfolding chunks_from
chunks_from-append [] c pending d = ground arith
chunks_from-append (h ∷ hs) c pending d =
    let ne : h.addr ≢ c.addr = λ e. (IsFresh-right h.addr hs (c ∷ pending) d.0).0 (sym e) in
    ground (arith, chunks_from-append hs c pending d.1)
