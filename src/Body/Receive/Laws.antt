-- ===== src/Body/Receive/Laws.antt =====
-- The body buffer under one call of on_recv_data (mod_http3/src/h3_callbacks.c).
use mod_http3_stage.Prelude.{
  ℕ, zero, suc, ◌+◌, ◌≤◌, ◌<◌, ◌^◌, ◌≡◌, refl, Bool, true, false, Option, some, List, ◌++◌, arith,
  ltb, ltb→lt, if◌then◌else◌, Bool-cases, inl, inr, length, length-append,
}
use mod_http3_stage.State.{RequestBody}
use mod_http3_stage.Body.Grow.{grow, grow_total}
use mod_http3_stage.Body.Receive.{add_size, start_cap, new_capacity, reserve, write_body, receive}

-- The buffer holds `len` bytes, within its capacity and the limit.
pub record IsBody (limit : ℕ) (b : RequestBody) : Type 0 where
  pub count : length b.bytes ≡ b.len
  pub fits : b.len ≤ b.capacity
  pub bounded : b.capacity ≤ limit
  pub read : b.offset ≤ b.len

start_cap_pos : (capacity : ℕ) → 0 < start_cap capacity
start_cap_pos zero = omega arith
start_cap_pos (suc n) = omega arith

add_size_small : (a b : ℕ) → a ≤ 2 ^ 30 → b < 2 ^ 63 → add_size a b ≡ a + b
add_size_small a b p q = omega arith

new_capacity_of :
    (limit capacity needed cap : ℕ)
    → grow 64 (start_cap capacity) needed ≡ some cap
    → needed ≤ limit
    → needed ≤ cap
    → (out : ℕ) × (new_capacity limit capacity needed ≡ some out) × (needed ≤ out) × (out ≤ limit)
unfolding new_capacity
new_capacity_of limit capacity needed cap e p q =
    ((if ltb limit cap then limit else cap), rw (e, new_capacity), ground arith, ground arith)

-- The capacity that is chosen holds the need and respects the limit.
new_capacity_total :
    (limit capacity needed : ℕ)
    → limit ≤ 2 ^ 30
    → needed ≤ limit
    → (out : ℕ) × (new_capacity limit capacity needed ≡ some out) × (needed ≤ out) × (out ≤ limit)
new_capacity_total limit capacity needed small h =
    let (cap, run, g) =
      grow_total (start_cap capacity) needed (start_cap_pos capacity) (omega arith) in
    new_capacity_of limit capacity needed cap run h g.room

-- What `reserve` and the copy behind it come to.
appended : RequestBody → List ℕ → ℕ → RequestBody
appended b chunk cap = record b {
  bytes = b.bytes ++ chunk;
  len = b.len + length chunk;
  capacity = cap;
}

receive_grown :
    (limit cap : ℕ) (chunk : List ℕ) (b : RequestBody)
    → b.overflow ≡ false
    → add_size b.len (length chunk) ≡ b.len + length chunk
    → b.len + length chunk ≤ limit
    → b.capacity < b.len + length chunk
    → new_capacity limit b.capacity (b.len + length chunk) ≡ some cap
    → b.len + length chunk ≤ cap
    → receive limit chunk b ≡ some (appended b chunk cap)
unfolding receive reserve write_body appended
receive_grown limit cap chunk b o a p q e r = ground (arith)

receive_kept :
    (limit : ℕ) (chunk : List ℕ) (b : RequestBody)
    → b.overflow ≡ false
    → add_size b.len (length chunk) ≡ b.len + length chunk
    → b.len + length chunk ≤ limit
    → b.len + length chunk ≤ b.capacity
    → receive limit chunk b ≡ some (appended b chunk b.capacity)
unfolding receive reserve write_body appended
receive_kept limit chunk b o a p q = ground (arith)

-- A result that is a body, with the bytes and the flag that are given.
pub record Received (limit : ℕ) (o : Option RequestBody) (bytes : List ℕ) (over : Bool)
    : Type 0 where
  pub body : RequestBody
  pub returned : o ≡ some body
  pub valid : IsBody limit body
  pub content : body.bytes ≡ bytes
  pub flag : body.overflow ≡ over

appended-Received :
    (limit cap : ℕ) (chunk : List ℕ) (b : RequestBody) {o : Option RequestBody}
    → IsBody limit b
    → b.overflow ≡ false
    → b.len + length chunk ≤ cap
    → cap ≤ limit
    → o ≡ some (appended b chunk cap)
    → Received limit o (b.bytes ++ chunk) false
unfolding appended
appended-Received limit cap chunk b v o p q e = record {
  body = appended b chunk cap;
  returned = e;
  valid = record {
    count = omega (arith, v.count, length-append b.bytes chunk);
    fits = p;
    bounded = q;
    read = omega (arith, v.read);
  };
  content = refl;
  flag = o;
}

module _ (limit : ℕ) (small : limit ≤ 2 ^ 30) where
  -- A piece within the limit is appended, in a buffer that holds it.
  pub receive_within :
      (chunk : List ℕ) (b : RequestBody)
      → IsBody limit b
      → b.overflow ≡ false
      → b.len + length chunk ≤ limit
      → Received limit (receive limit chunk b) (b.bytes ++ chunk) false
  receive_within chunk b v o p = elim (Bool-cases (ltb b.capacity (b.len + length chunk))) [
    | inl more ↦
        let (cap, e, lo, hi) = new_capacity_total limit b.capacity (b.len + length chunk) small p in
        appended-Received limit cap chunk b v o lo hi
          (receive_grown limit cap chunk b o (omega arith) p (ltb→lt _ _ more) e lo)
    | inr enough ↦
        let fits : b.len + length chunk ≤ b.capacity = ground arith in
        appended-Received limit b.capacity chunk b v o fits v.bounded
          (receive_kept limit chunk b o (omega arith) p fits)
  ]

  -- A piece that passes the limit is dropped whole, and the body is marked.
  pub receive_over :
      (chunk : List ℕ) (b : RequestBody)
      → IsBody limit b
      → b.overflow ≡ false
      → length chunk < 2 ^ 63
      → limit < b.len + length chunk
      → Received limit (receive limit chunk b) b.bytes true
  unfolding receive
  receive_over chunk b v o n p = record {
    body = record b { overflow = true };
    returned = receive_over_eq;
    valid = record { count = v.count; fits = v.fits; bounded = v.bounded; read = v.read };
    content = refl;
    flag = refl;
  }
    where
      exact : add_size b.len (length chunk) ≡ b.len + length chunk
      exact = add_size_small b.len (length chunk) (omega (arith, v.fits, v.bounded)) n

      receive_over_eq : receive limit chunk b ≡ some (record b { overflow = true })
      receive_over_eq = ground (arith, exact)

-- Once marked, nothing more is kept.
pub receive_marked :
    (limit : ℕ) (chunk : List ℕ) (b : RequestBody)
    → b.overflow ≡ true
    → receive limit chunk b ≡ some b
unfolding receive
receive_marked limit chunk b o = ground arith

-- Whatever the piece, the body that results is valid.
pub receive_total :
    (limit : ℕ) (chunk : List ℕ) (b : RequestBody)
    → limit ≤ 2 ^ 30
    → length chunk < 2 ^ 63
    → IsBody limit b
    → (b' : RequestBody) × (receive limit chunk b ≡ some b') × IsBody limit b'
receive_total limit chunk b small n v = elim (Bool-cases b.overflow) [
  | inl marked ↦ (b, receive_marked limit chunk b marked, v)
  | inr open_body ↦ elim (Bool-cases (ltb limit (b.len + length chunk))) [
    | inl over ↦
        let r : Received limit (receive limit chunk b) b.bytes true =
          receive_over limit small chunk b v open_body n (ltb→lt _ _ over) in
        (r.body, r.returned, r.valid)
    | inr within ↦
        let r : Received limit (receive limit chunk b) (b.bytes ++ chunk) false =
          receive_within limit small chunk b v open_body (ground arith) in
        (r.body, r.returned, r.valid)
  ]
]
