-- ===== src/Body/Capture/Keep.antt =====
-- One bucket kept by capture_body_bucket of mod_http3/src/h3_filter.c.
use mod_http3_stage.Prelude.{
  ℕ, zero, suc, ◌+◌, ◌-◌, ◌*◌, ◌≤◌, ◌<◌, ◌^◌, ◌%◌, ◌≡◌, refl, Bool, true, false, Option, some, List,
  ◌++◌, arith, ltb, ltb→lt, Bool-cases, inl, inr, length, length-append,
}
use mod_http3_stage.Body.Grow.{grow, grow_total, Grown}
use mod_http3_stage.Body.Capture.{Heap, first_cap, put, make_room, keep}

-- The buffer holds `len` bytes, within its capacity and the limit; its capacity stays bounded.
pub record IsHeap (limit : ℕ) (h : Heap) : Type 0 where
  pub count : length h.bytes ≡ h.len
  pub fits : h.len ≤ h.cap
  pub within : h.len ≤ limit
  pub bounded : h.cap ≤ 2 * limit + 8192

pub record Kept (limit : ℕ) (o : Option Heap) (bytes : List ℕ) (gave_up : Bool) : Type 0 where
  pub heap : Heap
  pub returned : o ≡ some heap
  pub valid : IsHeap limit heap
  pub content : heap.bytes ≡ bytes
  pub flag : heap.response_too_large ≡ gave_up

first_cap_bounds : (cap : ℕ) → cap < 2 ^ 31 → (0 < first_cap cap) × (first_cap cap ≤ 2 * cap + 8192)
first_cap_bounds zero h = omega arith
first_cap_bounds (suc n) h = omega arith

with_chunk : Heap → List ℕ → ℕ → Heap
with_chunk h chunk cap = record h {
  bytes = h.bytes ++ chunk;
  len = h.len + length chunk;
  cap = cap;
}

keep_grown :
    (limit cap : ℕ) (chunk : List ℕ) (h : Heap)
    → limit ≤ 2 ^ 31
    → h.len + length chunk ≤ limit
    → h.cap < h.len + length chunk
    → grow 64 (first_cap h.cap) (h.len + length chunk) ≡ some cap
    → h.len + length chunk ≤ cap
    → keep limit chunk h ≡ some (with_chunk h chunk cap)
unfolding keep make_room put with_chunk
keep_grown limit cap chunk h small p q e r =
    let exact : (h.len + length chunk) % 2 ^ 64 ≡ h.len + length chunk = omega arith in
    let gap : (2 ^ 64 + limit - h.len) % 2 ^ 64 ≡ limit - h.len = omega arith in ground arith

keep_room :
    (limit : ℕ) (chunk : List ℕ) (h : Heap)
    → limit ≤ 2 ^ 31
    → h.len + length chunk ≤ limit
    → h.len + length chunk ≤ h.cap
    → keep limit chunk h ≡ some (with_chunk h chunk h.cap)
unfolding keep make_room put with_chunk
keep_room limit chunk h small p q =
    let exact : (h.len + length chunk) % 2 ^ 64 ≡ h.len + length chunk = omega arith in
    let gap : (2 ^ 64 + limit - h.len) % 2 ^ 64 ≡ limit - h.len = omega arith in ground arith

pub keep_over :
    (limit : ℕ) (chunk : List ℕ) (h : Heap)
    → limit ≤ 2 ^ 31
    → h.len ≤ limit
    → limit < h.len + length chunk
    → keep limit chunk h ≡ some (record h { response_too_large = true })
unfolding keep
keep_over limit chunk h small p q =
    let gap : (2 ^ 64 + limit - h.len) % 2 ^ 64 ≡ limit - h.len = omega arith in ground arith

with_chunk-Kept :
    (limit cap : ℕ) (chunk : List ℕ) (h : Heap) {o : Option Heap}
    → IsHeap limit h
    → h.response_too_large ≡ false
    → h.len + length chunk ≤ cap
    → h.len + length chunk ≤ limit
    → cap ≤ 2 * limit + 8192
    → o ≡ some (with_chunk h chunk cap)
    → Kept limit o (h.bytes ++ chunk) false
unfolding with_chunk
with_chunk-Kept limit cap chunk h v f p q r e = record {
  heap = with_chunk h chunk cap;
  returned = e;
  valid = record {
    count = omega (arith, v.count, length-append h.bytes chunk);
    fits = p;
    within = q;
    bounded = r;
  };
  content = refl;
  flag = f;
}

module _ (limit : ℕ) (small : limit ≤ 2 ^ 31) where
  pub keep_within :
      (chunk : List ℕ) (h : Heap)
      → IsHeap limit h
      → h.response_too_large ≡ false
      → h.len + length chunk ≤ limit
      → Kept limit (keep limit chunk h) (h.bytes ++ chunk) false
  keep_within chunk h v f p = elim (Bool-cases (ltb h.cap (h.len + length chunk))) [
    | inl more ↦
        let lt : h.cap < h.len + length chunk = ltb→lt _ _ more in
        let b = first_cap_bounds h.cap (omega arith) in
        let (cap, e, g) = grow_total (first_cap h.cap) (h.len + length chunk) b.0 (omega arith) in
        with_chunk-Kept limit cap chunk h v f g.room p (grown_bound cap g lt b.1)
          (keep_grown limit cap chunk h small p lt e g.room)
    | inr enough ↦
        let fits : h.len + length chunk ≤ h.cap = ground arith in
        with_chunk-Kept limit h.cap chunk h v f fits p v.bounded
          (keep_room limit chunk h small p fits)
  ]
    where
      grown_bound :
          (cap : ℕ)
          → Grown (first_cap h.cap) (h.len + length chunk) cap
          → h.cap < h.len + length chunk
          → first_cap h.cap ≤ 2 * h.cap + 8192
          → cap ≤ 2 * limit + 8192
      grown_bound cap g lt b = elim g.tight [ inl e ↦ omega arith | inr le ↦ omega arith ]

-- the bytes that a bucket gives
