-- ===== src/Body/Capture/Whole.antt =====
-- The response body that capture_body_bucket of mod_http3/src/h3_filter.c keeps, over all its buckets.
use mod_http3_stage.Prelude.{
  ℕ, ◌+◌, ◌≤◌, ◌<◌, ◌^◌, ◌≡◌, ◌∙◌, refl, sym, ap, Bool, true, false, ◌||◌, Option, none, some, List,
  [], ◌∷◌, ◌++◌, arith, ltb, ltb→lt, ◌==◌, Bool-cases, inl, inr, length, length-append, append-nil,
  append_assoc,
}
use mathlib.Core.Path.{subst}
use mod_http3_stage.Body.Capture.{Heap, keep, capture_body_bucket, capture_all}
use mod_http3_stage.Body.Capture.Keep.{IsHeap, Kept, keep_over, keep_within}

abbrev pub bucket_bytes : Option (List ℕ) → List ℕ
bucket_bytes none = []
bucket_bytes (some chunk) = chunk

abbrev pub all_bytes : List (Option (List ℕ)) → List ℕ
all_bytes [] = []
all_bytes (r ∷ rs) = bucket_bytes r ++ all_bytes rs

capture_none : (limit : ℕ) (h : Heap) → capture_body_bucket limit none h ≡ some h
unfolding capture_body_bucket
capture_none limit h = refl

capture_skip :
    (limit : ℕ) (chunk : List ℕ) (h : Heap)
    → (h.response_too_large || length chunk == 0) ≡ true
    → capture_body_bucket limit (some chunk) h ≡ some h
unfolding capture_body_bucket
capture_skip limit chunk h e = rw e

capture_keep :
    (limit : ℕ) (chunk : List ℕ) (h : Heap)
    → (h.response_too_large || length chunk == 0) ≡ false
    → capture_body_bucket limit (some chunk) h ≡ keep limit chunk h
unfolding capture_body_bucket
capture_keep limit chunk h e = rw e

capture_all_step :
    (limit : ℕ) (r : Option (List ℕ)) (rs : List (Option (List ℕ))) (h h' : Heap)
    → capture_body_bucket limit r h ≡ some h'
    → capture_all limit (r ∷ rs) h ≡ capture_all limit rs h'
unfolding capture_all
capture_all_step limit r rs h h' e = rw (e, capture_all)

capture_marked :
    (limit : ℕ) (r : Option (List ℕ)) (h : Heap)
    → h.response_too_large ≡ true
    → capture_body_bucket limit r h ≡ some h
unfolding capture_body_bucket
capture_marked limit none h f = refl
capture_marked limit (some chunk) h f = ground arith

capture_all_marked :
    (limit : ℕ) (rs : List (Option (List ℕ))) (h : Heap)
    → h.response_too_large ≡ true
    → capture_all limit rs h ≡ some h
capture_all_marked limit [] h f = unfold capture_all in refl
capture_all_marked limit (r ∷ rs) h f =
    capture_all_step limit r rs h h (capture_marked limit r h f) ∙ capture_all_marked limit rs h f

nil_of_length {ℓ} : {A : Type ℓ} (xs : List A) → length xs ≡ 0 → xs ≡ []
nil_of_length [] e = refl
nil_of_length (x ∷ xs) e = absurd (omega arith)

same-Kept :
    (limit : ℕ) (h : Heap) {o : Option Heap} (bs : List ℕ)
    → IsHeap limit h
    → h.response_too_large ≡ false
    → o ≡ some h
    → bs ≡ []
    → Kept limit o (h.bytes ++ bs) false
same-Kept limit h bs v f e n = record {
  heap = h;
  returned = e;
  valid = v;
  content = sym (append-nil h.bytes) ∙ ap (λ x. h.bytes ++ x) (sym n);
  flag = f;
}

later-Kept :
    (limit : ℕ) (r : Option (List ℕ)) (rs : List (Option (List ℕ))) (h : Heap) {kept kept' : List ℕ}
    {f f' : Bool}
    → (first : Kept limit (capture_body_bucket limit r h) kept f)
    → (rest : Kept limit (capture_all limit rs first.heap) kept' f')
    → Kept limit (capture_all limit (r ∷ rs) h) kept' f'
later-Kept limit r rs h first rest = record {
  heap = rest.heap;
  returned = capture_all_step limit r rs h first.heap first.returned ∙ rest.returned;
  valid = rest.valid;
  content = rest.content;
  flag = rest.flag;
}

len-Kept :
    (limit : ℕ) (bs : List ℕ) (h : Heap) {o : Option Heap}
    → IsHeap limit h
    → (r : Kept limit o (h.bytes ++ bs) false) → r.heap.len ≡ h.len + length bs
len-Kept limit bs h v r =
    omega (arith, r.valid.count, ap length r.content, length-append h.bytes bs, v.count)

module _ (limit : ℕ) (small : limit ≤ 2 ^ 31) where
  capture_within :
      (r : Option (List ℕ)) (h : Heap)
      → IsHeap limit h
      → h.response_too_large ≡ false
      → h.len + length (bucket_bytes r) ≤ limit
      → Kept limit (capture_body_bucket limit r h) (h.bytes ++ bucket_bytes r) false
  capture_within none h v f p = same-Kept limit h [] v f (capture_none limit h) refl
  capture_within (some chunk) h v f p =
      elim (Bool-cases (h.response_too_large || length chunk == 0)) [
        | inl skip ↦
            same-Kept limit h chunk v f (capture_skip limit chunk h skip)
              (nil_of_length chunk (ground arith))
        | inr take_it ↦
            subst (λ o. Kept limit o (h.bytes ++ chunk) false)
              (sym (capture_keep limit chunk h take_it)) (keep_within limit small chunk h v f p)
      ]

  -- While all that the buckets give stays within H3MaxResponseBodySize, the body kept is exactly
  -- their bytes in order, and it is not given up.
  pub capture_all_whole :
      (rs : List (Option (List ℕ))) (h : Heap)
      → IsHeap limit h
      → h.response_too_large ≡ false
      → h.len + length (all_bytes rs) ≤ limit
      → Kept limit (capture_all limit rs h) (h.bytes ++ all_bytes rs) false
  capture_all_whole [] h v f p = same-Kept limit h [] v f (unfold capture_all in refl) refl
  capture_all_whole (r ∷ rs) h v f p =
      let total : length (bucket_bytes r ++ all_bytes rs)
          ≡ length (bucket_bytes r) + length (all_bytes rs) =
        length-append (bucket_bytes r) (all_bytes rs) in
      let first : Kept limit (capture_body_bucket limit r h) (h.bytes ++ bucket_bytes r) false =
        capture_within r h v f (omega arith) in
      let rest : Kept limit (capture_all limit rs first.heap) (first.heap.bytes ++ all_bytes rs)
          false =
        capture_all_whole rs first.heap first.valid first.flag
          (omega (arith, len-Kept limit (bucket_bytes r) h v first)) in
      subst (λ bs. Kept limit (capture_all limit (r ∷ rs) h) bs false)
        (ap (λ bs. bs ++ all_bytes rs) first.content
          ∙ append_assoc h.bytes (bucket_bytes r) (all_bytes rs))
        (later-Kept limit r rs h first rest)

  -- When what the buckets give passes the limit, the response is given up (a 500 replaces it), with no
  -- fault, and the buffer stays valid.
  pub capture_all_too_large :
      (rs : List (Option (List ℕ))) (h : Heap)
      → IsHeap limit h
      → h.response_too_large ≡ false
      → limit < h.len + length (all_bytes rs)
      → (kept : List ℕ) × Kept limit (capture_all limit rs h) kept true
  capture_all_too_large [] h v f p = absurd (omega (arith, v.within))
  capture_all_too_large (r ∷ rs) h v f p =
      let total : length (bucket_bytes r ++ all_bytes rs)
          ≡ length (bucket_bytes r) + length (all_bytes rs) =
        length-append (bucket_bytes r) (all_bytes rs) in
      elim (Bool-cases (ltb limit (h.len + length (bucket_bytes r)))) [
        | inl over ↦ (h.bytes, given_up r h v f (ltb→lt _ _ over))
        | inr within ↦
            let first : Kept limit (capture_body_bucket limit r h) (h.bytes ++ bucket_bytes r)
                false =
              capture_within r h v f (ground arith) in
            let (kept, rest) =
              capture_all_too_large rs first.heap first.valid first.flag
                (omega (arith, len-Kept limit (bucket_bytes r) h v first)) in
            (kept, later-Kept limit r rs h first rest)
      ]
    where
      given_up :
          (r : Option (List ℕ)) (h : Heap)
          → IsHeap limit h
          → h.response_too_large ≡ false
          → limit < h.len + length (bucket_bytes r)
          → Kept limit (capture_all limit (r ∷ rs) h) h.bytes true
      given_up none h v f p = absurd (omega (arith, v.within))
      given_up (some chunk) h v f p = record {
        heap = record h { response_too_large = true };
        returned =
            capture_all_step limit (some chunk) rs h _
              (capture_keep limit chunk h (ground arith) ∙ keep_over limit chunk h small v.within p)
            ∙ capture_all_marked limit rs _ refl;
        valid = record { count = v.count; fits = v.fits; within = v.within; bounded = v.bounded };
        content = refl;
        flag = refl;
      }
