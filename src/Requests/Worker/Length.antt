-- ===== src/Requests/Worker/Length.antt =====
-- The Content-Length that httpd sees.
use mod_http3_stage.Prelude.{
  ◌<◌, ◌^◌, ◌≡◌, ◌∙◌, refl, Bool, true, Option, none, some, [], ◌∷◌, arith, ltb, if◌then◌else◌,
  Bool-cases, inl, inr,
}
use mod_http3_stage.Config.Defs.{Text}
use mod_http3_stage.State.{Stream}
use mod_http3_stage.Hooks.{digits}
use mod_http3_stage.Hooks.AltSvc.{read_number, read-digits, read_end_of_text}
use mod_http3_stage.Requests.Worker.{Table, content_length, setn, headers_in}

module _ (same : Text → Text → Bool) where
  -- apr_table_get
  pub get : Text → Table → Option Text
  get key [] = none
  get key ((k, v) ∷ t) = let rest = get key t in if same key k then some v else rest

  get-setn :
      (key val : Text) (t : Table) → same key key ≡ true → get key (setn same key val t) ≡ some val
  unfolding get setn
  get-setn key val [] e = rw e refl
  get-setn key val ((k, v) ∷ t) e = elim (Bool-cases (same key k)) [
    | inl y ↦ rw (y, get, setn) (rw y refl)
    | inr n ↦ rw (n, get, setn) (rw n (get-setn key val t e))
  ]

-- When the comparison of keys finds "Content-Length" equal to itself, and a request has a body of fewer
-- than 2^32 bytes that is not empty, then the Content-Length of its headers reads back as the number of
-- these bytes, whatever the client's own headers say.
pub content_length_counts :
    (same : Text → Text → Bool) (s : Stream)
    → same content_length content_length ≡ true
    → 0 < s.body.len
    → s.body.len < 2 ^ 32
    → (text : Text) × (get same content_length (headers_in same s) ≡ some text)
      × (read_number text 0 ≡ (s.body.len, []))
unfolding headers_in
content_length_counts same s e more few =
    let t : ltb 0 s.body.len ≡ true = ground arith in
    (
      digits s.body.len [],
      rw (t, headers_in) (get-setn same content_length (digits s.body.len []) _ e),
      read-digits s.body.len [] few ∙ read_end_of_text s.body.len,
    )
