-- ===== src/Config/Directives/Range.antt =====
-- What the directives of mod_http3/src/h3_config.c let into the configuration.
use mod_http3_stage.Prelude.{
  ℕ, ◌≤◌, ◌≡◌, Option, none, some, List, [], ◌∷◌, arith, ltb, ◌==◌, Bool-cases, ◌||◌, inl, inr, ◌<◌,
  leb, leb→le, if◌then◌else◌, ◌&&◌,
}
use mathlib.Core.Path.{subst}
use mod_http3_stage.Config.Defs.{
  Text, ServerConf, uint16_max, max_connections_max, stream_buffer_size_max,
  max_request_body_size_max, max_response_body_size_max, alt_svc_max_age_max, handshake_timeout_max,
  idle_timeout_max,
}
use mod_http3_stage.Config.Directives.{
  Parsed, einval, erange, negative, value, Outcome, stored, refused, aborted, store, set_string,
  out_of_allowed_range, and_then, accept_number, numeric, Directive, run_directive, configure,
  set_cert_path, set_key_path, set_port, set_max_concurrent_streams, set_max_connections,
  set_stream_buffer_size, set_max_request_body_size, set_max_response_body_size,
  set_handshake_timeout, set_idle_timeout, set_alt_svc, set_address_validation, set_alt_svc_max_age,
}

-- Every number lies below the limit of its directive; zero means that it was not set.
pub record IsInRange (c : ServerConf) : Type 0 where
  pub port : c.port ≤ 65535
  pub streams : c.max_concurrent_streams ≤ uint16_max
  pub connections : c.max_connections ≤ max_connections_max
  pub buffer : c.stream_buffer_size ≤ stream_buffer_size_max
  pub request : c.max_request_body_size ≤ max_request_body_size_max
  pub response : c.max_response_body_size ≤ max_response_body_size_max
  pub max_age : c.alt_svc_max_age ≤ alt_svc_max_age_max
  pub handshake : c.handshake_timeout ≤ handshake_timeout_max
  pub idle : c.idle_timeout ≤ idle_timeout_max

-- What a stored configuration satisfies, and nothing of the other outcomes.
abbrev Stores : (ServerConf → Type 0) → Outcome → Type 0
Stores P (stored c) = P c
Stores P (refused why) = Unit
Stores P aborted = Unit

accept_number-Stores :
    (P : ServerConf → Type 0) (limit : ℕ) (p : Parsed) (c : ServerConf)
    (assign : ℕ → ServerConf → ServerConf)
    → ((n : ℕ) → 0 < n → n ≤ limit → P (assign n c))
    → Stores P (accept_number limit p (some c) assign)
unfolding accept_number store
accept_number-Stores P limit einval c assign h = tt
accept_number-Stores P limit erange c assign h = tt
accept_number-Stores P limit (negative n) c assign h = tt
accept_number-Stores P limit (value n) c assign h = elim (Bool-cases (n == 0 || ltb limit n)) [
  | inl out ↦ rw out tt
  | inr within ↦ rw within (h n (ground arith) (ground arith))
]

numeric-Stores :
    (P : ServerConf → Type 0) (parse : Text → Parsed) (limit : ℕ) (arg : Option Text)
    (c : ServerConf) (assign : ℕ → ServerConf → ServerConf)
    → ((n : ℕ) → 0 < n → n ≤ limit → P (assign n c))
    → Stores P (numeric parse limit arg (some c) assign)
unfolding numeric
numeric-Stores P parse limit none c assign h = tt
numeric-Stores P parse limit (some []) c assign h = tt
numeric-Stores P parse limit (some (b ∷ bs)) c assign h =
    accept_number-Stores P limit (parse (b ∷ bs)) c assign h

and_then-Stores :
    (P : ServerConf → Type 0) (o : Outcome) (f : ServerConf → Outcome)
    → Stores P o
    → ((c : ServerConf) → P c → Stores P (f c))
    → Stores P (and_then o f)
and_then-Stores P (stored c) f s h = h c s
and_then-Stores P (refused why) f s h = tt
and_then-Stores P aborted f s h = tt

module _ (atoi64 atoui64 : Text → Parsed) where
  run_directive-IsInRange :
      (d : Directive) (c : ServerConf)
      → IsInRange c
      → Stores IsInRange (run_directive atoi64 atoui64 d (some c))
  unfolding run_directive set_cert_path set_key_path set_string set_alt_svc set_address_validation
      store set_port set_max_concurrent_streams set_max_connections set_stream_buffer_size
      set_max_request_body_size set_max_response_body_size set_handshake_timeout set_idle_timeout
      set_alt_svc_max_age
  run_directive-IsInRange (Directive.certificate_path arg) c h = omega arith
  run_directive-IsInRange (Directive.certificate_key_path arg) c h = omega arith
  run_directive-IsInRange (Directive.port arg) c h =
      numeric-Stores IsInRange atoi64 _ arg c _ (λ n p q. omega arith)
  run_directive-IsInRange (Directive.max_concurrent_streams arg) c h =
      numeric-Stores IsInRange atoui64 _ arg c _ (λ n p q. omega arith)
  run_directive-IsInRange (Directive.max_connections arg) c h =
      numeric-Stores IsInRange atoui64 _ arg c _ (λ n p q. omega arith)
  run_directive-IsInRange (Directive.stream_buffer_size arg) c h =
      numeric-Stores IsInRange atoui64 _ arg c _ (λ n p q. omega arith)
  run_directive-IsInRange (Directive.max_request_body_size arg) c h =
      numeric-Stores IsInRange atoui64 _ arg c _ (λ n p q. omega arith)
  run_directive-IsInRange (Directive.alt_svc_max_age arg) c h =
      numeric-Stores IsInRange atoui64 _ arg c _ (λ n p q. omega arith)
  run_directive-IsInRange (Directive.handshake_timeout arg) c h =
      numeric-Stores IsInRange atoui64 _ arg c _ (λ n p q. omega arith)
  run_directive-IsInRange (Directive.idle_timeout arg) c h =
      numeric-Stores IsInRange atoui64 _ arg c _ (λ n p q. omega arith)
  run_directive-IsInRange (Directive.max_response_body_size arg) c h =
      numeric-Stores IsInRange atoui64 _ arg c _ (λ n p q. omega arith)
  run_directive-IsInRange (Directive.alt_svc flag) c h = omega arith
  run_directive-IsInRange (Directive.address_validation flag) c h = omega arith

  configure-Stores :
      (ds : List Directive) (c : ServerConf)
      → IsInRange c
      → Stores IsInRange (configure atoi64 atoui64 ds c)
  unfolding configure
  configure-Stores [] c h = h
  configure-Stores (d ∷ ds) c h =
      and_then-Stores IsInRange (run_directive atoi64 atoui64 d (some c))
        (configure atoi64 atoui64 ds) (run_directive-IsInRange d c h) (configure-Stores ds)

  -- From a configuration whose numbers are within the limits, whatever the parsers answer and
  -- whatever the lines are, a configuration that `configure` stores is within the limits too.
  pub configure-IsInRange :
      (ds : List Directive) (c c' : ServerConf)
      → IsInRange c
      → configure atoi64 atoui64 ds c ≡ stored c'
      → IsInRange c'
  configure-IsInRange ds c c' h e = subst (Stores IsInRange) e (configure-Stores ds c h)

-- Stored as it is from 1 up to the limit, and refused outside.
abbrev pub exactly : ℕ → ℕ → ServerConf → Outcome
exactly limit n c =
    if ltb 0 n && leb n limit then stored c else refused (out_of_allowed_range limit)

numeric-exactly :
    (parse : Text → Parsed) (limit b n : ℕ) (bs : Text) (c c' : ServerConf)
    (assign : ℕ → ServerConf → ServerConf)
    → parse (b ∷ bs) ≡ value n
    → (n ≤ limit → assign n c ≡ c')
    → numeric parse limit (some (b ∷ bs)) (some c) assign ≡ exactly limit n c'
unfolding numeric accept_number store
numeric-exactly parse limit b n bs c c' assign e h =
    rw (e, accept_number)
      (elim (Bool-cases (leb n limit)) [
        | inl le ↦ let p : assign n c ≡ c' = h (leb→le n limit le) in ground arith
        | inr gt ↦ ground arith
      ])

module _ (atoi64 atoui64 : Text → Parsed) (b n : ℕ) (bs : Text) (c : ServerConf) where
  -- A number that the parser reads as `n` is stored as `n`, and nothing else changes, exactly when
  -- 1 ≤ n ≤ the limit of its directive, and is refused with that limit otherwise. So none of the
  -- conversions to 16 and to 32 bits truncates.
  pub conversions_exact :
      atoi64 (b ∷ bs) ≡ value n
      → atoui64 (b ∷ bs) ≡ value n
      → (set_port atoi64 atoui64 (some (b ∷ bs)) (some c) ≡ exactly 65535 n (record c { port = n }))
        × (set_max_concurrent_streams atoi64 atoui64 (some (b ∷ bs)) (some c)
            ≡ exactly uint16_max n (record c { max_concurrent_streams = n }))
        × (set_max_connections atoi64 atoui64 (some (b ∷ bs)) (some c)
            ≡ exactly max_connections_max n (record c { max_connections = n }))
        × (set_handshake_timeout atoi64 atoui64 (some (b ∷ bs)) (some c)
            ≡ exactly handshake_timeout_max n (record c { handshake_timeout = n }))
        × (set_idle_timeout atoi64 atoui64 (some (b ∷ bs)) (some c)
            ≡ exactly idle_timeout_max n (record c { idle_timeout = n }))
        × (set_alt_svc_max_age atoi64 atoui64 (some (b ∷ bs)) (some c)
            ≡ exactly alt_svc_max_age_max n (record c { alt_svc_max_age = n }))
  unfolding set_port set_max_concurrent_streams set_max_connections set_handshake_timeout
      set_idle_timeout set_alt_svc_max_age
  conversions_exact e f = (
    numeric-exactly atoi64 _ b n bs c _ _ e (λ h. ground arith),
    numeric-exactly atoui64 _ b n bs c _ _ f (λ h. ground arith),
    numeric-exactly atoui64 _ b n bs c _ _ f (λ h. ground arith),
    numeric-exactly atoui64 _ b n bs c _ _ f (λ h. ground arith),
    numeric-exactly atoui64 _ b n bs c _ _ f (λ h. ground arith),
    numeric-exactly atoui64 _ b n bs c _ _ f (λ h. ground arith),
  )
