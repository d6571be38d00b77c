-- ===== src/Hooks.antt =====
-- The hooks of mod_http3/src/h3_hooks.c. What httpd knows of a request comes as a record; a number is
-- printed as `%d` and `%u` print it.
pub mod AltSvc
use mod_http3_stage.Prelude.{
  ℕ, zero, suc, ◌+◌, ◌/◌, ◌%◌, Bool, true, false, not, ◌&&◌, ◌||◌, Option, none, some, List, [],
  ◌∷◌, ◌++◌, ltb, ◌==◌, if◌then◌else◌, is_some,
}
use mod_http3_stage.Config.Defs.{Text, ServerConf, TriFlag, off}
use mod_http3_stage.State.{Stream}

-- The part of request_rec that the hooks read and set. `handler_is_status` is the strcmp with
-- "http3-status", `stream` the stream of `request_config`, and `h3_filters` counts the filters added.
pub record Request : Type 0 where
  pub is_h3 : Bool
  pub is_initial : Bool
  pub has_main : Bool
  pub https : Bool
  pub alt_svc : Option Text
  pub proto_num : ℕ
  pub stream : Option Stream
  pub handler_is_status : Bool
  pub is_get : Bool
  pub h3_filters : ℕ

-- DECLINED, OK, HTTP_REQUEST_ENTITY_TOO_LARGE and HTTP_BAD_REQUEST
pub data Answer : Type 0 where
  declined ok entity_too_large bad_request : Answer

-- whether the scheme is "https"
pub http_scheme : Request → Bool
http_scheme r = r.is_h3

-- APR_URI_HTTPS_DEFAULT_PORT
pub default_port : Request → ℕ
default_port r = if r.is_h3 then 443 else 0

pub ssl_conn_is_ssl : Bool → Answer
ssl_conn_is_ssl is_h3_conn = if is_h3_conn then ok else declined

-- The decimal digits of a number, before the rest; ten digits hold every apr_uint32_t.
pub digits_loop : ℕ → ℕ → Text → Text
digits_loop zero n rest = rest
digits_loop (suc fuel) n rest = elim (ltb n 10) [
  | true ↦ (48 + n) ∷ rest
  | false ↦ digits_loop fuel (n / 10) ((48 + n % 10) ∷ rest)
]

pub digits : ℕ → Text → Text
unfolding digits_loop
digits n rest = digits_loop 10 n rest

-- "h3=\":", "\"; ma=" and "; persist=1"
abbrev pub h3_is : Text
h3_is = b'h' ∷ b'3' ∷ b'=' ∷ b'"' ∷ b':' ∷ []

abbrev pub ma_is : Text
ma_is = b'"' ∷ b';' ∷ b' ' ∷ b'm' ∷ b'a' ∷ b'=' ∷ []

abbrev pub persists : Text
persists = b';' ∷ b' ' ∷ b'p' ∷ b'e' ∷ b'r' ∷ b's' ∷ b'i' ∷ b's' ∷ b't' ∷ b'=' ∷ b'1' ∷ []

-- `apr_psprintf` of the header
pub alt_svc_value : ℕ → ℕ → Text
unfolding digits
alt_svc_value port max_age = h3_is ++ digits port (ma_is ++ digits max_age persists)

abbrev pub is_off : TriFlag → Bool
is_off off = true
is_off _ = false

-- `!conf || !conf->h3_cert_path || !conf->h3_key_path || conf->h3_port == 0`
unfoldable pub lacks_listener : ServerConf → Bool
lacks_listener conf = not (is_some conf.cert_path) || not (is_some conf.key_path) || conf.port == 0

-- h3_hook_fixups
pub fixups : Option ServerConf → Request → Request × Answer
unfolding lacks_listener alt_svc_value
fixups conf r =
    if not r.is_initial
    then (r, declined)
    else let r' = if r.is_h3 then record r { https = true } else r in
      elim conf [
        | none ↦ (r', declined)
        | some c ↦
            if lacks_listener c
            then (r', declined)
            else if is_off c.alt_svc
            then (r', declined)
            else if is_some r'.alt_svc
            then (r', declined)
            else (record r' { alt_svc = some (alt_svc_value c.port c.alt_svc_max_age) }, ok)
      ]

-- h3_hook_post_read_request; HTTP_VERSION(3, 0) is 3000
pub post_read_request : Request → Request × Answer
post_read_request r = if r.is_h3 then (record r { proto_num = 3000 }, ok) else (r, declined)

-- h3_hook_access_checker
pub access_checker : Request → Answer
access_checker r = if not r.is_h3 then declined else elim r.stream [
  | none ↦ ok
  | some s ↦
      if s.body.overflow then entity_too_large else if s.body_truncated then bad_request else ok
]

-- h3_hook_http_create_request: three filters
pub http_create_request : Request → Request × Answer
http_create_request r =
    if not r.is_h3 || r.has_main
    then (r, declined)
    else (record r { h3_filters = r.h3_filters + 3 }, ok)

-- What the status page shows: an error, or the five counters.
pub data Page : Type 0 where
  not_enabled : Page
  counters : (live conns streams bytes_in bytes_out : ℕ) → Page

-- h3_status_handler; the page of `child_h3_io` comes as an argument, if there is one
pub status_handler : Request → Option Page → Option Page × Answer
status_handler r child =
    if not r.handler_is_status
    then (none, declined)
    else if not r.is_get
    then (none, declined)
    else elim child [ none ↦ (some not_enabled, ok) | some page ↦ (some page, ok) ]
