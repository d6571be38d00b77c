-- ===== src/Config/Directives.antt =====
-- The directive handlers of mod_http3/src/h3_config.c and the command table `h3_cmds`.
-- `apr_cstr_atoi64` and `apr_cstr_atoui64` belong to APR and are parameters; a message is the kind
-- of complaint that the handler formats. `conf` is what `ap_get_module_config` returns.
pub mod Range
use mod_http3_stage.Prelude.{
  ℕ, ◌%◌, ◌^◌, Bool, ◌||◌, Option, none, some, List, [], ◌∷◌, ltb, ◌==◌, if◌then◌else◌,
}
use mod_http3_stage.Config.Defs.{
  Text, on, off, ServerConf, uint16_max, max_connections_max, stream_buffer_size_max,
  max_request_body_size_max, max_response_body_size_max, alt_svc_max_age_max, handshake_timeout_max,
  idle_timeout_max,
}

-- What a number parser of APR reports: APR_EINVAL, APR_ERANGE, or the value. A negative value, which
-- only the signed parser returns, carries its magnitude.
pub data Parsed : Type 0 where
  einval : Parsed
  erange : Parsed
  value : ℕ → Parsed
  negative : ℕ → Parsed

-- The message that a handler returns.
pub data Complaint : Type 0 where
  empty_value not_a_number not_representable no_server_config : Complaint
  out_of_allowed_range : ℕ → Complaint

-- `aborted` is the CHECK that `conf` is there.
pub data Outcome : Type 0 where
  stored : ServerConf → Outcome
  refused : Complaint → Outcome
  aborted : Outcome

-- Only after a directive that was stored does httpd go on.
abbrev pub and_then : Outcome → (ServerConf → Outcome) → Outcome
and_then (stored conf) next = next conf
and_then (refused why) next = refused why
and_then aborted next = aborted

-- CHECK(conf), then the assignment
unfoldable pub store : Option ServerConf → (ServerConf → ServerConf) → Outcome
store none assign = aborted
store (some conf) assign = stored (assign conf)

set_string : Option ServerConf → (ServerConf → ServerConf) → Outcome
set_string none assign = refused no_server_config
set_string (some conf) assign = stored (assign conf)

pub set_cert_path : Text → Option ServerConf → Outcome
unfolding set_string
set_cert_path arg conf = set_string conf (λ c. record c { cert_path = some arg })

pub set_key_path : Text → Option ServerConf → Outcome
unfolding set_string
set_key_path arg conf = set_string conf (λ c. record c { key_path = some arg })

-- The tests of a handler on the parser's answer, its upper limit being `limit`.
unfoldable pub accept_number :
    ℕ → Parsed → Option ServerConf → (ℕ → ServerConf → ServerConf) → Outcome
unfolding store
accept_number limit einval conf assign = refused not_a_number
accept_number limit erange conf assign = refused not_representable
accept_number limit (negative n) conf assign = refused (out_of_allowed_range limit)
accept_number limit (value n) conf assign =
    if n == 0 || ltb limit n then refused (out_of_allowed_range limit) else store conf (assign n)

-- `!arg || !*arg`
unfoldable pub numeric :
    (Text → Parsed) → ℕ → Option Text → Option ServerConf → (ℕ → ServerConf → ServerConf) → Outcome
unfolding accept_number
numeric parse limit none conf assign = refused empty_value
numeric parse limit (some []) conf assign = refused empty_value
numeric parse limit (some (c ∷ cs)) conf assign = accept_number limit (parse (c ∷ cs)) conf assign

-- A conversion to `apr_port_t`, and to `apr_uint32_t`.
abbrev pub to_port : ℕ → ℕ
to_port n = n % 2 ^ 16

abbrev pub to_u32 : ℕ → ℕ
to_u32 n = n % 2 ^ 32

module _ (atoi64 atoui64 : Text → Parsed) where
  unfoldable pub set_port : Option Text → Option ServerConf → Outcome
  unfolding numeric
  set_port arg conf = numeric atoi64 65535 arg conf (λ n c. record c { port = to_port n })

  pub set_max_concurrent_streams : Option Text → Option ServerConf → Outcome
  unfolding numeric
  set_max_concurrent_streams arg conf =
      numeric atoui64 uint16_max arg conf (λ n c. record c { max_concurrent_streams = to_u32 n })

  unfoldable pub set_max_connections : Option Text → Option ServerConf → Outcome
  unfolding numeric
  set_max_connections arg conf =
      numeric atoui64 max_connections_max arg conf (λ n c. record c { max_connections = to_u32 n })

  pub set_stream_buffer_size : Option Text → Option ServerConf → Outcome
  unfolding numeric
  set_stream_buffer_size arg conf =
      numeric atoui64 stream_buffer_size_max arg conf (λ n c. record c { stream_buffer_size = n })

  pub set_max_request_body_size : Option Text → Option ServerConf → Outcome
  unfolding numeric
  set_max_request_body_size arg conf =
      numeric atoui64 max_request_body_size_max arg conf
        (λ n c. record c { max_request_body_size = n })

  pub set_max_response_body_size : Option Text → Option ServerConf → Outcome
  unfolding numeric
  set_max_response_body_size arg conf =
      numeric atoui64 max_response_body_size_max arg conf
        (λ n c. record c { max_response_body_size = n })

  pub set_handshake_timeout : Option Text → Option ServerConf → Outcome
  unfolding numeric
  set_handshake_timeout arg conf =
      numeric atoui64 handshake_timeout_max arg conf
        (λ n c. record c { handshake_timeout = to_u32 n })

  pub set_idle_timeout : Option Text → Option ServerConf → Outcome
  unfolding numeric
  set_idle_timeout arg conf =
      numeric atoui64 idle_timeout_max arg conf (λ n c. record c { idle_timeout = to_u32 n })

  unfoldable pub set_alt_svc : Bool → Option ServerConf → Outcome
  unfolding store
  set_alt_svc flag conf = store conf (λ c. record c { alt_svc = if flag then on else off })

  pub set_address_validation : Bool → Option ServerConf → Outcome
  unfolding store
  set_address_validation flag conf =
      store conf (λ c. record c { address_validation = if flag then on else off })

  pub set_alt_svc_max_age : Option Text → Option ServerConf → Outcome
  unfolding numeric
  set_alt_svc_max_age arg conf =
      numeric atoui64 alt_svc_max_age_max arg conf (λ n c. record c { alt_svc_max_age = to_u32 n })

-- A line of the configuration file, by the entries of `h3_cmds`.
pub data Directive : Type 0 where
  certificate_path certificate_key_path : Text → Directive
  port max_concurrent_streams max_connections stream_buffer_size : Option Text → Directive
  max_request_body_size alt_svc_max_age handshake_timeout : Option Text → Directive
  idle_timeout max_response_body_size : Option Text → Directive
  alt_svc address_validation : Bool → Directive

module _ (atoi64 atoui64 : Text → Parsed) where
  -- the handler that `h3_cmds` names for the line
  unfoldable pub run_directive : Directive → Option ServerConf → Outcome
  run_directive (certificate_path arg) = set_cert_path arg
  run_directive (certificate_key_path arg) = set_key_path arg
  run_directive (port arg) = set_port atoi64 atoui64 arg
  run_directive (max_concurrent_streams arg) = set_max_concurrent_streams atoi64 atoui64 arg
  run_directive (max_connections arg) = set_max_connections atoi64 atoui64 arg
  run_directive (stream_buffer_size arg) = set_stream_buffer_size atoi64 atoui64 arg
  run_directive (max_request_body_size arg) = set_max_request_body_size atoi64 atoui64 arg
  run_directive (alt_svc flag) = set_alt_svc atoi64 atoui64 flag
  run_directive (alt_svc_max_age arg) = set_alt_svc_max_age atoi64 atoui64 arg
  run_directive (handshake_timeout arg) = set_handshake_timeout atoi64 atoui64 arg
  run_directive (idle_timeout arg) = set_idle_timeout atoi64 atoui64 arg
  run_directive (max_response_body_size arg) = set_max_response_body_size atoi64 atoui64 arg
  run_directive (address_validation flag) = set_address_validation atoi64 atoui64 flag

  -- httpd runs the directives of a server in order and stops at the first that is refused.
  unfoldable pub configure : List Directive → ServerConf → Outcome
  configure [] conf = stored conf
  configure (d ∷ ds) conf = and_then (run_directive d (some conf)) (configure ds)
