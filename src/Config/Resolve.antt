-- ===== src/Config/Resolve.antt =====
-- get_server_port and h3_post_config of mod_http3/src/h3_config.c.
pub mod Chosen
pub mod Inherited
use mod_http3_stage.Prelude.{
  ℕ, zero, suc, Bool, true, false, Option, none, some, List, [], ◌∷◌, ◌==◌, if◌then◌else◌, is_some,
  ◌&&◌,
}
use mod_http3_stage.Config.Defs.{
  Text, TriFlag, unset, on, off, ServerConf, max_concurrent_streams_default,
  max_connections_default, stream_buffer_size_default, max_request_body_size_default,
  max_response_body_size_default, alt_svc_max_age_default, handshake_timeout_default,
  idle_timeout_default,
}

-- The part of a `server_rec` that the module reads: the ports of its addresses and its own record.
pub record Vhost : Type 0 where
  pub addrs : List ℕ
  pub conf : ServerConf

pub get_server_port : List ℕ → ℕ
get_server_port [] = 0
get_server_port (zero ∷ sar) = get_server_port sar
get_server_port (suc port ∷ sar) = suc port

-- `if (field == 0) field = fallback;`
abbrev pub default_to : ℕ → ℕ → ℕ
default_to fallback zero = fallback
default_to fallback (suc n) = suc n

abbrev pub default_on : TriFlag → TriFlag
default_on unset = on
default_on on = on
default_on off = off

-- `vc->h3_cert_path && vc->h3_key_path`
unfoldable pub has_key_pair : ServerConf → Bool
has_key_pair c = is_some c.cert_path && is_some c.key_path

-- the body of the loop of h3_post_config, for the server that has a key pair
pub fill_defaults : List ℕ → ServerConf → ServerConf
fill_defaults addrs vc = record {
  host_port = get_server_port addrs;
  cert_path = vc.cert_path;
  key_path = vc.key_path;
  port = default_to (get_server_port addrs) vc.port;
  max_concurrent_streams = default_to max_concurrent_streams_default vc.max_concurrent_streams;
  max_connections = default_to max_connections_default vc.max_connections;
  stream_buffer_size = default_to stream_buffer_size_default vc.stream_buffer_size;
  max_request_body_size = default_to max_request_body_size_default vc.max_request_body_size;
  max_response_body_size = default_to max_response_body_size_default vc.max_response_body_size;
  alt_svc = default_on vc.alt_svc;
  address_validation = default_on vc.address_validation;
  alt_svc_max_age = default_to alt_svc_max_age_default vc.alt_svc_max_age;
  handshake_timeout = default_to handshake_timeout_default vc.handshake_timeout;
  idle_timeout = default_to idle_timeout_default vc.idle_timeout;
}

-- The loop: the servers after it, and the record that `conf` points to.
pub resolve_first : List Vhost → List Vhost × Option ServerConf
resolve_first [] = ([], none)
resolve_first (v ∷ vs) = elim (has_key_pair v.conf) [
  | true ↦ let vc = fill_defaults v.addrs v.conf in (record v { conf = vc } ∷ vs, some vc)
  | false ↦ let (rest, conf) = resolve_first vs in (v ∷ rest, conf)
]

-- OK, HTTP_INTERNAL_SERVER_ERROR, and abort()
pub data PostConfig : Type 0 where
  ok internal_server_error aborted : PostConfig

-- the tests that both files can be opened; `readable` is `apr_file_open`
pub check_files : (Text → Bool) → Option Text → Option Text → PostConfig
check_files readable none key = internal_server_error
check_files readable (some cert) none = internal_server_error
check_files readable (some cert) (some key) =
    if readable cert
    then (if readable key then ok else internal_server_error)
    else internal_server_error

-- CHECK(conf && conf->h3_cert_path && conf->h3_key_path, return HTTP_INTERNAL_SERVER_ERROR;)
pub check_conf : (Text → Bool) → Option ServerConf → PostConfig
check_conf readable none = internal_server_error
check_conf readable (some conf) = check_files readable conf.cert_path conf.key_path

-- `pre_config` is the answer AP_SQ_MS_CREATE_PRE_CONFIG of `ap_state_query`. The list of servers is
-- `s` with its `next` pointers; CHECK(s) aborts where there is none.
pub post_config : Bool → (Text → Bool) → List Vhost → List Vhost × PostConfig
post_config pre_config readable [] = ([], aborted)
post_config true readable (v ∷ vs) = (v ∷ vs, ok)
post_config false readable (v ∷ vs) =
    let (servers, conf) = resolve_first (v ∷ vs) in (servers, check_conf readable conf)
