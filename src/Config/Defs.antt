-- ===== src/Config/Defs.antt =====
-- The configuration record of mod_http3/include/h3_config.h and the limits of
-- mod_http3/include/h3.h. A `NULL` string is `none`; text is the list of its bytes.
use mod_http3_stage.Prelude.{ℕ, ◌-◌, ◌*◌, ◌^◌, Option, none, List}

abbrev pub Text : Type 0
Text = List ℕ

-- h3_tri_flag
pub data TriFlag : Type 0 where
  unset on off : TriFlag

pub record ServerConf : Type 0 where
  pub host_port : ℕ
  pub cert_path : Option Text
  pub key_path : Option Text
  pub port : ℕ
  pub max_concurrent_streams : ℕ
  pub max_connections : ℕ
  pub stream_buffer_size : ℕ
  pub max_request_body_size : ℕ
  pub max_response_body_size : ℕ
  pub alt_svc : TriFlag
  pub address_validation : TriFlag
  pub alt_svc_max_age : ℕ
  pub handshake_timeout : ℕ
  pub idle_timeout : ℕ

-- h3_create_server_config: `apr_pcalloc` leaves every field zero
abbrev pub create_server_config : ServerConf
create_server_config = record {
  host_port = 0;
  cert_path = none;
  key_path = none;
  port = 0;
  max_concurrent_streams = 0;
  max_connections = 0;
  stream_buffer_size = 0;
  max_request_body_size = 0;
  max_response_body_size = 0;
  alt_svc = unset;
  address_validation = unset;
  alt_svc_max_age = 0;
  handshake_timeout = 0;
  idle_timeout = 0;
}

abbrev pub max_concurrent_streams_default : ℕ
max_concurrent_streams_default = 100

-- UINT16_MAX, the bound that the directive tests
abbrev pub uint16_max : ℕ
uint16_max = 65535

-- H3_MAX_CONCURRENT_STREAMS_MAX, which no code reads
abbrev pub max_concurrent_streams_max : ℕ
max_concurrent_streams_max = 1000

abbrev pub max_connections_default : ℕ
max_connections_default = 256

abbrev pub max_connections_max : ℕ
max_connections_max = 10000

abbrev pub stream_buffer_size_default : ℕ
stream_buffer_size_default = 64 * 1024

abbrev pub stream_buffer_size_max : ℕ
stream_buffer_size_max = 1024 * 1024

abbrev pub max_request_body_size_default : ℕ
max_request_body_size_default = 10 * 1024 * 1024

abbrev pub max_request_body_size_max : ℕ
max_request_body_size_max = 1024 * 1024 * 1024

-- (apr_size_t)-1
abbrev pub max_response_body_size_default : ℕ
max_response_body_size_default = 2 ^ 64 - 1

abbrev pub max_response_body_size_max : ℕ
max_response_body_size_max = 2 * 1024 * 1024 * 1024

abbrev pub alt_svc_max_age_default : ℕ
alt_svc_max_age_default = 86400

abbrev pub alt_svc_max_age_max : ℕ
alt_svc_max_age_max = 7 * 24 * 3600

abbrev pub handshake_timeout_default : ℕ
handshake_timeout_default = 10

abbrev pub handshake_timeout_max : ℕ
handshake_timeout_max = 600

abbrev pub idle_timeout_default : ℕ
idle_timeout_default = 300

abbrev pub idle_timeout_max : ℕ
idle_timeout_max = 86400

-- H3_BODY_BUF_INIT_CAP
abbrev pub body_buf_init_cap : ℕ
body_buf_init_cap = 8 * 1024

-- STREAM_CHUNK_BYTES
abbrev pub stream_chunk_bytes : ℕ
stream_chunk_bytes = 4 * 1024
