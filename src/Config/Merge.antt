-- ===== src/Config/Merge.antt =====
-- h3_merge_server_config of mod_http3/src/h3_config.c.
pub mod Laws
pub mod Nearest
use mod_http3_stage.Prelude.{ℕ, zero, suc, Option, none, some}
use mod_http3_stage.Config.Defs.{TriFlag, unset, on, off, ServerConf}

-- `new ? new : base`, for a number, a string and a flag
abbrev pub pick : ℕ → ℕ → ℕ
pick zero base = base
pick (suc n) base = suc n

abbrev pub pick_string {ℓ} : {A : Type ℓ} → Option A → Option A → Option A
pick_string none base = base
pick_string (some s) base = some s

abbrev pub pick_flag : TriFlag → TriFlag → TriFlag
pick_flag unset base = base
pick_flag on base = on
pick_flag off base = off

-- `host_port` is not copied: the merged record comes from `apr_pcalloc`.
unfoldable pub merge_server_config : ServerConf → ServerConf → ServerConf
merge_server_config base new = record {
  host_port = 0;
  cert_path = pick_string new.cert_path base.cert_path;
  key_path = pick_string new.key_path base.key_path;
  port = pick new.port base.port;
  max_concurrent_streams = pick new.max_concurrent_streams base.max_concurrent_streams;
  max_connections = pick new.max_connections base.max_connections;
  stream_buffer_size = pick new.stream_buffer_size base.stream_buffer_size;
  max_request_body_size = pick new.max_request_body_size base.max_request_body_size;
  max_response_body_size = pick new.max_response_body_size base.max_response_body_size;
  alt_svc = pick_flag new.alt_svc base.alt_svc;
  address_validation = pick_flag new.address_validation base.address_validation;
  alt_svc_max_age = pick new.alt_svc_max_age base.alt_svc_max_age;
  handshake_timeout = pick new.handshake_timeout base.handshake_timeout;
  idle_timeout = pick new.idle_timeout base.idle_timeout;
}
