-- ===== src/Config/Resolve/Inherited.antt =====
-- What h3_post_config makes of the settings that the servers give.
use mod_http3_stage.Prelude.{
  ℕ, zero, suc, ◌-◌, ◌^◌, ◌≡◌, ◌∙◌, refl, ap, Bool, true, false, none, some, Option, List, [], ◌∷◌,
  map,
}
use mod_http3_stage.Config.Defs.{Text, TriFlag, unset, on, off, ServerConf}
use mod_http3_stage.Config.Merge.Nearest.{
  Setting, h3_cert_path, h3_key_path, h3_port, h3_max_concurrent_streams, h3_max_connections,
  h3_stream_buffer_size, h3_max_request_body_size, h3_max_response_body_size, h3_alt_svc,
  h3_address_validation, h3_alt_svc_max_age, h3_handshake_timeout, h3_idle_timeout, Value, number,
  flag, number_of, flag_of, setting, later, last_set, merge_chain, merge_chain_nearest,
}
use mod_http3_stage.Config.Resolve.{
  Vhost, get_server_port, default_to, default_on, has_key_pair, fill_defaults, post_config,
}
use mod_http3_stage.Config.Resolve.Chosen.{resolve_first_skip}

-- The defaults that docs/configuration_httpd.md gives. "unlimited" is the largest `size_t`.
pub documented : List ℕ → Setting → Option Value
documented addrs h3_cert_path = none
documented addrs h3_key_path = none
documented addrs h3_port = number_of (get_server_port addrs)
documented addrs h3_max_concurrent_streams = some (number 100)
documented addrs h3_max_connections = some (number 256)
documented addrs h3_stream_buffer_size = some (number 65536)
documented addrs h3_max_request_body_size = some (number 10485760)
documented addrs h3_max_response_body_size = some (number (2 ^ 64 - 1))
documented addrs h3_alt_svc = some (flag true)
documented addrs h3_address_validation = some (flag true)
documented addrs h3_alt_svc_max_age = some (number 86400)
documented addrs h3_handshake_timeout = some (number 10)
documented addrs h3_idle_timeout = some (number 300)

number_default : (d n : ℕ) → number_of (default_to d n) ≡ last_set (number_of d ∷ number_of n ∷ [])
number_default d zero = refl
number_default d (suc n) = refl

flag_default : (f : TriFlag) → flag_of (default_on f) ≡ last_set (some (flag true) ∷ flag_of f ∷ [])
flag_default unset = refl
flag_default on = refl
flag_default off = refl

given : (o : Option Value) → o ≡ last_set (none ∷ o ∷ [])
given none = refl
given (some v) = refl

fill_setting :
    (k : Setting) (addrs : List ℕ) (c : ServerConf)
    → setting k (fill_defaults addrs c) ≡ last_set (documented addrs k ∷ setting k c ∷ [])
unfolding fill_defaults documented
fill_setting h3_cert_path addrs c = given (setting h3_cert_path c)
fill_setting h3_key_path addrs c = given (setting h3_key_path c)
fill_setting h3_port addrs c = number_default (get_server_port addrs) c.port
fill_setting h3_max_concurrent_streams addrs c = number_default 100 c.max_concurrent_streams
fill_setting h3_max_connections addrs c = number_default 256 c.max_connections
fill_setting h3_stream_buffer_size addrs c = number_default 65536 c.stream_buffer_size
fill_setting h3_max_request_body_size addrs c = number_default 10485760 c.max_request_body_size
fill_setting h3_max_response_body_size addrs c =
    number_default (2 ^ 64 - 1) c.max_response_body_size
fill_setting h3_alt_svc addrs c = flag_default c.alt_svc
fill_setting h3_address_validation addrs c = flag_default c.address_validation
fill_setting h3_alt_svc_max_age addrs c = number_default 86400 c.alt_svc_max_age
fill_setting h3_handshake_timeout addrs c = number_default 10 c.handshake_timeout
fill_setting h3_idle_timeout addrs c = number_default 300 c.idle_timeout

-- Outside the pre-config pass, let the first server have a key pair, and let its record have been merged
-- from those of any servers, the outermost first. Then h3_post_config leaves the other servers as they
-- are, and each setting of the record of this one has the value of the innermost server that gives it,
-- or the documented default if none does.
pub post_config_inherits :
    (readable : Text → Bool) (base : ServerConf) (levels : List ServerConf) (addrs : List ℕ)
    (vs : List Vhost)
    → has_key_pair (merge_chain base levels) ≡ true
    → (c : ServerConf) × ((post_config false readable
          (record { addrs = addrs; conf = merge_chain base levels } ∷ vs)).0
        ≡ record { addrs = addrs; conf = c } ∷ vs)
      × ((k : Setting)
          → setting k c ≡ last_set (documented addrs k ∷ map (setting k) (base ∷ levels)))
unfolding post_config
post_config_inherits readable base levels addrs vs h =
    let conf = merge_chain base levels in
    (
      fill_defaults addrs conf,
      ap (λ r. r.0) (resolve_first_skip [] (record { addrs = addrs; conf = conf }) vs tt h),
      λ k.
          fill_setting k addrs conf
          ∙ ap (later (documented addrs k)) (merge_chain_nearest k base levels),
    )
