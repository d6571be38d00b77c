-- ===== src/Config/Resolve/Chosen.antt =====
-- The server that h3_post_config of mod_http3/src/h3_config.c resolves, and the record that it leaves there.
use mod_http3_stage.Prelude.{
  ℕ, zero, suc, ◌≤◌, ◌<◌, ◌≡◌, ◌≢◌, refl, Bool, true, false, none, some, List, [], ◌∷◌, ◌++◌, arith,
  if◌then◌else◌, ◌&&◌,
}
use mod_http3_stage.Config.Defs.{
  Text, TriFlag, unset, on, off, ServerConf, uint16_max, max_connections_max,
  stream_buffer_size_max, max_request_body_size_max, max_response_body_size_default,
  alt_svc_max_age_max, handshake_timeout_max, idle_timeout_max,
}
use mod_http3_stage.Config.Directives.Range.{IsInRange}
use mod_http3_stage.Config.Resolve.{
  Vhost, get_server_port, default_to, default_on, has_key_pair, fill_defaults, resolve_first, ok,
  internal_server_error, check_files, check_conf, post_config,
}

-- What the rest of the module relies on: every limit is positive and at most its maximum, or is the
-- value that stands for no limit; the flags are decided.
pub record IsResolved (c : ServerConf) : Type 0 where
  pub key_pair : has_key_pair c ≡ true
  pub streams : (0 < c.max_concurrent_streams) × (c.max_concurrent_streams ≤ uint16_max)
  pub connections : (0 < c.max_connections) × (c.max_connections ≤ max_connections_max)
  pub buffer : (0 < c.stream_buffer_size) × (c.stream_buffer_size ≤ stream_buffer_size_max)
  pub request :
      (0 < c.max_request_body_size) × (c.max_request_body_size ≤ max_request_body_size_max)
  pub response :
      (0 < c.max_response_body_size) × (c.max_response_body_size ≤ max_response_body_size_default)
  pub max_age : (0 < c.alt_svc_max_age) × (c.alt_svc_max_age ≤ alt_svc_max_age_max)
  pub handshake : (0 < c.handshake_timeout) × (c.handshake_timeout ≤ handshake_timeout_max)
  pub idle : (0 < c.idle_timeout) × (c.idle_timeout ≤ idle_timeout_max)
  pub alt_svc_set : c.alt_svc ≢ unset
  pub validation_set : c.address_validation ≢ unset

default_to_bounds :
    (d n m : ℕ) → 0 < d → d ≤ m → n ≤ m → (0 < default_to d n) × (default_to d n ≤ m)
default_to_bounds d zero m p q r = (p, q)
default_to_bounds d (suc n) m p q r = (omega arith, r)

default_on-ne-unset : (f : TriFlag) → default_on f ≢ unset
default_on-ne-unset unset = λ e. cc
default_on-ne-unset on = λ e. cc
default_on-ne-unset off = λ e. cc

fill_defaults-IsResolved :
    (addrs : List ℕ) (c : ServerConf)
    → has_key_pair c ≡ true
    → IsInRange c
    → IsResolved (fill_defaults addrs c)
unfolding fill_defaults has_key_pair
fill_defaults-IsResolved addrs c k h = record {
  key_pair = k;
  streams = default_to_bounds _ _ _ (omega arith) (omega arith) h.streams;
  connections = default_to_bounds _ _ _ (omega arith) (omega arith) h.connections;
  buffer = default_to_bounds _ _ _ (omega arith) (omega arith) h.buffer;
  request = default_to_bounds _ _ _ (omega arith) (omega arith) h.request;
  response =
      default_to_bounds max_response_body_size_default c.max_response_body_size
        max_response_body_size_default (omega arith) (omega arith) (omega (arith, h.response));
  max_age = default_to_bounds _ _ _ (omega arith) (omega arith) h.max_age;
  handshake = default_to_bounds _ _ _ (omega arith) (omega arith) h.handshake;
  idle = default_to_bounds _ _ _ (omega arith) (omega arith) h.idle;
  alt_svc_set = default_on-ne-unset c.alt_svc;
  validation_set = default_on-ne-unset c.address_validation;
}

-- None of the servers has a key pair.
abbrev pub NoKeyPair : List Vhost → Type 0
NoKeyPair [] = Unit
NoKeyPair (v ∷ vs) = (has_key_pair v.conf ≡ false) × NoKeyPair vs

pub resolve_first_skip :
    (before : List Vhost) (v : Vhost) (after : List Vhost)
    → NoKeyPair before
    → has_key_pair v.conf ≡ true
    → resolve_first (before ++ v ∷ after) ≡ (
      before ++ record v { conf = fill_defaults v.addrs v.conf } ∷ after,
      some (fill_defaults v.addrs v.conf),
    )
unfolding resolve_first
resolve_first_skip [] v after n k = rw (k, resolve_first)
resolve_first_skip (u ∷ us) v after n k =
    rw (n.0, resolve_first) (rw (resolve_first_skip us v after n.1 k))

resolve_first-none : (vs : List Vhost) → NoKeyPair vs → resolve_first vs ≡ (vs, none)
unfolding resolve_first
resolve_first-none [] n = refl
resolve_first-none (v ∷ vs) n = rw (n.0, resolve_first) (rw (resolve_first-none vs n.1))

has_key_pair_of :
    (c : ServerConf) {cert key : Text}
    → c.cert_path ≡ some cert
    → c.key_path ≡ some key
    → has_key_pair c ≡ true
unfolding has_key_pair
has_key_pair_of c p q = ground arith

check_conf_of :
    (readable : Text → Bool) (addrs : List ℕ) (c : ServerConf) {cert key : Text}
    → c.cert_path ≡ some cert
    → c.key_path ≡ some key
    → check_conf readable (some (fill_defaults addrs c))
      ≡ (if readable cert && readable key then ok else internal_server_error)
unfolding check_conf check_files fill_defaults
check_conf_of readable addrs c p q = ground arith

post_config_run :
    (readable : Text → Bool) (before after : List Vhost) (v : Vhost) (cert key : Text)
    → NoKeyPair before
    → v.conf.cert_path ≡ some cert
    → v.conf.key_path ≡ some key
    → post_config false readable (before ++ v ∷ after) ≡ (
      before ++ record v { conf = fill_defaults v.addrs v.conf } ∷ after,
      if readable cert && readable key then ok else internal_server_error,
    )
unfolding post_config
post_config_run readable [] after v cert key n p q =
    rw (resolve_first_skip [] v after n (has_key_pair_of v.conf p q))
      (rw (check_conf_of readable v.addrs v.conf p q))
post_config_run readable (u ∷ us) after v cert key n p q =
    rw (resolve_first_skip (u ∷ us) v after n (has_key_pair_of v.conf p q))
      (rw (check_conf_of readable v.addrs v.conf p q))

-- Outside the pre-config pass, when `v` is the first server with a key pair and its numbers are
-- within the limits of the directives, `h3_post_config` changes the record of `v` alone: it is
-- resolved (every limit positive and bounded, both flags decided), its `host_port` is the port of the
-- server, and its own port is kept or, where unset, taken from the server. It answers OK exactly when
-- both files can be read.
pub post_config_chosen :
    (readable : Text → Bool) (before after : List Vhost) (v : Vhost) (cert key : Text)
    → NoKeyPair before
    → v.conf.cert_path ≡ some cert
    → v.conf.key_path ≡ some key
    → IsInRange v.conf
    → (c : ServerConf) × (post_config false readable (before ++ v ∷ after) ≡ (
      before ++ record v { conf = c } ∷ after,
      if readable cert && readable key then ok else internal_server_error,
    ))
      × IsResolved c
      × (c.host_port ≡ get_server_port v.addrs)
      × (c.port ≡ default_to (get_server_port v.addrs) v.conf.port)
unfolding fill_defaults
post_config_chosen readable before after v cert key n p q r = (
  fill_defaults v.addrs v.conf,
  post_config_run readable before after v cert key n p q,
  fill_defaults-IsResolved v.addrs v.conf (has_key_pair_of v.conf p q) r,
  refl,
  refl,
)

-- With no key pair in any server it answers an internal server error and changes nothing.
pub post_config_unconfigured :
    (readable : Text → Bool) (v : Vhost) (vs : List Vhost)
    → NoKeyPair (v ∷ vs)
    → post_config false readable (v ∷ vs) ≡ (v ∷ vs, internal_server_error)
unfolding post_config check_conf
post_config_unconfigured readable v vs n = rw (resolve_first-none (v ∷ vs) n)
