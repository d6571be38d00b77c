-- ===== src/Tests/Configs.antt =====
-- The theorems on the configuration, on a small configuration file and three servers.
use mod_http3_stage.Prelude.{map, ◌≡◌, refl, Bool, true, false, some, List, [], ◌∷◌, ◌++◌, arith}
use mod_http3_stage.Config.Defs.{Text, off, ServerConf, create_server_config}
use mod_http3_stage.Config.Directives.{
  Parsed, einval, value, stored, Directive, numeric, accept_number, store, set_port,
  set_max_connections, set_alt_svc, run_directive, configure,
}
use mod_http3_stage.Config.Directives.Range.{IsInRange, configure-IsInRange}
use mod_http3_stage.Config.Merge.{merge_server_config}
use mod_http3_stage.Config.Merge.Nearest.{
  Setting, h3_max_connections, setting, last_set, merge_chain, merge_chain_nearest,
}
use mod_http3_stage.Config.Resolve.{
  Vhost, has_key_pair, ok, get_server_port, default_to, post_config,
}
use mod_http3_stage.Config.Resolve.Inherited.{documented, post_config_inherits}
use mod_http3_stage.Config.Resolve.Chosen.{IsResolved, post_config_chosen}

-- A parser that reads the first byte as the number.
abbrev parser : Text → Parsed
parser [] = einval
parser (b ∷ bs) = value b

abbrev lines : List Directive
lines =
    Directive.port (some (8 ∷ []))
    ∷ Directive.max_connections (some (20 ∷ []))
    ∷ Directive.alt_svc false
    ∷ []

abbrev small : ServerConf
small = record create_server_config { port = 8; max_connections = 20; alt_svc = off }

abbrev keyed : ServerConf
keyed = record small { cert_path = some (1 ∷ []); key_path = some (2 ∷ []) }

abbrev plain_host : Vhost
plain_host = record { addrs = 80 ∷ []; conf = create_server_config }

abbrev keyed_host : Vhost
keyed_host = record { addrs = 0 ∷ 443 ∷ []; conf = keyed }

abbrev readable : Text → Bool
readable path = true

fresh-IsInRange : IsInRange create_server_config
fresh-IsInRange = record {
  port = omega arith;
  streams = omega arith;
  connections = omega arith;
  buffer = omega arith;
  request = omega arith;
  response = omega arith;
  max_age = omega arith;
  handshake = omega arith;
  idle = omega arith;
}

small-IsInRange : IsInRange small
small-IsInRange = record {
  port = omega arith;
  streams = omega arith;
  connections = omega arith;
  buffer = omega arith;
  request = omega arith;
  response = omega arith;
  max_age = omega arith;
  handshake = omega arith;
  idle = omega arith;
}

keyed-IsInRange : IsInRange keyed
keyed-IsInRange = record {
  port = omega arith;
  streams = omega arith;
  connections = omega arith;
  buffer = omega arith;
  request = omega arith;
  response = omega arith;
  max_age = omega arith;
  handshake = omega arith;
  idle = omega arith;
}

plain_lem : has_key_pair create_server_config ≡ false
unfolding has_key_pair
plain_lem = refl

lines_stored : configure parser parser lines create_server_config ≡ stored small
unfolding configure run_directive set_port set_max_connections set_alt_svc numeric accept_number
    store
lines_stored = refl

configure-IsInRange_example : IsInRange small
configure-IsInRange_example =
    configure-IsInRange parser parser lines create_server_config small fresh-IsInRange lines_stored

merge_chain_nearest_example :
    setting h3_max_connections (merge_chain small (keyed ∷ create_server_config ∷ []))
    ≡ last_set (map (setting h3_max_connections) (small ∷ keyed ∷ create_server_config ∷ []))
merge_chain_nearest_example =
    merge_chain_nearest h3_max_connections small (keyed ∷ create_server_config ∷ [])

post_config_chosen_example :
    (c : ServerConf) × (post_config false readable
        ((plain_host ∷ []) ++ keyed_host ∷ plain_host ∷ [])
      ≡ ((plain_host ∷ []) ++ record keyed_host { conf = c } ∷ plain_host ∷ [], ok))
    × IsResolved c
    × (c.host_port ≡ get_server_port (0 ∷ 443 ∷ []))
    × (c.port ≡ default_to (get_server_port (0 ∷ 443 ∷ [])) 8)
post_config_chosen_example =
    post_config_chosen readable (plain_host ∷ []) (plain_host ∷ []) keyed_host (1 ∷ []) (2 ∷ [])
      (plain_lem, tt) refl refl keyed-IsInRange

chain_keyed : has_key_pair (merge_chain small (keyed ∷ [])) ≡ true
unfolding has_key_pair merge_chain merge_server_config
chain_keyed = refl

post_config_inherits_example :
    (c : ServerConf) × ((post_config false readable
        (record { addrs = 443 ∷ []; conf = merge_chain small (keyed ∷ []) } ∷ plain_host ∷ [])).0
      ≡ record { addrs = 443 ∷ []; conf = c } ∷ plain_host ∷ [])
    × ((k : Setting)
        → setting k c ≡ last_set (documented (443 ∷ []) k ∷ map (setting k) (small ∷ keyed ∷ [])))
post_config_inherits_example =
    post_config_inherits readable small (keyed ∷ []) (443 ∷ []) (plain_host ∷ []) chain_keyed
