-- ===== src/Config/Merge/Laws.antt =====
-- The algebra of h3_merge_server_config: inheritance along a chain of servers.
use mod_http3_stage.Prelude.{ℕ, zero, suc, ◌≤◌, ◌≡◌, refl, Option, none, some}
use mod_http3_stage.Config.Defs.{TriFlag, unset, on, off, ServerConf, create_server_config}
use mod_http3_stage.Config.Directives.Range.{IsInRange}
use mod_http3_stage.Config.Merge.{pick, pick_string, pick_flag, merge_server_config}

pick_zero : (a : ℕ) → pick a 0 ≡ a
pick_zero zero = refl
pick_zero (suc a) = refl

pick_string-none {ℓ} : {A : Type ℓ} (a : Option A) → pick_string a none ≡ a
pick_string-none none = refl
pick_string-none (some a) = refl

pick_flag_unset : (a : TriFlag) → pick_flag a unset ≡ a
pick_flag_unset unset = refl
pick_flag_unset on = refl
pick_flag_unset off = refl

pick-le : (a b n : ℕ) → a ≤ n → b ≤ n → pick a b ≤ n
pick-le zero b n p q = q
pick-le (suc a) b n p q = p

-- A fresh configuration is neutral on both sides, but that a merge resets `host_port`.
pub merge_fresh :
    (c : ServerConf)
    → (merge_server_config create_server_config c ≡ record c { host_port = 0 })
      × (merge_server_config c create_server_config ≡ record c { host_port = 0 })
unfolding merge_server_config
merge_fresh c = (simp (pick_zero, pick_string-none, pick_flag_unset), refl)

-- A merge of configurations within the limits of the directives is within them.
pub merge-IsInRange :
    (base new : ServerConf)
    → IsInRange base
    → IsInRange new
    → IsInRange (merge_server_config base new)
unfolding merge_server_config
merge-IsInRange base new b n = record {
  port = pick-le _ _ _ n.port b.port;
  streams = pick-le _ _ _ n.streams b.streams;
  connections = pick-le _ _ _ n.connections b.connections;
  buffer = pick-le _ _ _ n.buffer b.buffer;
  request = pick-le _ _ _ n.request b.request;
  response = pick-le _ _ _ n.response b.response;
  max_age = pick-le _ _ _ n.max_age b.max_age;
  handshake = pick-le _ _ _ n.handshake b.handshake;
  idle = pick-le _ _ _ n.idle b.idle;
}
