-- ===== src/Config/Merge/Nearest.antt =====
-- h3_merge_server_config along a chain of servers, setting by setting.
use mod_http3_stage.Prelude.{
  ℕ, zero, suc, ◌≡◌, ◌∙◌, refl, ap, Bool, true, false, Option, none, some, List, [], ◌∷◌, map,
}
use mod_http3_stage.Config.Defs.{Text, TriFlag, unset, on, off, ServerConf}
use mod_http3_stage.Config.Merge.{pick, pick_string, pick_flag, merge_server_config}

-- The directives that a configuration holds a value for.
pub data Setting : Type 0 where
  h3_cert_path h3_key_path h3_port h3_max_concurrent_streams h3_max_connections
        h3_stream_buffer_size :
      Setting
  h3_max_request_body_size h3_max_response_body_size h3_alt_svc h3_address_validation
        h3_alt_svc_max_age h3_handshake_timeout h3_idle_timeout :
      Setting

pub data Value : Type 0 where
  number : ℕ → Value
  text : Text → Value
  flag : Bool → Value

-- A number of 0, no text and the third state of a flag say that a directive was not given.
abbrev pub number_of : ℕ → Option Value
number_of zero = none
number_of (suc n) = some (number (suc n))

abbrev pub text_of : Option Text → Option Value
text_of none = none
text_of (some t) = some (text t)

abbrev pub flag_of : TriFlag → Option Value
flag_of unset = none
flag_of on = some (flag true)
flag_of off = some (flag false)

-- The value that a configuration gives a setting.
abbrev pub setting : Setting → ServerConf → Option Value
setting h3_cert_path c = text_of c.cert_path
setting h3_key_path c = text_of c.key_path
setting h3_port c = number_of c.port
setting h3_max_concurrent_streams c = number_of c.max_concurrent_streams
setting h3_max_connections c = number_of c.max_connections
setting h3_stream_buffer_size c = number_of c.stream_buffer_size
setting h3_max_request_body_size c = number_of c.max_request_body_size
setting h3_max_response_body_size c = number_of c.max_response_body_size
setting h3_alt_svc c = flag_of c.alt_svc
setting h3_address_validation c = flag_of c.address_validation
setting h3_alt_svc_max_age c = number_of c.alt_svc_max_age
setting h3_handshake_timeout c = number_of c.handshake_timeout
setting h3_idle_timeout c = number_of c.idle_timeout

abbrev pub later : Option Value → Option Value → Option Value
later v none = v
later v (some w) = some w

-- The last value of a list that is there.
abbrev pub last_set : List (Option Value) → Option Value
last_set [] = none
last_set (v ∷ vs) = later v (last_set vs)

-- The configuration of a server below others, the outermost first.
unfoldable pub merge_chain : ServerConf → List ServerConf → ServerConf
merge_chain base [] = base
merge_chain base (c ∷ cs) = merge_chain (merge_server_config base c) cs

number_of-pick : (n b : ℕ) → number_of (pick n b) ≡ last_set (number_of b ∷ number_of n ∷ [])
number_of-pick zero b = refl
number_of-pick (suc n) b = refl

text_of-pick :
    (n b : Option Text) → text_of (pick_string n b) ≡ last_set (text_of b ∷ text_of n ∷ [])
text_of-pick none b = refl
text_of-pick (some t) b = refl

flag_of-pick : (n b : TriFlag) → flag_of (pick_flag n b) ≡ last_set (flag_of b ∷ flag_of n ∷ [])
flag_of-pick unset b = refl
flag_of-pick on b = refl
flag_of-pick off b = refl

merge_setting :
    (k : Setting) (base new : ServerConf)
    → setting k (merge_server_config base new) ≡ last_set (setting k base ∷ setting k new ∷ [])
unfolding merge_server_config
merge_setting h3_cert_path base new = text_of-pick new.cert_path base.cert_path
merge_setting h3_key_path base new = text_of-pick new.key_path base.key_path
merge_setting h3_port base new = number_of-pick new.port base.port
merge_setting h3_max_concurrent_streams base new =
    number_of-pick new.max_concurrent_streams base.max_concurrent_streams
merge_setting h3_max_connections base new = number_of-pick new.max_connections base.max_connections
merge_setting h3_stream_buffer_size base new =
    number_of-pick new.stream_buffer_size base.stream_buffer_size
merge_setting h3_max_request_body_size base new =
    number_of-pick new.max_request_body_size base.max_request_body_size
merge_setting h3_max_response_body_size base new =
    number_of-pick new.max_response_body_size base.max_response_body_size
merge_setting h3_alt_svc base new = flag_of-pick new.alt_svc base.alt_svc
merge_setting h3_address_validation base new =
    flag_of-pick new.address_validation base.address_validation
merge_setting h3_alt_svc_max_age base new = number_of-pick new.alt_svc_max_age base.alt_svc_max_age
merge_setting h3_handshake_timeout base new =
    number_of-pick new.handshake_timeout base.handshake_timeout
merge_setting h3_idle_timeout base new = number_of-pick new.idle_timeout base.idle_timeout

later_assoc : (u v w : Option Value) → later (later u v) w ≡ later u (later v w)
later_assoc u v none = refl
later_assoc u v (some w) = refl

-- However many servers are merged, from the outermost to the innermost, each setting of the result has
-- the value of the innermost one that gives it, and none if no server does.
pub merge_chain_nearest :
    (k : Setting) (base : ServerConf) (levels : List ServerConf)
    → setting k (merge_chain base levels) ≡ last_set (map (setting k) (base ∷ levels))
unfolding merge_chain
merge_chain_nearest k base [] = refl
merge_chain_nearest k base (c ∷ cs) =
    merge_chain_nearest k (merge_server_config base c) cs
    ∙ ap (λ v. last_set (v ∷ map (setting k) cs)) (merge_setting k base c)
    ∙ later_assoc (setting k base) (setting k c) (last_set (map (setting k) cs))
