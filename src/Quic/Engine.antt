-- ===== src/Quic/Engine.antt =====
-- The QUIC engine, mod_http3/src/quic/h3q.c, and the connections of mod_http3/src/quic/h3q_conn.c. What
-- OpenSSL answers to each call comes as an argument.
pub mod Lifetime
pub mod Pump
use mod_http3_stage.Prelude.{
  ℕ, zero, suc, ◌+◌, ◌*◌, Bool, true, false, not, ◌&&◌, ◌||◌, Option, none, some, List, [], ◌∷◌,
  ◌++◌, ◌==◌, if◌then◌else◌,
}

-- What h3q_engine_create allocates.
pub data Resource : Type 0 where
  engine ssl_ctx bio_method peer_addr listener dgram_bio filter_bio : Resource

-- The fields of an h3q_engine that are not NULL, and whether the listener owns the two BIOs.
pub record Fields : Type 0 where
  pub has_ssl_ctx : Bool
  pub has_bio_method : Bool
  pub has_peer_addr : Bool
  pub has_listener : Bool
  pub owns_bios : Bool

abbrev pub no_fields : Fields
no_fields = record {
  has_ssl_ctx = false;
  has_bio_method = false;
  has_peer_addr = false;
  has_listener = false;
  owns_bios = false;
}

-- h3q_engine_destroy: what it frees, in order
pub freed_by_destroy : Fields → List Resource
freed_by_destroy f =
    let last = engine ∷ [] in
    let ctx = if f.has_ssl_ctx then ssl_ctx ∷ last else last in
    let method = if f.has_bio_method then bio_method ∷ ctx else ctx in
    let addr = if f.has_peer_addr then peer_addr ∷ method else method in
    if f.has_listener
    then if f.owns_bios then listener ∷ filter_bio ∷ dgram_bio ∷ addr else listener ∷ addr
    else addr

-- What the calls of h3q_engine_create answer, in their order.
pub record Answers : Type 0 where
  pub calloc : Bool
  pub ctx_created : Bool
  pub method_created : Bool
  pub handlers_set : Bool
  pub addr_created : Bool
  pub index_created : Bool
  pub listener_created : Bool
  pub dgram_created : Bool
  pub filter_created : Bool
  pub listens : Bool
  pub non_blocking : Bool

-- What was allocated, the latest first, what was freed, and the engine when there is one.
pub record Created : Type 0 where
  pub allocated : List Resource
  pub freed : List Resource
  pub result : Option Fields

-- the failure of a call: h3q_engine_destroy, and NULL
pub give_up : List Resource → List Resource → Fields → Created
unfolding freed_by_destroy
give_up allocated before f = record {
  allocated = allocated;
  freed = before ++ freed_by_destroy f;
  result = none;
}

-- from the creation of the BIO on, with the other four resources allocated
pub create_bios : Answers → List Resource → Fields → Created
unfolding give_up
create_bios a allocated f =
    if not a.dgram_created
    then give_up allocated [] f
    else if not a.filter_created
    then give_up (dgram_bio ∷ allocated) (dgram_bio ∷ []) f
    else let all = filter_bio ∷ dgram_bio ∷ allocated in
      let owner = record f { owns_bios = true } in
      if not a.listens || not a.non_blocking
      then give_up all [] owner
      else record { allocated = all; freed = []; result = some owner }

-- from BIO_ADDR_new on
pub create_listener : Answers → List Resource → Fields → Created
unfolding give_up create_bios
create_listener a allocated f =
    if not a.addr_created
    then give_up allocated [] f
    else let f' = record f { has_peer_addr = true } in
      if not a.index_created
      then give_up (peer_addr ∷ allocated) [] f'
      else if not a.listener_created
      then give_up (peer_addr ∷ allocated) [] f'
      else create_bios a (listener ∷ peer_addr ∷ allocated) (record f' { has_listener = true })

-- h3q_engine_create
pub engine_create : Answers → Created
unfolding give_up create_listener
engine_create a =
    if not a.calloc
    then record { allocated = []; freed = []; result = none }
    else if not a.ctx_created
    then give_up (engine ∷ []) [] no_fields
    else let f = record no_fields { has_ssl_ctx = true } in
      if not a.method_created
      then give_up (ssl_ctx ∷ engine ∷ []) [] f
      else let f' = record f { has_bio_method = true } in
        if not a.handlers_set
        then give_up (bio_method ∷ ssl_ctx ∷ engine ∷ []) [] f'
        else create_listener a (bio_method ∷ ssl_ctx ∷ engine ∷ []) f'

-- What h3q_engine_pump returns, -1 or `work`; a loop that has used up its fuel is still running.
pub data Pumped : Type 0 where
  failed still_running : Pumped
  worked : Bool → Pumped

-- h3q_engine_pump: `handle` is SSL_handle_events, `none` for a failure, and `waiting` says whether
-- `peer_rx_head` is there. `zero` is fuel that is used up.
module _ {E : Type 0} (handle : E → Option E) (waiting : E → Bool) where
  pub pump_loop : ℕ → Bool → E → Pumped × E
  pump_loop zero work e = (still_running, e)
  pump_loop (suc fuel) work e = elim (waiting e) [
    | false ↦ (worked work, e)
    | true ↦ elim (handle e) [ none ↦ (failed, e) | some e' ↦ pump_loop fuel true e' ]
  ]

  pub engine_pump : ℕ → Bool → E → Pumped × E
  unfolding pump_loop
  engine_pump fuel has_listener e =
      if not has_listener
      then (worked false, e)
      else elim (handle e) [ none ↦ (failed, e) | some e' ↦ pump_loop fuel false e' ]

-- h3q_engine_peer_addr: the family and the port, when the raw address has the length of its family.
pub data Family : Type 0 where
  inet inet6 other_family : Family

pub peer_address : Bool → Option (Family × Option ℕ × ℕ) → Option (Family × ℕ)
peer_address has_index none = none
peer_address has_index (some (family, rawlen, port)) = if not has_index then none else elim family [
  | inet ↦ elim rawlen [ none ↦ none | some n ↦ if n == 4 then some (inet, port) else none ]
  | inet6 ↦ elim rawlen [ none ↦ none | some n ↦ if n == 16 then some (inet6, port) else none ]
  | other_family ↦ none
]

-- h3q_conn_prepare: the idle timeout in milliseconds, when the connection could be prepared
pub conn_prepare : Bool → Bool → ℕ → Option ℕ
conn_prepare has_conn non_blocking idle_timeout_secs =
    if not has_conn || not non_blocking then none else some (idle_timeout_secs * 1000)

-- What SSL_shutdown_ex or SSL_shutdown returns.
pub data Shut : Type 0 where
  done in_progress wants failed : Shut

-- How h3q_conn_shutdown asks for it: with a reason, rapidly, or plainly.
pub data Asked : Type 0 where
  with_reason rapidly plainly : Asked

pub asked : Bool → Bool → Asked
asked is_rapid has_reason =
    if has_reason then with_reason else if is_rapid then rapidly else plainly

-- h3q_conn_shutdown; `shut` answers each way of asking
pub conn_shutdown : Bool → Bool → Bool → (Asked → Shut) → Bool
unfolding asked
conn_shutdown has_conn is_rapid has_reason shut =
    if not has_conn then true else elim (shut (asked is_rapid has_reason)) [
      | done ↦ true
      | failed ↦ true
      | in_progress ↦ false
      | wants ↦ false
    ]
