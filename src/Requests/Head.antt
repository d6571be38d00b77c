-- ===== src/Requests/Head.antt =====
-- The response head that build_response_nva makes, and how often submit_response_nva hands one over.
use mod_http3_stage.Prelude.{
  ◌==◌, ℕ, zero, suc, ◌-◌, ◌≤◌, ◌≡◌, ◌∙◌, refl, ap, Bool, true, false, not, ◌&&◌, ◌||◌, Option,
  none, some, List, [], ◌∷◌, arith, take, length, length-take, if◌then◌else◌, Bool-cases, inl, inr,
}
use mod_http3_stage.Config.Defs.{Text}
use mod_http3_stage.State.{Response}
use mod_http3_stage.ResponseQueue.{response_cancel}
use mod_http3_stage.Requests.{
  Entry, Hop, is_connection_specific, starts_with_colon, named_in, field_of, fill_fields,
  build_response_nva, Resp, response_nva, chosen_headers, chosen_status, Submitted, success,
  econnaborted, egeneral, Attempt, submit_response_nva, submit_all,
}

module _ (same_name : Hop → Text → Bool) (has_token : Text → Text → Bool) where
  -- The fields that may be sent: neither pseudo-headers nor about the connection.
  abbrev pub may_send : Option Text → Text → Bool
  may_send conn_hdr k =
      not (starts_with_colon same_name has_token k)
      && not (is_connection_specific same_name has_token k)
      && not (named_in same_name has_token conn_hdr k)

  -- All fields of a table that may be sent, in order.
  abbrev pub sendable : Option Text → List Entry → List (Text × Text)
  sendable conn_hdr [] = []
  sendable conn_hdr (entry ∷ entries) =
      let rest = sendable conn_hdr entries in
      elim entry.key [
        | none ↦ rest
        | some k ↦ elim entry.val [
          | none ↦ rest
          | some v ↦ if may_send conn_hdr k then (k, v) ∷ rest else rest
        ]
      ]

  -- the tests of an entry, as the code and as the description order them
  tests :
      (colon hop named : Bool) (field : Text × Text) (room : ℕ)
      (fields all here later : List (Text × Text))
      → here ≡ take (suc room) all
      → later ≡ take room all
      → elim (if colon then none else if hop || named then none else some field)
          as (λ o. List (Text × Text)) [ none ↦ here | some f ↦ f ∷ later ]
        ≡ take (suc room) (if not colon && not hop && not named then field ∷ all else all)
  tests true hop named field room fields all here later e f = e
  tests false true named field room fields all here later e f = e
  tests false false true field room fields all here later e f = e
  tests false false false field room fields all here later e f = ap (λ t. field ∷ t) f

  one_entry :
      (key val : Option Text) (room : ℕ) (conn_hdr : Option Text) (entries : List Entry)
      → fill_fields same_name has_token (suc room) conn_hdr entries
        ≡ take (suc room) (sendable conn_hdr entries)
      → fill_fields same_name has_token room conn_hdr entries
        ≡ take room (sendable conn_hdr entries)
      → fill_fields same_name has_token
          (suc room)
          conn_hdr
          (record { key = key; val = val } ∷ entries)
        ≡ take (suc room) (sendable conn_hdr (record { key = key; val = val } ∷ entries))
  unfolding fill_fields field_of
  one_entry none val room conn_hdr entries here later = here
  one_entry (some k) none room conn_hdr entries here later = here
  one_entry (some k) (some v) room conn_hdr entries here later =
      tests (starts_with_colon same_name has_token k) (is_connection_specific same_name has_token k)
        (named_in same_name has_token conn_hdr k) (k, v) room [] (sendable conn_hdr entries) _ _
        here later

  fill_fields-take :
      (room : ℕ) (conn_hdr : Option Text) (entries : List Entry)
      → fill_fields same_name has_token room conn_hdr entries
        ≡ take room (sendable conn_hdr entries)
  unfolding fill_fields
  fill_fields-take zero conn_hdr entries = refl
  fill_fields-take (suc room) conn_hdr [] = refl
  fill_fields-take (suc room) conn_hdr (entry ∷ entries) =
      one_entry entry.key entry.val room conn_hdr entries
        (fill_fields-take (suc room) conn_hdr entries) (fill_fields-take room conn_hdr entries)

  -- The head of a response has the status first, followed by the fields of the table that are neither
  -- pseudo-headers nor about the connection, in their order, as many of them as the array of `nva_cap`
  -- entries has room for; so it is never longer than the array.
  pub build_response_nva_lem :
      (nva_cap : ℕ) (status_name status : Text) (conn_hdr : Option Text) (entries : List Entry)
      → 1 ≤ nva_cap
      → (build_response_nva same_name has_token nva_cap status_name status conn_hdr (some entries)
          ≡ (status_name, status) ∷ take (nva_cap - 1) (sendable conn_hdr entries))
        × (length (
              build_response_nva same_name has_token nva_cap status_name status conn_hdr
                (some entries))
            ≤ nva_cap)
  unfolding build_response_nva
  build_response_nva_lem nva_cap status_name status conn_hdr entries h =
      let e = fill_fields-take (nva_cap - 1) conn_hdr entries in
      let l = ap length e in
      let m = length-take (nva_cap - 1) (sendable conn_hdr entries) in
      (ap (λ t. (status_name, status) ∷ t) e, omega arith)

-- When the response bucket has headers, the head that build_response_nva makes has the status of the
-- bucket, or that of the request where it is 0, and then the fields of the bucket's headers that may be
-- sent, up to the room in the array; the headers of the request do not count.
pub response_nva_lem :
    (same_name : Hop → Text → Bool) (has_token : Text → Text → Bool)
    (connection_of : List Entry → Option Text) (print : ℕ → Text) (nva_cap : ℕ) (status_name : Text)
    (resp : Resp) (entries : List Entry) (headers_out : Option (List Entry)) (status : ℕ)
    → 1 ≤ nva_cap
    → resp.headers ≡ some entries
    → response_nva same_name has_token connection_of print nva_cap status_name
        (some resp)
        headers_out
        status
      ≡ (status_name, print (if resp.status == 0 then status else resp.status))
        ∷ take (nva_cap - 1) (sendable same_name has_token (connection_of entries) entries)
unfolding response_nva chosen_headers chosen_status
response_nva_lem same_name has_token connection_of print nva_cap status_name resp entries out status
      h e =
    rw e
      (build_response_nva_lem same_name has_token nva_cap status_name
        (print (if resp.status == 0 then status else resp.status)) (connection_of entries) entries
        h).0

-- The response was handed over or cancelled.
abbrev pub over : Response → Bool
over r = r.submitted || r.cancelled

chosen :
    (sent stopped : Bool) (r : Response) (x : Submitted × Bool × Response)
    → sent || stopped ≡ true
    → ((if sent then (success, false, r) else if stopped then (econnaborted, false, r) else x).1
        ≡ false)
      × ((if sent then (success, false, r) else if stopped then (econnaborted, false, r) else x).2
          ≡ r)
chosen true stopped r x h = (refl, refl)
chosen false true r x h = (refl, refl)
chosen false false r x h = ground arith

abbrev outcome : Bool → Bool → Bool → Response → Response → Response → Submitted × Bool × Response
outcome sent stopped accepts r taken dropped =
    if sent
    then (success, false, r)
    else if stopped
    then (econnaborted, false, r)
    else if accepts
    then (success, true, taken)
    else (egeneral, true, dropped)

cancel_over : (r : Response) → over (response_cancel r) ≡ true
unfolding response_cancel
cancel_over r = ground arith

called_over :
    (sent stopped accepts : Bool) (r taken dropped : Response)
    → over taken ≡ true
    → over dropped ≡ true
    → (outcome sent stopped accepts r taken dropped).1 ≡ true
    → over (outcome sent stopped accepts r taken dropped).2 ≡ true
called_over true stopped accepts r taken dropped p q h = ground arith
called_over false true accepts r taken dropped p q h = ground arith
called_over false false true r taken dropped p q h = p
called_over false false false r taken dropped p q h = q

submit_over :
    (a : Attempt) (r : Response)
    → over r ≡ true
    → ((submit_response_nva a r).1 ≡ false) × ((submit_response_nva a r).2 ≡ r)
unfolding submit_response_nva
submit_over a r h =
    chosen r.submitted (r.cancelled || a.aborted || a.ngh3_dead || not a.ngh3) r _
      (ground (arith, h))

submit_called :
    (a : Attempt) (r : Response)
    → (submit_response_nva a r).1 ≡ true
    → over (submit_response_nva a r).2 ≡ true
unfolding submit_response_nva
submit_called a r h =
    called_over r.submitted (r.cancelled || a.aborted || a.ngh3_dead || not a.ngh3) a.accepts r
      (record r { submitted = true }) (response_cancel r) (ground arith) (cancel_over r) h

submit_all-over :
    (attempts : List Attempt) (r : Response) → over r ≡ true → (submit_all attempts r).0 ≡ 0
unfolding submit_all
submit_all-over [] r h = refl
submit_all-over (a ∷ attempts) r h =
    let s = submit_over a r h in
    rw s.0 (submit_all-over attempts (submit_response_nva a r).2 (ap over s.1 ∙ h))

-- However often a worker and its filters try to start a response, and whatever the session is like at
-- each time, nghttp3 is asked at most once to submit it.
pub submit_all_once : (attempts : List Attempt) (r : Response) → (submit_all attempts r).0 ≤ 1
unfolding submit_all
submit_all_once [] r = omega arith
submit_all_once (a ∷ attempts) r = elim (Bool-cases (submit_response_nva a r).1) [
  | inl e ↦
      let z = submit_all-over attempts (submit_response_nva a r).2 (submit_called a r e) in
      rw e (omega arith)
  | inr e ↦ rw e (submit_all_once attempts (submit_response_nva a r).2)
]
