-- ===== src/Quic/Engine/Lifetime.antt =====
-- What the creation of an engine leaves allocated.
use mod_http3_stage.Prelude.{
  ℕ, ◌+◌, ◌≡◌, ◌⊎◌, refl, Bool, true, false, not, ◌||◌, none, some, List, [], ◌∷◌, ◌++◌,
  if◌then◌else◌, one_if, ◌==◌, arith, inl, inr,
}
use mod_http3_stage.Quic.Engine.{
  Resource, engine, ssl_ctx, bio_method, peer_addr, listener, dgram_bio, filter_bio, Fields,
  no_fields, freed_by_destroy, Answers, Created, give_up, create_bios, create_listener,
  engine_create,
}

-- The place of a resource in the list of all.
abbrev rank : Resource → ℕ
rank engine = 0
rank ssl_ctx = 1
rank bio_method = 2
rank peer_addr = 3
rank listener = 4
rank dgram_bio = 5
rank filter_bio = 6

-- How often a resource is in a list.
abbrev pub amount : Resource → List Resource → ℕ
amount r [] = 0
amount r (s ∷ ss) = one_if (rank r == rank s) + amount r ss

-- A creation that failed freed all that it allocated; one that succeeded freed nothing, and destroying
-- its engine frees all of it.
abbrev pub IsBalanced : Created → Type 0
IsBalanced c =
    ((c.result ≡ none) × ((r : Resource) → amount r c.freed ≡ amount r c.allocated))
    ⊎ ((f : Fields) × (c.result ≡ some f)
        × (c.freed ≡ [])
        × ((r : Resource) → amount r (freed_by_destroy f) ≡ amount r c.allocated))

either : (b : Bool) (x y : Created) → IsBalanced x → IsBalanced y → IsBalanced (if b then x else y)
either true x y h k = h
either false x y h k = k

gives_up :
    (allocated before : List Resource) (f : Fields)
    → ((r : Resource) → amount r (before ++ freed_by_destroy f) ≡ amount r allocated)
    → IsBalanced (give_up allocated before f)
unfolding give_up
gives_up allocated before f h = inl (refl, h)

-- Whatever its calls answer, h3q_engine_create either answers NULL, and then it has freed each
-- resource as often as it allocated it, or it has freed nothing, and then h3q_engine_destroy of its
-- engine frees each resource as often as it was allocated.
pub engine_create-IsBalanced : (a : Answers) → IsBalanced (engine_create a)
unfolding engine_create create_listener create_bios freed_by_destroy
engine_create-IsBalanced a =
    let none_yet : Fields = no_fields in
    let f1 : Fields = record none_yet { has_ssl_ctx = true } in
    let f2 : Fields = record f1 { has_bio_method = true } in
    let f3 : Fields = record f2 { has_peer_addr = true } in
    let f4 : Fields = record f3 { has_listener = true } in
    let f5 : Fields = record f4 { owns_bios = true } in
    let l1 : List Resource = ssl_ctx ∷ engine ∷ [] in
    let l2 : List Resource = bio_method ∷ l1 in
    let l3 : List Resource = peer_addr ∷ l2 in
    let l4 : List Resource = listener ∷ l3 in
    let l5 : List Resource = filter_bio ∷ dgram_bio ∷ l4 in
    either (not a.calloc) _ _ (inl (refl, λ r. refl)) (
      either (not a.ctx_created) _ _ (gives_up (engine ∷ []) [] none_yet (λ r. refl)) (
        either (not a.method_created) _ _ (gives_up l1 [] f1 (λ r. omega arith)) (
          either (not a.handlers_set) _ _ (gives_up l2 [] f2 (λ r. omega arith)) (
            either (not a.addr_created) _ _ (gives_up l2 [] f2 (λ r. omega arith)) (
              either (not a.index_created) _ _ (gives_up l3 [] f3 (λ r. omega arith)) (
                either (not a.listener_created) _ _ (gives_up l3 [] f3 (λ r. omega arith)) (
                  either (not a.dgram_created) _ _ (gives_up l4 [] f4 (λ r. omega arith)) (
                    either (not a.filter_created) _ _
                      (gives_up (dgram_bio ∷ l4) (dgram_bio ∷ []) f4 (λ r. omega arith))
                      (either (not a.listens || not a.non_blocking) _ _
                        (gives_up l5 [] f5 (λ r. omega arith))
                        (inr (f5, refl, refl, λ r. omega arith)))))))))))
