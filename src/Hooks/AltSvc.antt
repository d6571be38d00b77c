-- ===== src/Hooks/AltSvc.antt =====
-- The numbers of the Alt-Svc header.
use mod_http3_stage.Prelude.{
  ℕ, zero, suc, ◌+◌, ◌-◌, ◌*◌, ◌/◌, ◌%◌, ◌^◌, ◌<◌, ◌≡◌, ◌∙◌, refl, ap, Bool, true, false, ◌&&◌,
  Option, none, some, [], ◌∷◌, ◌++◌, ltb, leb, ◌==◌, if◌then◌else◌, arith, Bool-cases, inl, inr,
}
use native.Mathlib.Nat.{pow-suc}
use mod_http3_stage.Config.Defs.{Text, ServerConf}
use mod_http3_stage.Hooks.{
  Request, digits_loop, digits, h3_is, ma_is, persists, alt_svc_value, is_off, lacks_listener,
  fixups,
}

-- A number at the front of a text, after the digits that made `n`, and what follows it.
pub read_number : Text → ℕ → ℕ × Text
read_number [] n = (n, [])
read_number (c ∷ cs) n = elim (leb 48 c && leb c 57) [
  | true ↦ read_number cs (n * 10 + (c - 48))
  | false ↦ (n, c ∷ cs)
]

-- A text without a prefix.
pub after : Text → Text → Option Text
after [] cs = some cs
after (p ∷ ps) [] = none
after (p ∷ ps) (c ∷ cs) = if p == c then after ps cs else none

-- The end of the header, and what comes after its first number.
with_age : ℕ → ℕ × Text → Option (ℕ × ℕ)
unfolding after
with_age port (age, last) = elim (after persists last) [ none ↦ none | some _ ↦ some (port, age) ]

with_port : ℕ × Text → Option (ℕ × ℕ)
unfolding after with_age
with_port (port, rest) = elim (after ma_is rest) [
  | none ↦ none
  | some rest' ↦ with_age port (read_number rest' 0)
]

-- What a client reads: the port and the age, when the header has the form of this module's.
pub read_alt_svc : Text → Option (ℕ × ℕ)
unfolding read_number after with_port
read_alt_svc text = elim (after h3_is text) [
  | none ↦ none
  | some rest ↦ with_port (read_number rest 0)
]

pub read_header : Option Text → Option (ℕ × ℕ)
unfolding read_alt_svc
read_header none = none
read_header (some text) = read_alt_svc text

read_digit :
    (d : ℕ) (cs : Text) (n : ℕ)
    → d < 10
    → read_number ((48 + d) ∷ cs) n ≡ read_number cs (n * 10 + d)
unfolding read_number
read_digit d cs n h =
    let t : leb 48 (48 + d) && leb (48 + d) 57 ≡ true = ground arith in
    let e : 48 + d - 48 ≡ d = omega arith in
    rw (t, read_number) (ap (λ k. read_number cs (n * 10 + k)) e)

last_digit : (n : ℕ) (rest : Text) → n < 10 → read_number ((48 + n) ∷ rest) 0 ≡ read_number rest n
last_digit n rest h =
    let e : 0 * 10 + n ≡ n = omega arith in read_digit n rest 0 h ∙ ap (read_number rest) e

power_step : (fuel n : ℕ) → n < 10 ^ suc fuel → n / 10 < 10 ^ fuel
power_step fuel n h = let e = pow-suc 10 fuel in omega arith

read-digits_loop :
    (fuel n : ℕ) (rest : Text)
    → n < 10 ^ suc fuel
    → read_number (digits_loop (suc fuel) n rest) 0 ≡ read_number rest n
unfolding digits_loop
read-digits_loop zero n rest h =
    let small : ltb n 10 ≡ true = ground arith in
    rw (small, digits_loop) (last_digit n rest (ground arith))
read-digits_loop (suc fuel) n rest h = elim (Bool-cases (ltb n 10)) [
  | inl e ↦ rw (e, digits_loop) (last_digit n rest (ground arith))
  | inr e ↦
      let back : n / 10 * 10 + n % 10 ≡ n = omega arith in
      rw (e, digits_loop)
        (read-digits_loop fuel (n / 10) ((48 + n % 10) ∷ rest) (power_step (suc fuel) n h)
          ∙ read_digit (n % 10) rest (n / 10) (omega arith)
          ∙ ap (read_number rest) back)
]

pub read-digits :
    (n : ℕ) (rest : Text) → n < 2 ^ 32 → read_number (digits n rest) 0 ≡ read_number rest n
unfolding digits
read-digits n rest h = read-digits_loop 9 n rest (omega arith)

pub read_end_of_text : (n : ℕ) → read_number [] n ≡ (n, [])
unfolding read_number
read_end_of_text n = refl

read_ma :
    (age port : ℕ)
    → read_number (ma_is ++ digits age persists) port ≡ (port, ma_is ++ digits age persists)
unfolding read_number
read_ma age port = refl

read_end : (age : ℕ) → read_number persists age ≡ (age, persists)
unfolding read_number
read_end age = refl

read-alt_svc_value :
    (port age : ℕ)
    → port < 2 ^ 16
    → age < 2 ^ 32
    → read_alt_svc (alt_svc_value port age) ≡ some (port, age)
unfolding read_alt_svc alt_svc_value after with_port with_age
read-alt_svc_value port age p a =
    ap with_port (read-digits port (ma_is ++ digits age persists) (omega arith) ∙ read_ma age port)
    ∙ ap (with_age port) (read-digits age persists a ∙ read_end age)

either_alt :
    (b : Bool) (x y : Request) (old : Option Text)
    → x.alt_svc ≡ old
    → y.alt_svc ≡ old
    → (if b then x else y).alt_svc ≡ old
either_alt true x y old e f = e
either_alt false x y old e f = f

-- The header Alt-Svc of a response to an initial request, on a server with a certificate, a key, a port
-- and H3AltSvc not off, whose port and max-age are in the range of their types: if the header was not
-- set before, whoever reads the digits of its two numbers gets this port and this max-age; a header
-- that was set stays as it was.
pub alt_svc_round_trip :
    (c : ServerConf) (r : Request) (old : Text)
    → lacks_listener c ≡ false
    → is_off c.alt_svc ≡ false
    → c.port < 2 ^ 16
    → c.alt_svc_max_age < 2 ^ 32
    → (read_header (fixups (some c) (record r { is_initial = true; alt_svc = none })).0.alt_svc
        ≡ some (c.port, c.alt_svc_max_age))
      × ((fixups (some c) (record r { is_initial = true; alt_svc = some old })).0.alt_svc
          ≡ some old)
unfolding fixups read_header
alt_svc_round_trip c r old l f p a =
    let new : Request = record r { is_initial = true; alt_svc = none } in
    let set : Request = record r { is_initial = true; alt_svc = some old } in
    let e = either_alt r.is_h3 (record new { https = true }) new none refl refl in
    let g = either_alt r.is_h3 (record set { https = true }) set (some old) refl refl in
    (
      rw (l, fixups) (rw f (rw e (read-alt_svc_value c.port c.alt_svc_max_age p a))),
      rw (l, fixups) (rw f (rw g g)),
    )
