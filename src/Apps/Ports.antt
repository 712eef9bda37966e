-- ===== src/Apps/Ports.antt =====
-- The port that `main` of apps/simple_game/beast.cpp and of apps/simple_server/main.cpp listen at:
-- `std::stoi` of the first argument, converted to the 16 bits of `port_type`.
use the_game.Base.{
  ℕ, zero, suc, ◌+◌, ◌-◌, ◌*◌, ◌/◌, ◌%◌, ◌^◌, ◌≤◌, ◌<◌, ◌≡◌, ◌∙◌, Bool, true, false, ◌&&◌, ◌||◌,
  List, [], ◌∷◌, ◌++◌, Option, none, some, Text, leb, ltb, nat_beq, if◌then◌else◌, arith, All,
  All-append, length, length-append, Bool-cases, inl, inr,
}
use the_game.Networking.Http.Query.{to_string, to_string_from}

-- `negsuc n` is -(n + 1).
pub data ℤ : Type 0 where
  pos : ℕ → ℤ
  negsuc : ℕ → ℤ

abbrev pub is_space : ℕ → Bool
is_space c = nat_beq c 32 || (leb 9 c && leb c 13)

abbrev pub is_digit : ℕ → Bool
is_digit c = leb 48 c && leb c 57

skip_spaces : Text → Text
skip_spaces [] = []
skip_spaces (c ∷ cs) = if is_space c then skip_spaces cs else c ∷ cs

-- The value of the digits in front.
take_digits : ℕ → Text → ℕ
take_digits acc [] = acc
take_digits acc (c ∷ cs) =
    let rest = take_digits (acc * 10 + (c - 48)) cs in if is_digit c then rest else acc

-- The digits of a number, if there is one and an `int` can hold it.
to_int : Bool → Text → Option ℤ
unfolding take_digits
to_int minus [] = none
to_int minus (c ∷ cs) =
    let n = take_digits 0 (c ∷ cs) in
    if is_digit c
    then (if minus
        then (if leb n (2 ^ 31) then some (if nat_beq n 0 then pos 0 else negsuc (n - 1)) else none)
        else (if ltb n (2 ^ 31) then some (pos n) else none))
    else none

signed : Text → Option ℤ
unfolding to_int
signed [] = none
signed (c ∷ cs) =
    if nat_beq c b'-'
    then to_int true cs
    else if nat_beq c b'+'
    then to_int false cs
    else to_int false (c ∷ cs)

-- `std::stoi`; `none` where it throws.
unfoldable pub stoi : Text → Option ℤ
unfolding skip_spaces signed
stoi t = signed (skip_spaces t)

-- `net::ip::port_type(port)`
unfoldable pub port_type : ℤ → ℕ
port_type (pos n) = n % 2 ^ 16
port_type (negsuc n) = 2 ^ 16 - 1 - n % 2 ^ 16

-- The port, or `none` where `main` reports an invalid port and returns 1.
unfoldable pub main_port : ℤ → List Text → Option ℕ
unfolding stoi port_type
main_port default [] = some (port_type default)
main_port default (arg ∷ args) = elim (stoi arg) [ none ↦ none | some port ↦ some (port_type port) ]

abbrev IsDigits : Text → Type 0
IsDigits = All (λ c. is_digit c ≡ true)

take_digits-append :
    (acc d : ℕ) (cs : Text)
    → IsDigits cs
    → is_digit d ≡ true
    → take_digits acc (cs ++ d ∷ []) ≡ take_digits acc cs * 10 + (d - 48)
unfolding take_digits
take_digits-append acc d [] h k = ground arith
take_digits-append acc d (c ∷ cs) h k =
    ground (arith, h.0, take_digits-append (acc * 10 + (c - 48)) d cs h.1 k)

to_string_from-IsDigits : (fuel n : ℕ) → IsDigits (to_string_from fuel n)
unfolding to_string_from
to_string_from-IsDigits zero n = tt
to_string_from-IsDigits (suc fuel) n = elim (Bool-cases (ltb n 10)) [
  | inl small ↦ rw small (ground arith, tt)
  | inr large ↦ rw large (
      All-append _ (to_string_from fuel (n / 10)) ((n % 10 + 48) ∷ [])
        (to_string_from-IsDigits fuel (n / 10)) (ground arith, tt))
]

take_digits-to_string_from : (fuel n : ℕ) → n < fuel → take_digits 0 (to_string_from fuel n) ≡ n
unfolding to_string_from take_digits
take_digits-to_string_from zero n h = elim h [ ]
take_digits-to_string_from (suc fuel) n h = elim (Bool-cases (ltb n 10)) [
  | inl small ↦ rw small (ground arith)
  | inr large ↦
      let ge : 10 ≤ n = ground arith in
      let less : n / 10 < fuel = omega arith in
      rw large (
        take_digits-append 0 (n % 10 + 48) (to_string_from fuel (n / 10))
          (to_string_from-IsDigits fuel (n / 10)) (ground arith)
        ∙ omega (arith, take_digits-to_string_from fuel (n / 10) less))
]

length-to_string_from : (fuel n : ℕ) → 1 ≤ length (to_string_from (suc fuel) n)
unfolding to_string_from
length-to_string_from fuel n =
    ground (arith, length-append (to_string_from fuel (n / 10)) ((n % 10 + 48) ∷ []))

-- A number without a sign.
stoi-digits :
    (t : Text)
    → IsDigits t
    → 1 ≤ length t
    → stoi t ≡ (if ltb (take_digits 0 t) (2 ^ 31) then some (pos (take_digits 0 t)) else none)
unfolding stoi
stoi-digits [] h k = elim k [ ]
stoi-digits (c ∷ cs) h k = ground (arith, h.0)

-- `main` with a number n as its first argument, written in decimal: it listens at n modulo 65536 if
-- an `int` can hold n, and reports an invalid port if not. So a number above 65535 is not refused.
pub main_port_lem :
    (default : ℤ) (n : ℕ) (args : List Text)
    → main_port default (to_string n ∷ args) ≡ (if ltb n (2 ^ 31) then some (n % 2 ^ 16) else none)
unfolding main_port to_string port_type
main_port_lem default n args =
    let t = to_string_from (suc n) n in
    let read : take_digits 0 t ≡ n = take_digits-to_string_from (suc n) n (omega arith) in
    let parsed : stoi t ≡ (if ltb n (2 ^ 31) then some (pos n) else none) =
      rw read at (stoi-digits t (to_string_from-IsDigits (suc n) n) (length-to_string_from n n)) in
    ground (arith, parsed)
