-- ===== src/Decimal/Convert.antt =====
-- The conversions of `decimal` from and to strings (decimal.cpp) and integers (decimal.tcc). A
-- character is its code. `none` is an exception: of `invalid_argument` on the way in, and of
-- `overflow_error` on the way out.
use kaiu.Base.{
  ℕ, zero, suc, ◌+◌, ◌-◌, ◌*◌, ◌/◌, ◌%◌, Bool, ◌&&◌, List, [], ◌∷◌, ◌==◌, if◌then◌else◌, ltb, leb,
  Option, none, some,
}
use mathlib.Core.List.{reverse}
use mathlib.Core.Option
use kaiu.Decimal.Digits.{Decimal, remove_lz}

abbrev pub comma : ℕ
comma = 44

-- The code of the character for the digit 0; those of the others follow.
abbrev pub digit_zero : ℕ
digit_zero = 48

abbrev pub is_digit : ℕ → Bool
is_digit c = leb digit_zero c && leb c (digit_zero + 9)

-- The loop over a string from its end.
unfoldable pub parse_loop : List ℕ → Option Decimal
parse_loop [] = some []
parse_loop (c ∷ cs) =
    let rest = parse_loop cs in
    if c == comma
    then rest
    else if is_digit c
    then Option.map (λ ds. (c - digit_zero) ∷ ds) rest
    else none

unfoldable pub from_string : List ℕ → Option Decimal
unfolding parse_loop remove_lz
from_string s = Option.map remove_lz (parse_loop (reverse s))

-- The characters of a number, `copied` digits already written, the least significant first.
unfoldable pub group_loop : ℕ → Decimal → List ℕ
group_loop copied [] = []
group_loop copied (d ∷ ds) =
    let rest = (d + digit_zero) ∷ group_loop (suc copied) ds in
    if ltb 0 copied && (copied % 3 == 0) then comma ∷ rest else rest

unfoldable pub to_string : Decimal → List ℕ
unfolding group_loop
to_string a = reverse (group_loop 0 a)

-- An integer of a signed or an unsigned type: `n`, or `-(n + 1)`.
pub data ℤ : Type 0 where
  pos negsuc : ℕ → ℤ

-- The loop over `val`; the fuel bounds its rounds.
unfoldable pub digits_loop : ℕ → ℕ → Decimal
digits_loop zero val = []
digits_loop (suc n) val =
    let rest = digits_loop n (val / 10) in if val == 0 then [] else (val % 10) ∷ rest

unfoldable pub from_int : ℤ → Option Decimal
unfolding digits_loop
from_int (negsuc n) = none
from_int (pos val) = if val == 0 then some (0 ∷ []) else some (digits_loop val val)

-- The loop over the digits from the most significant on, for a type whose greatest value is `max`.
unfoldable pub int_loop : ℕ → ℕ → List ℕ → Option ℕ
int_loop max r [] = some r
int_loop max r (d ∷ ds) =
    let rest = int_loop max (r * 10 + d) ds in if ltb ((max - d) / 10) r then none else rest

unfoldable pub to_int : ℕ → Decimal → Option ℕ
unfolding int_loop
to_int max a = int_loop max 0 (reverse a)
