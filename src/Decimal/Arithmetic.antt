-- ===== src/Decimal/Arithmetic.antt =====
-- The arithmetic of decimal.cpp. A loop over the digits of a number steps through its list.
use kaiu.Base.{
  ℕ, zero, suc, ◌+◌, ◌-◌, ◌*◌, ◌/◌, Bool, true, false, [], ◌∷◌, ◌++◌, ◌==◌, if◌then◌else◌, ltb, leb,
  length, replicate, Option, none, some,
}
use kaiu.Base.Action.{Outcome, done, thrown}
use kaiu.Decimal.Digits.{Decimal, zero_decimal, head, tail, is_zero, is_unity, resize, remove_lz}

-- `underflow_error`.
pub data Fault : Type 0 where
  underflow : Fault

abbrev pub bit : Bool → ℕ
bit true = 1
bit false = 0

abbrev pub max : ℕ → ℕ → ℕ
max a b = if ltb a b then b else a

-- The loop of `+=` over `w` digits: the digits, and the last carry.
abbrev pub add_loop : ℕ → Decimal → Decimal → Bool → Decimal × Bool
add_loop zero a b carry = ([], carry)
add_loop (suc w) a b carry =
    let d = head a + head b + bit carry in
    let carry' = leb 10 d in
    let (ds, last) = add_loop w (tail a) (tail b) carry' in
    ((if carry' then d - 10 else d) ∷ ds, last)

-- `+=`, as the value left in `*this`.
unfoldable pub add : Decimal → Decimal → Decimal
add a b =
    if is_zero a
    then b
    else if is_zero b
    then a
    else let (ds, carry) = add_loop (max (length a) (length b)) a b false in
      if carry then ds ++ (1 ∷ []) else ds

unfoldable pub increment : Decimal → Decimal
unfolding add
increment a = add a (1 ∷ [])

-- The loop of `-=` over `w` digits: the digits, and the last borrow.
abbrev pub subtract_loop : ℕ → Decimal → Decimal → Bool → Decimal × Bool
subtract_loop zero a b borrow = ([], borrow)
subtract_loop (suc w) a b borrow =
    let borrow' = ltb (head a) (head b + bit borrow) in
    let d = (if borrow' then 10 + head a else head a) - (head b + bit borrow) in
    let (ds, last) = subtract_loop w (tail a) (tail b) borrow' in (d ∷ ds, last)

-- `-=`, which leaves the digits it has written when it throws after the loop.
unfoldable pub subtract : Decimal → Decimal → Outcome Decimal Fault (Unit {0})
unfolding remove_lz
subtract a b =
    if is_zero b
    then done tt a
    else if ltb (length a) (length b)
    then thrown underflow a
    else let (ds, borrow) = subtract_loop (length a) a b false in
      if borrow then thrown underflow ds else done tt (remove_lz ds)

unfoldable pub decrement : Decimal → Outcome Decimal Fault (Unit {0})
unfolding subtract
decrement a = subtract a (1 ∷ [])

-- The inner loop of `*`, over the digits of `b`: a row of the product, and the last carry.
abbrev pub row_loop : ℕ → Decimal → ℕ → Decimal × ℕ
row_loop ad [] carry = ([], carry)
row_loop ad (b ∷ bs) carry =
    let d = b * ad + carry in
    let (ds, last) = row_loop ad bs (d / 10) in ((d - (d / 10) * 10) ∷ ds, last)

-- `tmp`: the row, `i` places up.
abbrev pub row : ℕ → ℕ → Decimal → Decimal
row i ad b =
    let (ds, carry) = row_loop ad b 0 in
    replicate i 0 ++ (if carry == 0 then ds else ds ++ (carry ∷ []))

-- The outer loop of `*`, at the digits of `a` from the place `i` on.
abbrev pub multiply_loop : ℕ → Decimal → Decimal → Decimal → Decimal
multiply_loop i [] b c = c
multiply_loop i (ad ∷ ads) b c =
    let c' = add c (row i ad b) in multiply_loop (suc i) ads b (if ad == 0 then c else c')

-- The two factors by length.
unfoldable pub multiply_ordered : Decimal → Decimal → Decimal
unfolding add remove_lz
multiply_ordered a b =
    if is_zero a
    then zero_decimal
    else if is_unity a
    then b
    else remove_lz (multiply_loop 0 a b (resize (length a + length b) zero_decimal))

unfoldable pub multiply : Decimal → Decimal → Decimal
unfolding multiply_ordered
multiply x y = if leb (length x) (length y) then multiply_ordered x y else multiply_ordered y x

-- The loop of `!`; the fuel bounds its rounds.
unfoldable pub factorial_loop : ℕ → Decimal → Decimal → Option Decimal
unfolding multiply decrement
factorial_loop zero i r = none
factorial_loop (suc n) i r =
    if is_unity i
    then some r
    else elim (decrement i) [ done u i' ↦ factorial_loop n i' (multiply r i) | thrown e i' ↦ none ]

-- `operator !`: the factorial.
unfoldable pub factorial : ℕ → Decimal → Option Decimal
unfolding factorial_loop
factorial fuel x =
    if is_zero x
    then some (1 ∷ [])
    else if is_unity x
    then some (1 ∷ [])
    else elim (decrement x) [ done u i ↦ factorial_loop fuel i x | thrown e i ↦ none ]
