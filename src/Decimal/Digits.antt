-- ===== src/Decimal/Digits.antt =====
-- `decimal` and the members of decimal.cpp that read its digits or cut leading zeros. The least
-- significant digit stands first, as in the source. A digit is a char there: sums and products of
-- digits are far from its bounds, so they are natural numbers here, and a difference is compared
-- with 0 before it is formed.
use kaiu.Base.{
  ℕ, zero, suc, Bool, true, false, not, ◌&&◌, List, [], ◌∷◌, ◌==◌, if◌then◌else◌, ltb, length,
}

abbrev pub Decimal : Type 0
Decimal = List ℕ

-- `decimal()`.
abbrev pub zero_decimal : Decimal
zero_decimal = 0 ∷ []

-- `operator []`: digits out of range are 0. `head` and `tail` step through them in order.
abbrev pub at : Decimal → ℕ → ℕ
at [] i = 0
at (d ∷ ds) zero = d
at (d ∷ ds) (suc i) = at ds i

abbrev pub head : Decimal → ℕ
head [] = 0
head (d ∷ ds) = d

abbrev pub tail : Decimal → Decimal
tail [] = []
tail (d ∷ ds) = ds

-- `isZero` and `isUnity`.
abbrev pub is_zero : Decimal → Bool
is_zero a = (length a == 1) && (at a 0 == 0)

abbrev pub is_unity : Decimal → Bool
is_unity a = (length a == 1) && (at a 0 == 1)

-- `operator bool`.
abbrev pub to_bool : Decimal → Bool
to_bool a = not (is_zero a)

-- `vector::resize`: cuts, or appends zeros.
abbrev pub resize : ℕ → Decimal → Decimal
resize zero a = []
resize (suc n) a = head a ∷ resize n (tail a)

-- `remove_lz`: the loop from the most significant digit down, with `i` digits still to look at.
abbrev pub remove_lz_loop : ℕ → Decimal → Decimal
remove_lz_loop zero a = resize 1 a
remove_lz_loop (suc i) a =
    let rest = remove_lz_loop i a in if at a i == 0 then rest else resize (suc i) a

unfoldable pub remove_lz : Decimal → Decimal
remove_lz a = remove_lz_loop (length a) a

-- `operator ==` compares the vectors.
abbrev pub equals : Decimal → Decimal → Bool
equals [] [] = true
equals (a ∷ ds) (b ∷ es) = (a == b) && equals ds es
equals _ _ = false

pub data Relation : Type 0 where
  less same more : Relation

-- `relation_to`, with `i` digits still to compare, the most significant first.
abbrev pub relation_loop : ℕ → Decimal → Decimal → Relation
relation_loop zero a b = same
relation_loop (suc i) a b =
    let rest = relation_loop i a b in
    if ltb (at b i) (at a i) then more else if ltb (at a i) (at b i) then less else rest

unfoldable pub relation_to : Decimal → Decimal → Relation
relation_to a b =
    if ltb (length b) (length a)
    then more
    else if ltb (length a) (length b)
    then less
    else relation_loop (length a) a b

abbrev pub above : Relation → Bool
above more = true
above _ = false

abbrev pub below : Relation → Bool
below less = true
below _ = false

-- The operators `>`, `>=`, `<` and `<=`.
abbrev pub is_more : Decimal → Decimal → Bool
is_more a b = above (relation_to a b)

abbrev pub is_more_or_same : Decimal → Decimal → Bool
is_more_or_same a b = not (below (relation_to a b))

abbrev pub is_less : Decimal → Decimal → Bool
is_less a b = below (relation_to a b)

abbrev pub is_less_or_same : Decimal → Decimal → Bool
is_less_or_same a b = not (above (relation_to a b))
