-- ===== src/Decimal/Tests.antt =====
-- Decimals at particular values.
use kaiu.Base.{refl, zero, suc, replicate, ℕ, ◌+◌, ◌*◌, ◌≡◌, List, [], ◌∷◌, inr, some, arith}
use mathlib.Core.Option
use kaiu.Base.Action.{done}
use kaiu.Decimal.Digits.{Decimal, relation_to}
use kaiu.Decimal.Arithmetic.{add, subtract, multiply, factorial}
use kaiu.Decimal.Convert.{from_string, to_string}
use kaiu.Decimal.Parallel.{parallel_multiply}
use kaiu.Decimal.Workers.{parallel_multiply-lem}
use mathlib.Core.List.{Permᴰ}
use kaiu.Decimal.Value.{Valid, Top, value, Good}
use kaiu.Decimal.Sum.{add-lem}
use kaiu.Decimal.Difference.{subtract-lem}
use kaiu.Decimal.Product.{multiply-lem}
use kaiu.Decimal.Factorial.{fact, factorial-lem}
use kaiu.Decimal.Compare.{order, relation_to-lem}
use kaiu.Decimal.Text.{read, from_string-value, from_string-to_string}

-- 95 and 7.
abbrev large : Decimal
large = 5 ∷ 9 ∷ []

abbrev small : Decimal
small = 7 ∷ []

large-Good : Good large
large-Good = record { valid = (omega arith, (omega arith, tt)); trimmed = inr (omega arith) }

small-Good : Good small
small-Good = record { valid = (omega arith, tt); trimmed = inr (omega arith) }

add-lem_example : (value (add large small) ≡ value large + value small) × Good (add large small)
add-lem_example = add-lem large small large-Good small-Good

subtract-lem_example :
    (c : Decimal) × (subtract large small ≡ done tt c)
    × (value c + value small ≡ value large)
    × Good c
subtract-lem_example = subtract-lem large small large-Good small-Good (omega arith)

multiply-lem_example :
    (value (multiply large small) ≡ value large * value small) × Good (multiply large small)
multiply-lem_example = multiply-lem large small large-Good small-Good

factorial-lem_example :
    (c : Decimal) × (factorial (value small) small ≡ some c)
    × (value c ≡ fact (value small))
    × Good c
factorial-lem_example = factorial-lem small small-Good

relation_to-lem_example : relation_to large small ≡ order (value large) (value small)
relation_to-lem_example = relation_to-lem large small large-Good small-Good

-- "1,095".
abbrev text : List ℕ
text = 49 ∷ 44 ∷ 48 ∷ 57 ∷ 53 ∷ []

from_string-value_example : Option.map value (from_string text) ≡ read 0 text
from_string-value_example = from_string-value text

from_string-to_string_example : from_string (to_string large) ≡ some large
from_string-to_string_example = from_string-to_string large large-Good

-- 2,000 ones, for two workers.
abbrev ones : Decimal
ones = replicate 2000 1

ones-Valid : (n : ℕ) → Valid (replicate n 1)
ones-Valid zero = tt
ones-Valid (suc n) = (omega arith, ones-Valid n)

ones-Top : (n : ℕ) → Top (replicate (suc n) 1)
ones-Top zero = omega arith
ones-Top (suc n) = ones-Top n

ones-Good : Good ones
ones-Good = record { valid = ones-Valid 2000; trimmed = inr (ones-Top 1999) }

parallel_multiply-lem_example :
    (value (parallel_multiply 2 (0 ∷ 1 ∷ []) ones ones) ≡ value ones * value ones)
    × Good (parallel_multiply 2 (0 ∷ 1 ∷ []) ones ones)
parallel_multiply-lem_example =
    parallel_multiply-lem 2 (0 ∷ 1 ∷ []) ones ones ones-Good ones-Good (Permᴰ.swap refl refl)
