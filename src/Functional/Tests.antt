-- ===== src/Functional/Tests.antt =====
-- Curried functions on particular arguments.
use kaiu.Base.{ℕ, ◌+◌, ◌*◌, ◌≡◌, refl, true, none, some, List, [], ◌∷◌, ◌++◌, map, arith}
use kaiu.Functional.Curried.{
  CurriedFunction, Memory, lvalue, rvalue, capture, curry_wrap, call, chain, apply, is_not_null,
  shift, ◌>>=◌,
}
use kaiu.Functional.Delivery.{
  Step, applies, shifts, writes, captured, memory_after, run_steps, delivered, run_steps-lem,
}

abbrev decimal : List ℕ → ℕ
decimal [] = 0
decimal (x ∷ xs) = x + 10 * decimal xs

abbrev digits : CurriedFunction ℕ ℕ
digits = record { arity = 3; func = decimal; curried_args = [] }

abbrev memory : Memory ℕ
memory x = 3

-- A variable is curried by value, written to, captured by reference, and written to again.
abbrev program : List (Step ℕ)
program = shifts (lvalue 0) ∷ writes 0 5 ∷ applies (lvalue 0 ∷ []) ∷ writes 0 7 ∷ []

run_steps-lem_example :
    run_steps program (rvalue 1 ∷ []) memory digits
    ≡ delivered
        ([] ++ (captured program memory ++ map capture (rvalue 1 ∷ [])))
        (memory_after program memory)
        digits
run_steps-lem_example = run_steps-lem program (rvalue 1 ∷ []) memory digits (omega arith)

-- The value curried is 3, the reference is read as 7.
run_program : run_steps program (rvalue 1 ∷ []) memory digits ≡ some 173
unfolding run_steps call shift
run_program = refl

one_too_many : run_steps program (rvalue 1 ∷ rvalue 2 ∷ []) memory digits ≡ none
unfolding run_steps call shift
one_too_many = refl

chained :
    (shift memory (rvalue 4) digits >>= λ c. apply (rvalue 5 ∷ []) c >>= chain memory (rvalue 6))
    ≡ some 654
unfolding chain shift
chained = refl

wrapped : is_not_null (curry_wrap 3 decimal) ≡ true
unfolding is_not_null
wrapped = refl
