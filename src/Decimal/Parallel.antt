-- ===== src/Decimal/Parallel.antt =====
-- `parallel_multiply` of decimal.cpp. The number of cores is a parameter, and so is the order in
-- which the threads take the lock to add their parts to the result.
use kaiu.Base.{
  ℕ, zero, suc, ◌+◌, ◌-◌, ◌*◌, ◌/◌, List, [], ◌∷◌, ◌==◌, if◌then◌else◌, ltb, leb, length,
}
use kaiu.Decimal.Digits.{Decimal, zero_decimal, at, is_zero, is_unity, resize, remove_lz}
use kaiu.Decimal.Arithmetic.{add, row, multiply}

abbrev pub min : ℕ → ℕ → ℕ
min a b = if ltb b a then b else a

-- The loop of `partial_product`, with `n` digits of `a` to go, from the place `i` on.
unfoldable pub partial_loop : ℕ → ℕ → Decimal → Decimal → Decimal → Decimal
partial_loop zero i a b c = c
partial_loop (suc n) i a b c =
    let c' = add c (row i (at a i) b) in partial_loop n (suc i) a b (if at a i == 0 then c else c')

abbrev pub cleared : Decimal → Decimal → Decimal
cleared a b = resize (length a + length b) zero_decimal

-- What one worker adds to the result.
unfoldable pub partial_product : ℕ → ℕ → Decimal → Decimal → Decimal
unfolding partial_loop
partial_product begin end a b = partial_loop (end - begin) begin a b (cleared a b)

-- The range of the worker with a number starts here; the next one's start is its end.
abbrev pub begin_of : ℕ → ℕ → ℕ → ℕ
begin_of width workers worker = (width * worker) / workers

unfoldable pub collect : ℕ → List ℕ → Decimal → Decimal → Decimal → Decimal
unfolding partial_product
collect workers [] a b result = result
collect workers (k ∷ ks) a b result =
    let width = length a in
    let part = partial_product (begin_of width workers k) (begin_of width workers (suc k)) a b in
    collect workers ks a b (add result part)

abbrev pub workers_for : ℕ → Decimal → ℕ
workers_for cores a = min cores (length a / 1000)

-- The factors by length, `l` and `r` as they were given.
unfoldable pub parallel_ordered : ℕ → List ℕ → Decimal → Decimal → Decimal → Decimal → Decimal
unfolding collect
parallel_ordered cores order l r a b =
    if is_zero a
    then zero_decimal
    else if is_unity a
    then b
    else if workers_for cores a == 0
    then multiply l r
    else remove_lz (collect (workers_for cores a) order a b (cleared a b))

unfoldable pub parallel_multiply : ℕ → List ℕ → Decimal → Decimal → Decimal
unfolding parallel_ordered
parallel_multiply cores order l r =
    if leb (length l) (length r)
    then parallel_ordered cores order l r l r
    else parallel_ordered cores order l r r l
