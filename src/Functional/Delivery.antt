-- ===== src/Functional/Delivery.antt =====
-- Which values reach a curried function: those of the variables that were captured by reference are read
-- at the call, all others where they were written.
use kaiu.Base.{
  list_laws, ℕ, suc, ◌+◌, ◌≡◌, refl, sym, ap, ◌∙◌, false, Option, none, some, List, [], ◌∷◌, ◌++◌,
  map, append_assoc, append-nil, ◌<◌, ◌≤◌, length, length-append, length-snoc, get_elem?-append,
  leb, ◌==◌, if◌then◌else◌, arith, Bool-cases, inl, inr,
}
use kaiu.Functional.Curried.{
  Arg, Captured, Memory, CurriedFunction, lvalue, rvalue, by_value, by_reference, value_of, read,
  capture, index_sequence, gather, invoke_with_tuple, apply, shift_reference, shift, invoke, call,
  ◌>>=◌,
}

-- What a program does between wrapping a function and calling it.
pub data Step (A : Type 0) : Type 0 where
  applies : List (Arg A) → Step A
  shifts : Arg A → Step A
  shifts_reference : ℕ → Step A
  writes : ℕ → A → Step A

module _ {A : Type 0} where
  abbrev pub write : ℕ → A → Memory A → Memory A
  write x a m y = if y == x then a else m y

  -- What a step captures, and the memory after it.
  abbrev pub captured_by : Memory A → Step A → List (Captured A)
  captured_by m (applies args) = map capture args
  captured_by m (shifts arg) = by_value (value_of m arg) ∷ []
  captured_by m (shifts_reference x) = by_reference x ∷ []
  captured_by m (writes x a) = []

  abbrev pub after : Memory A → Step A → Memory A
  after m (writes x a) = write x a m
  after m _ = m

  abbrev pub memory_after : List (Step A) → Memory A → Memory A
  memory_after [] m = m
  memory_after (s ∷ ss) m = memory_after ss (after m s)

  abbrev pub captured : List (Step A) → Memory A → List (Captured A)
  captured [] m = []
  captured (s ∷ ss) m = captured_by m s ++ captured ss (after m s)

module _ {A R : Type 0} where
  abbrev pub take_step : Memory A → Step A → CurriedFunction A R → Option (CurriedFunction A R)
  take_step m (applies args) c = apply args c
  take_step m (shifts arg) c = shift m arg c
  take_step m (shifts_reference x) c = shift_reference x c
  take_step m (writes x a) c = some c

  -- The steps in turn, and a call in the memory that they leave.
  unfoldable pub run_steps :
      List (Step A) → List (Arg A) → Memory A → CurriedFunction A R → Option R
  run_steps [] last m c = call m last c
  run_steps (s ∷ ss) last m c = take_step m s c >>= run_steps ss last (after m s)

module _ {T : Type 0} where
  length-map : {U : Type 0} (f : T → U) (xs : List T) → length (map f xs) ≡ length xs
  length-map f [] = refl
  length-map f (x ∷ xs) = ap suc (length-map f xs)

  gather-index_sequence :
      (xs ys : List T) → gather (index_sequence (length xs) (length ys)) (xs ++ ys) ≡ some ys
  gather-index_sequence xs [] = refl
  gather-index_sequence xs (y ∷ ys) = rw (
    get_elem?-append xs ys y,
    sym (length-snoc xs y),
    sym (append_assoc xs (y ∷ []) ys),
    gather-index_sequence (xs ++ y ∷ []) ys,
  )

  invoke_with_tuple-eq :
      {R : Type 0} (f : List T → R) (xs : List T) → invoke_with_tuple f xs ≡ some (f xs)
  unfolding invoke_with_tuple
  invoke_with_tuple-eq f xs = rw (gather-index_sequence [] xs)

module _ {A R : Type 0} where
  abbrev extend : List (Captured A) → CurriedFunction A R → CurriedFunction A R
  extend ks c = record c { curried_args = c.curried_args ++ ks }

  -- All arguments that a function has been given, delivered if their number is its arity.
  abbrev pub delivered : List (Captured A) → Memory A → CurriedFunction A R → Option R
  delivered given m c = if length given == c.arity then some (c.func (map (read m) given)) else none

  delivered-lt :
      (given : List (Captured A)) (m : Memory A) (c : CurriedFunction A R)
      → c.arity < length given
      → delivered given m c ≡ none
  delivered-lt given m c h = ground arith

  invoke-eq : (m : Memory A) (c : CurriedFunction A R) → invoke m c ≡ delivered c.curried_args m c
  unfolding invoke
  invoke-eq m c =
      ground (arith, invoke_with_tuple-eq (λ args. c.func (map (read m) args)) c.curried_args)

  apply-eq :
      (args : List (Arg A)) (c : CurriedFunction A R)
      → apply args c ≡ (
          if leb (length c.curried_args + length args) c.arity
          then some (extend (map capture args) c)
          else none)
  unfolding apply
  apply-eq args c = refl

  call-eq :
      (m : Memory A) (last : List (Arg A)) (c : CurriedFunction A R)
      → call m last c ≡ delivered (c.curried_args ++ map capture last) m c
  unfolding call
  call-eq m [] c = ground (arith, invoke-eq m c, append-nil c.curried_args)
  call-eq m (x ∷ xs) c = ground (
    arith,
    apply-eq (x ∷ xs) c,
    invoke-eq m (extend (map capture (x ∷ xs)) c),
    length-append c.curried_args (map capture (x ∷ xs)),
    length-map capture xs,
  )

  -- A step that captures, whatever its kind.
  take-eq :
      (m : Memory A) (s : Step A) (c : CurriedFunction A R)
      → length c.curried_args ≤ c.arity
      → take_step m s c ≡ (
          if leb (length (c.curried_args ++ captured_by m s)) c.arity
          then some (extend (captured_by m s) c)
          else none)
  unfolding shift shift_reference
  take-eq m (applies args) c h = ground (
    arith,
    apply-eq args c,
    length-append c.curried_args (map capture args),
    length-map capture args,
  )
  take-eq m (shifts arg) c h = ground (
    arith,
    apply-eq (rvalue (value_of m arg) ∷ []) c,
    length-snoc c.curried_args (by_value (value_of m arg)),
  )
  take-eq m (shifts_reference x) c h =
      ground (arith, apply-eq (lvalue x ∷ []) c, length-snoc c.curried_args (by_reference x))
  take-eq m (writes x a) c h = ground (arith, append-nil c.curried_args)

  regroup :
      (m : Memory A) (s : Step A) (ss : List (Step A)) (last : List (Arg A))
      (c : CurriedFunction A R)
      → (c.curried_args ++ captured_by m s) ++ (captured ss (after m s) ++ map capture last)
        ≡ c.curried_args ++ (captured (s ∷ ss) m ++ map capture last)
  regroup m s ss last c = simp list_laws

  too_many :
      (m : Memory A) (s : Step A) (ss : List (Step A)) (last : List (Arg A))
      (c : CurriedFunction A R)
      → leb (length (c.curried_args ++ captured_by m s)) c.arity ≡ false
      → c.arity
        < length
            ((c.curried_args ++ captured_by m s) ++ (captured ss (after m s) ++ map capture last))
  too_many m s ss last c e = ground (
    arith,
    length-append (c.curried_args ++ captured_by m s) (captured ss (after m s) ++ map capture last),
  )

  -- Whatever is curried and in whatever groups, and whatever is written to variables between: the
  -- program compiles exactly when the number of arguments given is the arity, and the function is
  -- then called with them in the order given; those that apply, () or a reference wrapper
  -- captured from a variable have the value of the variable at the call, all others the value at
  -- the step that gave them.
  pub run_steps-lem :
      (steps : List (Step A)) (last : List (Arg A)) (m : Memory A) (c : CurriedFunction A R)
      → length c.curried_args ≤ c.arity
      → run_steps steps last m c
        ≡ delivered
            (c.curried_args ++ (captured steps m ++ map capture last))
            (memory_after steps m)
            c
  unfolding run_steps
  run_steps-lem [] last m c h = call-eq m last c
  run_steps-lem (s ∷ ss) last m c h =
      elim (Bool-cases (leb (length (c.curried_args ++ captured_by m s)) c.arity)) [
        | inl e ↦
            rw (take-eq m s c h, e)
              (run_steps-lem ss last (after m s) (extend (captured_by m s) c) (ground arith)
                ∙ ap (λ given. delivered given (memory_after ss (after m s)) c)
                    (regroup m s ss last c))
        | inr e ↦
            rw (take-eq m s c h, e)
              (sym (delivered-lt _ _ c (rw (← regroup m s ss last c) (too_many m s ss last c e))))
      ]
