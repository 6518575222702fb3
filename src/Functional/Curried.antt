-- ===== src/Functional/Curried.antt =====
-- `CurriedFunction`, `curry_wrap`, `invoke` and the chain operator of functional.h and functional.tcc. What
-- a static assertion or a disabled overload refuses at compile time is `none`. The arguments are of
-- one type; a functor reads its arguments and does not write to them.
use kaiu.Base.{
  ℕ, zero, suc, ◌+◌, ◌-◌, Bool, false, not, ◌&&◌, Option, none, some, List, [], ◌∷◌, ◌++◌, map,
  length, get_elem?, leb, ◌==◌, if◌then◌else◌,
}
use mathlib.Core.Option

-- An argument as it is written: a variable, or a temporary.
pub data Arg (A : Type 0) : Type 0 where
  lvalue : ℕ → Arg A
  rvalue : A → Arg A

-- An element of the tuple of curried arguments.
pub data Captured (A : Type 0) : Type 0 where
  by_value : A → Captured A
  by_reference : ℕ → Captured A

-- The values of the variables.
abbrev pub Memory : Type 0 → Type 0
Memory A = ℕ → A

pub record CurriedFunction (A R : Type 0) : Type 0 where
  pub arity : ℕ
  pub func : List A → R
  pub curried_args : List (Captured A)

infixl 5 ◌>>=◌
abbrev pub ◌>>=◌ : {A B : Type 0} → Option A → (A → Option B) → Option B
none >>= f = none
some a >>= f = f a

module _ {A : Type 0} where
  abbrev pub value_of : Memory A → Arg A → A
  value_of m (lvalue x) = m x
  value_of m (rvalue a) = a

  abbrev pub read : Memory A → Captured A → A
  read m (by_value a) = a
  read m (by_reference x) = m x

  -- A forwarding reference binds to a variable, and takes a temporary over.
  abbrev pub capture : Arg A → Captured A
  capture (lvalue x) = by_reference x
  capture (rvalue a) = by_value a

-- `std::make_index_sequence`, from `i` on.
abbrev pub index_sequence : ℕ → ℕ → List ℕ
index_sequence i zero = []
index_sequence i (suc n) = i ∷ index_sequence (suc i) n

module _ {T : Type 0} where
  -- `std::get<Indices>(tuple)...`
  abbrev pub gather : List ℕ → List T → Option (List T)
  gather [] tuple = some []
  gather (i ∷ is) tuple = get_elem? tuple i >>= λ x. gather is tuple >>= λ xs. some (x ∷ xs)

module _ {T R : Type 0} where
  unfoldable pub invoke_shuffle_args : (List T → R) → List ℕ → List T → Option R
  invoke_shuffle_args func indices tuple = Option.map func (gather indices tuple)

  unfoldable pub invoke_with_tuple : (List T → R) → List T → Option R
  unfolding invoke_shuffle_args
  invoke_with_tuple func tuple = invoke_shuffle_args func (index_sequence 0 (length tuple)) tuple

module _ {A R : Type 0} where
  -- `curry_wrap`
  unfoldable pub curry_wrap : ℕ → (List A → R) → CurriedFunction A R
  curry_wrap arity func = record { arity = arity; func = func; curried_args = [] }

  -- `CurriedFunction::arity`, of what remains.
  abbrev pub remaining : CurriedFunction A R → ℕ
  remaining c = c.arity - length c.curried_args

  -- `apply`
  unfoldable pub apply : List (Arg A) → CurriedFunction A R → Option (CurriedFunction A R)
  apply extra_args c =
      if leb (length c.curried_args + length extra_args) c.arity
      then some (record c { curried_args = c.curried_args ++ map capture extra_args })
      else none

  -- `operator <<` on a `std::reference_wrapper`, and on any other argument.
  unfoldable pub shift_reference : ℕ → CurriedFunction A R → Option (CurriedFunction A R)
  unfolding apply
  shift_reference x c = apply (lvalue x ∷ []) c

  unfoldable pub shift : Memory A → Arg A → CurriedFunction A R → Option (CurriedFunction A R)
  unfolding apply
  shift m arg c = apply (rvalue (value_of m arg) ∷ []) c

  -- `statically_check_args_count_for_invoke`
  unfoldable pub args_count_fits : ℕ → CurriedFunction A R → Bool
  args_count_fits num_args c = leb c.arity num_args && leb num_args c.arity

  unfoldable pub invoke : Memory A → CurriedFunction A R → Option R
  unfolding args_count_fits invoke_with_tuple
  invoke m c =
      if args_count_fits (length c.curried_args) c
      then invoke_with_tuple (λ args. c.func (map (read m) args)) c.curried_args
      else none

  -- `operator ()`: with arguments, and with none.
  unfoldable pub call : Memory A → List (Arg A) → CurriedFunction A R → Option R
  unfolding args_count_fits apply invoke
  call m [] c = if args_count_fits (length c.curried_args) c then invoke m c else none
  call m (x ∷ xs) c =
      if args_count_fits (length c.curried_args + length (x ∷ xs)) c
      then apply (x ∷ xs) c >>= invoke m
      else none

  -- The operator `,`, which takes a function of one parameter.
  unfoldable pub chain : Memory A → Arg A → CurriedFunction A R → Option R
  unfolding call
  chain m from to = if remaining to == 1 then call m (from ∷ []) to else none

  -- The comparisons with `nullptr`.
  unfoldable pub is_null : CurriedFunction A R → Bool
  is_null c = false

  unfoldable pub is_not_null : CurriedFunction A R → Bool
  unfolding is_null
  is_not_null c = not (is_null c)
