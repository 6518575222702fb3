-- ===== src/Decimal/Text.antt =====
-- Decimals read from strings and written to them.
use kaiu.Base.{
  ℕ, suc, ◌+◌, ◌-◌, ◌*◌, ◌%◌, ◌<◌, ◌≡◌, refl, ap, subst, ◌∙◌, inl, inr, true, false, ◌&&◌, List, [],
  ◌∷◌, ◌==◌, if◌then◌else◌, ltb, Option, none, some, arith, Bool-cases,
}
use mathlib.Core.List.{reverse, reverse_aux, reverse-reverse}
use mathlib.Core.Option
use kaiu.Decimal.Digits.{Decimal, remove_lz}
use kaiu.Decimal.Convert.{
  comma, digit_zero, is_digit, parse_loop, from_string, group_loop, to_string,
}
use kaiu.Decimal.Value.{value, Valid, Good, remove_lz-Good}
use kaiu.Decimal.Compare.{value_unique}

-- A number read from the front, commas left out.
abbrev pub read : ℕ → List ℕ → Option ℕ
read n [] = some n
read n (c ∷ cs) =
    if c == comma
    then read n cs
    else if is_digit c
    then read (10 * n + (c - digit_zero)) cs
    else none

remove_lz-id : (a : Decimal) → Good a → remove_lz a ≡ a
remove_lz-id a g = let r = remove_lz-Good a g.valid in value_unique (remove_lz a) a r.1 g r.0

not_comma : (d : ℕ) → ((d + digit_zero) == comma) ≡ false
not_comma d = ground arith

digit-of : (d : ℕ) → d < 10 → is_digit (d + digit_zero) ≡ true
digit-of d h = ground arith

module _ (c : ℕ) (cs : List ℕ) where
  parse-skip : (c == comma) ≡ true → parse_loop (c ∷ cs) ≡ parse_loop cs
  unfolding parse_loop
  parse-skip h = rw h refl

  parse-take :
      (c == comma) ≡ false
      → is_digit c ≡ true
      → parse_loop (c ∷ cs) ≡ Option.map (λ ds. (c - digit_zero) ∷ ds) (parse_loop cs)
  unfolding parse_loop
  parse-take h k = rw (h, k) refl

  parse-refuse : (c == comma) ≡ false → is_digit c ≡ false → parse_loop (c ∷ cs) ≡ none
  unfolding parse_loop
  parse-refuse h k = rw (h, k) refl

  parse-none_cons : parse_loop cs ≡ none → parse_loop (c ∷ cs) ≡ none
  parse-none_cons q = elim (Bool-cases (c == comma)) [
    | inl h ↦ parse-skip h ∙ q
    | inr h ↦ elim (Bool-cases (is_digit c)) [
      | inl k ↦ parse-take h k ∙ ap (Option.map (λ ds. (c - digit_zero) ∷ ds)) q
      | inr k ↦ parse-refuse h k
    ]
  ]

parse-digit :
    (d : ℕ) (cs : List ℕ)
    → d < 10
    → parse_loop ((d + digit_zero) ∷ cs) ≡ Option.map (λ ds. d ∷ ds) (parse_loop cs)
parse-digit d cs h =
    parse-take (d + digit_zero) cs (not_comma d) (digit-of d h)
    ∙ ap (λ n. Option.map (λ ds. n ∷ ds) (parse_loop cs)) (omega arith)

parse-nothing : parse_loop [] ≡ some []
unfolding parse_loop
parse-nothing = refl

parse-group : (k : ℕ) (a : Decimal) → Valid a → parse_loop (group_loop k a) ≡ some a
unfolding group_loop
parse-group k [] v = parse-nothing
parse-group k (d ∷ a) v = elim (Bool-cases (ltb 0 k && (k % 3 == 0))) [
  | inl e ↦ rw e (
      parse-skip comma ((d + digit_zero) ∷ group_loop (suc k) a) refl
      ∙ parse-digit d (group_loop (suc k) a) v.0
      ∙ rw (parse-group (suc k) a v.1) refl)
  | inr e ↦ rw e (parse-digit d (group_loop (suc k) a) v.0 ∙ rw (parse-group (suc k) a v.1) refl)
]

-- A decimal without leading zeros that is written to a string and read again is the same decimal.
pub from_string-to_string : (a : Decimal) → Good a → from_string (to_string a) ≡ some a
unfolding from_string to_string
from_string-to_string a g =
    rw (reverse-reverse (group_loop 0 a), parse-group 0 a g.valid) (ap some (remove_lz-id a g))

parse-none : (s r : List ℕ) → parse_loop r ≡ none → parse_loop (reverse_aux s r) ≡ none
parse-none [] r h = h
parse-none (c ∷ s) r h = parse-none s (c ∷ r) (parse-none_cons c r h)

parse-read :
    (s r : List ℕ) (ds : Decimal)
    → parse_loop r ≡ some ds
    → Option.map value (parse_loop (reverse_aux s r)) ≡ read (value ds) s
parse-read [] r ds h = rw h refl
parse-read (c ∷ s) r ds h = elim (Bool-cases (c == comma)) [
  | inl k ↦ rw (k, read) (parse-read s (c ∷ r) ds (parse-skip c r k ∙ h))
  | inr k ↦ elim (Bool-cases (is_digit c)) [
    | inl q ↦
        rw (k, q, read)
          (parse-read s (c ∷ r) ((c - digit_zero) ∷ ds)
              (parse-take c r k q ∙ ap (Option.map (λ es. (c - digit_zero) ∷ es)) h)
            ∙ ap (λ n. read n s) (omega arith))
    | inr q ↦ rw (k, q, read) (ap (Option.map value) (parse-none s (c ∷ r) (parse-refuse c r k q)))
  ]
]

map-remove_lz :
    (o : Option Decimal)
    → ((ds : Decimal) → o ≡ some ds → Valid ds)
    → Option.map value (Option.map remove_lz o) ≡ Option.map value o
map-remove_lz none v = refl
map-remove_lz (some ds) v = ap some ((remove_lz-Good ds (v ds refl)).0)

-- Of an optional decimal: its digits are valid.
abbrev Fine : Option Decimal → Type 0
Fine none = Unit
Fine (some ds) = Valid ds

Fine-cons : (d : ℕ) (o : Option Decimal) → d < 10 → Fine o → Fine (Option.map (λ ds. d ∷ ds) o)
Fine-cons d none h v = tt
Fine-cons d (some ds) h v = (h, v)

digit-small : (c : ℕ) → is_digit c ≡ true → c - digit_zero < 10
digit-small c h = ground arith

parse-Fine : (cs : List ℕ) → Fine (parse_loop cs)
parse-Fine [] = rw parse-nothing tt
parse-Fine (c ∷ cs) = elim (Bool-cases (c == comma)) [
  | inl h ↦ rw (parse-skip c cs h) (parse-Fine cs)
  | inr h ↦ elim (Bool-cases (is_digit c)) [
    | inl k ↦
        rw (parse-take c cs h k)
          (Fine-cons (c - digit_zero) (parse_loop cs) (digit-small c k) (parse-Fine cs))
    | inr k ↦ rw (parse-refuse c cs h k) tt
  ]
]

parse-Valid : (cs : List ℕ) (ds : Decimal) → parse_loop cs ≡ some ds → Valid ds
parse-Valid cs ds e = subst Fine e (parse-Fine cs)

-- A string read as a decimal has the value of its digits from the front, commas left out; a string
-- with any other character is refused.
pub from_string-value : (s : List ℕ) → Option.map value (from_string s) ≡ read 0 s
unfolding from_string
from_string-value s =
    map-remove_lz (parse_loop (reverse s)) (parse-Valid (reverse s))
    ∙ parse-read s [] [] parse-nothing
