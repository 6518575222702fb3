-- ===== src/Assertion/Results.antt =====
-- Which result of a test stands.
use kaiu.Base.{
  ℕ, ◌≡◌, refl, sym, ap, ◌∙◌, true, false, List, [], ◌∷◌, ◌==◌, if◌then◌else◌, Option, none, some,
  inl, inr, Bool-cases, arith,
}
use mathlib.Core.Option
use kaiu.Base.Action.{Outcome, done, thrown, final}
use kaiu.Assertion.State.{
  Result, unknown, skipped, passed, failed, Fault, Entry, Entries, assign, with_rest, with_first,
  at_code, set_result, try_assign, try_pass, Call, sets, tries, perform, run,
}

-- The result of a test.
abbrev pub result_of : ℕ → Entries → Option Result
result_of code [] = none
result_of code (e ∷ es) = if e.code == code then some e.result else result_of code es

-- The first result other than unknown stands.
abbrev pub decide : Result → Result → Result
decide unknown x = x
decide r x = r

-- What a call asks for, of the test with this code.
abbrev pub asked : ℕ → Call → Result
asked code (sets c state note) = if c == code then state else unknown
asked code (tries c note) = if c == code then passed else unknown

abbrev pub verdict : ℕ → Result → List Call → Result
verdict code r [] = r
verdict code r (c ∷ cs) = verdict code (decide r (asked code c)) cs

abbrev Decides : Result → (Entry → Outcome Entry Fault (Unit {0})) → Type 0
Decides x f =
    (e : Entry) → ((final (f e)).code ≡ e.code) × ((final (f e)).result ≡ decide e.result x)

assign-Decides :
    (state : Result) (note : List ℕ) → Decides state (λ e. assign e.result state note e)
assign-Decides state note e = ground arith

try-Decides : (note : List ℕ) → Decides passed (λ e. try_assign e.result note e)
try-Decides note e = ground arith

decide-unknown : (r : Result) → decide r unknown ≡ r
decide-unknown unknown = refl
decide-unknown skipped = refl
decide-unknown passed = refl
decide-unknown failed = refl

map-unknown : (o : Option Result) → Option.map (λ r. decide r unknown) o ≡ o
map-unknown none = refl
map-unknown (some r) = ap some (decide-unknown r)

same-code : (a b c : ℕ) → (a == b) ≡ true → (a == c) ≡ (b == c)
same-code a b c h = ground arith

other-code : (a b c : ℕ) → (a == b) ≡ false → (a == c) ≡ true → (b == c) ≡ false
other-code a b c h k = ground arith

-- What a call to an entry does to the result of the test `c`.
abbrev effect : ℕ → ℕ → Result → Option Result → Option Result
effect code c x o = Option.map (λ r. decide r (if code == c then x else unknown)) o

module _ (code c : ℕ) (x : Result) (f : Entry → Outcome Entry Fault (Unit {0}))
    (d : Decides x f) where
  rest-result :
      (es : Entries) (e : Entry) (o : Outcome Entry Fault (Unit {0}))
      → final o ≡ e
      → result_of c (final (with_rest es o)) ≡ result_of c (e ∷ es)
  rest-result es e (done u v) h = ap (λ w. result_of c (w ∷ es)) h
  rest-result es e (thrown t v) h = ap (λ w. result_of c (w ∷ es)) h

  first-result :
      (e : Entry) (o : Outcome Entries Fault (Unit {0})) → final (with_first e o) ≡ e ∷ final o
  first-result e (done u es) = refl
  first-result e (thrown t es) = refl

  at-nil : final (at_code code f []) ≡ []
  unfolding at_code
  at-nil = refl

  at-here :
      (e : Entry) (es : Entries)
      → (e.code == code) ≡ true
      → at_code code f (e ∷ es) ≡ with_rest es (f e)
  unfolding at_code
  at-here e es h = rw h refl

  at-there :
      (e : Entry) (es : Entries)
      → (e.code == code) ≡ false
      → at_code code f (e ∷ es) ≡ with_first e (at_code code f es)
  unfolding at_code
  at-there e es h = rw h refl

  here-result :
      (e : Entry) (es : Entries)
      → (e.code == code) ≡ true
      → result_of c (final (f e) ∷ es) ≡ effect code c x (result_of c (e ∷ es))
  here-result e es h = elim (Bool-cases (e.code == c)) [
    | inl k ↦ rw ((d e).0, (d e).1, k, sym (same-code e.code code c h) ∙ k) refl
    | inr k ↦
        rw ((d e).0, k, sym (same-code e.code code c h) ∙ k) (sym (map-unknown (result_of c es)))
  ]

  at-result :
      (es : Entries) → result_of c (final (at_code code f es)) ≡ effect code c x (result_of c es)
  at-result [] = rw at-nil refl
  at-result (e ∷ es) = elim (Bool-cases (e.code == code)) [
    | inl h ↦ rw (at-here e es h) (rest-result es (final (f e)) (f e) refl ∙ here-result e es h)
    | inr h ↦
        rw (at-there e es h, first-result e (at_code code f es))
          (elim (Bool-cases (e.code == c)) [
            | inl k ↦ rw (k, other-code e.code code c h k) (ap some (sym (decide-unknown e.result)))
            | inr k ↦ rw k (at-result es)
          ])
  ]

perform-result :
    (c : ℕ) (x : Call) (es : Entries)
    → result_of c (final (perform x es)) ≡ Option.map (λ r. decide r (asked c x)) (result_of c es)
unfolding perform set_result try_pass
perform-result c (sets code state note) es =
    at-result code c state (λ e. assign e.result state note e) (assign-Decides state note) es
perform-result c (tries code note) es =
    at-result code c passed (λ e. try_assign e.result note e) (try-Decides note) es

map-compose :
    (c : ℕ) (x : Call) (xs : List Call) (o : Option Result)
    → Option.map (λ r. verdict c r xs) (Option.map (λ r. decide r (asked c x)) o)
      ≡ Option.map (λ r. verdict c r (x ∷ xs)) o
map-compose c x xs none = refl
map-compose c x xs (some r) = refl

map-same : (o : Option Result) → Option.map (λ r. r) o ≡ o
map-same none = refl
map-same (some r) = refl

-- After any calls, exceptions included, the result of a test is the first that was asked for it and
-- is not unknown, where it had none before, and the one it had otherwise; a code that is no test's
-- gets none.
pub run-verdict :
    (code : ℕ) (calls : List Call) (es : Entries)
    → result_of code (run calls es) ≡ Option.map (λ r. verdict code r calls) (result_of code es)
unfolding run
run-verdict code [] es = sym (map-same (result_of code es))
run-verdict code (x ∷ xs) es =
    run-verdict code xs (final (perform x es))
    ∙ ap (Option.map (λ r. verdict code r xs)) (perform-result code x es)
    ∙ map-compose code x xs (result_of code es)
