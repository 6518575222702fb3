-- ===== src/Assertion/State.antt =====
-- `Assertions` (assertion.h and assertion.cpp). A test's code is a name, and so a number here; a note
-- is the list of its characters. What is printed is in Report.
use kaiu.Base.{
  ℕ, ◌+◌, Bool, true, false, List, [], ◌∷◌, ◌++◌, ◌==◌, if◌then◌else◌, Option, none, some,
}
use kaiu.Base.Action.{Outcome, done, thrown, final}

pub data Result : Type 0 where
  unknown skipped passed failed : Result

-- `logic_error` for a second result, `out_of_range` for a code that is no test's.
pub data Fault : Type 0 where
  two_results unknown_assertion : Fault

pub record Entry : Type 0 where
  pub code : ℕ
  pub result : Result
  pub note : List ℕ

abbrev pub Entries : Type 0
Entries = List Entry

-- Whether a code is in the table.
abbrev pub has : ℕ → Entries → Bool
has code [] = false
has code (e ∷ es) = if e.code == code then true else has code es

-- The constructor: a heading has no code, and `none` is the exception for a code that stands twice.
unfoldable pub construct : List (Option ℕ) → Entries → Option Entries
construct [] es = some es
construct (none ∷ codes) es = construct codes es
construct (some code ∷ codes) es =
    let rest = construct codes (es ++ (record { code = code; result = unknown; note = [] } ∷ [])) in
    if has code es then none else rest

-- " also ", in bold.
abbrev pub also : List ℕ
also = 32 ∷ 27 ∷ 91 ∷ 49 ∷ 109 ∷ 97 ∷ 108 ∷ 115 ∷ 111 ∷ 27 ∷ 91 ∷ 50 ∷ 50 ∷ 109 ∷ 32 ∷ []

abbrev pub add_note : List ℕ → List ℕ → List ℕ
add_note [] note = note
add_note (c ∷ cs) note = (c ∷ cs) ++ (also ++ note)

-- `_set`, on the entry that `_get` gives.
abbrev pub assign : Result → Result → List ℕ → Entry → Outcome Entry Fault (Unit {0})
assign unknown state note e = done tt (record e { result = state; note = note })
assign failed failed note e = done tt (record e { note = add_note e.note note })
assign failed state note e = done tt e
assign skipped state note e = thrown two_results e
assign passed state note e = thrown two_results e

abbrev pub with_rest : Entries → Outcome Entry Fault (Unit {0}) → Outcome Entries Fault (Unit {0})
with_rest es (done u e) = done u (e ∷ es)
with_rest es (thrown f e) = thrown f (e ∷ es)

abbrev pub with_first : Entry → Outcome Entries Fault (Unit {0}) → Outcome Entries Fault (Unit {0})
with_first e (done u es) = done u (e ∷ es)
with_first e (thrown f es) = thrown f (e ∷ es)

-- `_get`, and a change of the entry.
unfoldable pub at_code :
    ℕ → (Entry → Outcome Entry Fault (Unit {0})) → Entries → Outcome Entries Fault (Unit {0})
at_code code f [] = thrown unknown_assertion []
at_code code f (e ∷ es) =
    let rest = at_code code f es in if e.code == code then with_rest es (f e) else with_first e rest

unfoldable pub set_result : ℕ → Result → List ℕ → Entries → Outcome Entries Fault (Unit {0})
unfolding at_code
set_result code state note = at_code code (λ e. assign e.result state note e)

-- `pass`, `fail` and `skip`.
unfoldable pub pass : ℕ → List ℕ → Entries → Outcome Entries Fault (Unit {0})
unfolding set_result
pass code note = set_result code passed note

unfoldable pub fail : ℕ → List ℕ → Entries → Outcome Entries Fault (Unit {0})
unfolding set_result
fail code note = set_result code failed note

unfoldable pub skip : ℕ → List ℕ → Entries → Outcome Entries Fault (Unit {0})
unfolding set_result
skip code note = set_result code skipped note

abbrev pub try_assign : Result → List ℕ → Entry → Outcome Entry Fault (Unit {0})
try_assign unknown note e = assign unknown passed note e
try_assign r note e = done tt e

unfoldable pub try_pass : ℕ → List ℕ → Entries → Outcome Entries Fault (Unit {0})
unfolding at_code
try_pass code note = at_code code (λ e. try_assign e.result note e)

-- A call of a test program.
pub data Call : Type 0 where
  sets : ℕ → Result → List ℕ → Call
  tries : ℕ → List ℕ → Call

unfoldable pub perform : Call → Entries → Outcome Entries Fault (Unit {0})
unfolding set_result try_pass
perform (sets code state note) es = set_result code state note es
perform (tries code note) es = try_pass code note es

-- Calls in turn; an exception goes to the caller of that one.
unfoldable pub run : List Call → Entries → Entries
run [] es = es
run (c ∷ cs) es = run cs (final (perform c es))

abbrev pub is_bad : Result → ℕ
is_bad failed = 1
is_bad unknown = 1
is_bad _ = 0

-- What `print` returns: how many tests have failed or have no result.
unfoldable pub print : Entries → ℕ
print [] = 0
print (e ∷ es) = is_bad e.result + print es
