-- ===== src/Assertion/Object.antt =====
-- `Assertions` as an object: what is printed in its life, and the object that signals are for.
use kaiu.Base.{
  arith, ℕ, Bool, true, false, ◌||◌, ◌≡◌, refl, List, [], ◌∷◌, ◌==◌, if◌then◌else◌, Option, none,
  some,
}
use kaiu.Base.Action.{Outcome, final}
use kaiu.Assertion.State.{Entries, Fault, Call, perform, pass, fail, construct}
use kaiu.Assertion.Report.{
  Piece, newline, logic_error, runtime_error, other_exception, unknown_error, Line, print_report,
}

-- `expect`, with the `==` of its arguments.
unfoldable pub expect :
    {A B : Type 0}
    → (A → B → Bool)
    → A
    → B
    → ℕ
    → List ℕ
    → Entries
    → Outcome Entries Fault (Unit {0})
unfolding pass fail
expect equal t u code note es = if equal t u then pass code note es else fail code note es

-- The handlers of signals find the first object that stands.
unfoldable pub signals_attach : Option ℕ → ℕ → Option ℕ
signals_attach none object = some object
signals_attach (some other) object = some other

unfoldable pub signals_detach : Option ℕ → ℕ → Option ℕ
signals_detach none object = none
signals_detach (some other) object = if other == object then none else some other

pub record Assertions : Type 0 where
  pub strings : List Line
  pub entries : Entries
  pub printed : Bool

-- The constructor; `none` is its exception.
abbrev codes : List Line → List (Option ℕ)
codes [] = []
codes (l ∷ ls) = l.code ∷ codes ls

abbrev constructed : List Line → Option Entries → Option Assertions
constructed ls none = none
constructed ls (some es) = some (record { strings = ls; entries = es; printed = false })

unfoldable pub create : List Line → Option Assertions
unfolding construct
create ls = constructed ls (construct (codes ls) [])

-- `print`, and what it leaves of the object.
abbrev pub shown_by : Bool → ℕ → Assertions → List Piece
shown_by always time a = (print_report always time a.strings a.entries).shown

abbrev pub once_printed : Assertions → Assertions
once_printed a = record a { printed = true }

-- The current exception, with its `what()`.
pub data Raised : Type 0 where
  logic runtime other : List ℕ → Raised
  not_an_exception : Raised

abbrev pub message_of : Raised → Piece
message_of (logic what) = logic_error what
message_of (runtime what) = runtime_error what
message_of (other what) = other_exception what
message_of not_an_exception = unknown_error

-- `print_error` prints the exception first, if there is one, and then everything.
unfoldable pub print_error : Option Raised → ℕ → Assertions → List Piece
print_error none time a = []
print_error (some e) time a = message_of e ∷ newline ∷ shown_by true time a

abbrev error_printed : Option Raised → Assertions → Assertions
error_printed none a = a
error_printed (some e) a = once_printed a

-- The destructor prints unless something was printed before.
unfoldable pub destroy : ℕ → Assertions → List Piece
destroy time a = if a.printed then [] else shown_by false time a

-- What a test program does with the object.
pub data Use : Type 0 where
  calls : Call → Use
  prints : Bool → Use
  prints_error : Option Raised → Use

unfoldable pub use_once : Use → Assertions → Assertions
unfolding perform
use_once (calls c) a = record a { entries = final (perform c a.entries) }
use_once (prints always) a = once_printed a
use_once (prints_error e) a = error_printed e a

unfoldable pub use_all : List Use → Assertions → Assertions
use_all [] a = a
use_all (u ∷ us) a = use_all us (use_once u a)

abbrev pub is_print : Use → Bool
is_print (calls c) = false
is_print (prints always) = true
is_print (prints_error none) = false
is_print (prints_error (some e)) = true

abbrev pub any_print : List Use → Bool
any_print [] = false
any_print (u ∷ us) = is_print u || any_print us

use_once-printed : (u : Use) (a : Assertions) → (use_once u a).printed ≡ (a.printed || is_print u)
unfolding use_once
use_once-printed (calls c) a = ground arith
use_once-printed (prints always) a = ground arith
use_once-printed (prints_error none) a = ground arith
use_once-printed (prints_error (some e)) a = ground arith

use_all-printed :
    (us : List Use) (a : Assertions) → (use_all us a).printed ≡ (a.printed || any_print us)
unfolding use_all
use_all-printed [] a = ground arith
use_all-printed (u ∷ us) a = ground (arith, use_once-printed u a, use_all-printed us (use_once u a))

-- Whatever a test program does with the object, the destructor prints the report just when nothing
-- was printed before, and with all results set till then.
pub destroy-lem :
    (time : ℕ) (us : List Use) (a : Assertions)
    → destroy time (use_all us a)
      ≡ (if a.printed || any_print us then [] else shown_by false time (use_all us a))
unfolding destroy
destroy-lem time us a = rw (use_all-printed us a) refl
