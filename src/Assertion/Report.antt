-- ===== src/Assertion/Report.antt =====
-- What `Assertions` prints (assertion.cpp). A piece is what one `<<` writes, without the codes that
-- set colours; the time that a test took is a parameter.
use kaiu.Base.{
  ℕ, suc, ◌+◌, Bool, true, false, not, ◌||◌, List, [], ◌∷◌, ◌++◌, ◌==◌, if◌then◌else◌, Option, none,
  some,
}
use kaiu.Assertion.State.{Result, unknown, skipped, passed, failed, Entries}

pub data Piece : Type 0 where
  newline all_passed unknown_error : Piece
  heading note_of logic_error runtime_error other_exception : List ℕ → Piece
  mark : Result → List ℕ → Piece
  passed_count failed_count skipped_count missed_count code_of elapsed : ℕ → Piece

-- A `stringstream`: while its failbit is set, nothing is written.
pub record Out : Type 0 where
  pub written : List Piece
  pub failbit : Bool

unfoldable pub put_pieces : List Piece → Out → Out
put_pieces ps o = if o.failbit then o else record o { written = o.written ++ ps }

-- `<< rdbuf()` sets the failbit where it writes nothing.
unfoldable pub put_buffer : List Piece → Out → Out
put_buffer [] o = record o { failbit = true }
put_buffer (p ∷ ps) o = put_pieces (p ∷ ps) o

-- `count`, with a number for each result.
pub record Counts : Type 0 where
  pub of_passed : ℕ
  pub of_failed : ℕ
  pub of_skipped : ℕ
  pub of_unknown : ℕ

unfoldable pub increment : Result → Counts → Counts
increment passed c = record c { of_passed = suc c.of_passed }
increment failed c = record c { of_failed = suc c.of_failed }
increment skipped c = record c { of_skipped = suc c.of_skipped }
increment unknown c = record c { of_unknown = suc c.of_unknown }

pub record Printing : Type 0 where
  pub out : Out
  pub fail_codes : List Piece
  pub count : Counts

-- `list[code]`: the result and the note of a code that has no entry are those of a new entry.
unfoldable pub result_at : ℕ → Entries → Result
result_at code [] = unknown
result_at code (e ∷ es) = let rest = result_at code es in if e.code == code then e.result else rest

unfoldable pub note_at : ℕ → Entries → List ℕ
note_at code [] = []
note_at code (e ∷ es) = let rest = note_at code es in if e.code == code then e.note else rest

abbrev pub failing : Result → ℕ → List Piece
failing failed code = code_of code ∷ []
failing unknown code = code_of code ∷ []
failing _ code = []

abbrev pub noted : List ℕ → List Piece
noted [] = []
noted (c ∷ cs) = note_of (c ∷ cs) ∷ []

-- A heading or a test, as the constructor is given it.
pub record Line : Type 0 where
  pub code : Option ℕ
  pub title : List ℕ

abbrev pub print_code : Option ℕ → List ℕ → Entries → Printing → Printing
print_code none title es s = record s {
  out = put_pieces (newline ∷ heading title ∷ newline ∷ []) s.out;
}
print_code (some code) title es s =
    let result = result_at code es in
    record {
      out =
          put_pieces (newline ∷ [])
            (put_pieces (noted (note_at code es)) (put_pieces (mark result title ∷ []) s.out));
      fail_codes = s.fail_codes ++ failing result code;
      count = increment result s.count;
    }

unfoldable pub print_lines : List Line → Entries → Printing → Printing
print_lines [] es s = s
print_lines (l ∷ ls) es s = print_lines ls es (print_code l.code l.title es s)

abbrev pub start_printing : Printing
start_printing = record {
  out = record { written = []; failbit = false };
  fail_codes = [];
  count = record { of_passed = 0; of_failed = 0; of_skipped = 0; of_unknown = 0 };
}

-- A count that is printed unless it is zero.
abbrev pub unless_zero : ℕ → Piece → List Piece
unless_zero n p = if n == 0 then [] else p ∷ newline ∷ []

unfoldable pub summary : ℕ → Printing → Out
summary time s = put_pieces (elapsed time ∷ newline ∷ []) (
    put_pieces (unless_zero s.count.of_unknown (missed_count s.count.of_unknown)) (
      put_pieces (unless_zero s.count.of_skipped (skipped_count s.count.of_skipped)) (
        put_pieces (newline ∷ []) (
          put_buffer s.fail_codes (
            put_pieces
              (newline
                ∷ passed_count s.count.of_passed
                ∷ newline
                ∷ failed_count s.count.of_failed
                ∷ [])
              s.out)))))

abbrev pub not_perfect : Counts → Bool
not_perfect c = not (c.of_failed + c.of_skipped + c.of_unknown == 0)

-- `_print`: what it writes, and the number that it returns.
pub record Report : Type 0 where
  pub shown : List Piece
  pub returned : ℕ

unfoldable pub print_report : Bool → ℕ → List Line → Entries → Report
print_report always time lines es =
    let s = print_lines lines es start_printing in
    record {
      shown =
          if always || not_perfect s.count
          then (summary time s).written ++ (newline ∷ [])
          else all_passed ∷ elapsed time ∷ newline ∷ [];
      returned = s.count.of_failed + s.count.of_unknown;
    }

-- `--test-silent-if-perfect` among the arguments of the program, the first of which is its name.
abbrev pub same_text : List ℕ → List ℕ → Bool
same_text [] [] = true
same_text (c ∷ cs) (d ∷ ds) = if c == d then same_text cs ds else false
same_text _ _ = false

unfoldable pub any_same : List ℕ → List (List ℕ) → Bool
any_same flag [] = false
any_same flag (arg ∷ args) = same_text arg flag || any_same flag args

unfoldable pub print_with : List ℕ → List (List ℕ) → ℕ → List Line → Entries → Report
unfolding print_report any_same
print_with flag [] time lines es = print_report true time lines es
print_with flag (name ∷ args) time lines es = print_report (not (any_same flag args)) time lines es
