-- ===== src/Assertion/Printed.antt =====
-- The lines of the report of the tests.
use kaiu.Base.{
  list_laws, ℕ, ◌+◌, Bool, true, false, ◌≡◌, refl, ◌∙◌, List, [], ◌∷◌, ◌++◌, Option, none, some,
  arith, append-nil,
}
use kaiu.Assertion.State.{Result, unknown, skipped, passed, failed, Entries}
use kaiu.Assertion.Report.{
  Piece, newline, heading, mark, Out, put_pieces, Counts, increment, Printing, result_at, note_at,
  failing, noted, Line, print_code, print_lines,
}

-- Each heading, and each test with its result and its note.
abbrev pub line_pieces : Option ℕ → List ℕ → Entries → List Piece
line_pieces none title es = newline ∷ heading title ∷ newline ∷ []
line_pieces (some code) title es =
    mark (result_at code es) title ∷ noted (note_at code es) ++ (newline ∷ [])

abbrev pub all_lines : List Line → Entries → List Piece
all_lines [] es = []
all_lines (l ∷ ls) es = line_pieces l.code l.title es ++ all_lines ls es

-- How many tests have a result.
abbrev pub is : Result → Result → ℕ
is passed passed = 1
is failed failed = 1
is skipped skipped = 1
is unknown unknown = 1
is _ _ = 0

abbrev pub one_if : Result → Option ℕ → Entries → ℕ
one_if r none es = 0
one_if r (some code) es = is r (result_at code es)

abbrev pub number : Result → List Line → Entries → ℕ
number r [] es = 0
number r (l ∷ ls) es = one_if r l.code es + number r ls es

-- The codes of the tests that failed or have no result.
abbrev pub code_piece : Option ℕ → Entries → List Piece
code_piece none es = []
code_piece (some code) es = failing (result_at code es) code

abbrev pub bad_codes : List Line → Entries → List Piece
bad_codes [] es = []
bad_codes (l ∷ ls) es = code_piece l.code es ++ bad_codes ls es

abbrev pub plus : (Result → ℕ) → Counts → Counts
plus n c = record {
  of_passed = c.of_passed + n passed;
  of_failed = c.of_failed + n failed;
  of_skipped = c.of_skipped + n skipped;
  of_unknown = c.of_unknown + n unknown;
}

-- What the loop adds.
abbrev pub after : List Line → Entries → Printing → Printing
after ls es s = record {
  out = record s.out { written = s.out.written ++ all_lines ls es };
  fail_codes = s.fail_codes ++ bad_codes ls es;
  count = plus (λ r. number r ls es) s.count;
}

increment-plus : (r : Result) (c : Counts) → increment r c ≡ plus (λ q. is q r) c
unfolding increment
increment-plus unknown c = ground arith
increment-plus skipped c = ground arith
increment-plus passed c = ground arith
increment-plus failed c = ground arith

pub put-open :
    (ps : List Piece) (o : Out)
    → o.failbit ≡ false
    → put_pieces ps o ≡ record o { written = o.written ++ ps }
unfolding put_pieces
put-open ps o q = simp q

pub put-put :
    (ps qs : List Piece) (o : Out) → put_pieces qs (put_pieces ps o) ≡ put_pieces (ps ++ qs) o
unfolding put_pieces
put-put ps qs o = by_failbit o.failbit refl
  where
    by_failbit :
        (b : Bool) → o.failbit ≡ b → put_pieces qs (put_pieces ps o) ≡ put_pieces (ps ++ qs) o
    by_failbit true q = simp q
    by_failbit false q = simp (q, list_laws)

plus-plus : (m n : Result → ℕ) (c : Counts) → plus n (plus m c) ≡ plus (λ r. m r + n r) c
plus-plus m n c = ground arith

print_code-eq :
    (c : Option ℕ) (title : List ℕ) (es : Entries) (s : Printing)
    → s.out.failbit ≡ false
    → print_code c title es s ≡ record {
      out = record s.out { written = s.out.written ++ line_pieces c title es };
      fail_codes = s.fail_codes ++ code_piece c es;
      count = plus (λ r. one_if r c es) s.count;
    }
print_code-eq none title es s q =
    rw (put-open (newline ∷ heading title ∷ newline ∷ []) s.out q)
      (ground (arith, append-nil s.fail_codes))
print_code-eq (some code) title es s q =
    let r = result_at code es in
    let note = noted (note_at code es) in
    rw
      (
        put-put (mark r title ∷ []) note s.out,
        put-put (mark r title ∷ note) (newline ∷ []) s.out,
        put-open (mark r title ∷ note ++ (newline ∷ [])) s.out q,
        increment-plus r s.count,
      )
      refl

after-cons :
    (l : Line) (ls : List Line) (es : Entries) (s : Printing)
    → after ls es (record {
      out = record s.out { written = s.out.written ++ line_pieces l.code l.title es };
      fail_codes = s.fail_codes ++ code_piece l.code es;
      count = plus (λ r. one_if r l.code es) s.count;
    })
      ≡ after (l ∷ ls) es s
after-cons l ls es s =
    rw (plus-plus (λ r. one_if r l.code es) (λ r. number r ls es) s.count) (simp list_laws)

pub print_lines-eq :
    (ls : List Line) (es : Entries) (s : Printing)
    → s.out.failbit ≡ false
    → print_lines ls es s ≡ after ls es s
unfolding print_lines
print_lines-eq [] es s q = grind (arith, list_laws)
print_lines-eq (l ∷ ls) es s q =
    rw (print_code-eq l.code l.title es s q) (print_lines-eq ls es _ q ∙ after-cons l ls es s)
