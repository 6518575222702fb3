-- ===== src/Assertion/Summary.antt =====
-- The report of the tests, and what is lost of it.
use kaiu.Base.{
  ℕ, ◌+◌, Bool, true, false, not, ◌||◌, ◌≡◌, refl, sym, ap, ◌∙◌, List, [], ◌∷◌, ◌++◌, ◌==◌,
  if◌then◌else◌, Option, none, some, arith, append_assoc, length, length-append,
}
use kaiu.Assertion.State.{Result, unknown, skipped, passed, failed, Entries}
use kaiu.Assertion.Report.{
  Piece, newline, passed_count, failed_count, skipped_count, missed_count, elapsed, all_passed, Out,
  put_pieces, put_buffer, Printing, result_at, failing, Line, print_lines, start_printing,
  unless_zero, summary, print_report,
}
use kaiu.Assertion.Printed.{
  all_lines, is, one_if, number, code_piece, bad_codes, put-open, put-put, print_lines-eq,
}

put-closed : (ps : List Piece) (o : Out) → o.failbit ≡ true → put_pieces ps o ≡ o
unfolding put_pieces
put-closed ps o q = simp q

-- The lines and the numbers of tests that have passed and failed.
abbrev pub first_part : List Line → Entries → List Piece
first_part ls es =
    all_lines ls es
    ++ (newline
        ∷ passed_count (number passed ls es)
        ∷ newline
        ∷ failed_count (number failed ls es)
        ∷ [])

-- The codes of the tests that failed or have no result, the other numbers and the time.
abbrev pub last_part : ℕ → List Line → Entries → List Piece
last_part time ls es =
    bad_codes ls es
    ++ (newline ∷ unless_zero (number skipped ls es) (skipped_count (number skipped ls es))
        ++ (unless_zero (number unknown ls es) (missed_count (number unknown ls es))
            ++ (elapsed time ∷ newline ∷ [])))

length-failing :
    (c : Option ℕ) (es : Entries)
    → length (code_piece c es) ≡ one_if failed c es + one_if unknown c es
length-failing none es = refl
length-failing (some code) es = by_result (result_at code es)
  where
    by_result : (r : Result) → length (failing r code) ≡ is failed r + is unknown r
    by_result unknown = refl
    by_result skipped = refl
    by_result passed = refl
    by_result failed = refl

length-bad_codes :
    (ls : List Line) (es : Entries)
    → length (bad_codes ls es) ≡ number failed ls es + number unknown ls es
length-bad_codes [] es = refl
length-bad_codes (l ∷ ls) es = omega (
  arith,
  length-append (code_piece l.code es) (bad_codes ls es),
  length-failing l.code es,
  length-bad_codes ls es,
)

module _ (time : ℕ) (s : Printing) (q : s.out.failbit ≡ false) where
  abbrev counted : List Piece
  counted = newline ∷ passed_count s.count.of_passed ∷ newline ∷ failed_count s.count.of_failed ∷ []

  abbrev others : List Piece
  others =
      newline ∷ unless_zero s.count.of_skipped (skipped_count s.count.of_skipped)
      ++ (unless_zero s.count.of_unknown (missed_count s.count.of_unknown)
          ++ (elapsed time ∷ newline ∷ []))

  ending-eq :
      (o : Out)
      → put_pieces (elapsed time ∷ newline ∷ []) (
          put_pieces (unless_zero s.count.of_unknown (missed_count s.count.of_unknown)) (
            put_pieces
              (unless_zero s.count.of_skipped (skipped_count s.count.of_skipped))
              (put_pieces (newline ∷ []) o)))
        ≡ put_pieces others o
  ending-eq o =
      let a = unless_zero s.count.of_skipped (skipped_count s.count.of_skipped) in
      let b = unless_zero s.count.of_unknown (missed_count s.count.of_unknown) in
      let c = elapsed time ∷ newline ∷ [] in
      ap (λ x. put_pieces c (put_pieces b x)) (put-put (newline ∷ []) a o)
      ∙ ap (put_pieces c) (put-put (newline ∷ a) b o)
      ∙ put-put (newline ∷ (a ++ b)) c o
      ∙ ap (λ l. put_pieces l o) (append_assoc (newline ∷ a) b c)

  abbrev before : Out
  before = put_buffer s.fail_codes (put_pieces counted s.out)

  summary-eq : summary time s ≡ put_pieces others before
  unfolding summary
  summary-eq = ending-eq before

  summary-cut : s.fail_codes ≡ [] → (summary time s).written ≡ s.out.written ++ counted
  unfolding put_buffer
  summary-cut e =
      let o = put_pieces counted s.out in
      ap (λ x. x.written)
        (summary-eq
          ∙ ap (λ c. put_pieces others (put_buffer c o)) e
          ∙ put-closed others (record o { failbit = true }) refl)
      ∙ ap (λ x. x.written) (put-open counted s.out q)

  summary-whole :
      (c : Piece) (cs : List Piece)
      → s.fail_codes ≡ c ∷ cs
      → (summary time s).written ≡ (s.out.written ++ counted) ++ (s.fail_codes ++ others)
  unfolding put_buffer
  summary-whole c cs e =
      ap (λ x. x.written)
        (summary-eq
          ∙ ap (λ l. put_pieces others (put_buffer l (put_pieces counted s.out))) e
          ∙ ap (put_pieces others) (put-put counted (c ∷ cs) s.out)
          ∙ put-put (counted ++ (c ∷ cs)) others s.out
          ∙ put-open ((counted ++ (c ∷ cs)) ++ others) s.out q)
      ∙ ap (λ l. s.out.written ++ l) (append_assoc counted (c ∷ cs) others)
      ∙ sym (append_assoc s.out.written counted ((c ∷ cs) ++ others))
      ∙ ap (λ l. (s.out.written ++ counted) ++ (l ++ others)) (sym e)

-- What the report shows.
abbrev pub Shown : Bool → ℕ → List Line → Entries → List Piece → Type 0
Shown always time ls es ps = ps ≡ (
    if always || not (number failed ls es + number skipped ls es + number unknown ls es == 0)
    then (if number failed ls es + number unknown ls es == 0
        then first_part ls es
        else first_part ls es ++ last_part time ls es)
      ++ (newline ∷ [])
    else all_passed ∷ elapsed time ∷ newline ∷ [])

-- The state after all lines.
abbrev printed : List Line → Entries → Printing
printed ls es = record {
  out = record { written = all_lines ls es; failbit = false };
  fail_codes = bad_codes ls es;
  count = record {
    of_passed = number passed ls es;
    of_failed = number failed ls es;
    of_skipped = number skipped ls es;
    of_unknown = number unknown ls es;
  };
}

printed-eq : (ls : List Line) (es : Entries) → print_lines ls es start_printing ≡ printed ls es
printed-eq ls es = print_lines-eq ls es start_printing refl ∙ ground arith

abbrev written_part : ℕ → List Line → Entries → List Piece
written_part time ls es =
    if number failed ls es + number unknown ls es == 0
    then first_part ls es
    else first_part ls es ++ last_part time ls es

summary-written :
    (time : ℕ) (ls : List Line) (es : Entries)
    → (summary time (printed ls es)).written ≡ written_part time ls es
summary-written time ls es = by_codes (bad_codes ls es) refl
  where
    by_codes :
        (c : List Piece)
        → bad_codes ls es ≡ c
        → (summary time (printed ls es)).written ≡ written_part time ls es
    by_codes [] q =
        let z : (number failed ls es + number unknown ls es) ≡ 0 =
          sym (length-bad_codes ls es) ∙ ap length q in
        rw z (summary-cut time (printed ls es) refl q)
    by_codes (c ∷ cs) q =
        let z : ((number failed ls es + number unknown ls es) == 0) ≡ false =
          ground (arith, length-bad_codes ls es, ap length q) in
        rw z (summary-whole time (printed ls es) refl c cs q)

-- Where printing is forced or a test is failed, skipped or without a result, the report shows
-- each heading and test in order and the numbers of passed and failed tests, then, only if a test
-- is failed or without a result, the codes of those tests, the other numbers that are not zero
-- and the time; otherwise it is the line for all and the time; the number returned is that of the
-- tests failed or without a result.
pub print_report-lem :
    (always : Bool) (time : ℕ) (ls : List Line) (es : Entries)
    → Shown always time ls es ((print_report always time ls es).shown)
      × ((print_report always time ls es).returned ≡ number failed ls es + number unknown ls es)
unfolding print_report
print_report-lem always time ls es =
    rw (printed-eq ls es) (rw (summary-written time ls es) refl, refl)
