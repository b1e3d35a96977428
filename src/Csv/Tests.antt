-- ===== src/Csv/Tests.antt =====
-- Rows of short fields.
use jml_base.Common.{ℕ, ◌≡◌, refl, arith, false, inl, inr, List, [], ◌∷◌, ◌++◌}
use jml_base.Common.Int.{pos}
use jml_base.Common.Result.{ok, err}
use jml_base.Parse.{context_of, out_of_fuel}
use jml_base.Parse.Moving.{over}
use jml_base.Csv.{
  expect_csv_field, expect_csv_row, row, csv_escape, contains, doubled, right_length,
}
use jml_base.Csv.Fields.{finish}
use jml_base.Csv.Ending.{Runs, expect_csv_field-Runs}
use jml_base.Csv.RoundTrip.{IsWritable, is_quoted, expect_csv_field-csv_escape}
use jml_base.Csv.Rows.{row_text, after_row, expect_csv_row-row_text, row-carriage_return}

-- The fields a,b and "q" and an empty one.
abbrev comma : List ℕ
comma = b'a' ∷ b',' ∷ b'b' ∷ []

abbrev quote : List ℕ
quote = b'"' ∷ b'q' ∷ b'"' ∷ []

escape_of_quote : csv_escape quote ≡ b'"' ∷ b'"' ∷ b'"' ∷ b'q' ∷ b'"' ∷ b'"' ∷ b'"' ∷ []
unfolding csv_escape contains doubled
escape_of_quote = refl

comma-IsWritable : IsWritable comma
unfolding IsWritable is_quoted contains
comma-IsWritable = inl refl

quote-IsWritable : IsWritable quote
unfolding IsWritable is_quoted contains
quote-IsWritable = inl refl

empty-IsWritable : IsWritable []
unfolding IsWritable is_quoted contains
empty-IsWritable = inr refl

abbrev text : List ℕ
text = row_text comma (quote ∷ [] ∷ [])

expect_csv_field-Runs_example : Runs (expect_csv_field b',' (context_of (b'"' ∷ b'x' ∷ [])))
expect_csv_field-Runs_example = expect_csv_field-Runs b',' (context_of (b'"' ∷ b'x' ∷ []))

expect_csv_field-csv_escape_example :
    expect_csv_field b',' (context_of (csv_escape quote ++ b',' ∷ []))
    ≡ ok (
        finish b',' quote
          (b',' ∷ [])
          (over (csv_escape quote) (b',' ∷ []) (context_of (csv_escape quote ++ b',' ∷ []))))
expect_csv_field-csv_escape_example =
    expect_csv_field-csv_escape quote (b',' ∷ []) (context_of (csv_escape quote ++ b',' ∷ []))
      quote-IsWritable (inl refl) (unfold context_of in refl)

expect_csv_row-row_text_example :
    expect_csv_row 5 (pos 3) b',' (context_of (text ++ b'\n' ∷ []))
    ≡ ok (
      comma ∷ quote ∷ [] ∷ [],
      after_row (b'\n' ∷ []) (over text (b'\n' ∷ []) (context_of (text ++ b'\n' ∷ []))),
    )
unfolding right_length
expect_csv_row-row_text_example =
    expect_csv_row-row_text 5 (pos 3) comma (quote ∷ [] ∷ []) (b'\n' ∷ [])
      (context_of (text ++ b'\n' ∷ []))
      (comma-IsWritable, (quote-IsWritable, (empty-IsWritable, tt)))
      (unfold row_text csv_escape contains doubled in (refl, refl)) (refl, tt)
      (unfold context_of in refl) (omega arith)

row-carriage_return_example :
    row 1000 b',' false [] (context_of (b'\r' ∷ b'x' ∷ [])) ≡ err out_of_fuel
row-carriage_return_example =
    row-carriage_return 1000 [] (b'x' ∷ []) (context_of (b'\r' ∷ b'x' ∷ []))
      (unfold context_of in refl) refl
