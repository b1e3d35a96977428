-- ===== src/Csv/Rows.antt =====
-- utils/csv.cc: rows of fields that `csv_escape` wrote, and a carriage return that ends no line.
use mathlib.Core.List.{append_assoc}
use native.Mathlib.Numerals.{add-one}
use jml_base.Common.{
  ℕ, zero, suc, ◌+◌, ◌<◌, ◌≡◌, ◌==◌, if◌then◌else◌, refl, arith, true, false, Bool-cases, inl, inr,
  List, [], ◌∷◌, ◌++◌, length, ◌∙◌,
}
use jml_base.Common.Int.{ℤ, pos, negsuc}
use jml_base.Common.Result.{ok, err, ◌>>=◌, ◌>>◌, guard}
use jml_base.Parse.{Context, behind, out_of_fuel, wrong_length, is_blank}
use jml_base.Parse.Moving.{over, over-cons, over-append, over-rest}
use jml_base.Parse.Matching.{
  NotStart, eof-nil, eof-cons, match_eol-other, match_eol-feed, match_eol-return,
  match_whitespace-none,
}
use jml_base.Csv.{
  row, expect_csv_field, expect_csv_row, csv_escape, is_line_end, right_length, reservable,
}
use jml_base.Csv.Fields.{Ends, finish, field-line_end}
use jml_base.Csv.RoundTrip.{IsWritable, expect_csv_field-csv_escape}

-- The fields `s ∷ ts` as a line of text.
unfoldable pub row_text : List ℕ → List (List ℕ) → List ℕ
row_text s [] = csv_escape s
row_text s (t ∷ ts) = csv_escape s ++ b',' ∷ row_text t ts

abbrev pub AllWritable : List (List ℕ) → Type 0
AllWritable [] = Unit
AllWritable (s ∷ ss) = IsWritable s × AllWritable ss

-- What may come behind a row: nothing, or a line feed that no carriage return follows.
abbrev pub EndsRow : List ℕ → Type 0
EndsRow [] = Unit
EndsRow (x ∷ r) = (x ≡ b'\n') × NotStart b'\r' r

-- The context behind the end of the row.
unfoldable pub after_row : List ℕ → Context → Context
after_row [] c = c
after_row (x ∷ r) c = behind x r c

EndsRow-Ends : (r : List ℕ) → EndsRow r → Ends b',' r
EndsRow-Ends [] h = tt
EndsRow-Ends (x ∷ r) h = inr (rw (h.0) refl)

-- At the end of a row the loop stops.
row-EndsRow :
    (fuel : ℕ) (acc : List (List ℕ)) (r : List ℕ) (c : Context)
    → EndsRow r
    → c.rest ≡ r
    → row (suc fuel) b',' false acc c ≡ ok (acc, after_row r c)
unfolding row after_row
row-EndsRow fuel acc [] c h e = rw (eof-nil c e)
row-EndsRow fuel acc (x ∷ r) c h e =
    rw (eof-cons c x r e, match_eol-feed r c (e ∙ rw (h.0) refl) h.1, h.0)

-- One field, and the rest of the row.
row-another :
    (fuel : ℕ) (acc : List (List ℕ)) (c : Context)
    → row (suc fuel) b',' true acc c
      ≡ (expect_csv_field b',' c >>= λ r. row fuel b',' r.0.1 (acc ++ r.0.0 ∷ []) r.1)
unfolding row
row-another fuel acc c = refl

finish-EndsRow : (s r : List ℕ) (c : Context) → EndsRow r → finish b',' s r c ≡ ((s, false), c)
unfolding finish
finish-EndsRow s [] c h = refl
finish-EndsRow s (x ∷ r) c h = rw (h.0) refl

finish-comma :
    (s r : List ℕ) (c : Context) → finish b',' s (b',' ∷ r) c ≡ ((s, true), behind b',' r c)
unfolding finish
finish-comma s r c = refl

row_run :
    (s : List ℕ) (ts acc : List (List ℕ)) (r : List ℕ) (fuel : ℕ) (c : Context)
    → AllWritable (s ∷ ts)
    → EndsRow r
    → c.rest ≡ row_text s ts ++ r
    → length ts + 1 < fuel
    → row fuel b',' true acc c ≡ ok (acc ++ s ∷ ts, after_row r (over (row_text s ts) r c))
unfolding row_text
row_run s ts acc r zero c w h e f = absurd (omega arith)
row_run s [] acc r (suc zero) c w h e f = absurd (omega arith)
row_run s [] acc r (suc (suc fuel)) c w h e f =
    rw
      (
        row-another (suc fuel) acc c,
        expect_csv_field-csv_escape s r c w.0 (EndsRow-Ends r h) e,
        finish-EndsRow s r (over (csv_escape s) r c) h,
      )
      (row-EndsRow fuel (acc ++ s ∷ []) r (over (csv_escape s) r c) h
        (over-rest (csv_escape s) r c e))
row_run s (t ∷ ts) acc r (suc fuel) c w h e f =
    let text = row_text t ts in
    let c1 = over (csv_escape s) (b',' ∷ text ++ r) c in
    let start : c.rest ≡ csv_escape s ++ b',' ∷ (text ++ r) =
      e ∙ append_assoc (csv_escape s) (b',' ∷ text) r in
    rw
      (
        row-another fuel acc c,
        expect_csv_field-csv_escape s (b',' ∷ (text ++ r)) c w.0 (inl refl) start,
        finish-comma s (text ++ r) c1,
      )
      (row_run t ts (acc ++ s ∷ []) r fuel (behind b',' (text ++ r) c1) w.1 h refl (omega arith)
        ∙ rw (
          append_assoc acc (s ∷ []) (t ∷ ts),
          over-append (csv_escape s) (b',' ∷ text) r c,
          over-cons b',' text r c1,
        ))

-- A row as `expect_csv_row` starts it: neither a blank, which would be skipped, nor the end of a line.
abbrev pub StartsRow : List ℕ → Type 0
StartsRow [] = ⊥
StartsRow (x ∷ r) = (is_blank x ≡ false) × (is_line_end x ≡ false)

row-start :
    (fuel : ℕ) (x : ℕ) (r : List ℕ) (c : Context)
    → c.rest ≡ x ∷ r
    → is_line_end x ≡ false
    → row (suc fuel) b',' false [] c ≡ row (suc fuel) b',' true [] c
unfolding row
row-start fuel x r c e h =
    rw (eof-cons c x r e, match_eol-other x r c e (ground arith) (ground arith))

length_checked {ℓ} :
    {A : Type ℓ} (wanted : ℤ) (n : ℕ) (a : A)
    → (guard (reservable wanted) wrong_length >>= λ _.
        guard (right_length wanted n) wrong_length >> ok a)
      ≡ (if right_length wanted n then ok a else err wrong_length)
unfolding reservable right_length
length_checked (pos k) n a = elim (Bool-cases (n == k)) [ inl e ↦ rw e | inr e ↦ rw e ]
length_checked (negsuc zero) n a = refl
length_checked (negsuc (suc k)) n a = let below : (suc k == 0) ≡ false = ground arith in rw below

expect_csv_row-row :
    (fuel : ℕ) (wanted : ℤ) (ss : List (List ℕ)) (text r : List ℕ) (c c' : Context)
    → StartsRow text
    → c.rest ≡ text ++ r
    → row (suc fuel) b',' true [] c ≡ ok (ss, c')
    → expect_csv_row (suc fuel) wanted b',' c
      ≡ (if right_length wanted (length ss) then ok (ss, c') else err wrong_length)
unfolding expect_csv_row
expect_csv_row-row fuel wanted ss [] r c c' h e run = absurd h
expect_csv_row-row fuel wanted ss (x ∷ text) r c c' h e run =
    rw (match_whitespace-none x (text ++ r) c e h.0, row-start fuel x (text ++ r) c e h.1, run)
      (length_checked wanted (length ss) (ss, c'))

-- Every row of one or more fields that `csv_escape` wrote is read back, where its text starts with neither
-- a blank nor the end of a line, and a field with a carriage return also has a quote, a comma or a line
-- feed; with enough fuel for the fields, and the exception where another number of them is wanted.
pub expect_csv_row-row_text :
    (fuel : ℕ) (wanted : ℤ) (s : List ℕ) (ts : List (List ℕ)) (r : List ℕ) (c : Context)
    → AllWritable (s ∷ ts)
    → StartsRow (row_text s ts)
    → EndsRow r
    → c.rest ≡ row_text s ts ++ r
    → length ts + 1 < fuel
    → expect_csv_row fuel wanted b',' c ≡ (
        if right_length wanted (length (s ∷ ts))
        then ok (s ∷ ts, after_row r (over (row_text s ts) r c))
        else err wrong_length)
expect_csv_row-row_text zero wanted s ts r c w st h e f = absurd (omega arith)
expect_csv_row-row_text (suc fuel) wanted s ts r c w st h e f =
    expect_csv_row-row fuel wanted (s ∷ ts) (row_text s ts) r c
      (after_row r (over (row_text s ts) r c)) st e (row_run s ts [] r (suc fuel) c w h e f)

-- At a carriage return that no line feed follows, the loop of `expect_csv_row` never ends, however much
-- fuel it has: it reads one empty field after another, and stays where it is.
pub row-carriage_return :
    (fuel : ℕ) (acc : List (List ℕ)) (r : List ℕ) (c : Context)
    → c.rest ≡ b'\r' ∷ r
    → NotStart b'\n' r
    → row fuel b',' false acc c ≡ err out_of_fuel
unfolding row
row-carriage_return zero acc r c e h = refl
row-carriage_return (suc fuel) acc r c e h =
    let empty : expect_csv_field b',' c ≡ ok (([], false), c) =
      unfold expect_csv_field in
      rw add-one (field-line_end b',' (length c.rest) [] c b'\r' r e refl refl refl) in
    rw (eof-cons c b'\r' r e, match_eol-return r c e h, empty)
      (row-carriage_return fuel (acc ++ [] ∷ []) r c e h)
