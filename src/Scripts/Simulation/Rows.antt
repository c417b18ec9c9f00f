-- ===== src/Scripts/Simulation/Rows.antt =====
-- The table of summary.md read back.
use distributed_rate_limiter.Base.{
  &&_split, All, All-append, Bool, List, Option, [], ap, arith, if◌then◌else◌, none, not, refl,
  some, true, ℕ, ◌&&◌, ◌++◌, ◌+◌, ◌<◌, ◌==◌, ◌∙◌, ◌∷◌, ◌≡◌, ◌≢◌,
}
use distributed_rate_limiter.Base.Text.{
  Text, codes, decimal, Avoids, Avoids-append, decimal-Avoids, parse_digits, parse_digits-decimal,
}
use distributed_rate_limiter.MultiRegion.{MultiRegionSummary}
use distributed_rate_limiter.Scripts.Texts.{split_on, parts_of, split_on-join, split_on-append}
use distributed_rate_limiter.Scripts.Simulation.{
  row, fields, rows_of, heading, closing, markdown_lines, render_markdown,
}

-- What follows a prefix of a text.
unfoldable pub after : Text → Text → Option Text
after [] s = some s
after (c ∷ prefix) [] = none
after (c ∷ prefix) (d ∷ s) = let rest = after prefix s in if c == d then rest else none

-- The value of a row of the table: of the first line that begins as the row does.
unfoldable pub value_of : Text → List Text → Option ℕ
unfolding after
value_of label [] = none
value_of label (line ∷ lines) = elim (after (codes "| " ++ label ++ codes " | ") line) [
  | some rest ↦ some (parse_digits 0 (split_on b' ' rest).0)
  | none ↦ value_of label lines
]

-- A test that a text has no `c`, for texts that are written out.
is_free : ℕ → Text → Bool
is_free c [] = true
is_free c (d ∷ s) = not (d == c) && is_free c s

are_free : ℕ → List Text → Bool
are_free c [] = true
are_free c (s ∷ rest) = is_free c s && are_free c rest

is_free-Avoids : (c : ℕ) (s : Text) → is_free c s ≡ true → Avoids c s
unfolding is_free
is_free-Avoids c [] h = tt
is_free-Avoids c (d ∷ s) h =
    let (ne, rest) = &&_split (not (d == c)) (is_free c s) h in
    (λ e. ground (arith, ne, e), is_free-Avoids c s rest)

are_free-Avoids : (c : ℕ) (lines : List Text) → are_free c lines ≡ true → All (Avoids c) lines
unfolding are_free
are_free-Avoids c [] h = tt
are_free-Avoids c (s ∷ rest) h =
    let (now, later) = &&_split (is_free c s) (are_free c rest) h in
    (is_free-Avoids c s now, are_free-Avoids c rest later)

no_digit : (c : ℕ) → c < 48 → (k : ℕ) → k < 10 → 48 + k ≢ c
no_digit c lt k h e = omega arith

row-Avoids : (label : Text) (n : ℕ) → Avoids 10 label → Avoids 10 (row label n)
unfolding is_free
row-Avoids label n a =
    let pipe : Avoids 10 (codes " | ") = is_free-Avoids 10 (codes " | ") refl in
    let end : Avoids 10 (codes " |") = is_free-Avoids 10 (codes " |") refl in
    let value =
      Avoids-append 10 (decimal n) (codes " |") (decimal-Avoids 10 (no_digit 10 (omega arith)) n)
        end in
    Avoids-append 10 (codes "| ") (label ++ (codes " | " ++ (decimal n ++ codes " |")))
      (is_free-Avoids 10 (codes "| ") refl)
      (Avoids-append 10 label (codes " | " ++ (decimal n ++ codes " |")) a
        (Avoids-append 10 (codes " | ") (decimal n ++ codes " |") pipe value))

rows_of-Avoids :
    (s : MultiRegionSummary) (fs : List (Text × (MultiRegionSummary → ℕ)))
    → All (λ field. Avoids 10 field.0) fs
    → All (Avoids 10) (rows_of s fs)
rows_of-Avoids s [] a = tt
rows_of-Avoids s ((label, value) ∷ rest) (a, others) =
    (row-Avoids label (value s) a, rows_of-Avoids s rest others)

labels_free : List (Text × (MultiRegionSummary → ℕ)) → Bool
unfolding is_free
labels_free [] = true
labels_free ((label, value) ∷ rest) = is_free 10 label && labels_free rest

labels-Avoid :
    (fs : List (Text × (MultiRegionSummary → ℕ)))
    → labels_free fs ≡ true
    → All (λ field. Avoids 10 field.0) fs
unfolding labels_free
labels-Avoid [] h = tt
labels-Avoid ((label, value) ∷ rest) h =
    let (now, later) = &&_split (is_free 10 label) (labels_free rest) h in
    (is_free-Avoids 10 label now, labels-Avoid rest later)

lines-Avoid : (s : MultiRegionSummary) → All (Avoids 10) (markdown_lines s)
unfolding are_free is_free labels_free
lines-Avoid s =
    let title = codes "# Multi-Region Consistency Simulation" in
    (
      is_free-Avoids 10 title refl,
      (
        tt,
        All-append (Avoids 10) heading (rows_of s fields ++ closing)
            (are_free-Avoids 10 heading refl)
            (All-append (Avoids 10) (rows_of s fields) closing
              (rows_of-Avoids s fields (labels-Avoid fields refl))
              (are_free-Avoids 10 closing refl)),
      ),
    )

read_value : (n : ℕ) → parse_digits 0 (split_on b' ' (decimal n ++ codes " |")).0 ≡ n
read_value n =
    ap (λ (x : Text × List Text). parse_digits 0 x.0)
      (split_on-append b' ' (decimal n) (codes "|")
        (decimal-Avoids b' ' (no_digit b' ' (omega arith)) n))
    ∙ parse_digits-decimal n

-- The value that a reader of summary.md finds under a label.
abbrev pub read_back : Text → MultiRegionSummary → Option ℕ
read_back label s = value_of label (parts_of (split_on 10 (render_markdown s)))

-- Each label of the table is read as the field of its meaning.
abbrev pub TableReads : MultiRegionSummary → Type 0
TableReads s =
    (read_back (codes "Configured limit") s ≡ some s.configured_limit)
    × (read_back (codes "Replication lag (ms)") s ≡ some s.replication_lag_ms)
    × (read_back (codes "India requests sent") s ≡ some s.india_requests_sent)
    × (read_back (codes "US requests sent") s ≡ some s.us_requests_sent)
    × (read_back (codes "India allowed") s ≡ some s.india_allowed)
    × (read_back (codes "US allowed") s ≡ some s.us_allowed)
    × (read_back (codes "Total allowed") s ≡ some s.total_allowed)
    × (read_back (codes "Oversubscription") s ≡ some s.oversubscription)
    × (read_back (codes "Stale allowed decisions") s ≡ some s.stale_allowed_decisions)

-- Whoever splits summary.md into lines and reads a row of its table by its label gets the field of
-- the summary of that meaning: the limit and the lag, what each region was sent and admitted, the
-- total, what was admitted beyond the limit, and the stale decisions.
pub render_markdown_roundtrip : (s : MultiRegionSummary) → TableReads s
unfolding render_markdown value_of
render_markdown_roundtrip s = rw (split_on-join 10 _ _ (lines-Avoid s)) (
    let read = λ (n : ℕ). ap some (read_value n) in
    (read _, read _, read _, read _, read _, read _, read _, read _, read _))
