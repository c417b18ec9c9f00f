-- ===== src/Scripts/Results.antt =====
-- The directory that scripts/run_benchmark.py and scripts/run_multi_region_simulation.py make for
-- their results. A run is a chain of steps that stops where an exception is raised; what was
-- written before stays. Any write to a file and any print may raise. Directories and files go by
-- their names.
pub mod Summaries
use distributed_rate_limiter.Base.{
  &&_split, ==_iff, All, All-append, All_Elem, Ascending, Bool, Bool-cases, Elem, Elem-keep_if,
  Elem-keep_if_of, List, Option, Option-cases, Ordering, Sum-cases, [], ap, append-nil,
  append_assoc, arith, ceil_seconds, compare, count_if, false, get_elem?, head?, if◌then◌else◌, inl,
  inr, keep_if, leb, leb→le, length, length-append, le→leb, ltb, ltb→lt, lt→ltb, map, max, min,
  none, not, not_leb→lt, not_ltb→le, refl, some, subst, suc, sym, true, zero, ℕ, ◌%◌, ◌&&◌, ◌*◌,
  ◌++◌, ◌+◌, ◌-◌, ◌/◌, ◌<◌, ◌==◌, ◌^◌, ◌||◌, ◌↔◌, ◌∙◌, ◌∷◌, ◌≡◌, ◌≢◌, ◌≤◌, ◌⊎◌,
}
use distributed_rate_limiter.Base.Text.{Text, text_eq}
use distributed_rate_limiter.Scripts.{contains}

-- What comes of a write or a print: it works; or it raises, and leaves the file as it was, or with
-- some text.
pub data IoResult : Type 0 where
  works : IoResult
  raises : Option Text → IoResult

-- The directories that are there, the files of the one that the run has made, a server, and what
-- comes of the writes and prints, of which there were `io_calls` so far.
pub record World (S : Type 0) : Type 0 where
  pub directories : List Text
  pub files : List (Text × Text)
  pub server : S
  pub io : ℕ → IoResult
  pub io_calls : ℕ

-- `path.read_text()`; none where the file is missing.
unfoldable pub read_text : Text → List (Text × Text) → Option Text
read_text name [] = none
read_text name ((n, content) ∷ files) =
    let later = read_text name files in if text_eq n name then some content else later

-- The files after a text is written to one.
unfoldable pub put_text : Text → Text → List (Text × Text) → List (Text × Text)
put_text name content [] = (name, content) ∷ []
put_text name content ((n, old) ∷ files) =
    let later = put_text name content files in
    if text_eq n name then (n, content) ∷ files else (n, old) ∷ later

-- A step over a server: none where it raises.
abbrev pub Step : Type 0 → Type 0 → Type 0
Step S A = World S → Option A × World S

module _ {S : Type 0} where
  abbrev pub continue : {A B : Type 0} → Option A × World S → (A → Step S B) → Option B × World S
  continue (none, w) f = (none, w)
  continue (some a, w) f = f a w

  infixl 5 ◌>>=◌ ◌>>◌
  abbrev pub ◌>>=◌ : {A B : Type 0} → Step S A → (A → Step S B) → Step S B
  ◌>>=◌ m f w = continue (m w) f

  abbrev pub ◌>>◌ : {B : Type 0} → Step S (Unit {0}) → Step S B → Step S B
  m >> k = m >>= λ _. k

  unfoldable pub pure : {A : Type 0} → A → Step S A
  pure a w = (some a, w)

  -- A computation that raises or gives a value, and touches nothing.
  unfoldable pub lift : {A : Type 0} → Option A → Step S A
  lift o w = (o, w)

  abbrev pub next_call : World S → World S
  next_call w = record w { io_calls = w.io_calls + 1 }

  abbrev pub written : IoResult → Text → Text → World S → Option (Unit {0}) × World S
  written works name content w = (some tt, record w { files = put_text name content w.files })
  written (raises none) name content w = (none, w)
  written (raises (some partial)) name content w =
      (none, record w { files = put_text name partial w.files })

  -- `path.write_text(content)`
  unfoldable pub write_text : Text → Text → Step S (Unit {0})
  write_text name content w = written (w.io w.io_calls) name content (next_call w)

  abbrev pub printed : IoResult → World S → Option (Unit {0}) × World S
  printed works w = (some tt, w)
  printed (raises _) w = (none, w)

  -- `print`
  unfoldable pub print : Step S (Unit {0})
  print w = printed (w.io w.io_calls) (next_call w)

  -- `create_results_dir`, for the name made of the time and the label: `mkdir` raises
  -- FileExistsError where the directory is there, such as that of a run in the same second.
  unfoldable pub create_results_dir : Text → Step S (Unit {0})
  create_results_dir name w =
      if contains name w.directories
      then (none, w)
      else (some tt, record w { directories = name ∷ w.directories; files = [] })
