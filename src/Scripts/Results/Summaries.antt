-- ===== src/Scripts/Results/Summaries.antt =====
-- Which steps of a run leave a file alone.
use distributed_rate_limiter.Base.{
  Bool-cases, List, Option, [], arith, false, if◌then◌else◌, inl, inr, none, refl, some, subst, sym,
  ℕ, ◌∙◌, ◌∷◌, ◌≡◌,
}
use mathlib.Core.Option
use distributed_rate_limiter.Base.Text.{Text, text_eq, text_eq_iff}
use distributed_rate_limiter.Scripts.{contains}
use distributed_rate_limiter.Scripts.Results.{
  World, works, next_call, print, read_text, put_text, Step, continue, ◌>>=◌, write_text,
  create_results_dir, lift, pure,
}

pub read_text-put_text :
    (j name content : Text) (files : List (Text × Text))
    → read_text j (put_text name content files)
      ≡ (if text_eq name j then some content else read_text j files)
unfolding read_text put_text
read_text-put_text j name content [] = refl
read_text-put_text j name content ((n, old) ∷ files) = ground (
  arith,
  text_eq_iff n name,
  text_eq_iff n j,
  text_eq_iff name j,
  read_text-put_text j name content files,
)

module _ {S : Type 0} where
  pub write_text-works :
      (name content : Text) (w : World S)
      → w.io w.io_calls ≡ works
      → write_text name content w
        ≡ (some tt, record (next_call w) { files = put_text name content w.files })
  unfolding write_text
  write_text-works name content w e = rw e refl

  pub print-works : (w : World S) → w.io w.io_calls ≡ works → print w ≡ (some tt, next_call w)
  unfolding print
  print-works w e = rw e refl

module _ {S : Type 0} (name : Text) where
  -- The file is not there, and every write and print works.
  abbrev pub Ready : World S → Type 0
  Ready w = (read_text name w.files ≡ none) × ((n : ℕ) → w.io n ≡ works)

  -- A step that does not write the file, where all writes work.
  pub record Spares {A : Type 0} (m : Step S A) : Type 0 where
    pub spared : (w : World S) → Ready w → Ready (m w).1

  -- A run that writes the file in the end, and only then gives a value, where all writes work: the file holds what is
  -- made of the value, and is missing where the run raises.
  pub record Reports {A : Type 0} (report : A → Text) (m : Step S A) : Type 0 where
    pub reported :
        (w : World S)
        → Ready w
        → let (outcome, end) = m w in read_text name end.files ≡ Option.map report outcome

  pub write_text-Spares :
      (other content : Text) → text_eq other name ≡ false → Spares (write_text other content)
  write_text-Spares other content ne = record {
    spared = λ w h.
        subst (λ (r : Option (Unit {0}) × World S). Ready r.1)
          (sym (write_text-works other content w (h.1 w.io_calls)))
          (read_text-put_text name other content w.files ∙ rw ne h.0, h.1);
  }

  pub create_results_dir-Spares : (directory : Text) → Spares (create_results_dir directory)
  unfolding create_results_dir read_text
  create_results_dir-Spares directory = record {
    spared = λ w h. elim (Bool-cases (contains directory w.directories)) [
      | inl there ↦ rw there h
      | inr new ↦ rw new (refl, h.1)
    ];
  }

  pub lift-Spares : {A : Type 0} (o : Option A) → Spares (lift o)
  unfolding lift
  lift-Spares o = record { spared = λ w h. h }

  pub pure-Spares : {A : Type 0} (a : A) → Spares (pure a)
  unfolding pure
  pure-Spares a = record { spared = λ w h. h }

  pub >>=-Spares :
      {A B : Type 0} (m : Step S A) (f : A → Step S B)
      → Spares m
      → ((a : A) → Spares (f a))
      → Spares (m >>= f)
  >>=-Spares {A} {B} m f hm hf = record { spared = λ w h. after (m w) (hm.spared w h) }
    where
      after : (out : Option A × World S) → Ready out.1 → Ready (continue out f).1
      after (none, w) h = h
      after (some a, w) h = (hf a).spared w h

  pub >>=-Reports :
      {A B : Type 0} (report : B → Text) (m : Step S A) (f : A → Step S B)
      → Spares m
      → ((a : A) → Reports report (f a))
      → Reports report (m >>= f)
  >>=-Reports {A} {B} report m f hm hf = record { reported = λ w h. after (m w) (hm.spared w h) }
    where
      after :
          (out : Option A × World S)
          → Ready out.1
          → let (outcome, end) = continue out f in
            read_text name end.files ≡ Option.map report outcome
      after (none, w) h = h.0
      after (some a, w) h = (hf a).reported w h
