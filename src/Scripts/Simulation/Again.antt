-- ===== src/Scripts/Simulation/Again.antt =====
-- A second run with the same time.
use distributed_rate_limiter.Base.{
  Bool-cases, List, Option, [], ap, false, inl, inr, none, refl, some, true, ◌∙◌, ◌∷◌, ◌≡◌,
}
use distributed_rate_limiter.Base.Text.{Text, text_eq_refl}
use distributed_rate_limiter.MultiRegion.{MultiRegionSummary, RegionalDecision}
use distributed_rate_limiter.Scripts.{contains}
use distributed_rate_limiter.Scripts.Results.{
  World, IoResult, works, raises, next_call, written, printed, print, Step, continue, ◌>>=◌, lift,
  write_text, pure, create_results_dir,
}
use distributed_rate_limiter.Scripts.Simulation.{
  Arguments, Surroundings, simulated, result_dir, write_results, main,
}

module _ (e : Surroundings) where
  abbrev Results : Type 0
  Results = MultiRegionSummary × List RegionalDecision

  -- The run after the simulation.
  recorded : Option Results → Step (Unit {0}) Text
  recorded o =
      lift o >>= λ results. create_results_dir (result_dir e) >>= λ _. write_results e results

  -- A step that makes no directory.
  record Keeps {A : Type 0} (m : Step (Unit {0}) A) : Type 0 where
    kept : (w : World (Unit {0})) → (m w).1.directories ≡ w.directories

  write_text-Keeps : (name content : Text) → Keeps (write_text name content)
  unfolding write_text
  write_text-Keeps name content = record { kept = λ w. kept_by (w.io w.io_calls) (next_call w) }
    where
      kept_by :
          (o : IoResult) (w : World (Unit {0}))
          → (written o name content w).1.directories ≡ w.directories
      kept_by works w = refl
      kept_by (raises none) w = refl
      kept_by (raises (some partial)) w = refl

  print-Keeps : Keeps print
  unfolding print
  print-Keeps = record { kept = λ w. kept_by (w.io w.io_calls) (next_call w) }
    where
      kept_by : (o : IoResult) (w : World (Unit {0})) → (printed o w).1.directories ≡ w.directories
      kept_by works w = refl
      kept_by (raises o) w = refl

  pure-Keeps : {A : Type 0} (a : A) → Keeps (pure a)
  unfolding pure
  pure-Keeps a = record { kept = λ w. refl }

  >>=-Keeps :
      {A B : Type 0} (m : Step (Unit {0}) A) (f : A → Step (Unit {0}) B)
      → Keeps m
      → ((a : A) → Keeps (f a))
      → Keeps (m >>= f)
  >>=-Keeps {A} {B} m f hm hf = record { kept = λ w. after (m w) ∙ hm.kept w }
    where
      after :
          (out : Option A × World (Unit {0})) → (continue out f).1.directories ≡ out.1.directories
      after (none, w) = refl
      after (some a, w) = (hf a).kept w

  write_results-Keeps : (results : Results) → Keeps (write_results e results)
  unfolding write_results
  write_results-Keeps (summary, decisions) = >>=-Keeps _ _ (write_text-Keeps _ _) (λ _.
      >>=-Keeps _ _ (write_text-Keeps _ _) (λ _.
        >>=-Keeps _ _ (write_text-Keeps _ _) (λ _. >>=-Keeps _ _ print-Keeps (λ _. pure-Keeps _))))

  exists :
      (w : World (Unit {0}))
      → contains (result_dir e) w.directories ≡ true
      → create_results_dir (result_dir e) w ≡ (none, w)
  unfolding create_results_dir
  exists w there = rw there refl

  made :
      (w : World (Unit {0}))
      → contains (result_dir e) w.directories ≡ false
      → create_results_dir (result_dir e) w
        ≡ (some tt, record w { directories = result_dir e ∷ w.directories; files = [] })
  unfolding create_results_dir
  made w new = rw new refl

  own : (names : List Text) → contains (result_dir e) (result_dir e ∷ names) ≡ true
  unfolding contains
  own names = rw (text_eq_refl (result_dir e)) refl

  present :
      (o : Option Results) (printed : Text) (w : World (Unit {0}))
      → (recorded o w).0 ≡ some printed
      → contains (result_dir e) (recorded o w).1.directories ≡ true
  unfolding recorded lift
  present none printed w h = cc
  present (some results) printed w h = elim (Bool-cases (contains (result_dir e) w.directories)) [
    | inl there ↦
        let raised = ap (λ o. (continue o (λ _. write_results e results)).0) (exists w there) in cc
    | inr new ↦
        let w' = record w { directories = result_dir e ∷ w.directories; files = [] } in
        ap (λ o. contains (result_dir e) (continue o (λ _. write_results e results)).1.directories)
          (made w new)
        ∙ ap (contains (result_dir e)) ((write_results-Keeps results).kept w')
        ∙ own w.directories
  ]

  refused :
      (o : Option Results) (w : World (Unit {0}))
      → contains (result_dir e) w.directories ≡ true
      → recorded o w ≡ (none, w)
  unfolding recorded lift create_results_dir
  refused none w there = refl
  refused (some results) w there = rw there refl

  -- After a run that has written its results, another run with the same time and output directory
  -- raises, with any arguments, and leaves the files of the first one as they are.
  pub main_again :
      (args args' : Arguments) (printed : Text) (w : World (Unit {0}))
      → (main e args w).0 ≡ some printed
      → main e args' (main e args w).1 ≡ (none, (main e args w).1)
  unfolding main recorded
  main_again args args' printed w h =
      refused (simulated e args') (main e args w).1 (present (simulated e args) printed w h)
