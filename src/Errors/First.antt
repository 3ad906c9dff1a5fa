-- ===== src/Errors/First.antt =====
-- include/errors.hpp: of a sequence of reports the first error is the one that counts.
use mathlib.Core.List.{append_assoc, append-nil}
use munchkinglang.Prelude.{
  inl, inr, ℕ, List, [], ◌∷◌, ◌++◌, map, Bool, true, false, ◌≡◌, refl, sym, ap, ◌∙◌, Bool-cases,
  if◌then◌else◌,
}
use munchkinglang.Prelude.Int.{ℤ}
use munchkinglang.Errors.{
  is_ok, Error, success, is_error, Diagnostic, Context, Report, item, formatted, report, enter,
}

-- All reports up to the first error, and of those behind it the warnings.
unfoldable pub warnings : List Report → List Report
warnings [] = []
warnings (r ∷ rs) = let more = warnings rs in if is_error r.severity then more else r ∷ more

unfoldable pub up_to_error : List Report → List Report
unfolding warnings
up_to_error [] = []
up_to_error (r ∷ rs) =
    let more = up_to_error rs in if is_error r.severity then r ∷ warnings rs else r ∷ more

warnings_skip :
    (r : Report) (rs : List Report) → is_error r.severity ≡ true → warnings (r ∷ rs) ≡ warnings rs
unfolding warnings
warnings_skip r rs q = rw q refl

warnings_keep :
    (r : Report) (rs : List Report)
    → is_error r.severity ≡ false
    → warnings (r ∷ rs) ≡ r ∷ warnings rs
unfolding warnings
warnings_keep r rs q = rw q refl

up_to_here :
    (r : Report) (rs : List Report)
    → is_error r.severity ≡ true
    → up_to_error (r ∷ rs) ≡ r ∷ warnings rs
unfolding up_to_error
up_to_here r rs q = rw q refl

up_to_later :
    (r : Report) (rs : List Report)
    → is_error r.severity ≡ false
    → up_to_error (r ∷ rs) ≡ r ∷ up_to_error rs
unfolding up_to_error
up_to_later r rs q = rw q refl

-- Every report has a code that says so.
abbrev pub Coded : List Report → Type 0
Coded [] = Unit
Coded (r ∷ rs) = (is_ok r.code ≡ false) × Coded rs

module _ (to_string : ℤ → List ℕ) where
  abbrev error_of : Report → Error
  error_of r = record { code = r.code; message = formatted to_string r }

  -- The error of the first report that is one.
  unfoldable pub first_error : List Report → Error
  first_error [] = success
  first_error (r ∷ rs) =
      let more = first_error rs in if is_error r.severity then error_of r else more

  unfoldable pub report_all : List Report → Context → Context
  unfolding report
  report_all [] c = c
  report_all (r ∷ rs) c = report_all rs (report to_string r c)

  abbrev state : Error → List Diagnostic → Bool → Context
  state e ds all = record { err = e; diagnostics = ds; collect_all = all }

  step_warning :
      (r : Report) (e : Error) (ds : List Diagnostic) (all : Bool)
      → is_error r.severity ≡ false
      → report to_string r (state e ds all) ≡ state e (ds ++ (item r ∷ [])) all
  unfolding report
  step_warning r e ds all q = rw (q, report) refl

  step_later :
      (r : Report) (e : Error) (ds : List Diagnostic)
      → is_error r.severity ≡ true
      → is_ok e.code ≡ false
      → report to_string r (state e ds true) ≡ state e (ds ++ (item r ∷ [])) true
  unfolding report
  step_later r e ds q h = rw (q, h, report) refl

  step_dropped :
      (r : Report) (e : Error) (ds : List Diagnostic)
      → is_error r.severity ≡ true
      → is_ok e.code ≡ false
      → report to_string r (state e ds false) ≡ state e ds false
  unfolding report
  step_dropped r e ds q h = rw (q, h, report) refl

  step_first :
      (r : Report) (ds : List Diagnostic) (all : Bool)
      → is_error r.severity ≡ true
      → report to_string r (state success ds all) ≡ state (error_of r) (ds ++ (item r ∷ [])) all
  unfolding report
  step_first r ds all q = rw (q, report) refl

  same_list :
      (e : Error) (ds : List Diagnostic) {xs ys : List Report}
      → xs ≡ ys
      → state e (ds ++ map item xs) false ≡ state e (ds ++ map item ys) false
  same_list e ds p = ap (λ xs. state e (ds ++ map item xs) false) p

  first_here :
      (r : Report) (rs : List Report)
      → is_error r.severity ≡ true
      → first_error (r ∷ rs) ≡ error_of r
  unfolding first_error
  first_here r rs q = rw q refl

  first_later :
      (r : Report) (rs : List Report)
      → is_error r.severity ≡ false
      → first_error (r ∷ rs) ≡ first_error rs
  unfolding first_error
  first_later r rs q = rw q refl

  -- One more item, and those of the later reports.
  one_more :
      (e : Error) (ds : List Diagnostic) (r : Report) (more : List Report) (all : Bool)
      → state e ((ds ++ (item r ∷ [])) ++ map item more) all
        ≡ state e (ds ++ map item (r ∷ more)) all
  one_more e ds r more all = ap (λ d. state e d all) (append_assoc ds (item r ∷ []) (map item more))

  after_all :
      (rs : List Report) (e : Error) (ds : List Diagnostic)
      → is_ok e.code ≡ false
      → report_all rs (state e ds true) ≡ state e (ds ++ map item rs) true
  unfolding report_all
  after_all [] e ds h = ap (λ d. state e d true) (sym (append-nil ds))
  after_all (r ∷ rs) e ds h =
      let step : report to_string r (state e ds true) ≡ state e (ds ++ (item r ∷ [])) true =
        elim (Bool-cases (is_error r.severity)) [
          | inl q ↦ step_later r e ds q h
          | inr q ↦ step_warning r e ds true q
        ] in
      ap (report_all rs) step ∙ after_all rs e (ds ++ (item r ∷ [])) h ∙ one_more e ds r rs true

  after_first :
      (rs : List Report) (e : Error) (ds : List Diagnostic)
      → is_ok e.code ≡ false
      → report_all rs (state e ds false) ≡ state e (ds ++ map item (warnings rs)) false
  unfolding report_all warnings
  after_first [] e ds h = ap (λ d. state e d false) (sym (append-nil ds))
  after_first (r ∷ rs) e ds h = elim (Bool-cases (is_error r.severity)) [
    | inl q ↦
        ap (report_all rs) (step_dropped r e ds q h)
        ∙ after_first rs e ds h
        ∙ same_list e ds (sym (warnings_skip r rs q))
    | inr q ↦
        ap (report_all rs) (step_warning r e ds false q)
        ∙ after_first rs e (ds ++ (item r ∷ [])) h
        ∙ one_more e ds r (warnings rs) false
        ∙ same_list e ds (sym (warnings_keep r rs q))
  ]

  all_reports :
      (rs : List Report) (ds : List Diagnostic)
      → Coded rs
      → report_all rs (state success ds true) ≡ state (first_error rs) (ds ++ map item rs) true
  unfolding report_all first_error
  all_reports [] ds k = ap (λ d. state success d true) (sym (append-nil ds))
  all_reports (r ∷ rs) ds (k, ks) = elim (Bool-cases (is_error r.severity)) [
    | inl q ↦
        ap (report_all rs) (step_first r ds true q)
        ∙ after_all rs (error_of r) (ds ++ (item r ∷ [])) k
        ∙ one_more (error_of r) ds r rs true
        ∙ ap (λ e. state e (ds ++ map item (r ∷ rs)) true) (sym (first_here r rs q))
    | inr q ↦
        ap (report_all rs) (step_warning r success ds true q)
        ∙ all_reports rs (ds ++ (item r ∷ [])) ks
        ∙ one_more (first_error rs) ds r rs true
        ∙ ap (λ e. state e (ds ++ map item (r ∷ rs)) true) (sym (first_later r rs q))
  ]

  first_reports :
      (rs : List Report) (ds : List Diagnostic)
      → Coded rs
      → report_all rs (state success ds false)
        ≡ state (first_error rs) (ds ++ map item (up_to_error rs)) false
  unfolding report_all first_error up_to_error
  first_reports [] ds k = ap (λ d. state success d false) (sym (append-nil ds))
  first_reports (r ∷ rs) ds (k, ks) = elim (Bool-cases (is_error r.severity)) [
    | inl q ↦
        ap (report_all rs) (step_first r ds false q)
        ∙ after_first rs (error_of r) (ds ++ (item r ∷ [])) k
        ∙ one_more (error_of r) ds r (warnings rs) false
        ∙ λ i. state (sym (first_here r rs q) i) (ds ++ map item (sym (up_to_here r rs q) i)) false
    | inr q ↦
        ap (report_all rs) (step_warning r success ds false q)
        ∙ first_reports rs (ds ++ (item r ∷ [])) ks
        ∙ one_more (first_error rs) ds r (up_to_error rs) false
        ∙ λ i.
            state (sym (first_later r rs q) i) (ds ++ map item (sym (up_to_later r rs q) i)) false
  ]

  -- After any reports to a context that is entered, none with the code `ok`, the context's error is that
  -- of the first report that is an error, and there is none without such a report; the diagnostics are
  -- all the reports where all are collected, and otherwise those up to the first error with the warnings
  -- behind it.
  pub report_all-enter :
      (rs : List Report) (c : Context)
      → Coded rs
      → report_all rs (enter c) ≡ record {
        err = first_error rs;
        diagnostics = map item (if c.collect_all then rs else up_to_error rs);
        collect_all = c.collect_all;
      }
  unfolding enter
  report_all-enter rs c k = by_mode c.collect_all
    where
      by_mode :
          (all : Bool)
          → report_all rs (state success [] all)
            ≡ state (first_error rs) (map item (if all then rs else up_to_error rs)) all
      by_mode true = all_reports rs [] k
      by_mode false = first_reports rs [] k
