-- ===== src/Errors/Tests.antt =====
-- include/errors.hpp: the theorems at concrete reports.
use munchkinglang.Prelude.{ℕ, List, [], ◌∷◌, false, ◌≡◌, refl}
use munchkinglang.Prelude.Int.{ℤ, pos}
use munchkinglang.Lexer.Words.{ascii}
use munchkinglang.Errors.{ErrorCode, Severity, Span, Context, Report, item, enter, formatted}
use munchkinglang.Errors.First.{Coded, first_error, up_to_error, report_all, report_all-enter}

abbrev digit : ℤ → List ℕ
digit n = ascii "7"

abbrev here : Span
here = record {
  file = ascii "a.mx";
  line = pos 7;
  column = pos 7;
  end_line = pos 7;
  end_column = pos 0;
}

abbrev warned : Report
warned = record {
  severity = Severity.warning;
  span = here;
  message = ascii "unused";
  code = ErrorCode.compile;
}

abbrev first_bad : Report
first_bad = record {
  severity = Severity.error;
  span = here;
  message = ascii "no type";
  code = ErrorCode.compile;
}

abbrev later_bad : Report
later_bad = record {
  severity = Severity.error;
  span = here;
  message = ascii "no name";
  code = ErrorCode.internal;
}

abbrev reports : List Report
reports = warned ∷ first_bad ∷ later_bad ∷ warned ∷ []

abbrev old : Context
old = record {
  err = record { code = ErrorCode.io; message = [] };
  diagnostics = item later_bad ∷ [];
  collect_all = false;
}

reports-Coded : Coded reports
reports-Coded = (refl, (refl, (refl, (refl, tt))))

report_all-enter_example : report_all digit reports (enter old) ≡ record {
  err = record { code = ErrorCode.compile; message = ascii "a.mx:7:7: error: no type" };
  diagnostics = item warned ∷ item first_bad ∷ item warned ∷ [];
  collect_all = false;
}
unfolding first_error up_to_error formatted
report_all-enter_example = report_all-enter digit reports old reports-Coded
