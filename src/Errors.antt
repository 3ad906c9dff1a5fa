-- ===== src/Errors.antt =====
-- include/errors.hpp: the errors and warnings of a compilation.
pub mod First
mod Tests
use munchkinglang.Prelude.{
  ℕ, List, [], ◌∷◌, ◌++◌, Bool, true, false, not, ◌&&◌, Option, none, some, ◌==◌, if◌then◌else◌,
}
use munchkinglang.Prelude.Int.{ℤ, pos, negsuc, ◌+ℤ◌}
use munchkinglang.Lexer.Words.{ascii}

pub data ErrorCode : Type 0 where
  ok compile runtime division_by_zero overflow invalid_argument io protocol internal : ErrorCode

abbrev pub is_ok : ErrorCode → Bool
is_ok ErrorCode.ok = true
is_ok _ = false

-- `error`
pub record Error : Type 0 where
  pub code : ErrorCode
  pub message : List ℕ

abbrev pub success : Error
success = record { code = ErrorCode.ok; message = [] }

pub data Severity : Type 0 where
  error warning : Severity

pub record Span : Type 0 where
  pub file : List ℕ
  pub line : ℤ
  pub column : ℤ
  pub end_line : ℤ
  pub end_column : ℤ

pub record Diagnostic : Type 0 where
  pub severity : Severity
  pub span : Span
  pub message : List ℕ

-- `compile_context`
pub record Context : Type 0 where
  pub err : Error
  pub diagnostics : List Diagnostic
  pub collect_all : Bool

abbrev pub failed : Context → Bool
failed c = not (is_ok c.err.code)

abbrev pub is_error : Severity → Bool
is_error Severity.error = true
is_error Severity.warning = false

-- The arguments of a call of `report`.
pub record Report : Type 0 where
  pub severity : Severity
  pub span : Span
  pub message : List ℕ
  pub code : ErrorCode

abbrev pub is_zero : ℤ → Bool
is_zero (pos n) = n == 0
is_zero (negsuc n) = false

-- The span that is stored: an end that is not given is taken from the start.
unfoldable pub filled : Span → Span
unfolding ◌+ℤ◌
filled s = record s {
  end_line = if is_zero s.end_line then s.line else s.end_line;
  end_column =
      if not (is_zero s.end_column)
      then s.end_column
      else if is_zero s.column
      then pos 0
      else s.column +ℤ pos 1;
}

unfoldable pub item : Report → Diagnostic
unfolding filled
item r = record { severity = r.severity; span = filled r.span; message = r.message }

-- `std::to_string`
module _ (to_string : ℤ → List ℕ) where
  unfoldable pub formatted : Report → List ℕ
  formatted r = elim r.span.file [
    | [] ↦ r.message
    | x ∷ xs ↦
        if is_zero r.span.line
        then r.message
        else (x ∷ xs)
          ++ ascii ":"
          ++ to_string r.span.line
          ++ ascii ":"
          ++ to_string r.span.column
          ++ ascii ": error: "
          ++ r.message
  ]

  unfoldable pub report : Report → Context → Context
  unfolding item formatted
  report r c =
      let added = record c { diagnostics = c.diagnostics ++ (item r ∷ []) } in
      if is_error r.severity && failed c && not c.collect_all
      then c
      else if is_error r.severity && not (failed c)
      then record added { err = record { code = r.code; message = formatted r } }
      else added

  abbrev pub no_span : Span
  no_span = record { file = []; line = pos 0; column = pos 0; end_line = pos 0; end_column = pos 0 }

  -- `compile_context::fail`
  unfoldable pub fail : ErrorCode → List ℕ → Context → Context
  unfolding report
  fail code message c =
      report (record { severity = Severity.error; span = no_span; message = message; code = code })
        c

  -- `fail_compile`, with the active context; `none` is the abort where there is none.
  unfoldable pub fail_compile : List ℕ → Option Context → Option Context
  unfolding fail
  fail_compile message none = none
  fail_compile message (some c) = some (fail ErrorCode.compile message c)

  unfoldable pub fail_compile_at : List ℕ → ℤ → ℤ → List ℕ → ℤ → Option Context → Option Context
  unfolding report
  fail_compile_at file line column message end_column none = none
  fail_compile_at file line column message end_column (some c) = some (
      report
        (record {
          severity = Severity.error;
          span = record {
            file = file;
            line = line;
            column = column;
            end_line = line;
            end_column = end_column;
          };
          message = message;
          code = ErrorCode.compile;
        })
        c)

  -- What is printed is left out; with no context that is all.
  unfoldable pub warn_compile_at : List ℕ → ℤ → ℤ → List ℕ → ℤ → Option Context → Option Context
  unfolding report
  warn_compile_at file line column message end_column none = none
  warn_compile_at file line column message end_column (some c) = some (
      report
        (record {
          severity = Severity.warning;
          span = record {
            file = file;
            line = line;
            column = column;
            end_line = line;
            end_column = end_column;
          };
          message = message;
          code = ErrorCode.compile;
        })
        c)

-- `compile_context_scope` on a context.
unfoldable pub enter : Context → Context
enter c = record c { err = success; diagnostics = [] }

abbrev pub fresh : Context
fresh = record { err = success; diagnostics = []; collect_all = false }

unfoldable pub run_compile_boundary : (Context → Context) → Error
unfolding enter
run_compile_boundary body = (body (enter fresh)).err
