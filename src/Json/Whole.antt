-- ===== src/Json/Whole.antt =====
-- include/json.hpp: a whole text.
use mathlib.Core.Path.{subst}
use munchkinglang.Prelude.{
  ◌-◌, ℕ, ◌+◌, ◌*◌, ◌≤◌, List, [], ◌∷◌, true, false, Option, none, some, ◌≡◌, ◌⊎◌, inl, inr, refl,
  ap, ◌∙◌, arith, length, Option-cases, elim_cases, same_some,
}
use munchkinglang.Json.{Parser, Message, ok, fail, is_empty, skip_ws}
use munchkinglang.Json.Number.{Value, null}
use munchkinglang.Json.Value.{parse_value, begin, finish, parse}
use munchkinglang.Json.Moves.{left, error_offset, Moves, Moves-trans, fail-Moves, skip_ws-Moves}
use munchkinglang.Json.Deeper.{parse_value_more}
use munchkinglang.Json.Ends.{parse_value-Ends, needs_more, goes_on, fail-ok, skip_ws-ok}

empty-left : (p : Parser) → is_empty p.rest ≡ true → left p ≡ 0
empty-left p h = from p.rest refl
  where
    from : (rest : List ℕ) → p.rest ≡ rest → left p ≡ 0
    from [] q = rw q refl
    from (x ∷ xs) q = absurd (cc (h, ap is_empty q))

-- Either the text is read to its end, or the value is null and the failure stands in the text.
unfoldable pub IsWhole : ℕ → Value × Parser → Type 0
IsWhole size (v, p) =
    ((ok p ≡ true) × (p.offset ≡ size)) ⊎ ((ok p ≡ false) × (v ≡ null) × (error_offset p ≤ size))

finish-IsWhole :
    (p : Parser) (r : Value × Parser)
    → p.offset ≡ 0
    → error_offset p ≡ 0
    → Moves p (r.1)
    → IsWhole (left p) (finish r)
unfolding IsWhole
finish-IsWhole p (v, q) z e m =
    let P = IsWhole (left p) in
    let s = skip_ws q in
    let to_s = Moves-trans m (skip_ws-Moves q) in
    let refused = fail Message.unexpected_trailing_input s in
    let to_refused = Moves-trans to_s (fail-Moves Message.unexpected_trailing_input s) in
    elim_cases (ok q) P
      (λ t.
        elim_cases (is_empty s.rest) P
          (λ h. inl (skip_ws-ok q ∙ t, omega (arith, to_s.kept, empty-left s h)))
          (λ _. inr (
            fail-ok Message.unexpected_trailing_input s,
            refl,
            to_refused.inside (left p) (omega arith) (omega arith),
          )))
      (λ t. inr (t, refl, m.inside (left p) (omega arith) (omega arith)))

module _ (strtod : List ℕ → Option ℕ) where
  -- A text of `k` characters is parsed to a result, a value or a failure, in 2 k + 1 nested calls and
  -- rounds, and more of them give the same result.
  pub parse_ends :
      (text : List ℕ) (n : ℕ)
      → 2 * length text + 1 ≤ n
      → (r : Value × Parser) × (parse strtod (2 * length text + 1) text ≡ some r)
        × (parse strtod n text ≡ some r)
  unfolding parse
  parse_ends text n h =
      let start = skip_ws (begin text) in
      let least = 2 * length text + 1 in
      let ends = parse_value-Ends strtod least start in
      elim (Option-cases (parse_value strtod least start)) [
        | inl q ↦ absurd (
            omega (
              arith,
              needs_more (2 * left start + 1) least start _ ends q,
              (skip_ws-Moves (begin text)).less,
            ))
        | inr (r, q) ↦
            let more = parse_value_more strtod (n - least) least start r q in
            let counted : n - least + least ≡ n = omega (arith, h) in
            let later : parse_value strtod n start ≡ some r =
              subst (λ m. parse_value strtod m start ≡ some r) counted more in
            (finish r, rw (q, parse) refl, rw (later, parse) refl)
      ]

  -- A result of `parse` either has no failure and has read the whole text, or has a failure at an
  -- offset of at most the text's length, and no value but null.
  pub parse-IsWhole :
      (text : List ℕ) (n : ℕ) (v : Value) (p : Parser)
      → parse strtod n text ≡ some (v, p)
      → ((ok p ≡ true) × (p.offset ≡ length text))
        ⊎ ((ok p ≡ false) × (v ≡ null) × (error_offset p ≤ length text))
  unfolding parse IsWhole
  parse-IsWhole text n v p h =
      let start = skip_ws (begin text) in
      let ends = parse_value-Ends strtod n start in
      elim (Option-cases (parse_value strtod n start)) [
        | inl q ↦
            let gone : parse strtod n text ≡ none = rw (q, parse) refl in absurd (cc (h, gone))
        | inr (r, q) ↦
            let given : parse strtod n text ≡ some (finish r) = rw (q, parse) refl in
            let moves =
              Moves-trans (skip_ws-Moves (begin text))
                (goes_on (2 * left start + 1) n start _ r ends q) in
            subst (IsWhole (length text)) (same_some given h)
              (finish-IsWhole (begin text) r refl refl moves)
      ]
