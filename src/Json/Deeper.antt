-- ===== src/Json/Deeper.antt =====
-- include/json.hpp: more rounds than are enough change nothing.
use mathlib.Core.Path.{subst}
use munchkinglang.Prelude.{
  ℕ, zero, suc, ◌+◌, List, Bool, true, false, Option, none, some, ◌≡◌, refl, ap, ◌∙◌, arith, ◌==◌,
}
use munchkinglang.Json.{Parser, ok, peek, skip_ws}
use munchkinglang.Json.Number.{Value, Values, Entries, nil, empty}
use munchkinglang.Json.Value.{
  push, store, parse_key, parse_close, parse_open, parse_value, item_rounds, entry_rounds,
}

abbrev Result : Type 0
Result = Option (Value × Parser)

-- The second gives what the first gives, if that gives anything.
Kept : Result → Result → Type 0
Kept none o = Unit
Kept (some r) o = o ≡ some r

same-Kept : (o : Result) → Kept o o
unfolding Kept
same-Kept none = tt
same-Kept (some r) = refl

-- Two computations that branch on one test.
both_branches :
    (u v u' v' : Result) (test : Bool)
    → Kept u u'
    → Kept v v'
    → Kept (elim test [ true ↦ u | false ↦ v ]) (elim test [ true ↦ u' | false ↦ v' ])
both_branches u v u' v' true h k = h
both_branches u v u' v' false h k = k

-- Two that go on with what is kept.
both_go_on :
    (o o' : Result) (f g : Value × Parser → Result)
    → Kept o o'
    → ((r : Value × Parser) → Kept (f r) (g r))
    → Kept (elim o [ none ↦ none | some r ↦ f r ]) (elim o' [ none ↦ none | some r ↦ g r ])
unfolding Kept
both_go_on none o' f g h k = tt
both_go_on (some r) o' f g h k = rw h (k r)

both_keys :
    (key : Option (List ℕ)) (u : Result) (f g : List ℕ → Result)
    → ((k : List ℕ) → Kept (f k) (g k))
    → Kept (elim key [ none ↦ u | some k ↦ f k ]) (elim key [ none ↦ u | some k ↦ g k ])
both_keys none u f g h = same-Kept u
both_keys (some k) u f g h = h k

none_more : (n : ℕ) → 0 + n ≡ n
none_more n = omega arith

one_deeper : (k n : ℕ) → suc k + n ≡ suc (k + n)
one_deeper k n = omega arith

module _ (strtod : List ℕ → Option ℕ) where
  mutual
    unfolding parse_value Kept

    parse_value-Kept :
        (n : ℕ) (p : Parser) → Kept (parse_value strtod n p) (parse_value strtod (suc n) p)
    parse_value-Kept zero p = tt
    parse_value-Kept (suc n) start =
        let p = skip_ws start in
        both_branches _ _ _ _ (ok start)
          (both_branches _ _ _ _ (peek p == b'{')
            (both_branches _ _ _ _ ((parse_open b'{' b'}' p).0) refl
              (entry_rounds-Kept n empty ((parse_open b'{' b'}' p).1)))
            (both_branches _ _ _ _ (peek p == b'[')
              (both_branches _ _ _ _ ((parse_open b'[' b']' p).0) refl
                (item_rounds-Kept n nil ((parse_open b'[' b']' p).1)))
              refl))
          refl

    item_rounds-Kept :
        (n : ℕ) (items : Values) (p : Parser)
        → Kept (item_rounds strtod n items p) (item_rounds strtod (suc n) items p)
    item_rounds-Kept zero items p = tt
    item_rounds-Kept (suc n) items p =
        both_branches _ _ _ _ (ok p)
          (both_go_on (parse_value strtod n p) (parse_value strtod (suc n) p) _ _
            (parse_value-Kept n p)
            (λ r.
              let q = r.1 in
              both_branches _ _ _ _ (ok q)
                (both_branches _ _ _ _ ((parse_close b']' q).0) refl
                  (item_rounds-Kept n (push items (r.0)) ((parse_close b']' q).1)))
                refl))
          refl

    entry_rounds-Kept :
        (n : ℕ) (entries : Entries) (p : Parser)
        → Kept (entry_rounds strtod n entries p) (entry_rounds strtod (suc n) entries p)
    entry_rounds-Kept zero entries p = tt
    entry_rounds-Kept (suc n) entries p =
        both_branches _ _ _ _ (ok p)
          (both_keys ((parse_key p).0) _ _ _ (λ key.
            both_go_on (parse_value strtod n ((parse_key p).1))
              (parse_value strtod (suc n) ((parse_key p).1)) _ _
              (parse_value-Kept n ((parse_key p).1))
              (λ r.
                let q = r.1 in
                both_branches _ _ _ _ (ok q)
                  (both_branches _ _ _ _ ((parse_close b'}' q).0) refl
                    (entry_rounds-Kept n (store entries key (r.0)) ((parse_close b'}' q).1)))
                  refl)))
          refl

  kept : (o o' : Result) (r : Value × Parser) → Kept o o' → o ≡ some r → o' ≡ some r
  unfolding Kept
  kept o o' r h q = subst (λ o. Kept o o') q h

  pub parse_value_more :
      (k n : ℕ) (p : Parser) (r : Value × Parser)
      → parse_value strtod n p ≡ some r
      → parse_value strtod (k + n) p ≡ some r
  parse_value_more zero n p r h = ap (λ m. parse_value strtod m p) (none_more n) ∙ h
  parse_value_more (suc k) n p r h =
      ap (λ m. parse_value strtod m p) (one_deeper k n)
      ∙ kept (parse_value strtod (k + n) p) _ r (parse_value-Kept (k + n) p)
          (parse_value_more k n p r h)
