-- ===== src/Json/Kinds/Fields.antt =====
-- include/json.hpp and include/vm_value.hpp: fields that are stored are found, and kinds that are
-- accepted are those that were asked for.
use mathlib.Core.Path.{subst}
use mathlib.Core.Bool.{false≢true}
use munchkinglang.Prelude.{
  ℕ, ◌-◌, ◌^◌, List, true, ◌&&◌, Option, none, some, if◌then◌else◌, ◌≡◌, refl, sym, ap, ◌∙◌,
  if_cases, Bool-cases, inl, inr,
}
use munchkinglang.Prelude.Int.{ℤ, pos, negsuc, leb_ℤ}
use munchkinglang.Mir.Runtime.{same_bytes}
use munchkinglang.Mir.Runtime.Bytes.{same_bytes_self, same_bytes-path}
use munchkinglang.Lexer.Words.{ascii}
use munchkinglang.Json.Number.{
  Value, Entries, null, bool, int, float, string, array, object, empty, entry,
}
use munchkinglang.Json.Value.{store}
use munchkinglang.Json.Kinds.{
  value_kind_name, Checked, Doubles, int_of_double, require_int, require_float, require_string,
  require_bool, require_object, require_array, require_kind, find_entry, holds_string, holds_bool,
  holds_object, holds_array,
}

-- A lookup behind `map_store_entry` gives the value that was stored where the keys are the same bytes,
-- and otherwise what it gave before.
pub find_entry-store :
    (entries : Entries) (key other : List ℕ) (v : Value)
    → find_entry other (store entries key v)
      ≡ (if same_bytes key other then some v else find_entry other entries)
unfolding find_entry store
find_entry-store empty key other v = refl
find_entry-store (entry k w rest) key other v = elim (Bool-cases (same_bytes k key)) [
  | inl q ↦
      let same : same_bytes k other ≡ same_bytes key other =
        ap (λ x. same_bytes x other) (same_bytes-path k key q) in
      elim (Bool-cases (same_bytes key other)) [
        | inl r ↦ rw (q, same, r) refl
        | inr r ↦ rw (q, same, r) refl
      ]
  | inr q ↦ elim (Bool-cases (same_bytes k other)) [
    | inr s ↦ rw (q, s) (find_entry-store rest key other v)
    | inl s ↦ elim (Bool-cases (same_bytes key other)) [
      | inr r ↦ rw (q, s, r) refl
      | inl r ↦
          let alike : same_bytes k key ≡ true =
            ap (λ x. same_bytes x key)
              (same_bytes-path k other s ∙ sym (same_bytes-path key other r))
            ∙ same_bytes_self key in
          absurd (false≢true (sym q ∙ alike))
    ]
  ]
]

Accepts : List ℕ → Checked → Type 0
Accepts kind (Checked.accepted w) = value_kind_name w ≡ kind
Accepts kind _ = Unit

holds_string-name : (v : Value) → holds_string v ≡ true → value_kind_name v ≡ ascii "string"
unfolding holds_string value_kind_name
holds_string-name (string x) h = refl
holds_string-name v h = absurd (cc)

holds_bool-name : (v : Value) → holds_bool v ≡ true → value_kind_name v ≡ ascii "bool"
unfolding holds_bool value_kind_name
holds_bool-name (bool x) h = refl
holds_bool-name v h = absurd (cc)

holds_object-name : (v : Value) → holds_object v ≡ true → value_kind_name v ≡ ascii "object"
unfolding holds_object value_kind_name
holds_object-name (object x) h = refl
holds_object-name v h = absurd (cc)

holds_array-name : (v : Value) → holds_array v ≡ true → value_kind_name v ≡ ascii "array"
unfolding holds_array value_kind_name
holds_array-name (array x) h = refl
holds_array-name v h = absurd (cc)

require_string-Accepts :
    (context : List ℕ) (v : Value) → Accepts (ascii "string") (require_string context v)
unfolding Accepts require_string
require_string-Accepts context v =
    if_cases (holds_string v) (Accepts (ascii "string")) (holds_string-name v) (λ _. tt)

require_bool-Accepts :
    (context : List ℕ) (v : Value) → Accepts (ascii "bool") (require_bool context v)
unfolding Accepts require_bool
require_bool-Accepts context v =
    if_cases (holds_bool v) (Accepts (ascii "bool")) (holds_bool-name v) (λ _. tt)

require_object-Accepts :
    (context : List ℕ) (v : Value) → Accepts (ascii "object") (require_object context v)
unfolding Accepts require_object
require_object-Accepts context v =
    if_cases (holds_object v) (Accepts (ascii "object")) (holds_object-name v) (λ _. tt)

require_array-Accepts :
    (context : List ℕ) (v : Value) → Accepts (ascii "array") (require_array context v)
unfolding Accepts require_array
require_array-Accepts context v =
    if_cases (holds_array v) (Accepts (ascii "array")) (holds_array-name v) (λ _. tt)

module _ (doubles : Doubles) where
  double-Accepts :
      (context : List ℕ) (v : Value) (o : Option ℤ)
      → Accepts (ascii "int") (int_of_double context v o)
  unfolding Accepts int_of_double value_kind_name
  double-Accepts context v none = tt
  double-Accepts context v (some z) =
      let P = Accepts (ascii "int") in
      if_cases (leb_ℤ (negsuc (2 ^ 63 - 1)) z && leb_ℤ z (pos (2 ^ 63))) P
        (λ _. if_cases (leb_ℤ (pos (2 ^ 63)) z) P (λ _. tt) (λ _. refl)) (λ _. tt)

  require_int-Accepts :
      (context : List ℕ) (v : Value) → Accepts (ascii "int") (require_int doubles context v)
  unfolding Accepts require_int value_kind_name
  require_int-Accepts context (int n) = refl
  require_int-Accepts context (float bits) =
      double-Accepts context (float bits) (doubles.whole_of bits)
  require_int-Accepts context null = tt
  require_int-Accepts context (bool b) = tt
  require_int-Accepts context (string s) = tt
  require_int-Accepts context (array a) = tt
  require_int-Accepts context (object o) = tt

  require_float-Accepts :
      (context : List ℕ) (v : Value) → Accepts (ascii "float") (require_float doubles context v)
  unfolding Accepts require_float value_kind_name
  require_float-Accepts context (int n) = refl
  require_float-Accepts context (float bits) = refl
  require_float-Accepts context null = tt
  require_float-Accepts context (bool b) = tt
  require_float-Accepts context (string s) = tt
  require_float-Accepts context (array a) = tt
  require_float-Accepts context (object o) = tt

  -- A branch of `require_kind` is taken for one kind only.
  at_kind :
      (kind name : List ℕ) (r : Checked)
      → Accepts name r
      → same_bytes kind name ≡ true
      → Accepts kind r
  at_kind kind name r a h = subst (λ k. Accepts k r) (sym (same_bytes-path kind name h)) a

  require_kind-Accepts :
      (v : Value) (kind context : List ℕ) → Accepts kind (require_kind doubles v kind context)
  unfolding Accepts require_kind
  require_kind-Accepts v kind context =
      let P = Accepts kind in
      if_cases (same_bytes kind (ascii "string")) P
        (at_kind kind (ascii "string") _ (require_string-Accepts context v))
        (λ _.
          if_cases (same_bytes kind (ascii "int")) P
            (at_kind kind (ascii "int") _ (require_int-Accepts context v))
            (λ _.
              if_cases (same_bytes kind (ascii "float")) P
                (at_kind kind (ascii "float") _ (require_float-Accepts context v))
                (λ _.
                  if_cases (same_bytes kind (ascii "bool")) P
                    (at_kind kind (ascii "bool") _ (require_bool-Accepts context v))
                    (λ _.
                      if_cases (same_bytes kind (ascii "object")) P
                        (at_kind kind (ascii "object") _ (require_object-Accepts context v))
                        (λ _.
                          if_cases (same_bytes kind (ascii "array")) P
                            (at_kind kind (ascii "array") _ (require_array-Accepts context v))
                            (λ _. tt))))))

  -- A value that `require_kind` accepts, converted or not, is of the kind that was asked for.
  pub require_kind-value_kind_name :
      (v w : Value) (kind context : List ℕ)
      → require_kind doubles v kind context ≡ Checked.accepted w
      → value_kind_name w ≡ kind
  unfolding Accepts
  require_kind-value_kind_name v w kind context h =
      subst (Accepts kind) h (require_kind-Accepts v kind context)
