-- ===== src/Prelude/Tests.antt =====
-- Boolean tests on the native numbers, and the conditional.
use Prim.Native.Nat.{ℕ, ◌≤◌, ◌<◌, compare, Ordering}
use mathlib.Core.Path.{◌≡◌, refl, sym, ◌∙◌}
use mathlib.Core.Logic.{◌↔◌, ◌⊎◌, inl, inr}
use mathlib.Core.Bool.{Bool, true, false}
use mathlib.Core.Option.{Option, none, some, some-injective}
use native.Mathlib.Omega.{arith}

-- These compute to `compare`, which `ground` and `grind` read with no lemma listed.
abbrev pub ltb : ℕ → ℕ → Bool
ltb a b = elim (compare a b) [ Ordering.lt ↦ true | _ ↦ false ]

abbrev pub leb : ℕ → ℕ → Bool
leb a b = elim (compare a b) [ Ordering.gt ↦ false | _ ↦ true ]

infix 50 ◌==◌
abbrev pub ◌==◌ : ℕ → ℕ → Bool
a == b = elim (compare a b) [ Ordering.eq ↦ true | _ ↦ false ]

infix 1 if◌then◌else◌
abbrev pub if◌then◌else◌ {ℓ} : {A : Type ℓ} → Bool → A → A → A
if true then x else y = x
if false then x else y = y

-- `omega` reads a test through such lemmas.
pub ltb→lt : (a b : ℕ) → ltb a b ≡ true → a < b
ltb→lt a b h = ground arith

pub lt→ltb : (a b : ℕ) → a < b → ltb a b ≡ true
lt→ltb a b h = ground arith

pub leb→le : (a b : ℕ) → leb a b ≡ true → a ≤ b
leb→le a b h = ground arith

pub ==_iff : (a b : ℕ) → ((a == b) ≡ true) ↔ (a ≡ b)
==_iff a b = ground arith

pub ruleset tests = (arith, ltb→lt, lt→ltb, leb→le)

-- To split on a computed value and keep the equation.
pub Bool-cases : (b : Bool) → (b ≡ true) ⊎ (b ≡ false)
Bool-cases true = inl refl
Bool-cases false = inr refl

pub Option-cases {ℓ} : {A : Type ℓ} (o : Option A) → (o ≡ none) ⊎ ((a : A) × (o ≡ some a))
Option-cases none = inl refl
Option-cases (some a) = inr (a, refl)

-- Two values that one computation gives are equal.
pub same_some {ℓ} : {A : Type ℓ} {o : Option A} {x y : A} → o ≡ some x → o ≡ some y → x ≡ y
same_some p q = some-injective _ _ (sym p ∙ q)

-- What holds in both branches of a test, each with its outcome known.
pub if_cases {ℓ κ} :
    {A : Type ℓ} {u v : A} (test : Bool) (P : A → Type κ)
    → (test ≡ true → P u)
    → (test ≡ false → P v)
    → P (if test then u else v)
if_cases true P hu hv = hu refl
if_cases false P hu hv = hv refl

-- The same for the cases of an `elim`.
pub elim_cases {ℓ κ} :
    {A : Type ℓ} {u v : A} (test : Bool) (P : A → Type κ)
    → (test ≡ true → P u)
    → (test ≡ false → P v)
    → P (elim test [ true ↦ u | false ↦ v ])
elim_cases true P hu hv = hu refl
elim_cases false P hu hv = hv refl

pub option_cases {ℓ κ μ} :
    {A : Type ℓ} {B : Type μ} {u : A} {v : B → A} (o : Option B) (P : A → Type κ)
    → (o ≡ none → P u)
    → ((b : B) → o ≡ some b → P (v b))
    → P (elim o [ none ↦ u | some b ↦ v b ])
option_cases none P hu hv = hu refl
option_cases (some b) P hu hv = hv b refl
