-- ===== src/Mir/Dce/Closure.antt =====
-- include/native/mir_optimizer.hpp: the fixed point of `dce_function` ends, and is closed under
-- arguments.
use native.Mathlib.Nat.{le_trans}
use mathlib.Core.Bool.{◌||◌}
use mathlib.Core.Option.{some-injective}
use mathlib.Core.Path.{subst}
use munchkinglang.Prelude.{
  ℕ, zero, suc, ◌+◌, ◌≤◌, ◌<◌, List, [], ◌∷◌, true, false, Option, none, some, ◌≡◌, refl, sym, ◌∙◌,
  arith, ◌==◌, ==_iff, if◌then◌else◌, get_elem?, Bool-cases, inl, inr,
}
use munchkinglang.Mir.Instr.{Instr, Code}
use munchkinglang.Mir.Dce.{
  contains, Marks, insert, mark_args, mark_roots, mark_round, mark_loop, missing_args, missing,
  used_values, has_side_effect, is_load,
}

abbrev pub Holds : List ℕ → ℕ → Type 0
Holds used a = contains used a ≡ true

-- Every argument of an instruction whose value is used is used.
abbrev pub IsClosed : Code → List ℕ → Type 0
IsClosed code used =
    (id : ℕ) (x : Instr)
    → Holds used id
    → get_elem? code id ≡ some x
    → (a : ℕ) → Holds x.args a
    → Holds used a

insert-Holds : (a b : ℕ) (s : Marks) → Holds s.used b → Holds (insert a s).used b
insert-Holds a b s h = ground arith

insert_self : (a : ℕ) (s : Marks) → Holds (insert a s).used a
insert_self a s = ground arith

mark_args-Holds :
    (args : List ℕ) (b : ℕ) (s : Marks) → Holds s.used b → Holds (mark_args args s).used b
unfolding mark_args
mark_args-Holds [] b s h = h
mark_args-Holds (a ∷ args) b s h = mark_args-Holds args b (insert a s) (insert-Holds a b s h)

mark_args_all : (args : List ℕ) (b : ℕ) (s : Marks) → Holds args b → Holds (mark_args args s).used b
unfolding mark_args
mark_args_all [] b s h = absurd (cc)
mark_args_all (a ∷ args) b s h = elim (Bool-cases (a == b)) [
  | inl e ↦
      mark_args-Holds args b (insert a s)
        (subst (Holds (insert a s).used) ((==_iff a b).0 e) (insert_self a s))
  | inr n ↦ mark_args_all args b (insert a s) (rw n at h)
]

missing_args-le :
    (a : ℕ) (used args : List ℕ) → missing_args (a ∷ used) args ≤ missing_args used args
missing_args-le a used [] = omega arith
missing_args-le a used (b ∷ args) = ground (arith, missing_args-le a used args)

missing-le : (a : ℕ) (used : List ℕ) (code : Code) → missing code (a ∷ used) ≤ missing code used
missing-le a used [] = omega arith
missing-le a used (x ∷ code) = omega (arith, missing_args-le a used x.args, missing-le a used code)

-- A value that an instruction reads and that was not in the set is no longer missing.
missing_args-lt :
    (a : ℕ) (used args : List ℕ)
    → contains used a ≡ false
    → Holds args a
    → missing_args (a ∷ used) args < missing_args used args
missing_args-lt a used [] n h = absurd (cc)
missing_args-lt a used (b ∷ args) n h =
    ground (arith, missing_args-le a used args, missing_args-lt a used args n)

missing-lt :
    (a : ℕ) (used : List ℕ) (code : Code) (id : ℕ) (x : Instr)
    → contains used a ≡ false
    → get_elem? code id ≡ some x
    → Holds x.args a
    → missing code (a ∷ used) < missing code used
missing-lt a used [] id x n e h = absurd (cc)
missing-lt a used (y ∷ code) zero x n e h = omega (
  arith,
  missing-le a used code,
  missing_args-lt a used y.args n (subst (λ z. Holds z.args a) (sym (some-injective _ _ e)) h),
)
missing-lt a used (y ∷ code) (suc id) x n e h =
    omega (arith, missing_args-le a used y.args, missing-lt a used code id x n e h)

-- What a call leaves missing, with one more while nothing has changed, does not grow.
abbrev cost : Code → Marks → ℕ
cost code s = missing code s.used + (if s.changed then 1 else 0)

module _ (code : Code) where
  insert-cost :
      (a id : ℕ) (x : Instr) (s : Marks)
      → get_elem? code id ≡ some x
      → Holds x.args a
      → cost code (insert a s) ≤ cost code s
  insert-cost a id x s e h = ground (arith, missing-lt a s.used code id x)

  mark_args-cost :
      (id : ℕ) (x : Instr) (args : List ℕ) (s : Marks)
      → get_elem? code id ≡ some x
      → ((a : ℕ) → Holds args a → Holds x.args a)
      → cost code (mark_args args s) ≤ cost code s
  unfolding mark_args
  mark_args-cost id x [] s e sub = omega arith
  mark_args-cost id x (a ∷ args) s e sub =
      le_trans (mark_args-cost id x args (insert a s) e (λ b h. sub b (ground (arith, h))))
        (insert-cost a id x s e (sub a (ground arith)))

  -- Nothing has changed only if nothing was added.
  insert-unchanged :
      (a : ℕ) (s : Marks)
      → (insert a s).changed ≡ false
      → (s.changed ≡ false) × ((insert a s).used ≡ s.used)
  insert-unchanged a s h = ground arith

  mark_args-unchanged :
      (args : List ℕ) (s : Marks)
      → (mark_args args s).changed ≡ false
      → (s.changed ≡ false) × ((mark_args args s).used ≡ s.used)
  unfolding mark_args
  mark_args-unchanged [] s h = (h, refl)
  mark_args-unchanged (a ∷ args) s h =
      let (c, same) = mark_args-unchanged args (insert a s) h in
      let (c', same') = insert-unchanged a s c in (c', same ∙ same')

  -- One step of a round.
  abbrev visit : Option Instr → Marks → Marks
  visit o s = elim o [ none ↦ s | some x ↦ mark_args x.args s ]

  visit-Holds : (o : Option Instr) (b : ℕ) (s : Marks) → Holds s.used b → Holds (visit o s).used b
  visit-Holds none b s h = h
  visit-Holds (some x) b s h = mark_args-Holds x.args b s h

  visit-unchanged :
      (o : Option Instr) (s : Marks)
      → (visit o s).changed ≡ false
      → (s.changed ≡ false) × ((visit o s).used ≡ s.used)
  visit-unchanged none s h = (h, refl)
  visit-unchanged (some x) s h = mark_args-unchanged x.args s h

  visit-cost :
      (id : ℕ) (o : Option Instr) (s : Marks)
      → get_elem? code id ≡ o
      → cost code (visit o s) ≤ cost code s
  visit-cost id none s e = omega arith
  visit-cost id (some x) s e = mark_args-cost id x x.args s e (λ a h. h)

  round-Holds :
      (ids : List ℕ) (b : ℕ) (s : Marks) → Holds s.used b → Holds (mark_round code ids s).used b
  unfolding mark_round
  round-Holds [] b s h = h
  round-Holds (id ∷ ids) b s h =
      round-Holds ids b (visit (get_elem? code id) s) (visit-Holds (get_elem? code id) b s h)

  round-cost : (ids : List ℕ) (s : Marks) → cost code (mark_round code ids s) ≤ cost code s
  unfolding mark_round
  round-cost [] s = omega arith
  round-cost (id ∷ ids) s =
      le_trans (round-cost ids (visit (get_elem? code id) s))
        (visit-cost id (get_elem? code id) s refl)

  round-unchanged :
      (ids : List ℕ) (s : Marks)
      → (mark_round code ids s).changed ≡ false
      → (s.changed ≡ false) × ((mark_round code ids s).used ≡ s.used)
  unfolding mark_round
  round-unchanged [] s h = (h, refl)
  round-unchanged (id ∷ ids) s h =
      let (c, same) = round-unchanged ids (visit (get_elem? code id) s) h in
      let (c', same') = visit-unchanged (get_elem? code id) s c in (c', same ∙ same')

  -- A round that visits `id` has the arguments of its instruction in the set.
  round_all :
      (ids : List ℕ) (id : ℕ) (x : Instr) (s : Marks) (a : ℕ)
      → Holds ids id
      → get_elem? code id ≡ some x
      → Holds x.args a
      → Holds (mark_round code ids s).used a
  unfolding mark_round
  round_all [] id x s a m e h = absurd (cc)
  round_all (k ∷ ids) id x s a m e h = elim (Bool-cases (k == id)) [
    | inl same ↦ round-Holds ids a (visit (get_elem? code k) s) (
        subst (λ o. Holds (visit o s).used a)
          (sym (subst (λ j. get_elem? code j ≡ some x) (sym ((==_iff k id).0 same)) e))
          (mark_args_all x.args a s h))
    | inr n ↦ round_all ids id x (visit (get_elem? code k) s) a (rw n at m) e h
  ]

  -- With more rounds than values missing, the loop ends because nothing changed: the set it gives
  -- has all that it was given and is closed.
  mark_loop-IsClosed :
      (fuel : ℕ) (used : List ℕ)
      → missing code used < fuel
      → IsClosed code (mark_loop fuel code used)
        × ((b : ℕ) → Holds used b → Holds (mark_loop fuel code used) b)
  unfolding mark_loop
  mark_loop-IsClosed zero used h = absurd (omega arith)
  mark_loop-IsClosed (suc fuel) used h =
      let start : Marks = record { used = used; changed = false } in
      let s = mark_round code used start in
      elim (Bool-cases s.changed) [
        | inl more ↦
            let enough : missing code s.used < fuel = ground (arith, round-cost used start) in
            let (closed, keeps) = mark_loop-IsClosed fuel s.used enough in
            rw more (closed, (λ b m. keeps b (round-Holds used b start m)))
        | inr done ↦
            let (_, same) = round-unchanged used start done in
            rw done (
              (λ id x m e a i. round_all used id x start a (subst (λ u. Holds u id) same m) e i),
              λ b m. round-Holds used b start m,
            )
      ]

missing_args-le-empty : (used args : List ℕ) → missing_args used args ≤ missing_args [] args
missing_args-le-empty used [] = omega arith
missing_args-le-empty used (a ∷ args) = ground (arith, missing_args-le-empty used args)

missing-le-empty : (used : List ℕ) (code : Code) → missing code used ≤ missing code []
missing-le-empty used [] = omega arith
missing-le-empty used (x ∷ code) =
    omega (arith, missing_args-le-empty used x.args, missing-le-empty used code)

-- What an instruction with an effect marks.
abbrev visit_root : Instr → Marks → Marks
visit_root x s = if has_side_effect x.op || is_load x.op then mark_args x.args s else s

visit_root-Holds : (x : Instr) (b : ℕ) (s : Marks) → Holds s.used b → Holds (visit_root x s).used b
visit_root-Holds x b s h = elim (Bool-cases (has_side_effect x.op || is_load x.op)) [
  | inl t ↦ rw t (mark_args-Holds x.args b s h)
  | inr f ↦ rw f h
]

mark_roots-Holds :
    (code : Code) (b : ℕ) (s : Marks) → Holds s.used b → Holds (mark_roots code s).used b
unfolding mark_roots
mark_roots-Holds [] b s h = h
mark_roots-Holds (x ∷ code) b s h =
    mark_roots-Holds code b (visit_root x s) (visit_root-Holds x b s h)

mark_roots_all :
    (code : Code) (id : ℕ) (x : Instr) (s : Marks) (a : ℕ)
    → get_elem? code id ≡ some x
    → has_side_effect x.op ≡ true
    → Holds x.args a
    → Holds (mark_roots code s).used a
unfolding mark_roots
mark_roots_all [] id x s a e o h = absurd (cc)
mark_roots_all (y ∷ code) zero x s a e o h = mark_roots-Holds code a (visit_root y s) (
    subst (λ z. Holds (visit_root z s).used a) (sym (some-injective _ _ e))
      (rw o (mark_args_all x.args a s h)))
mark_roots_all (y ∷ code) (suc id) x s a e o h = mark_roots_all code id x (visit_root y s) a e o h

pub used_values_marks :
    (code : Code)
    → IsClosed code (used_values code)
      × ((id : ℕ) (x : Instr)
          → get_elem? code id ≡ some x
          → has_side_effect x.op ≡ true
          → (a : ℕ) → Holds x.args a
          → Holds (used_values code) a)
unfolding used_values
used_values_marks code =
    let start : Marks = record { used = []; changed = false } in
    let roots = (mark_roots code start).used in
    let (closed, keeps) =
      mark_loop-IsClosed code (suc (missing code [])) roots
        (omega (arith, missing-le-empty roots code)) in
    (closed, (λ id x e o a h. keeps a (mark_roots_all code id x start a e o h)))

-- The set that removal works with is closed under arguments, so the rounds given to its loop are
-- enough, and it has each argument `a` of each instruction with a side effect.
pub used_values-IsClosed :
    (code : Code) (id : ℕ) (x : Instr) (a : ℕ)
    → get_elem? code id ≡ some x
    → has_side_effect x.op ≡ true
    → Holds x.args a
    → IsClosed code (used_values code) × Holds (used_values code) a
used_values-IsClosed code id x a e o h =
    let (closed, roots) = used_values_marks code in (closed, roots id x e o a h)
