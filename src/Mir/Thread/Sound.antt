-- ===== src/Mir/Thread/Sound.antt =====
-- include/native/mir_optimizer.hpp: `jump_thread_function` as a whole.
use native.Mathlib.Decide.{ℕ_discrete}
use mathlib.Core.Path.{subst}
use mathlib.Core.Option.{none-ne-some, some-injective}
use munchkinglang.Prelude.{
  ℕ, zero, suc, ◌+◌, [], ◌∷◌, Option, none, some, ◌≡◌, inl, inr, refl, sym, ap, ◌∙◌, arith,
  same_some, ◌==◌, length, get_elem?, set, get_elem?-lt, get_elem?-set_self, get_elem?-set_ne,
  length-set, Bool-cases,
}
use munchkinglang.Mir.Instr.{Instr, Opcode, Code}
use munchkinglang.Mir.Thread.{
  is_label, enter_label, BlockMap, block_at_from, block_at, resolve, retarget, thread_at,
  thread_loop, jump_thread_function,
}
use munchkinglang.Mir.Thread.Silent.{
  stop, Silent-trans, is_label→eq, Leads, Follows, FollowsAll, PointsAtLabels, TargetsExist,
  resolve-Leads,
}

enter_label-PointsAtLabels :
    (m : BlockMap) (code : Code) (i : ℕ) (x : Instr)
    → get_elem? code i ≡ some x
    → PointsAtLabels m code
    → PointsAtLabels (enter_label x i m) code
unfolding enter_label
enter_label-PointsAtLabels m code i x e at b p h = elim (Bool-cases (is_label x.op)) [
  | inr f ↦ at b p (rw f at h)
  | inl t ↦ elim (Bool-cases (x.block_target == b)) [
    | inr f ↦ at b p (rw (t, f) at h)
    | inl s ↦ (
      x,
      subst (λ k. get_elem? code k ≡ some x) (some-injective _ _ (rw (t, s) at h)) e,
      is_label→eq x.op t,
    )
  ]
]

block_at_from-PointsAtLabels :
    (code : Code) (i : ℕ) (xs : Code) (m : BlockMap)
    → ((k : ℕ) → get_elem? xs k ≡ get_elem? code (k + i))
    → PointsAtLabels m code
    → PointsAtLabels (block_at_from i xs m) code
unfolding block_at_from
block_at_from-PointsAtLabels code i [] m rest at = at
block_at_from-PointsAtLabels code i (x ∷ xs) m rest at =
    block_at_from-PointsAtLabels code (suc i) xs (enter_label x i m)
      (λ k. rest (suc k) ∙ ap (get_elem? code) (omega arith))
      (enter_label-PointsAtLabels m code i x (ap (get_elem? code) (omega arith) ∙ sym (rest 0)) at)

block_at-PointsAtLabels : (code : Code) → PointsAtLabels (block_at code) code
unfolding block_at
block_at-PointsAtLabels code =
    block_at_from-PointsAtLabels code 0 code (λ b. none) (λ k. ap (get_elem? code) (omega arith))
      (λ b p h. absurd (none-ne-some _ h))

module _ (m : BlockMap) (code : Code) where
  Leads-trans : (b c d : ℕ) → Leads m code b c → Leads m code c d → Leads m code b d
  Leads-trans b c d f g p e =
      let (q, eq, s) = f p e in let (r, er, t) = g q eq in (r, er, Silent-trans s t)

  same-Follows : (x : Instr) → Follows m code x x
  same-Follows x = record {
    same_op = refl;
    same_args = refl;
    same_rest = λ _ _. refl;
    leads = λ _ p e. (p, e, stop);
    leads_false = λ _ p e. (p, e, stop);
  }

  set-FollowsAll :
      (cur : Code) (i : ℕ) (x y y' : Instr)
      → get_elem? cur i ≡ some y
      → get_elem? code i ≡ some x
      → Follows m code x y'
      → FollowsAll m code cur
      → FollowsAll m code (set cur i y')
  set-FollowsAll cur i x y y' e ex f all j z ez = elim (ℕ_discrete i j) [
    | no differ ↦ all j z (sym (get_elem?-set_ne cur y' differ) ∙ ez)
    | yes same ↦ (
      x,
      subst (λ k. get_elem? code k ≡ some x) same ex,
      subst (Follows m code x)
          (same_some
            (subst (λ k. get_elem? (set cur i y') k ≡ some y') same
              (get_elem?-set_self cur i y' (get_elem?-lt cur i e)))
            ez)
          f,
    )
  ]

  module _ (labels : PointsAtLabels m code) (exist : TargetsExist m code) where
    br-Follows :
        (cur : Code) (x y : Instr)
        → FollowsAll m code cur
        → y.op ≡ Opcode.br
        → Follows m code x y
        → Follows m code x (record y { block_target = resolve m cur y.block_target })
    br-Follows cur x y all o f = record {
      same_op = f.same_op;
      same_args = f.same_args;
      same_rest = λ n _. absurd (n (sym f.same_op ∙ o));
      leads = λ j.
          Leads-trans x.block_target y.block_target _ (f.leads j)
            (resolve-Leads m code cur labels exist all y.block_target);
      leads_false = f.leads_false;
    }

    cbr-Follows :
        (cur : Code) (x y : Instr) (b c : ℕ)
        → y.op ≡ Opcode.cbr
        → Follows m code x y
        → Leads m code y.block_target b
        → Leads m code y.block_target_false c
        → Follows m code x (record y { block_target = b; block_target_false = c })
    cbr-Follows cur x y b c o f lb lc = record {
      same_op = f.same_op;
      same_args = f.same_args;
      same_rest = λ _ n. absurd (n (sym f.same_op ∙ o));
      leads = λ j. Leads-trans x.block_target y.block_target b (f.leads j) lb;
      leads_false =
          λ j. Leads-trans x.block_target_false y.block_target_false c (f.leads_false j) lc;
    }

    retarget-FollowsAll :
        (o : Opcode) (cur : Code) (i : ℕ) (y : Instr)
        → y.op ≡ o
        → get_elem? cur i ≡ some y
        → FollowsAll m code cur
        → FollowsAll m code (retarget o m cur i y)
    unfolding retarget
    retarget-FollowsAll Opcode.br cur i y o e all =
        let (x, ex, f) = all i y e in
        set-FollowsAll cur i x y _ e ex (br-Follows cur x y all o f) all
    retarget-FollowsAll Opcode.cbr cur i y o e all =
        let (x, ex, f) = all i y e in
        let y' = record y { block_target = resolve m cur y.block_target } in
        let lb = resolve-Leads m code cur labels exist all y.block_target in
        let half = cbr-Follows cur x y _ y.block_target_false o f lb (λ p h. (p, h, stop)) in
        let all' = set-FollowsAll cur i x y y' e ex half all in
        set-FollowsAll (set cur i y') i x y' _ (get_elem?-set_self cur i y' (get_elem?-lt cur i e))
          ex
          (cbr-Follows cur x y _ _ o f lb
            (resolve-Leads m code (set cur i y') labels exist all' y.block_target_false))
          all'
    retarget-FollowsAll o cur i y p e all = all

    at-FollowsAll :
        (i : ℕ) (cur : Code) (o : Option Instr)
        → get_elem? cur i ≡ o
        → FollowsAll m code cur
        → FollowsAll m code (elim o [ none ↦ cur | some x ↦ retarget x.op m cur i x ])
    at-FollowsAll i cur none e all = all
    at-FollowsAll i cur (some y) e all = retarget-FollowsAll y.op cur i y refl e all

    loop-FollowsAll :
        (n i : ℕ) (cur : Code) → FollowsAll m code cur → FollowsAll m code (thread_loop n m i cur)
    unfolding thread_loop thread_at
    loop-FollowsAll zero i cur all = all
    loop-FollowsAll (suc n) i cur all =
        loop-FollowsAll n (suc i) (thread_at m i cur)
          (at-FollowsAll i cur (get_elem? cur i) refl all)

length-retarget :
    (o : Opcode) (m : BlockMap) (cur : Code) (i : ℕ) (y : Instr)
    → length (retarget o m cur i y) ≡ length cur
unfolding retarget
length-retarget Opcode.br m cur i y = length-set cur i _
length-retarget Opcode.cbr m cur i y = length-set _ i _ ∙ length-set cur i _
length-retarget o m cur i y = refl

length-at :
    (m : BlockMap) (i : ℕ) (cur : Code) (o : Option Instr)
    → length (elim o [ none ↦ cur | some x ↦ retarget x.op m cur i x ]) ≡ length cur
length-at m i cur none = refl
length-at m i cur (some y) = length-retarget y.op m cur i y

length-thread_loop :
    (n : ℕ) (m : BlockMap) (i : ℕ) (cur : Code) → length (thread_loop n m i cur) ≡ length cur
unfolding thread_loop thread_at
length-thread_loop zero m i cur = refl
length-thread_loop (suc n) m i cur =
    length-thread_loop n m (suc i) (thread_at m i cur) ∙ length-at m i cur (get_elem? cur i)

pub jump_thread_function-FollowsAll :
    (code : Code)
    → TargetsExist (block_at code) code
    → (length (jump_thread_function code) ≡ length code)
      × FollowsAll (block_at code) code (jump_thread_function code)
unfolding jump_thread_function
jump_thread_function-FollowsAll code exist = (
  length-thread_loop (length code) (block_at code) 0 code,
  loop-FollowsAll (block_at code) code (block_at-PointsAtLabels code) exist (length code) 0 code
      (λ i y e. (y, e, same-Follows (block_at code) code y)),
)
