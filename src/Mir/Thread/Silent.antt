-- ===== src/Mir/Thread/Silent.antt =====
-- include/native/mir_optimizer.hpp: what `resolve` finds, as steps of the emitted C that do nothing
-- but pass a label or take a `goto`.
use mathlib.Core.Path.{subst}
use munchkinglang.Prelude.{
  ℕ, zero, suc, true, Option, none, some, ◌≡◌, ◌≢◌, ◌⊎◌, inl, inr, refl, sym, ◌∙◌, arith, same_some,
  Bool-cases, if◌then◌else◌, length, get_elem?,
}
use munchkinglang.Mir.Instr.{Instr, Opcode, Code}
use munchkinglang.Mir.Thread.{
  is_label, is_br, BlockMap, skip_labels, first_work, br_target, resolve_loop, resolve,
}

-- `Silent m code p q`: control at index `p` comes to index `q` and does no work on the way. `m`
-- gives the index of a block's label.
pub data Silent (m : BlockMap) (code : Code) : ℕ → ℕ → Type 0 where
  stop : {p : ℕ} → Silent m code p p
  pass :
      {p q : ℕ} (x : Instr)
      → get_elem? code p ≡ some x
      → x.op ≡ Opcode.label
      → Silent m code (suc p) q
      → Silent m code p q
  goto :
      {p r : ℕ} (x : Instr) (q : ℕ)
      → get_elem? code p ≡ some x
      → x.op ≡ Opcode.br
      → m x.block_target ≡ some q
      → Silent m code q r
      → Silent m code p r

pub Silent-trans :
    {m : BlockMap} {code : Code} {p q r : ℕ}
    → Silent m code p q
    → Silent m code q r
    → Silent m code p r
Silent-trans stop t = t
Silent-trans (pass x e o s) t = pass x e o (Silent-trans s t)
Silent-trans (goto x q e o l s) t = goto x q e o l (Silent-trans s t)

pub is_label→eq : (o : Opcode) → is_label o ≡ true → o ≡ Opcode.label
unfolding is_label
is_label→eq Opcode.label h = refl
is_label→eq o h = absurd (cc)

pub is_br→eq : (o : Opcode) → is_br o ≡ true → o ≡ Opcode.br
unfolding is_br
is_br→eq Opcode.br h = refl
is_br→eq o h = absurd (cc)

-- A jump to block `b` and a jump to block `c` come to do the same work: from the label of the one
-- control silently reaches the label of the other.
abbrev pub Leads : BlockMap → Code → ℕ → ℕ → Type 0
Leads m code b c = (p : ℕ) → m b ≡ some p → (q : ℕ) × (m c ≡ some q) × Silent m code p q

-- What threading may change in an instruction `x`: the targets of a jump, each to one that leads to
-- the same work.
pub record Follows (m : BlockMap) (code : Code) (x y : Instr) : Type 0 where
  pub same_op : y.op ≡ x.op
  pub same_args : y.args ≡ x.args
  pub same_rest : x.op ≢ Opcode.br → x.op ≢ Opcode.cbr → y ≡ x
  pub leads : (x.op ≡ Opcode.br) ⊎ (x.op ≡ Opcode.cbr) → Leads m code x.block_target y.block_target
  pub leads_false : x.op ≡ Opcode.cbr → Leads m code x.block_target_false y.block_target_false

abbrev pub FollowsAll : BlockMap → Code → Code → Type 0
FollowsAll m code cur =
    (i : ℕ) (y : Instr)
    → get_elem? cur i ≡ some y
    → (x : Instr) × (get_elem? code i ≡ some x) × Follows m code x y

-- The map points at labels.
abbrev pub PointsAtLabels : BlockMap → Code → Type 0
PointsAtLabels m code =
    (b p : ℕ) → m b ≡ some p → (x : Instr) × (get_elem? code p ≡ some x) × (x.op ≡ Opcode.label)

-- Every `br` has a label to go to, as the C compiler demands of a `goto`.
abbrev pub TargetsExist : BlockMap → Code → Type 0
TargetsExist m code =
    (i : ℕ) (x : Instr)
    → get_elem? code i ≡ some x
    → x.op ≡ Opcode.br
    → (p : ℕ) × (m x.block_target ≡ some p)

module _ (m : BlockMap) (code cur : Code) (labels : PointsAtLabels m code)
    (exist : TargetsExist m code) (follows : FollowsAll m code cur) where
  label-Silent :
      (i : ℕ) (y : Instr) {q : ℕ}
      → get_elem? cur i ≡ some y
      → is_label y.op ≡ true
      → Silent m code (suc i) q
      → Silent m code i q
  label-Silent i y e t s =
      let (x, ex, f) = follows i y e in pass x ex (sym f.same_op ∙ is_label→eq y.op t) s

  skip_at :
      (i next : ℕ) (o : Option Instr)
      → get_elem? cur i ≡ o
      → Silent m code (suc i) next
      → Silent m code i (elim o [ none ↦ i | some x ↦ if is_label x.op then next else i ])
  skip_at i next none e s = stop
  skip_at i next (some y) e s = elim (Bool-cases (is_label y.op)) [
    | inl t ↦ rw t (label-Silent i y e t s)
    | inr f ↦ rw f stop
  ]

  -- Skipping labels is silent.
  skip-Silent : (fuel i : ℕ) → Silent m code i (skip_labels fuel cur i)
  unfolding skip_labels
  skip-Silent zero i = stop
  skip-Silent (suc fuel) i =
      skip_at i (skip_labels fuel cur (suc i)) (get_elem? cur i) refl (skip-Silent fuel (suc i))

  work-Silent : (b p : ℕ) → m b ≡ some p → Silent m code p (skip_labels (length cur) cur (suc p))
  work-Silent b p e =
      let (x, ex, o) = labels b p e in pass x ex o (skip-Silent (length cur) (suc p))

  stays : (b : ℕ) → Leads m code b b
  stays b p e = (p, e, stop)

  -- One round of `resolve`: from the label of `b` past labels to a `br`, whose target leads on.
  target-Leads :
      (b c r k : ℕ) (y : Instr)
      → ((p : ℕ) → m b ≡ some p → Silent m code p k)
      → get_elem? cur k ≡ some y
      → is_br y.op ≡ true
      → y.block_target ≡ c
      → Leads m code c r
      → Leads m code b r
  target-Leads b c r k y reach e t same on p ep =
      let (x, ex, f) = follows k y e in
      let br = sym f.same_op ∙ is_br→eq y.op t in
      let (q, eq) = exist k x ex br in
      let (q', eq', s) = f.leads (inl br) q eq in
      let (r', er, s') = on q' (subst (λ d. m d ≡ some q') same eq') in
      (r', er, Silent-trans (reach p ep) (goto x q ex br eq (Silent-trans s s')))

  br_target-eq :
      (y : Instr) (c : ℕ) → br_target y ≡ some c → (is_br y.op ≡ true) × (y.block_target ≡ c)
  br_target-eq y c e = ground arith

  jump-Leads :
      (b k : ℕ) (y : Instr) (o : Option ℕ) (next : ℕ → ℕ)
      → ((p : ℕ) → m b ≡ some p → Silent m code p k)
      → get_elem? cur k ≡ some y
      → br_target y ≡ o
      → ((c : ℕ) → Leads m code c (next c))
      → Leads m code b (elim o [ none ↦ b | some c ↦ next c ])
  jump-Leads b k y none next reach e t on = stays b
  jump-Leads b k y (some c) next reach e t on =
      let (is, same) = br_target-eq y c t in target-Leads b c (next c) k y reach e is same (on c)

  work-Leads :
      (b k : ℕ) (o : Option Instr) (next : ℕ → ℕ)
      → ((p : ℕ) → m b ≡ some p → Silent m code p k)
      → get_elem? cur k ≡ o
      → ((c : ℕ) → Leads m code c (next c))
      → Leads m code b
          (elim o [ none ↦ b | some x ↦ elim (br_target x) [ none ↦ b | some c ↦ next c ] ])
  work-Leads b k none next reach e on = stays b
  work-Leads b k (some y) next reach e on = jump-Leads b k y (br_target y) next reach e refl on

  block-Leads :
      (b : ℕ) (o : Option ℕ) (next : ℕ → ℕ)
      → m b ≡ o
      → ((c : ℕ) → Leads m code c (next c))
      → Leads m code b (elim o [
        | none ↦ b
        | some p ↦ elim (first_work cur p) [
          | none ↦ b
          | some x ↦ elim (br_target x) [ none ↦ b | some c ↦ next c ]
        ]
      ])
  unfolding first_work
  block-Leads b none next e on = stays b
  block-Leads b (some p) next e on =
      work-Leads b (skip_labels (length cur) cur (suc p)) _ next
        (λ p' e'.
          subst (λ k. Silent m code k (skip_labels (length cur) cur (suc p))) (same_some e e')
            (work-Silent b p e))
        refl on

  resolve_loop-Leads : (guard b : ℕ) → Leads m code b (resolve_loop guard m cur b)
  unfolding resolve_loop
  resolve_loop-Leads zero b = stays b
  resolve_loop-Leads (suc guard) b =
      block-Leads b (m b) (resolve_loop guard m cur) refl (resolve_loop-Leads guard)

  -- A jump to the block that `resolve` finds does the work of a jump to the block it was given,
  -- although `resolve` reads code in which earlier jumps are already threaded.
  pub resolve-Leads : (b : ℕ) → Leads m code b (resolve m cur b)
  unfolding resolve
  resolve-Leads = resolve_loop-Leads 32
