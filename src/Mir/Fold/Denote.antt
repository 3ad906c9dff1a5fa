-- ===== src/Mir/Fold/Denote.antt =====
-- include/native/mir_optimizer.hpp: the values of instructions, and that of a folded one. The
-- meaning of the code is the emitted C of include/native/custom/c_emitter.hpp, read as a data flow.
pub mod Loop
pub mod Branch
use mathlib.Core.Bool.{false≢true}
use mathlib.Core.Option.{none-ne-some, some-injective}
use mathlib.Core.Path.{subst}
use native.Mathlib.Decide.{ℕ_discrete}
use munchkinglang.Prelude.{
  ℕ, zero, suc, ◌+◌, ◌%◌, ◌^◌, length, [], ◌∷◌, Bool, true, false, Option, none, some, ◌≡◌, ◌≢◌,
  refl, sym, ap, ◌∙◌, same_some, bind-some, get_elem?, set, get_elem?-lt, get_elem?-set_self,
  get_elem?-set_ne,
}
use munchkinglang.Mir.Instr.{Instr, Opcode, Code}
use munchkinglang.Mir.Runtime.{Host, Value}
use munchkinglang.Mir.Runtime.Ops.{munx_neg, munx_not, runtime_binop}
use munchkinglang.Mir.Fold.{
  on_one, on_two, Folding, folded, kept, undefined, fold_instr, fold_consts, fold_neg, fold_not,
  try_fold_binary, write_folding, const_fold_at, const_fold_loop, const_fold_function,
}
use munchkinglang.Mir.Fold.Exact.{
  const_value, const_value_of, call_binop, Agrees, try_fold_binary-Agrees, fold_neg-Agrees,
  fold_not-Agrees,
}

-- The results that no operand decides: a local's value, and the result of a call.
abbrev pub is_opaque : Opcode → Bool
is_opaque Opcode.load_local = true
is_opaque Opcode.call = true
is_opaque _ = false

-- `Denotes … code i v`: the instruction at index `i` computes `v`, where `opaque` gives the values
-- of loads and calls. Nothing is denoted where a runtime call aborts or is undefined.
module _ (h : Host) (strings opaque : ℕ → Value h) where
  pub data Denotes (code : Code) : ℕ → Value h → Type 0 where
    constant :
        {i : ℕ} {v : Value h} (x : Instr)
        → get_elem? code i ≡ some x
        → const_value h strings x ≡ some v
        → Denotes code i v
    loaded :
        {i : ℕ} {v : Value h} (x : Instr)
        → get_elem? code i ≡ some x
        → is_opaque x.op ≡ true
        → opaque i ≡ v
        → Denotes code i v
    negated :
        {i : ℕ} {v : Value h} (x : Instr) (a : ℕ) (u : Value h)
        → get_elem? code i ≡ some x
        → x.op ≡ Opcode.neg
        → x.args ≡ a ∷ []
        → Denotes code a u
        → munx_neg h u ≡ some v
        → Denotes code i v
    inverted :
        {i : ℕ} {v : Value h} (x : Instr) (a : ℕ) (u : Value h)
        → get_elem? code i ≡ some x
        → x.op ≡ Opcode.not_
        → x.args ≡ a ∷ []
        → Denotes code a u
        → munx_not h u ≡ v
        → Denotes code i v
    computed :
        {i : ℕ} {v : Value h} (x : Instr) (a b : ℕ) (u w : Value h)
        → get_elem? code i ≡ some x
        → x.args ≡ a ∷ b ∷ []
        → Denotes code a u
        → Denotes code b w
        → call_binop h strings x.op u w ≡ some v
        → Denotes code i v

  -- A constant is no operator and no load or call.
  const_kind :
      (o : Opcode) (x : Instr) {u : Value h}
      → const_value_of h strings o x ≡ some u
      → (is_opaque o ≡ false) × (runtime_binop h o ≡ none) × (o ≢ Opcode.neg) × (o ≢ Opcode.not_)
  unfolding runtime_binop
  const_kind Opcode.const_i64 x c = (refl, refl, cc, cc)
  const_kind Opcode.const_f64 x c = (refl, refl, cc, cc)
  const_kind Opcode.const_bool x c = (refl, refl, cc, cc)
  const_kind Opcode.const_null x c = (refl, refl, cc, cc)
  const_kind Opcode.const_str x c = (refl, refl, cc, cc)
  const_kind o x c = absurd (cc)

  call_binop-none :
      (o : Opcode) (u w : Value h) → runtime_binop h o ≡ none → call_binop h strings o u w ≡ none
  call_binop-none o u w e = rw (e, call_binop)

  now_const :
      {o : Option Instr} {x y : Instr} {u : Value h}
      → o ≡ some x
      → o ≡ some y
      → const_value h strings x ≡ some u
      → const_value h strings y ≡ some u
  now_const {u} e e' c = subst (λ z. const_value h strings z ≡ some u) (same_some e e') c

  -- An instruction that is a constant denotes that constant.
  const-Denotes :
      {code : Code} {i : ℕ} {v : Value h} (x : Instr) {u : Value h}
      → get_elem? code i ≡ some x
      → const_value h strings x ≡ some u
      → Denotes code i v
      → v ≡ u
  const-Denotes x e c (constant y ey cy) = same_some cy (now_const e ey c)
  const-Denotes x e c (loaded y ey oy q) =
      absurd (false≢true (sym (const_kind y.op y (now_const e ey c)).0 ∙ oy))
  const-Denotes x e c (negated y a u' ey oy ay d q) =
      absurd ((const_kind y.op y (now_const e ey c)).2 oy)
  const-Denotes x e c (inverted y a u' ey oy ay d q) =
      absurd ((const_kind y.op y (now_const e ey c)).3 oy)
  const-Denotes x e c (computed y a b u' w ey ay d d' q) = absurd (
      none-ne-some _ (sym (call_binop-none y.op u' w (const_kind y.op y (now_const e ey c)).1) ∙ q))

  -- A fold of a binary operator reads two constants.
  consts_of :
      (op lo ro : Opcode) (l r f : Instr)
      → fold_consts op lo ro l r ≡ folded f
      → (u w : Value h) × (const_value_of h strings lo l ≡ some u)
        × (const_value_of h strings ro r ≡ some w)
  unfolding fold_consts
  consts_of op Opcode.const_i64 Opcode.const_i64 l r f e = (_, _, refl, refl)
  consts_of op Opcode.const_bool Opcode.const_bool l r f e = (_, _, refl, refl)
  consts_of op lo ro l r f e = absurd (cc)

  negand_of :
      (o : Opcode) (a f : Instr)
      → fold_neg o a ≡ folded f
      → (u : Value h) × (const_value_of h strings o a ≡ some u)
  unfolding fold_neg
  negand_of Opcode.const_i64 a f e = (_, refl)
  negand_of o a f e = absurd (cc)

  notand_of :
      (o : Opcode) (a f : Instr)
      → fold_not o a ≡ folded f
      → (u : Value h) × (const_value_of h strings o a ≡ some u)
  unfolding fold_not
  notand_of Opcode.const_bool a f e = (_, refl)
  notand_of o a f e = absurd (cc)

  -- Constants, loads and calls are not folded.
  fold_instr-const :
      (code : Code) (x : Instr) (o : Opcode) {u : Value h}
      → const_value_of h strings o x ≡ some u
      → fold_instr code x o ≡ kept
  unfolding fold_instr
  fold_instr-const code x Opcode.const_i64 c = refl
  fold_instr-const code x Opcode.const_f64 c = refl
  fold_instr-const code x Opcode.const_bool c = refl
  fold_instr-const code x Opcode.const_null c = refl
  fold_instr-const code x Opcode.const_str c = refl
  fold_instr-const code x o c = absurd (cc)

  fold_instr-opaque :
      (code : Code) (x : Instr) (o : Opcode) → is_opaque o ≡ true → fold_instr code x o ≡ kept
  unfolding fold_instr
  fold_instr-opaque code x Opcode.load_local c = refl
  fold_instr-opaque code x Opcode.call c = refl
  fold_instr-opaque code x o c = absurd (cc)

  kept-ne-folded : {r : Instr} → kept ≢ folded r
  kept-ne-folded e = cc

  -- What `on_one` and `on_two` have read when they fold.
  read_of :
      (f : Instr → Folding) (o : Option Instr) (r : Instr)
      → elim o [ none ↦ kept | some x ↦ f x ] ≡ folded r
      → (l : Instr) × (o ≡ some l) × (f l ≡ folded r)
  read_of f none r e = absurd (cc)
  read_of f (some l) r e = (l, refl, e)

  -- The value of an operator of two arguments, where it folds.
  binary-folded :
      (code : Code) (op : Opcode) (a b : ℕ) {u w : Value h} (r : Instr)
      → on_two (try_fold_binary op) code (a ∷ b ∷ []) ≡ folded r
      → Denotes code a u
      → Denotes code b w
      → call_binop h strings op u w ≡ const_value h strings r
  unfolding try_fold_binary
  binary-folded code op a b r e du dw =
      let (l, el, e') = read_of _ (get_elem? code a) r e in
      let (m, em, e'') = read_of _ (get_elem? code b) r e' in
      let (u, w, cl, cm) = consts_of op l.op m.op l m r e'' in
      let agrees = try_fold_binary-Agrees h strings op l m cl cm in
      rw (const-Denotes l el cl du, const-Denotes m em cm dw)
        (subst (λ z. Agrees h strings z (call_binop h strings op u w)) e'' agrees)

  -- Which reads each kind of instruction folds from.
  fold_instr-neg :
      (code : Code) (x : Instr) (o : Opcode) (a : ℕ)
      → o ≡ Opcode.neg
      → x.args ≡ a ∷ []
      → fold_instr code x o ≡ on_one (λ l. fold_neg l.op l) code (a ∷ [])
  unfolding fold_instr
  fold_instr-neg code x o a p q = rw p (ap (on_one (λ l. fold_neg l.op l) code) q)

  fold_instr-not_ :
      (code : Code) (x : Instr) (o : Opcode) (a : ℕ)
      → o ≡ Opcode.not_
      → x.args ≡ a ∷ []
      → fold_instr code x o ≡ on_one (λ l. fold_not l.op l) code (a ∷ [])
  unfolding fold_instr
  fold_instr-not_ code x o a p q = rw p (ap (on_one (λ l. fold_not l.op l) code) q)

  fold_instr-binary :
      (code : Code) (x : Instr) (o : Opcode) (u w : Value h) {v : Value h}
      → call_binop h strings o u w ≡ some v
      → fold_instr code x o ≡ on_two (try_fold_binary o) code x.args
  unfolding fold_instr runtime_binop
  fold_instr-binary code x Opcode.add u w c = refl
  fold_instr-binary code x Opcode.sub u w c = refl
  fold_instr-binary code x Opcode.mul u w c = refl
  fold_instr-binary code x Opcode.div u w c = refl
  fold_instr-binary code x Opcode.mod_ u w c = refl
  fold_instr-binary code x Opcode.eq u w c = refl
  fold_instr-binary code x Opcode.ne u w c = refl
  fold_instr-binary code x Opcode.lt u w c = refl
  fold_instr-binary code x Opcode.gt u w c = refl
  fold_instr-binary code x Opcode.le u w c = refl
  fold_instr-binary code x Opcode.ge u w c = refl
  fold_instr-binary code x o u w c = absurd (cc)

  -- A folded instruction had the value of the constant that replaces it.
  folded-Denotes :
      (code : Code) (i : ℕ) (r : Instr) {v : Value h}
      → ((x : Instr) → get_elem? code i ≡ some x → fold_instr code x x.op ≡ folded r)
      → Denotes code i v
      → const_value h strings r ≡ some v
  folded-Denotes code i r fo (constant y ey cy) =
      absurd (kept-ne-folded (sym (fold_instr-const code y y.op cy) ∙ fo y ey))
  folded-Denotes code i r fo (loaded y ey oy q) =
      absurd (kept-ne-folded (sym (fold_instr-opaque code y y.op oy) ∙ fo y ey))
  folded-Denotes code i r fo (negated y a u' ey oy ay d q) =
      let (l, el, e') =
        read_of _ (get_elem? code a) r (sym (fold_instr-neg code y y.op a oy ay) ∙ fo y ey) in
      let (u, cl) = negand_of l.op l r e' in
      sym (subst (λ z. Agrees h strings z (munx_neg h u)) e' (fold_neg-Agrees h strings l cl))
      ∙ rw (← const-Denotes l el cl d) q
  folded-Denotes code i r fo (inverted y a u' ey oy ay d q) =
      let (l, el, e') =
        read_of _ (get_elem? code a) r (sym (fold_instr-not_ code y y.op a oy ay) ∙ fo y ey) in
      let (u, cl) = notand_of l.op l r e' in
      sym
        (subst (λ z. Agrees h strings z (some (munx_not h u))) e' (fold_not-Agrees h strings l cl))
      ∙ ap some (rw (← const-Denotes l el cl d) q)
  folded-Denotes code i r fo (computed y a b u' w ey ay d d' q) =
      let two = ap (on_two (try_fold_binary y.op) code) ay in
      sym (
        binary-folded code y.op a b r (sym (fold_instr-binary code y y.op u' w q ∙ two) ∙ fo y ey) d
          d')
      ∙ q

  const_value-result :
      (o : Opcode) (r : Instr) (k : ℕ)
      → const_value_of h strings o (record r { result = k }) ≡ const_value_of h strings o r
  const_value-result Opcode.const_i64 r k = refl
  const_value-result o r k = refl
