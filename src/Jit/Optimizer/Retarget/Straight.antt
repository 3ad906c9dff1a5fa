-- ===== src/Jit/Optimizer/Retarget/Straight.antt =====
-- include/jit/bytecode_optimizer.hpp: on straight code the second loop changes nothing, and the whole
-- optimizer keeps the meaning.
use munchkinglang.Prelude.{
  ℕ, zero, suc, ◌+◌, ◌-◌, ◌<◌, List, [], ◌∷◌, ◌++◌, Bool, true, false, not, Option, none, some, ◌≡◌,
  refl, sym, ap, ◌∙◌, arith, length, take, drop, leb, Bool-cases, same_some, elim_cases,
  option_cases, Option-cases, inl, inr, bind-some, length-append, drop-append,
}
use mathlib.Core.Bool.{false≢true}
use mathlib.Core.Path.{subst}
use mathlib.Core.List.{append_assoc}
use munchkinglang.Jit.Bytecode.Opcodes.{Opcode, opcode_at}
use munchkinglang.Jit.Bytecode.{Cursor, read_u8, skip_operands, skip_instruction}
use munchkinglang.Jit.Bytecode.Insns.{
  Insn, push_int, push_bool, plain, read_i64, low_bytes, i64_bytes, emit, emit_all, is_push_int,
  is_push_bool, fetch,
}
use munchkinglang.Jit.Bytecode.Again.{at_bytes}
use munchkinglang.Jit.Bytecode.Words.{AreBytes}
use munchkinglang.Jit.Bytecode.Fetched.{IsWhole}
use munchkinglang.Jit.Pgo.{Run, at_start, instruction}
use munchkinglang.Vm.Value.{Host}
use munchkinglang.Vm.Straight.{Frame, run_opcode, run_insn, run_insns, execute_rounds}
use munchkinglang.Jit.Optimizer.Meaning.{OrdersSmall}
use munchkinglang.Jit.Optimizer.Reached.{AllWhole}
use munchkinglang.Jit.Optimizer.Equivalence.{
  is_kept_code, length-emit_all, execute_whole, fold_pass-run_insns,
}
use munchkinglang.Jit.Optimizer.Retarget.{
  has_target, retarget_rounds, retarget_folded, optimize_bytecode,
}

-- The first byte is not of an instruction that has a target.
unfoldable starts_straight : List ℕ → Bool
starts_straight [] = false
starts_straight (x ∷ xs) = not (has_target (opcode_at x))

not_true : (b : Bool) → not b ≡ true → b ≡ false
not_true true q = absurd (cc)
not_true false q = refl

module _ (strings : List ℕ) where
  -- What is read as an instruction by its bytes is passed as one.
  Skips : Cursor → Option (Insn × Cursor) → Type 0
  Skips c (some (plain x operands, d)) = skip_instruction strings c ≡ some d
  Skips c _ = Unit

  instruction_skips :
      (c : Cursor) (r : List ℕ × Cursor)
      → instruction strings c ≡ some r
      → skip_instruction strings c ≡ some (r.1)
  unfolding instruction
  instruction_skips c r q = elim (Option-cases (skip_instruction strings c)) [
    | inl k ↦
        let q' : Path (Option (List ℕ × Cursor)) none (some r) = rw (k, instruction) at q in
        absurd (cc)
    | inr (e, k) ↦ elim (Bool-cases (leb (e.pc - c.pc) (length c.rest))) [
      | inl m ↦
          let same : Path (List ℕ × Cursor) (take (e.pc - c.pc) c.rest, e) r =
            same_some refl (rw (k, m, instruction) at q) in
          k ∙ ap (λ s. some (s.1)) same
      | inr m ↦
          let q' : Path (Option (List ℕ × Cursor)) none (some r) = rw (k, m, instruction) at q in
          absurd (cc)
    ]
  ]

  fetch-Skips : (c : Cursor) → Skips c (fetch strings c)
  unfolding fetch Skips
  fetch-Skips c =
      option_cases (read_u8 c) (Skips c) (λ _. tt)
        (λ r q.
          elim_cases (is_push_int (opcode_at (r.0))) (Skips c)
            (λ _. option_cases (read_i64 (r.1)) (Skips c) (λ _. tt) (λ s k. tt))
            (λ hi.
              elim_cases (is_push_bool (opcode_at (r.0))) (Skips c)
                (λ _. option_cases (read_u8 (r.1)) (Skips c) (λ _. tt) (λ s k. tt))
                (λ hb.
                  option_cases (instruction strings c) (Skips c) (λ _. tt)
                    (λ s k. instruction_skips c s k))))

  counted : (pc k : ℕ) → pc + 1 + k ≡ pc + suc k
  counted pc k = omega arith

  passes :
      (i : Insn) (rest : List ℕ) (pc : ℕ)
      → IsWhole strings i
      → skip_instruction strings (at_bytes (emit i ++ rest) pc)
        ≡ some (at_bytes rest (pc + length (emit i)))
  unfolding skip_instruction skip_operands read_u8 opcode_at emit i64_bytes low_bytes IsWhole Skips
  passes (push_int z) rest pc w = ap (λ k. some (at_bytes rest k)) (counted pc 8)
  passes (push_bool b) rest pc w = ap (λ k. some (at_bytes rest k)) (counted pc 1)
  passes (plain x operands) rest pc w =
      subst (Skips (at_bytes (emit (plain x operands) ++ rest) pc)) (w rest pc)
        (fetch-Skips (at_bytes (emit (plain x operands) ++ rest) pc))

  module _ (h : Host) where
    straight_opcode :
        (op : Opcode) (operands : List ℕ) (f g : Frame h)
        → run_opcode h op operands f ≡ some g
        → has_target (some op) ≡ false
    unfolding run_opcode
    straight_opcode Opcode.jmp operands f g q = absurd (cc)
    straight_opcode Opcode.jmp_if_false operands f g q = absurd (cc)
    straight_opcode Opcode.jmp_if_true operands f g q = absurd (cc)
    straight_opcode Opcode.monitor_enter operands f g q = absurd (cc)
    straight_opcode _ operands f g q = refl

    straight_plain :
        (x : ℕ) (operands : List ℕ) (f g : Frame h)
        → run_insn h (plain x operands) f ≡ some g
        → has_target (opcode_at x) ≡ false
    unfolding run_insn
    straight_plain x operands f g q = elim (Option-cases (opcode_at x)) [
      | inl k ↦ ap has_target k
      | inr (op, k) ↦ ap has_target k ∙ straight_opcode op operands f g (rw (k, run_insn) at q)
    ]

    one_step :
        (remap : List (ℕ × ℕ)) (n index : ℕ) (out bytes rest : List ℕ) (next : ℕ)
        → drop index out ≡ bytes
        → starts_straight bytes ≡ true
        → skip_instruction strings (at_bytes bytes index) ≡ some (at_bytes rest next)
        → retarget_rounds strings remap (suc n) index out ≡ retarget_rounds strings remap n next out
    unfolding retarget_rounds starts_straight
    one_step remap n index out [] rest next e t k = absurd (false≢true t)
    one_step remap n index out (x ∷ xs) rest next e t k =
        let none_here : has_target (opcode_at x) ≡ false = not_true _ t in
        rw (e, none_here, k, retarget_rounds) refl

    insn_straight :
        (i : Insn) (rest : List ℕ) (f g : Frame h)
        → run_insn h i f ≡ some g
        → starts_straight (emit i ++ rest) ≡ true
    unfolding emit starts_straight opcode_at
    insn_straight (push_int z) rest f g q = refl
    insn_straight (push_bool b) rest f g q = refl
    insn_straight (plain x operands) rest f g q = ap not (straight_plain x operands f g q)

    -- The second loop, from behind `front` on, where all that follows has run.
    retarget_straight :
        (remap : List (ℕ × ℕ)) (n : ℕ) (front out : List ℕ) (is : List Insn) (f g : Frame h)
        → out ≡ front ++ emit_all is
        → length is < n
        → AllWhole strings is
        → run_insns h is f ≡ some g
        → retarget_rounds strings remap n (length front) out ≡ Run.done out
    unfolding retarget_rounds emit_all AllWhole run_insns
    retarget_straight remap zero front out is f g e less w q = absurd (omega (arith, less))
    retarget_straight remap (suc n) front out [] f g e less w q =
        let behind : drop (length front) out ≡ [] =
          ap (drop (length front)) e ∙ drop-append front [] in
        rw (behind, retarget_rounds) refl
    retarget_straight remap (suc n) front out (i ∷ is) f g e less (w, ws) q =
        let (b, m, later) = bind-some (run_insn h i f) (run_insns h is) q in
        let rest = emit_all is in
        let behind : drop (length front) out ≡ emit i ++ rest =
          ap (drop (length front)) e ∙ drop-append front (emit i ++ rest) in
        let next = length front + length (emit i) in
        let whole : out ≡ (front ++ emit i) ++ rest = e ∙ sym (append_assoc front (emit i) rest) in
        one_step remap n (length front) out (emit i ++ rest) rest next behind
          (insn_straight i rest f b m) (passes i rest (length front) w)
        ∙ ap (λ k. retarget_rounds strings remap n k out) (sym (length-append front (emit i)))
        ∙ retarget_straight remap n (front ++ emit i) out is b g whole (omega (arith, less)) ws
            later

    -- Where the machine runs the bytes of straight code to their end, and no round of the loop that folds
    -- falls on what it does not keep, the optimizer gives code, and the machine runs that from the same
    -- frame to the same frame.
    pub optimize_bytecode-execute_rounds :
        (source : List ℕ) (f g : Frame h)
        → OrdersSmall h
        → AreBytes source
        → is_kept_code strings source ≡ true
        → execute_rounds h strings (suc (length source)) (at_start source) f ≡ Run.done g
        → (out : List ℕ) × (optimize_bytecode source strings ≡ Run.done out)
          × (execute_rounds h strings (suc (length out)) (at_start out) f ≡ Run.done g)
    unfolding optimize_bytecode retarget_folded
    optimize_bytecode-execute_rounds source f g o bytes kept q =
        let (s, is, p, e, w, ran) = fold_pass-run_insns strings h source f g o bytes kept q in
        let few : length is < suc (length s.out) =
          omega (arith, length-emit_all strings h is, ap length e) in
        (
          s.out,
          ap (retarget_folded strings) p
              ∙ retarget_straight s.pc_remap (suc (length s.out)) [] s.out is f g e few w ran,
          subst (λ b. execute_rounds h strings (suc (length s.out)) (at_start b) f ≡ Run.done g)
              (sym e) (execute_whole strings h (suc (length s.out)) 0 is f g few w ran),
        )
