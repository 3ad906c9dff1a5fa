-- ===== src/Jit/Optimizer/Size.antt =====
-- include/jit/bytecode_optimizer.hpp: the loop that folds ends, and writes no more than it reads.
use mathlib.Core.Path.{subst}
use munchkinglang.Prelude.{
  ℕ, zero, suc, ◌+◌, ◌≤◌, ◌<◌, List, [], ◌∷◌, ◌++◌, Bool, Option, none, some, ◌≡◌, refl, ap, arith,
  leb, length, drop, elim_cases, option_cases, list_cases, Bool-cases, inl, inr, same_some, leb→le,
  length-append, length-drop,
}
use munchkinglang.Prelude.Int.{ℤ}
use munchkinglang.Mir.Runtime.{i64_neg}
use munchkinglang.Jit.Bytecode.Opcodes.{Opcode, opcode_at}
use munchkinglang.Jit.Bytecode.{Cursor, read_u8}
use munchkinglang.Jit.Bytecode.Insns.{
  Insn, push_int, push_bool, plain, read_i64, i64_bytes, emit, emit_all, behind_first, is_push_int,
  is_push_bool, fetch,
}
use munchkinglang.Jit.Pgo.{Run, instruction}
use munchkinglang.Jit.Pgo.Ends.{read_u8-lt, splits}
use munchkinglang.Jit.Optimizer.{
  PendingFold, nothing, int, int_pair, flag, Folding, record_pc, write, pending_insns,
  flush_pending, taken_at, hold, opcode_alone, copy, fold_binary, fold_compare, half_constant,
  negate_pending, invert_pending, discard_pending, try_fold_binary_int, try_fold_compare_int, Class,
  class_of, act_opcode, act_push_int, act_push_bool, act, fold_rounds,
}
use munchkinglang.Jit.Optimizer.Reached.{flush_pending-out}

-- The bytes that what is pending takes when it is written.
unfoldable pub held_size : PendingFold → ℕ
held_size nothing = 0
held_size (int z) = 9
held_size (int_pair left right) = 18
held_size (flag b) = 2

length-pending_insns : (p : PendingFold) → length (emit_all (pending_insns p)) ≡ held_size p
unfolding pending_insns emit_all emit i64_bytes held_size
length-pending_insns nothing = refl
length-pending_insns (int z) = refl
length-pending_insns (int_pair left right) = refl
length-pending_insns (flag b) = refl

abbrev pub weight : Folding → ℕ
weight s = length s.out + held_size s.pending

flush_pending-weight :
    (s : Folding)
    → (length (flush_pending s).out ≡ weight s) × ((flush_pending s).pending ≡ nothing)
flush_pending-weight s =
    let (out, empty) = flush_pending-out s in
    (
      omega (
        arith,
        ap length out,
        length-append s.out (emit_all (pending_insns s.pending)),
        length-pending_insns s.pending,
      ),
      empty,
    )

write-out :
    (is : List Insn) (s : Folding) → length (write is s).out ≡ length s.out + length (emit_all is)
unfolding write
write-out is s = length-append s.out (emit_all is)

Weighs : ℕ → Option Folding → Type 0
Weighs k none = Unit
Weighs k (some t) = weight t ≤ k

copy-Weighs :
    (start : ℕ) (i : Insn) (s : Folding) → Weighs (weight s + length (emit i)) (copy start i s)
unfolding copy record_pc Weighs write emit_all held_size
copy-Weighs start i s =
    let (out, empty) = flush_pending-weight s in
    omega (
      arith,
      out,
      ap held_size empty,
      length-append ((flush_pending s).out) (emit i ++ []),
      length-append (emit i) [],
    )

module _ (start x : ℕ) (ops : List ℕ) (op : Opcode) (s : Folding) where
  on_half-Weighs :
      (right : ℤ)
      → s.pending ≡ int right
      → Weighs (weight s + length (emit (plain x ops))) (half_constant start x right s)
  unfolding emit held_size half_constant taken_at record_pc Weighs emit_all i64_bytes write
  on_half-Weighs right e =
      let more = write-out (push_int right ∷ opcode_alone x ∷ []) (taken_at start s) in
      omega (arith, ap held_size e, more)

  on_pair-Weighs :
      (left right : ℤ)
      → s.pending ≡ int_pair left right
      → weight (write (push_int left ∷ push_int right ∷ opcode_alone x ∷ []) (taken_at start s))
        ≤ weight s + length (emit (plain x ops))
  unfolding emit held_size taken_at record_pc emit_all i64_bytes write
  on_pair-Weighs left right e =
      let more =
        write-out (push_int left ∷ push_int right ∷ opcode_alone x ∷ []) (taken_at start s) in
      omega (arith, ap held_size e, more)

  act_opcode-Weighs :
      (p : PendingFold) (c : Class)
      → s.pending ≡ p
      → Weighs (weight s + length (emit (plain x ops))) (act_opcode start x ops op p c s)
  unfolding act_opcode emit held_size fold_binary fold_compare negate_pending invert_pending
      discard_pending taken_at hold record_pc Weighs
  act_opcode-Weighs (int_pair left right) Class.binary e =
      by_cases (try_fold_binary_int op left right) refl
    where
      W : Option Folding → Type 0
      W = Weighs (weight s + length (emit (plain x ops)))

      by_cases :
          (o : Option (Option ℤ))
          → try_fold_binary_int op left right ≡ o
          → W (fold_binary start x op left right s)
      by_cases none q = rw (q, fold_binary) tt
      by_cases (some none) q = rw (q, fold_binary) (on_pair-Weighs left right e)
      by_cases (some (some z)) q = rw (q, fold_binary) (omega (arith, ap held_size e))
  act_opcode-Weighs (int_pair left right) Class.compare e =
      option_cases (try_fold_compare_int op left right)
        (Weighs (weight s + length (emit (plain x ops)))) (λ _. on_pair-Weighs left right e)
        (λ b _. omega (arith, ap held_size e))
  act_opcode-Weighs (int_pair left right) Class.discard e = omega (arith, ap held_size e)
  act_opcode-Weighs (int right) Class.binary e = on_half-Weighs right e
  act_opcode-Weighs (int right) Class.compare e = on_half-Weighs right e
  act_opcode-Weighs (int z) Class.negate e =
      option_cases (i64_neg z) (Weighs (weight s + length (emit (plain x ops)))) (λ _. tt)
        (λ w _. omega (arith, ap held_size e))
  act_opcode-Weighs (int z) Class.discard e = omega (arith, ap held_size e)
  act_opcode-Weighs (flag b) Class.invert e = omega (arith, ap held_size e)
  act_opcode-Weighs (flag b) Class.discard e = omega (arith, ap held_size e)
  act_opcode-Weighs _ _ e = copy-Weighs start (plain x ops) s

act_push_int-weight :
    (start : ℕ) (value : ℤ) (p : PendingFold) (s : Folding)
    → s.pending ≡ p
    → weight (act_push_int start value p s) ≤ weight s + 9
unfolding act_push_int hold held_size
act_push_int-weight start value nothing s e = omega arith
act_push_int-weight start value (int left) s e = omega (arith, ap held_size e)
act_push_int-weight start value (int_pair left right) s e =
    let (out, empty) = flush_pending-weight s in omega (arith, out)
act_push_int-weight start value (flag b) s e = omega arith

act_push_bool-weight :
    (start : ℕ) (b : Bool) (p : PendingFold) (s : Folding)
    → s.pending ≡ p
    → weight (act_push_bool start b p s) ≤ weight s + 2
unfolding act_push_bool hold held_size copy Weighs emit
act_push_bool-weight start b nothing s e = omega (arith, ap held_size e)
act_push_bool-weight start b _ s e = copy-Weighs start (push_bool b) s

act-Weighs :
    (start : ℕ) (i : Insn) (s : Folding) → Weighs (weight s + length (emit i)) (act start i s)
unfolding act Weighs emit i64_bytes
act-Weighs start (push_int value) s = act_push_int-weight start value s.pending s refl
act-Weighs start (push_bool b) s = act_push_bool-weight start b s.pending s refl
act-Weighs start (plain x ops) s =
    option_cases (opcode_at x) (Weighs (weight s + length (emit (plain x ops))))
      (λ _. copy-Weighs start (plain x ops) s)
      (λ op _. act_opcode-Weighs start x ops op s s.pending (class_of op) refl)

weighs : (k : ℕ) (o : Option Folding) (t : Folding) → Weighs k o → o ≡ some t → weight t ≤ k
unfolding Weighs
weighs k o t h q = subst (Weighs k) q h

-- An instruction that is read leaves so much less to read.
Takes : Cursor → Option (Insn × Cursor) → Type 0
Takes c none = Unit
Takes c (some (i, d)) = (length (emit i) + length d.rest ≤ length c.rest) × (0 < length (emit i))

plain-length :
    (x : ℕ) (bytes rest all : List ℕ)
    → bytes ++ rest ≡ all
    → 0 < length bytes
    → length (emit (plain x (behind_first bytes))) + length rest ≤ length all
unfolding emit
plain-length x [] rest all q pos = absurd (omega (arith, pos))
plain-length x (y ∷ ys) rest all q pos = omega (arith, ap length q, length-append ys rest)

read_i64-rest :
    (c : Cursor) (r : ℤ × Cursor) → read_i64 c ≡ some r → length ((r.1).rest) + 8 ≡ length c.rest
unfolding read_i64
read_i64-rest c r q = elim (Bool-cases (leb 8 (length c.rest))) [
  | inl m ↦
      let behind : drop 8 c.rest ≡ (r.1).rest =
        ap (λ s. (s.1).rest) (same_some refl (rw (m, read_i64) at q)) in
      omega (arith, leb→le 8 (length c.rest) m, ap length behind, length-drop 8 c.rest)
  | inr m ↦ let q' : none ≡ some r = rw (m, read_i64) at q in absurd (cc)
]

-- A run that has ended, with at most `k` bytes written where it gives code.
unfoldable pub Ends : ℕ → Run Folding → Type 0
Ends k Run.unfinished = ⊥
Ends k Run.stopped = Unit
Ends k (Run.done t) = length t.out ≤ k

module _ (strings : List ℕ) where
  fetch-Takes : (c : Cursor) → Takes c (fetch strings c)
  unfolding fetch Takes emit i64_bytes read_i64
  fetch-Takes c =
      option_cases (read_u8 c) (Takes c) (λ _. tt)
        (λ r q.
          let less = read_u8-lt c r q in
          let d = r.1 in
          elim_cases (is_push_int (opcode_at (r.0))) (Takes c)
            (λ _.
              option_cases (read_i64 d) (Takes c) (λ _. tt)
                (λ s k. (omega (arith, less, read_i64-rest d s k), omega arith)))
            (λ _.
              elim_cases (is_push_bool (opcode_at (r.0))) (Takes c)
                (λ _.
                  option_cases (read_u8 d) (Takes c) (λ _. tt)
                    (λ s k. (omega (arith, less, read_u8-lt d s k), omega arith)))
                (λ _.
                  option_cases (instruction strings c) (Takes c) (λ _. tt)
                    (λ s k.
                      let (whole, pos) = splits strings c s k in
                      (plain-length (r.0) (s.0) ((s.1).rest) c.rest whole pos, omega arith)))))

  takes :
      (c : Cursor) (r : Insn × Cursor)
      → fetch strings c ≡ some r
      → (length (emit (r.0)) + length ((r.1).rest) ≤ length c.rest) × (0 < length (emit (r.0)))
  unfolding Takes
  takes c r q = subst (Takes c) q (fetch-Takes c)

  pub fold_rounds-Ends :
      (n k : ℕ) (c : Cursor) (s : Folding)
      → length c.rest < n
      → weight s + length c.rest ≤ k
      → Ends k (fold_rounds strings n c s)
  unfolding fold_rounds Ends
  fold_rounds-Ends zero k c s less room = absurd (omega (arith, less))
  fold_rounds-Ends (suc n) k c s less room =
      let P = Ends k in
      list_cases c.rest P
        (λ _. let (out, empty) = flush_pending-weight s in omega (arith, out, room))
        (λ x xs e.
          option_cases (fetch strings c) P (λ _. tt)
            (λ r q.
              let (size, pos) = takes c r q in
              option_cases (act c.pc (r.0) s) P (λ _. tt)
                (λ t a.
                  let more = weighs _ _ t (act-Weighs c.pc (r.0) s) a in
                  fold_rounds-Ends n k (r.1) t (omega (arith, size, pos, less))
                    (omega (arith, size, more, room)))))
