-- ===== src/Mir/Fold/Denote/Branch.antt =====
-- include/native/mir_optimizer.hpp: a conditional jump on a constant becomes the jump that it takes.
use munchkinglang.Prelude.{if◌then◌else◌, ℕ, [], ◌∷◌, some, ◌≡◌, refl, sym, ap, ◌∙◌, get_elem?}
use munchkinglang.Mir.Instr.{Instr, Opcode, Code}
use munchkinglang.Mir.Runtime.{Host, Value}
use munchkinglang.Mir.Fold.{on_one, folded, fold_instr}
use munchkinglang.Mir.Fold.Exact.{const_value_of}
use munchkinglang.Mir.Fold.Denote.{Denotes, read_of, const-Denotes}
use munchkinglang.Mir.Runtime.{MunxValue, munx_truthy}
use munchkinglang.Mir.Fold.{fold_cbr}

module _ (h : Host) (strings opaque : ℕ → Value h) where
  -- What `fold_cbr` has read, and what it gives.
  cbr_of :
      (o : Opcode) (l x r : Instr)
      → fold_cbr o l x ≡ folded r
      → (const_value_of h strings o l ≡ some (MunxValue.bool l.flag))
        × (r.op ≡ Opcode.br)
        × (r.block_target ≡ (if l.flag then x.block_target else x.block_target_false))
  unfolding fold_cbr
  cbr_of Opcode.const_bool l x r e = (refl, cc, cc)
  cbr_of o l x r e = absurd (cc)

  -- Where folding replaces a conditional jump, the new instruction is an unconditional jump to the
  -- block that the emitted test selects: the first target where the condition's value is true in the
  -- runtime's sense, the second where it is not.
  pub fold_instr-cbr :
      (code : Code) (x r : Instr) (a : ℕ) (v : Value h)
      → x.args ≡ a ∷ []
      → fold_instr code x Opcode.cbr ≡ folded r
      → Denotes h strings opaque code a v
      → (r.op ≡ Opcode.br)
        × (r.block_target ≡ (if munx_truthy h v then x.block_target else x.block_target_false))
  unfolding fold_instr munx_truthy
  fold_instr-cbr code x r a v q e d =
      let one = ap (on_one (λ l. fold_cbr l.op l x) code) q in
      let (l, el, e') = read_of h strings opaque _ (get_elem? code a) r (sym one ∙ e) in
      let (c, o, t) = cbr_of l.op l x r e' in (o, rw (const-Denotes h strings opaque l el c d) t)
