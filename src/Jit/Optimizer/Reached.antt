-- ===== src/Jit/Optimizer/Reached.antt =====
-- include/jit/bytecode_optimizer.hpp: the code written so far, with the constants pending, does what the code read does.
use mathlib.Core.Path.{subst}
use mathlib.Core.List.{append_assoc, append-nil}
use munchkinglang.Prelude.{
  ℕ, List, [], ◌∷◌, ◌++◌, true, Option, some, ◌>>=◌, ◌≡◌, refl, sym, ap, ◌∙◌, if_cases,
  option_cases,
}
use munchkinglang.Mir.Runtime.{in_i64}
use munchkinglang.Jit.Bytecode.Insns.{Insn, emit, emit_all}
use munchkinglang.Jit.Bytecode.Fetched.{IsWhole, push_int-IsWhole, push_bool-IsWhole}
use munchkinglang.Vm.Value.{Host}
use munchkinglang.Vm.Straight.{Frame, run_insn, run_insns}
use munchkinglang.Jit.Optimizer.{
  is_nothing, PendingFold, nothing, int, int_pair, flag, Folding, record_pc, record_pending, write,
  pending_insns, flush_pending, taken_at, hold, copy,
}
use munchkinglang.Jit.Optimizer.Meaning.{run_insns-append, pushed, pending_insns-pushed}

emit_all-append : (is js : List Insn) → emit_all (is ++ js) ≡ emit_all is ++ emit_all js
unfolding emit_all
emit_all-append [] js = refl
emit_all-append (i ∷ is) js =
    ap (λ xs. emit i ++ xs) (emit_all-append is js)
    ∙ sym (append_assoc (emit i) (emit_all is) (emit_all js))

record_pending-out : (s : Folding) → (record_pending s).out ≡ s.out
unfolding record_pending record_pc
record_pending-out s =
    option_cases s.pending_pc (λ (t : Folding). t.out ≡ s.out) (λ _. refl) (λ pc _. refl)

is_nothing-nothing : (p : PendingFold) → is_nothing p ≡ true → p ≡ nothing
is_nothing-nothing nothing q = refl
is_nothing-nothing _ q = absurd (cc)

pub flush_pending-out :
    (s : Folding)
    → ((flush_pending s).out ≡ s.out ++ emit_all (pending_insns s.pending))
      × ((flush_pending s).pending ≡ nothing)
unfolding flush_pending write pending_insns emit_all
flush_pending-out s =
    if_cases (is_nothing s.pending)
      (λ (t : Folding).
        (t.out ≡ s.out ++ emit_all (pending_insns s.pending)) × (t.pending ≡ nothing))
      (λ q.
        let e = is_nothing-nothing s.pending q in
        (sym (append-nil s.out) ∙ ap (λ p. s.out ++ emit_all (pending_insns p)) (sym e), e))
      (λ _. (ap (λ xs. xs ++ emit_all (pending_insns s.pending)) (record_pending-out s), refl))

-- The constants that are pending are `int64_t`.
unfoldable pub Ranged : PendingFold → Type 0
Ranged nothing = Unit
Ranged (int z) = in_i64 z ≡ true
Ranged (int_pair left right) = (in_i64 left ≡ true) × (in_i64 right ≡ true)
Ranged (flag b) = Unit

module _ (strings : List ℕ) where
  -- Each instruction is read as it is written.
  unfoldable pub AllWhole : List Insn → Type 0
  AllWhole [] = Unit
  AllWhole (i ∷ is) = IsWhole strings i × AllWhole is

  AllWhole-append : (is js : List Insn) → AllWhole is → AllWhole js → AllWhole (is ++ js)
  unfolding AllWhole
  AllWhole-append [] js w v = v
  AllWhole-append (i ∷ is) js (w, ws) v = (w, AllWhole-append is js ws v)

  pending_insns-AllWhole : (p : PendingFold) → Ranged p → AllWhole (pending_insns p)
  unfolding AllWhole Ranged pending_insns
  pending_insns-AllWhole nothing r = tt
  pending_insns-AllWhole (int z) r = (push_int-IsWhole strings z r, tt)
  pending_insns-AllWhole (int_pair left right) (rl, rr) =
      (push_int-IsWhole strings left rl, (push_int-IsWhole strings right rr, tt))
  pending_insns-AllWhole (flag b) r = (push_bool-IsWhole strings b, tt)

module _ (strings : List ℕ) (h : Host) where
  -- The instructions written bring the frame `f` to one that with the constants pending is `g`.
  pub record Reached (s : Folding) (f g : Frame h) : Type 0 where
    pub insns : List Insn
    pub before : Frame h
    pub written : s.out ≡ emit_all insns
    pub ran : run_insns h insns f ≡ some before
    pub held : pushed h s.pending before ≡ g
    pub whole : AllWhole strings insns
    pub ranged : Ranged s.pending

  -- More instructions, with `p` pending behind them.
  extend :
      (s t : Folding) (is js : List Insn) (f before after g : Frame h)
      → s.out ≡ emit_all is
      → run_insns h is f ≡ some before
      → t.out ≡ s.out ++ emit_all js
      → run_insns h js before ≡ some after
      → pushed h t.pending after ≡ g
      → AllWhole strings is
      → AllWhole strings js
      → Ranged t.pending
      → Reached t f g
  extend s t is js f before after g w r more next e all more_all range = record {
    insns = is ++ js;
    before = after;
    written = more ∙ ap (λ xs. xs ++ emit_all js) w ∙ sym (emit_all-append is js);
    ran = run_insns-append h is js f ∙ ap (λ o. o >>= run_insns h js) r ∙ next;
    held = e;
    whole = AllWhole-append strings is js all more_all;
    ranged = range;
  }

  pub flushed :
      (s : Folding) (f g : Frame h)
      → Reached s f g
      → Reached (flush_pending s) f g × ((flush_pending s).pending ≡ nothing)
  unfolding pushed Ranged
  flushed s f g r =
      let (out, empty) = flush_pending-out s in
      (
        extend s (flush_pending s) r.insns (pending_insns s.pending) f r.before
            (pushed h s.pending r.before) g r.written r.ran out
            (pending_insns-pushed h s.pending r.before)
            (ap (λ p. pushed h p (pushed h s.pending r.before)) empty ∙ r.held) r.whole
            (pending_insns-AllWhole strings s.pending r.ranged) (subst Ranged (sym empty) tt),
        empty,
      )

  -- With nothing pending, what is written runs at once.
  pub written :
      (s : Folding) (is : List Insn) (f g g' : Frame h)
      → Reached s f g
      → s.pending ≡ nothing
      → run_insns h is g ≡ some g'
      → AllWhole strings is
      → Reached (write is s) f g'
  unfolding write pushed
  written s is f g g' r e q all =
      let at_g : r.before ≡ g = ap (λ p. pushed h p r.before) (sym e) ∙ r.held in
      extend s (write is s) r.insns is f r.before g' g' r.written r.ran refl
        (ap (run_insns h is) at_g ∙ q) (ap (λ p. pushed h p g') e) r.whole all r.ranged

  -- Nothing pending, so that `p` can be.
  pub held_next :
      (s : Folding) (start : ℕ) (p : PendingFold) (f g : Frame h)
      → Reached s f g
      → s.pending ≡ nothing
      → Ranged p
      → Reached (hold start p s) f (pushed h p g)
  unfolding hold pushed
  held_next s start p f g r e range =
      let at_g : r.before ≡ g = ap (λ p. pushed h p r.before) (sym e) ∙ r.held in
      record {
        insns = r.insns;
        before = r.before;
        written = r.written;
        ran = r.ran;
        held = ap (pushed h p) at_g;
        whole = r.whole;
        ranged = range;
      }

  -- Other constants take the place of those that are pending.
  pub replaced :
      (s : Folding) (start : ℕ) (p : PendingFold) (f g g' : Frame h) (r : Reached s f g)
      → pushed h p r.before ≡ g'
      → Ranged p
      → Reached (hold start p (taken_at start s)) f g'
  unfolding hold taken_at record_pc
  replaced s start p f g g' r e range = record {
    insns = r.insns;
    before = r.before;
    written = r.written;
    ran = r.ran;
    held = e;
    whole = r.whole;
    ranged = range;
  }

  pub cleared :
      (s : Folding) (start : ℕ) (f g : Frame h) (r : Reached s f g)
      → Reached (taken_at start s) f r.before
  unfolding taken_at record_pc pushed Ranged
  cleared s start f g r = record {
    insns = r.insns;
    before = r.before;
    written = r.written;
    ran = r.ran;
    held = refl;
    whole = r.whole;
    ranged = tt;
  }

  abbrev pub Goal : Option Folding → Frame h → Frame h → Type 0
  Goal o f g = (t : Folding) × (o ≡ some t) × Reached t f g

  pub one :
      (i : Insn) (g g' : Frame h) → run_insn h i g ≡ some g' → run_insns h (i ∷ []) g ≡ some g'
  unfolding run_insns
  one i g g' q = rw q refl

  pub copied :
      (start : ℕ) (i : Insn) (s : Folding) (f g g' : Frame h)
      → Reached s f g
      → run_insn h i g ≡ some g'
      → IsWhole strings i
      → Goal (copy start i s) f g'
  unfolding copy record_pc AllWhole
  copied start i s f g g' r q w =
      let (r', e) = flushed s f g r in
      let t = record_pc start (flush_pending s) in
      let rt : Reached t f g = record {
        insns = r'.insns;
        before = r'.before;
        written = r'.written;
        ran = r'.ran;
        held = r'.held;
        whole = r'.whole;
        ranged = r'.ranged;
      } in
      (_, refl, written t (i ∷ []) f g g' rt e (one i g g' q) (w, tt))
