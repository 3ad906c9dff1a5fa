-- ===== src/Jit/Optimizer/Retarget/Nearest.antt =====
-- include/jit/bytecode_optimizer.hpp: where `remap_target` sends a jump.
use mathlib.Core.Path.{subst}
use munchkinglang.Prelude.{
  ℕ, ◌≤◌, ◌<◌, ◌%◌, ◌^◌, List, [], ◌∷◌, true, ◌&&◌, Option, none, some, ◌≡◌, ◌⊎◌, inl, inr, refl,
  sym, Bool-cases, Option-cases, same_some, arith, leb, ltb, ◌==◌,
}
use munchkinglang.Jit.Optimizer.Retarget.{find_pc, best_entry, remap_target}

-- `(k, v)` is recorded.
pub data IsRecorded : ℕ → ℕ → List (ℕ × ℕ) → Type 0 where
  here : {k v : ℕ} {rest : List (ℕ × ℕ)} → IsRecorded k v ((k, v) ∷ rest)
  there :
      {k v : ℕ} {e : ℕ × ℕ} {rest : List (ℕ × ℕ)} → IsRecorded k v rest → IsRecorded k v (e ∷ rest)

-- The recorded instruction that is the last at `old` or before it, and `target` where its code now starts.
pub record Nearest (remap : List (ℕ × ℕ)) (old target : ℕ) : Type 0 where
  pub source_pc : ℕ
  pub output_pc : ℕ
  pub recorded : IsRecorded source_pc output_pc remap
  pub before : source_pc ≤ old
  pub last : (k v : ℕ) → IsRecorded k v remap → k ≤ old → k ≤ source_pc
  pub moved : target ≡ output_pc % 2 ^ 32

-- The best of `rest` and of an entry that is at `old` or before it.
record Best (old : ℕ) (rest : List (ℕ × ℕ)) (best e : ℕ × ℕ) : Type 0 where
  pub found : (e ≡ best) ⊎ IsRecorded (e.0) (e.1) rest
  pub fits : e.0 ≤ old
  pub over_best : best.0 ≤ e.0
  pub over_rest : (k v : ℕ) → IsRecorded k v rest → k ≤ old → k ≤ e.0

HasBest : ℕ → List (ℕ × ℕ) → ℕ × ℕ → Option (ℕ × ℕ) → Type 0
HasBest old rest best o = (e : ℕ × ℕ) × (o ≡ some e) × Best old rest best e

-- A head that is better takes the entry's place.
better :
    (old k v : ℕ) (rest : List (ℕ × ℕ)) (best : ℕ × ℕ) (o : Option (ℕ × ℕ))
    → best.0 < k
    → HasBest old rest (k, v) o
    → HasBest old ((k, v) ∷ rest) best o
unfolding HasBest
better old k v rest best o less (e, q, b) = (
  e,
  q,
  record {
    found = elim b.found [
      | inl at_head ↦ inr (subst (λ x. IsRecorded (x.0) (x.1) ((k, v) ∷ rest)) (sym at_head) here)
      | inr deep ↦ inr (there deep)
    ];
    fits = b.fits;
    over_best = omega (arith, less, b.over_best);
    over_rest = over;
  },
)
  where
    over : (k' v' : ℕ) → IsRecorded k' v' ((k, v) ∷ rest) → k' ≤ old → k' ≤ e.0
    over _ _ here le = b.over_best
    over k' v' (there r) le = b.over_rest k' v' r le

-- A head that is not better is passed over.
passed :
    (old k v : ℕ) (rest : List (ℕ × ℕ)) (best : ℕ × ℕ) (o : Option (ℕ × ℕ))
    → (k ≤ old → k ≤ best.0)
    → HasBest old rest best o
    → HasBest old ((k, v) ∷ rest) best o
unfolding HasBest
passed old k v rest best o more (e, q, b) = (
  e,
  q,
  record {
    found = elim b.found [ inl at_best ↦ inl at_best | inr deep ↦ inr (there deep) ];
    fits = b.fits;
    over_best = b.over_best;
    over_rest = over;
  },
)
  where
    over : (k' v' : ℕ) → IsRecorded k' v' ((k, v) ∷ rest) → k' ≤ old → k' ≤ e.0
    over _ _ here le = omega (arith, more le, b.over_best)
    over k' v' (there r) le = b.over_rest k' v' r le

best_entry-HasBest :
    (old : ℕ) (rest : List (ℕ × ℕ)) (best : ℕ × ℕ)
    → best.0 ≤ old
    → HasBest old rest best (best_entry old rest (some best))
unfolding best_entry HasBest
best_entry-HasBest old [] best fits = (
  best,
  refl,
  record { found = inl refl; fits = fits; over_best = omega arith; over_rest = absurd_empty },
)
  where
    absurd_empty : (k v : ℕ) → IsRecorded k v [] → k ≤ old → k ≤ best.0
    absurd_empty k v r le = elim r [ ]
best_entry-HasBest old ((k, v) ∷ rest) best fits = elim (Bool-cases (leb k old && ltb (best.0) k)) [
  | inl q ↦
      let k_fits : k ≤ old = ground (arith, q) in
      let less : best.0 < k = ground (arith, q) in
      rw q (better old k v rest best _ less (best_entry-HasBest old rest (k, v) k_fits))
  | inr q ↦
      let more : k ≤ old → k ≤ best.0 = λ le. ground (arith, q, le) in
      rw q (passed old k v rest best _ more (best_entry-HasBest old rest best fits))
]

-- With nothing found so far, an entry that fits makes the loop find one.
FindsBest : ℕ → List (ℕ × ℕ) → Option (ℕ × ℕ) → Type 0
FindsBest old rest o =
    (e : ℕ × ℕ) × (o ≡ some e)
    × IsRecorded (e.0) (e.1) rest
    × (e.0 ≤ old)
    × ((k v : ℕ) → IsRecorded k v rest → k ≤ old → k ≤ e.0)

first_fit :
    (old k v : ℕ) (rest : List (ℕ × ℕ)) (o : Option (ℕ × ℕ))
    → HasBest old rest (k, v) o
    → FindsBest old ((k, v) ∷ rest) o
unfolding HasBest FindsBest
first_fit old k v rest o (e, q, b) = (e, q, found b.found, b.fits, over)
  where
    found : (e ≡ (k, v)) ⊎ IsRecorded (e.0) (e.1) rest → IsRecorded (e.0) (e.1) ((k, v) ∷ rest)
    found (inl at_head) = subst (λ x. IsRecorded (x.0) (x.1) ((k, v) ∷ rest)) (sym at_head) here
    found (inr deep) = there deep

    over : (k' v' : ℕ) → IsRecorded k' v' ((k, v) ∷ rest) → k' ≤ old → k' ≤ e.0
    over _ _ here le = b.over_best
    over k' v' (there r) le = b.over_rest k' v' r le

later_fit :
    (old k v : ℕ) (rest : List (ℕ × ℕ)) (o : Option (ℕ × ℕ))
    → old < k
    → FindsBest old rest o
    → FindsBest old ((k, v) ∷ rest) o
unfolding FindsBest
later_fit old k v rest o beyond (e, q, found, fits, over_rest) = (e, q, there found, fits, over)
  where
    over : (k' v' : ℕ) → IsRecorded k' v' ((k, v) ∷ rest) → k' ≤ old → k' ≤ e.0
    over _ _ here le = absurd (omega (arith, beyond, le))
    over k' v' (there r) le = over_rest k' v' r le

deeper :
    (old k v k₀ v₀ : ℕ) (rest : List (ℕ × ℕ))
    → k₀ ≤ old
    → old < k
    → IsRecorded k₀ v₀ ((k, v) ∷ rest)
    → IsRecorded k₀ v₀ rest
deeper old k v _ _ rest le beyond here = absurd (omega (arith, beyond, le))
deeper old k v k₀ v₀ rest le beyond (there r) = r

best_entry-FindsBest :
    (old k₀ v₀ : ℕ) (rest : List (ℕ × ℕ))
    → IsRecorded k₀ v₀ rest
    → k₀ ≤ old
    → FindsBest old rest (best_entry old rest none)
unfolding best_entry
best_entry-FindsBest old k₀ v₀ [] r le = elim r [ ]
best_entry-FindsBest old k₀ v₀ ((k, v) ∷ rest) r le = elim (Bool-cases (leb k old && true)) [
  | inl q ↦
      let k_fits : k ≤ old = ground (arith, q) in
      rw q (first_fit old k v rest _ (best_entry-HasBest old rest (k, v) k_fits))
  | inr q ↦
      let beyond : old < k = ground (arith, q) in
      rw q (
        later_fit old k v rest _ beyond
          (best_entry-FindsBest old k₀ v₀ rest (deeper old k v k₀ v₀ rest le beyond r) le))
]

find_pc-IsRecorded :
    (pc : ℕ) (remap : List (ℕ × ℕ)) (e : ℕ × ℕ)
    → find_pc pc remap ≡ some e
    → IsRecorded (e.0) (e.1) remap × (e.0 ≡ pc)
unfolding find_pc
find_pc-IsRecorded pc [] e q = absurd (cc)
find_pc-IsRecorded pc ((k, v) ∷ rest) e q = elim (Bool-cases (k == pc)) [
  | inl m ↦
      let at : (k, v) ≡ e = same_some refl (rw m at q) in
      let same : k ≡ pc = ground (arith, m) in
      (subst (λ x. IsRecorded (x.0) (x.1) ((k, v) ∷ rest)) at here, subst (λ x. x.0 ≡ pc) at same)
  | inr m ↦ let (found, same) = find_pc-IsRecorded pc rest e (rw m at q) in (there found, same)
]

-- A jump goes to the code of the last recorded instruction at its target or before it.
pub remap_target-Nearest :
    (remap : List (ℕ × ℕ)) (old k v : ℕ)
    → IsRecorded k v remap
    → k ≤ old
    → Nearest remap old (remap_target remap old)
unfolding remap_target FindsBest
remap_target-Nearest remap old k v r le = elim (Option-cases (find_pc old remap)) [
  | inl q ↦
      let (e, found, at, fits, over) = best_entry-FindsBest old k v remap r le in
      rw (q, found, remap_target)
        (record {
          source_pc = e.0;
          output_pc = e.1;
          recorded = at;
          before = fits;
          last = over;
          moved = refl;
        })
  | inr (e, q) ↦
      let (at, same) = find_pc-IsRecorded old remap e q in
      rw (q, remap_target)
        (record {
          source_pc = e.0;
          output_pc = e.1;
          recorded = at;
          before = omega (arith, same);
          last = λ k v r le. omega (arith, same, le);
          moved = refl;
        })
]
