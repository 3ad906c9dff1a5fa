-- ===== src/Jit/Predictor/Valid.antt =====
-- include/jit/branch_predictor.hpp: the ranges of the counters.
use munchkinglang.Prelude.{
  ℕ, zero, suc, ◌/◌, ◌%◌, ◌≤◌, ◌<◌, List, [], ◌∷◌, Bool, true, false, ◌≡◌, refl, ap, ◌∙◌, arith,
  if◌then◌else◌, ◌==◌, length, ltb, leb,
}
use munchkinglang.Prelude.Int.{ℤ, pos, negsuc, ◌≤ℤ◌}
use munchkinglang.Jit.Profile.{BranchProfile, Sites, total, strongly_taken, strongly_not_taken}
use munchkinglang.Jit.Predictor.{
  BranchPredictor, Entry, fresh, to_i8, add_direction, train_weights, train_entry, saturate, train,
  train_rounds, hint_entry, seed_static_hint, profile_entry, seed_site, seed_from_profile,
  index_for, back_edge_index, update,
}

abbrev pub IsI8 : ℤ → Type 0
IsI8 z = (negsuc 127 ≤ℤ z) × (z ≤ℤ pos 127)

abbrev pub AllI8 : List ℤ → Type 0
AllI8 [] = Unit
AllI8 (w ∷ ws) = IsI8 w × AllI8 ws

pub record EntryIsValid (e : Entry) : Type 0 where
  pub bias_range : IsI8 e.bias
  pub weight_ranges : AllI8 e.weights
  pub weight_count : length e.weights ≡ 12
  pub counter_range : e.counter ≤ 3
  pub warmup_range : e.warmup ≤ 255

-- Every field of the tables fits the width that the source gives it, the two-bit counters stay
-- below 4 and the history below 2 ^ 12.
pub record IsValid (p : BranchPredictor) : Type 0 where
  pub entries : (i : ℕ) → EntryIsValid (p.table i)
  pub loop_counters : (i : ℕ) → p.back_edge_table i ≤ 3
  pub sites : (i : ℕ) → p.local_history i < 256
  pub history_range : p.history < 4096

to_i8-IsI8 : (z : ℤ) → IsI8 (to_i8 z)
unfolding to_i8
to_i8-IsI8 z = ground arith

add_direction-IsI8 : (t : Bool) (w : ℤ) → IsI8 (add_direction t w)
unfolding add_direction
add_direction-IsI8 t w = ground arith

either_way {ℓ κ} :
    {A : Type ℓ} {u v : A} (test : Bool) (P : A → Type κ) (pu : P u) (pv : P v)
    → P (if test then u else v)
either_way false P pu pv = pv
either_way true P pu pv = pu

train_weights-AllI8 :
    (t : Bool) (ws : List ℤ) (history : ℕ) → AllI8 ws → AllI8 (train_weights t ws history)
unfolding train_weights
train_weights-AllI8 t [] history h = tt
train_weights-AllI8 t (w ∷ ws) history (hw, hs) = (
  either_way (history % 2 == 1) IsI8 (add_direction-IsI8 t w) hw,
  train_weights-AllI8 t ws (history / 2) hs,
)

length-train_weights :
    (t : Bool) (ws : List ℤ) (history : ℕ) → length (train_weights t ws history) ≡ length ws
unfolding train_weights
length-train_weights t [] history = refl
length-train_weights t (w ∷ ws) history = ap suc (length-train_weights t ws (history / 2))

saturate-le : (t : Bool) (n : ℕ) → n ≤ 3 → saturate t n ≤ 3
unfolding saturate
saturate-le t n h = ground arith

train_entry-IsValid :
    (t : Bool) (history : ℕ) (e : Entry) → EntryIsValid e → EntryIsValid (train_entry t history e)
unfolding train_entry
train_entry-IsValid t history e v = record {
  bias_range = add_direction-IsI8 t e.bias;
  weight_ranges = train_weights-AllI8 t e.weights history v.weight_ranges;
  weight_count = length-train_weights t e.weights history ∙ v.weight_count;
  counter_range = saturate-le t e.counter v.counter_range;
  warmup_range = ground arith;
}

-- One write keeps what holds of every element.
update_all {ℓ κ} :
    {A : Type ℓ} (P : A → Type κ) (f : ℕ → A) (i : ℕ) (v : A)
    → ((j : ℕ) → P (f j))
    → P v
    → (j : ℕ) → P (update f i v j)
update_all P f i v all new j = either_way (i == j) P new (all j)

train-IsValid :
    (p : BranchPredictor) (branch_pc jump_pc : ℕ) (t : Bool)
    → IsValid p
    → IsValid (train p branch_pc t jump_pc)
unfolding train
train-IsValid p branch_pc jump_pc t v =
    let edge = back_edge_index branch_pc in
    let slot = index_for p branch_pc in
    record {
      entries =
          update_all EntryIsValid p.table slot _ v.entries
            (train_entry-IsValid t p.history (p.table slot) (v.entries slot));
      loop_counters =
          either_way {A = ℕ → ℕ} (ltb jump_pc branch_pc) (λ f. (i : ℕ) → f i ≤ 3)
            (update_all (λ n. n ≤ 3) p.back_edge_table edge _ v.loop_counters
              (saturate-le t (p.back_edge_table edge) (v.loop_counters edge)))
            v.loop_counters;
      sites = update_all (λ n. n < 256) p.local_history (branch_pc % 256) _ v.sites (omega arith);
      history_range = omega arith;
    }

preset-IsValid :
    (e : Entry) (b : ℤ) (c : ℕ)
    → EntryIsValid e
    → IsI8 b
    → c ≤ 3
    → EntryIsValid (record e { bias = b; counter = c; warmup = 255 })
preset-IsValid e b c v hb hc = record {
  bias_range = hb;
  weight_ranges = v.weight_ranges;
  weight_count = v.weight_count;
  counter_range = hc;
  warmup_range = omega arith;
}

hint_entry-IsValid : (t : Bool) (e : Entry) → EntryIsValid e → EntryIsValid (hint_entry t e)
unfolding hint_entry
hint_entry-IsValid true e v = preset-IsValid e (pos 32) 3 v (omega arith) (omega arith)
hint_entry-IsValid false e v = preset-IsValid e (negsuc 31) 0 v (omega arith) (omega arith)

seed_static_hint-IsValid :
    (p : BranchPredictor) (branch_pc : ℕ) (t : Bool)
    → IsValid p
    → IsValid (seed_static_hint p branch_pc t)
unfolding seed_static_hint
seed_static_hint-IsValid p branch_pc t v =
    let slot = index_for p branch_pc in
    record {
      entries =
          update_all EntryIsValid p.table slot _ v.entries
            (hint_entry-IsValid t (p.table slot) (v.entries slot));
      loop_counters = v.loop_counters;
      sites = v.sites;
      history_range = v.history_range;
    }

train_rounds-IsValid :
    (n branch_pc : ℕ) (t : Bool) (p : BranchPredictor)
    → IsValid p
    → IsValid (train_rounds n branch_pc t p)
unfolding train_rounds
train_rounds-IsValid zero branch_pc t p v = v
train_rounds-IsValid (suc n) branch_pc t p v =
    train_rounds-IsValid n branch_pc t (train p branch_pc t branch_pc)
      (train-IsValid p branch_pc branch_pc t v)

profile_entry-IsValid :
    (s : BranchProfile) (e : Entry) → EntryIsValid e → EntryIsValid (profile_entry s e)
unfolding profile_entry
profile_entry-IsValid s e v =
    either_way (strongly_taken s) EntryIsValid
      (preset-IsValid e (pos 32) 3 v (omega arith) (omega arith))
      (either_way (strongly_not_taken s) EntryIsValid
        (preset-IsValid e (negsuc 31) 0 v (omega arith) (omega arith))
        (preset-IsValid e e.bias e.counter v v.bias_range v.counter_range))

seed_site-IsValid :
    (p : BranchPredictor) (branch_pc : ℕ) (s : BranchProfile)
    → IsValid p
    → IsValid (seed_site p branch_pc s)
unfolding seed_site
seed_site-IsValid p branch_pc s v =
    let n = total s in
    let rounds : ℕ = if leb 64 n then 6 else (if leb 16 n then 4 else 2) in
    let trained = train_rounds rounds branch_pc (leb s.not_taken s.taken) p in
    let t = train_rounds-IsValid rounds branch_pc (leb s.not_taken s.taken) p v in
    let slot = index_for trained branch_pc in
    either_way (n == 0) IsValid v (record {
      entries =
          update_all EntryIsValid trained.table slot _ t.entries
            (profile_entry-IsValid s (trained.table slot) (t.entries slot));
      loop_counters = t.loop_counters;
      sites = t.sites;
      history_range = t.history_range;
    })

seed_from_profile-IsValid :
    (sites : Sites) (p : BranchPredictor) → IsValid p → IsValid (seed_from_profile sites p)
unfolding seed_from_profile
seed_from_profile-IsValid [] p v = v
seed_from_profile-IsValid ((pc, s) ∷ rest) p v =
    seed_from_profile-IsValid rest (seed_site p pc s) (seed_site-IsValid p pc s v)

-- The operations on a predictor.
pub data Event : Type 0 where
  outcome : ℕ → Bool → ℕ → Event
  hint : ℕ → Bool → Event
  profile : Sites → Event

unfoldable pub apply_event : Event → BranchPredictor → BranchPredictor
apply_event (outcome branch_pc t jump_pc) p = train p branch_pc t jump_pc
apply_event (hint branch_pc t) p = seed_static_hint p branch_pc t
apply_event (profile sites) p = seed_from_profile sites p

unfoldable pub apply_events : List Event → BranchPredictor → BranchPredictor
unfolding apply_event
apply_events [] p = p
apply_events (e ∷ events) p = apply_events events (apply_event e p)

event-IsValid : (e : Event) (p : BranchPredictor) → IsValid p → IsValid (apply_event e p)
unfolding apply_event
event-IsValid (outcome branch_pc t jump_pc) p v = train-IsValid p branch_pc jump_pc t v
event-IsValid (hint branch_pc t) p v = seed_static_hint-IsValid p branch_pc t v
event-IsValid (profile sites) p v = seed_from_profile-IsValid sites p v

events-IsValid : (es : List Event) (p : BranchPredictor) → IsValid p → IsValid (apply_events es p)
unfolding apply_events
events-IsValid [] p v = v
events-IsValid (e ∷ es) p v = events-IsValid es (apply_event e p) (event-IsValid e p v)

fresh-IsValid : IsValid fresh
fresh-IsValid = record {
  entries = λ i. omega arith;
  loop_counters = λ i. omega arith;
  sites = λ i. omega arith;
  history_range = omega arith;
}

-- From the initial tables, every sequence of outcomes, hints and profiles keeps every entry's bias
-- and twelve weights in the range of int8_t, its counter at most 3 and its warm-up at most 255, the
-- loop counters at most 3, each branch's history below 2 ^ 8 and the shared history below 2 ^ 12.
pub apply_events-IsValid : (events : List Event) → IsValid (apply_events events fresh)
apply_events-IsValid events = events-IsValid events fresh fresh-IsValid
