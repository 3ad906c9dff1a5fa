-- ===== src/Format/DebugMap/Search.antt =====
-- include/vm.hpp: `resolve_debug_loc` finds the entry that a place belongs to.
use munchkinglang.Prelude.{
  ℕ, zero, suc, ◌+◌, ◌-◌, ◌/◌, ◌≤◌, ◌<◌, List, [], ◌∷◌, Option, none, some, ◌≡◌, inl, inr, refl,
  arith, ltb, leb, length, get_elem?, get_elem?-some, get_elem?-lt, Bool-cases, ltb→lt, leb→le,
}
use munchkinglang.Format.DebugMap.{DebugLocEntry, search_rounds, entry_before, resolve_debug_loc}

-- Entries follow one another in the order of their places.
abbrev pub IsSorted : List DebugLocEntry → Type 0
IsSorted map =
    (i j : ℕ) (d e : DebugLocEntry)
    → get_elem? map i ≡ some d
    → get_elem? map j ≡ some e
    → i ≤ j
    → d.pc ≤ e.pc

-- The entries before `low` are at `pc` or before it.
abbrev UpTo : List DebugLocEntry → ℕ → ℕ → Type 0
UpTo map pc low = (i : ℕ) (d : DebugLocEntry) → get_elem? map i ≡ some d → i < low → d.pc ≤ pc

-- Those from `high` on are behind it.
abbrev Beyond : List DebugLocEntry → ℕ → ℕ → Type 0
Beyond map pc high = (i : ℕ) (d : DebugLocEntry) → get_elem? map i ≡ some d → high ≤ i → pc < d.pc

Found : List DebugLocEntry → ℕ → Option ℕ → Type 0
Found map pc o =
    (low : ℕ) × (o ≡ some low) × UpTo map pc low × Beyond map pc low × (low ≤ length map)

search_rounds-Found :
    (n low high : ℕ) (map : List DebugLocEntry) (pc : ℕ)
    → IsSorted map
    → high - low < n
    → low ≤ high
    → high ≤ length map
    → UpTo map pc low
    → Beyond map pc high
    → Found map pc (search_rounds n low high map pc)
unfolding search_rounds Found
search_rounds-Found zero low high map pc sorted enough le inside before after = absurd (omega arith)
search_rounds-Found (suc n) low high map pc sorted enough le inside before after =
    elim (Bool-cases (ltb low high)) [
      | inr m ↦
          let over : Beyond map pc low = λ i d q h. after i d q (ground (arith, m, h, le)) in
          rw (m, search_rounds) (low, refl, before, over, omega (arith, le, inside))
      | inl m ↦
          let less = ltb→lt low high m in
          let mid = low + (high - low) / 2 in
          let mid_lt : low + (high - low) / 2 < high = omega (arith, less) in
          let (e, q) = get_elem?-some map mid (omega (arith, mid_lt, inside)) in
          elim (Bool-cases (leb e.pc pc)) [
            | inl k ↦
                let at : e.pc ≤ pc = leb→le e.pc pc k in
                let more : UpTo map pc (mid + 1) =
                  λ i d p h. omega (arith, sorted i mid d e p q (omega (arith, h)), at) in
                rw (m, q, k, search_rounds)
                  (search_rounds-Found n (mid + 1) high map pc sorted (omega (arith, enough, less))
                    (omega (arith, mid_lt)) inside more after)
            | inr k ↦
                let at : pc < e.pc = ground (arith, k) in
                let over : Beyond map pc mid =
                  λ i d p h. omega (arith, sorted mid i e d q p h, at) in
                rw (m, q, k, search_rounds)
                  (search_rounds-Found n low mid map pc sorted (omega (arith, enough, less, mid_lt))
                    (omega arith) (omega (arith, mid_lt, inside)) before over)
          ]
    ]

-- The entry that `pc` belongs to: the last one at `pc` or before it, or none where all are behind it.
unfoldable pub Governs : List DebugLocEntry → ℕ → Option DebugLocEntry → Type 0
Governs map pc none = Beyond map pc 0
Governs map pc (some e) = (i : ℕ) × (get_elem? map i ≡ some e) × (e.pc ≤ pc) × Beyond map pc (suc i)

entry_before-Governs :
    (map : List DebugLocEntry) (pc low : ℕ)
    → UpTo map pc low
    → Beyond map pc low
    → low ≤ length map
    → Governs map pc (entry_before map low)
unfolding entry_before Governs
entry_before-Governs map pc zero before after inside = after
entry_before-Governs map pc (suc low) before after inside =
    let (e, q) = get_elem?-some map low (omega (arith, inside)) in
    rw (q, entry_before) (low, q, before low e q (omega arith), after)

-- In a map in the order of its places, the search ends and gives the entry that a place belongs to.
pub resolve_debug_loc-Governs :
    (map : List DebugLocEntry) (pc : ℕ)
    → IsSorted map
    → (r : Option DebugLocEntry) × (resolve_debug_loc map pc ≡ some r) × Governs map pc r
unfolding resolve_debug_loc Found Governs
resolve_debug_loc-Governs [] pc sorted = (none, refl, λ i d q. absurd (cc))
resolve_debug_loc-Governs (e ∷ es) pc sorted =
    let (low, q, before, after, inside) =
      search_rounds-Found (suc (length (e ∷ es))) 0 (length (e ∷ es)) (e ∷ es) pc sorted
        (omega arith) (omega arith) (omega arith) (λ i d p h. absurd (omega (arith, h)))
        (λ i d p h. absurd (omega (arith, h, get_elem?-lt (e ∷ es) i p))) in
    (
      entry_before (e ∷ es) low,
      rw (q, resolve_debug_loc) refl,
      entry_before-Governs (e ∷ es) pc low before after inside,
    )
