-- ===== src/Format/Tests.antt =====
-- include/bytecode_compiler.hpp and include/vm.hpp: a debug map at concrete places.
use munchkinglang.Prelude.{
  ℕ, zero, suc, ◌++◌, List, [], ◌∷◌, Option, some, ◌≡◌, refl, ap, arith, same_some,
}
use munchkinglang.Format.Strings.{empty_table, Consistent}
use munchkinglang.Format.DebugMap.{
  DebugLocEntry, serialize_debug_map, parse_debug_map, resolve_debug_loc,
}
use munchkinglang.Format.DebugMap.RoundTrip.{AllFit, parse_debug_map-serialize_debug_map}
use munchkinglang.Format.DebugMap.Search.{IsSorted, Governs, resolve_debug_loc-Governs}

abbrev entry : ℕ → ℕ → DebugLocEntry
entry pc line = record { pc = pc; line = line; column = 1; file = 109 ∷ 120 ∷ [] }

abbrev two_lines : List DebugLocEntry
two_lines = entry 0 3 ∷ entry 9 4 ∷ []

-- The name is interned once.
two_lines_table : ((serialize_debug_map two_lines empty_table).1).bytes ≡ 109 ∷ 120 ∷ []
unfolding serialize_debug_map
two_lines_table = refl

second_line : resolve_debug_loc two_lines 12 ≡ some (some (entry 9 4))
unfolding resolve_debug_loc
second_line = refl

two_lines-AllFit : AllFit two_lines
unfolding AllFit
two_lines-AllFit = omega arith

empty-Consistent : Consistent [] []
unfolding Consistent
empty-Consistent = tt

two_lines-IsSorted : IsSorted two_lines
two_lines-IsSorted zero j d e p q le = omega (arith, ap (λ x. x.pc) (same_some p refl))
two_lines-IsSorted (suc zero) zero d e p q le = absurd (omega (arith, le))
two_lines-IsSorted (suc zero) (suc zero) d e p q le =
    omega (arith, ap (λ x. x.pc) (same_some p refl), ap (λ x. x.pc) (same_some q refl))
two_lines-IsSorted (suc zero) (suc (suc j)) d e p q le = absurd (cc)
two_lines-IsSorted (suc (suc i)) j d e p q le = absurd (cc)

parse_debug_map-serialize_debug_map_example :
    parse_debug_map
      ((serialize_debug_map two_lines empty_table).0)
      (((serialize_debug_map two_lines empty_table).1).bytes ++ (33 ∷ []))
    ≡ some two_lines
unfolding serialize_debug_map
parse_debug_map-serialize_debug_map_example =
    parse_debug_map-serialize_debug_map two_lines empty_table (33 ∷ []) two_lines-AllFit
      empty-Consistent (omega arith) (omega arith)

resolve_debug_loc-Governs_example :
    (r : Option DebugLocEntry) × (resolve_debug_loc two_lines 12 ≡ some r) × Governs two_lines 12 r
resolve_debug_loc-Governs_example = resolve_debug_loc-Governs two_lines 12 two_lines-IsSorted
