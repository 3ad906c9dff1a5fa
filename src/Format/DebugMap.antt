-- ===== src/Format/DebugMap.antt =====
-- The maps from places in bytecode to places in the source: `serialize_debug_map` of
-- include/bytecode_compiler.hpp, `parse_debug_map` and `resolve_debug_loc` of include/vm.hpp.
pub mod RoundTrip
pub mod Search
use munchkinglang.Prelude.{
  ℕ, zero, suc, ◌+◌, ◌-◌, ◌/◌, ◌%◌, ◌^◌, List, [], ◌∷◌, ◌++◌, Bool, true, false, Option, none, some,
  ltb, leb, if◌then◌else◌, length, take, drop, get_elem?,
}
use munchkinglang.Jit.Bytecode.{number_of}
use munchkinglang.Jit.Bytecode.Insns.{low_bytes}
use munchkinglang.Format.Strings.{StringTable, intern, text_at}

-- `debug_loc_entry`
pub record DebugLocEntry : Type 0 where
  pub pc : ℕ
  pub line : ℕ
  pub column : ℕ
  pub file : List ℕ

-- `append_u32` of numbers that the source holds in 32 bits.
abbrev pub u32_bytes : ℕ → List ℕ
u32_bytes n = low_bytes 4 n

unfoldable pub serialize_entries : List DebugLocEntry → StringTable → List ℕ × StringTable
unfolding intern low_bytes
serialize_entries [] strings = ([], strings)
serialize_entries (e ∷ es) strings =
    let (file, grown) = intern e.file strings in
    let (rest, last) = serialize_entries es grown in
    (
      u32_bytes e.pc
          ++ (u32_bytes e.line
              ++ (u32_bytes e.column ++ (u32_bytes file.offset ++ (u32_bytes file.size ++ rest)))),
      last,
    )

unfoldable pub serialize_debug_map : List DebugLocEntry → StringTable → List ℕ × StringTable
unfolding serialize_entries low_bytes
serialize_debug_map map strings =
    let (rest, last) = serialize_entries map strings in
    (u32_bytes (length map % 2 ^ 32) ++ rest, last)

-- The `uint32_t` at an offset inside the blob.
abbrev pub word_at : ℕ → List ℕ → ℕ
word_at offset blob = number_of (take 4 (drop offset blob))

abbrev pub cons_entry : List ℕ → List ℕ → Option (List DebugLocEntry) → Option (List DebugLocEntry)
cons_entry blob file none = none
cons_entry blob file (some es) = some (
    record { pc = word_at 0 blob; line = word_at 4 blob; column = word_at 8 blob; file = file }
    ∷ es)

-- `none` is `fail_compile`.
unfoldable pub parse_entries : List ℕ → ℕ → List ℕ → Option (List DebugLocEntry)
unfolding text_at
parse_entries strings zero blob = some []
parse_entries strings (suc count) blob =
    if ltb (length blob) 20
    then none
    else (elim (text_at strings (word_at 12 blob) (word_at 16 blob)) [
      | none ↦ none
      | some file ↦ cons_entry blob file (parse_entries strings count (drop 20 blob))
    ])

unfoldable pub parse_debug_map : List ℕ → List ℕ → Option (List DebugLocEntry)
unfolding parse_entries
parse_debug_map blob strings =
    if ltb (length blob) 4 then some [] else parse_entries strings (word_at 0 blob) (drop 4 blob)

-- The loop of `resolve_debug_loc`, in `n` rounds at most; none too where it reads past the map.
unfoldable pub search_rounds : ℕ → ℕ → ℕ → List DebugLocEntry → ℕ → Option ℕ
search_rounds zero low high map pc = none
search_rounds (suc n) low high map pc = elim (ltb low high) [
  | false ↦ some low
  | true ↦
      let mid = low + (high - low) / 2 in
      elim (get_elem? map mid) [
        | none ↦ none
        | some e ↦ elim (leb e.pc pc) [
          | true ↦ search_rounds n (mid + 1) high map pc
          | false ↦ search_rounds n low mid map pc
        ]
      ]
]

-- `map[low - 1]`, and nothing where `low` is 0.
unfoldable pub entry_before : List DebugLocEntry → ℕ → Option DebugLocEntry
entry_before map zero = none
entry_before map (suc low) = get_elem? map low

-- Of an empty map, and of a place before all entries, nothing comes.
unfoldable pub resolve_debug_loc : List DebugLocEntry → ℕ → Option (Option DebugLocEntry)
unfolding search_rounds entry_before
resolve_debug_loc [] pc = some none
resolve_debug_loc (e ∷ es) pc =
    let map = e ∷ es in
    elim (search_rounds (suc (length map)) 0 (length map) map pc) [
      | none ↦ none
      | some low ↦ some (entry_before map low)
    ]
