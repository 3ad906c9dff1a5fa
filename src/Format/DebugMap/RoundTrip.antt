-- ===== src/Format/DebugMap/RoundTrip.antt =====
-- include/bytecode_compiler.hpp and include/vm.hpp: a map that is written is read back.
use mathlib.Core.List.{append_assoc, append-nil}
use munchkinglang.Prelude.{
  ℕ, suc, ◌%◌, ◌^◌, ◌<◌, List, [], ◌∷◌, ◌++◌, false, Option, none, some, ◌≡◌, refl, sym, ap, ◌∙◌,
  arith, ltb, length, length-append,
}
use munchkinglang.Jit.Bytecode.{number_of}
use munchkinglang.Jit.Bytecode.Insns.{low_bytes}
use munchkinglang.Jit.Bytecode.Words.{number_of-low_bytes}
use munchkinglang.Format.Strings.{
  StringRef, StringTable, intern, text_at, Consistent, intern_grows, intern-Interns, text_at-Stands,
}
use munchkinglang.Format.DebugMap.{
  DebugLocEntry, serialize_entries, serialize_debug_map, word_at, cons_entry, parse_entries,
  parse_debug_map,
}

-- The numbers of an entry are `uint32_t`.
abbrev Fits : DebugLocEntry → Type 0
Fits e = (e.pc < 2 ^ 32) × (e.line < 2 ^ 32) × (e.column < 2 ^ 32)

unfoldable pub AllFit : List DebugLocEntry → Type 0
AllFit [] = Unit
AllFit (e ∷ es) = Fits e × AllFit es

abbrev written : List DebugLocEntry → StringTable → List ℕ
written es strings = (serialize_entries es strings).0

abbrev grown : List DebugLocEntry → StringTable → StringTable
grown es strings = (serialize_entries es strings).1

word_back : (n : ℕ) → n < 2 ^ 32 → number_of (low_bytes 4 n) ≡ n
word_back n h = number_of-low_bytes 4 n h

add_entry : DebugLocEntry → Option (List DebugLocEntry) → Option (List DebugLocEntry)
add_entry e none = none
add_entry e (some es) = some (e ∷ es)

-- The table only grows.
serialize_entries_grows :
    (es : List DebugLocEntry) (strings : StringTable)
    → (more : List ℕ) × ((grown es strings).bytes ≡ strings.bytes ++ more)
unfolding serialize_entries
serialize_entries_grows [] strings = ([], sym (append-nil strings.bytes))
serialize_entries_grows (e ∷ es) strings =
    let (first, p) = intern_grows e.file strings in
    let (later, q) = serialize_entries_grows es ((intern e.file strings).1) in
    (first ++ later, q ∙ ap (λ b. b ++ later) p ∙ append_assoc strings.bytes first later)

cons_back :
    (blob : List ℕ) (e : DebugLocEntry) (o : Option (List DebugLocEntry))
    → word_at 0 blob ≡ e.pc
    → word_at 4 blob ≡ e.line
    → word_at 8 blob ≡ e.column
    → cons_entry blob e.file o ≡ add_entry e o
unfolding add_entry
cons_back blob e none hp hl hc = refl
cons_back blob e (some es) hp hl hc = rw (hp, hl, hc) refl

abbrev entry_bytes : DebugLocEntry → StringRef → List ℕ → List ℕ
entry_bytes e ref rest =
    low_bytes 4 e.pc
    ++ (low_bytes 4 e.line
        ++ (low_bytes 4 e.column ++ (low_bytes 4 ref.offset ++ (low_bytes 4 ref.size ++ rest))))

-- One entry in front of what follows.
entry_back :
    (e : DebugLocEntry) (ref : StringRef) (rest strings : List ℕ) (count : ℕ)
    → Fits e
    → ref.offset < 2 ^ 32
    → ref.size < 2 ^ 32
    → text_at strings ref.offset ref.size ≡ some e.file
    → parse_entries strings (suc count) (entry_bytes e ref rest)
      ≡ add_entry e (parse_entries strings count rest)
unfolding parse_entries low_bytes add_entry
entry_back e ref rest strings count (hp, hl, hc) ho hs q =
    let enough : ltb
          (suc (
            suc (
              suc (
                suc (
                  suc (
                    suc (
                      suc (
                        suc (
                          suc (
                            suc (
                              suc (
                                suc (
                                  suc (
                                    suc (
                                      suc (suc (suc (suc (suc (suc (length rest)))))))))))))))))))))
          20
        ≡ false =
      ground arith in
    rw (enough, word_back ref.offset ho, word_back ref.size hs, q)
      (cons_back (entry_bytes e ref rest) e (parse_entries strings count rest) (word_back e.pc hp)
        (word_back e.line hl) (word_back e.column hc))

-- Whatever is appended to the table's bytes later.
serialize_entries_back :
    (es : List DebugLocEntry) (strings : StringTable) (tail : List ℕ)
    → AllFit es
    → Consistent strings.bytes strings.interned
    → length (grown es strings).bytes < 2 ^ 32
    → parse_entries ((grown es strings).bytes ++ tail) (length es) (written es strings) ≡ some es
unfolding serialize_entries parse_entries AllFit add_entry
serialize_entries_back [] strings tail fit c small = refl
serialize_entries_back (e ∷ es) strings tail (fits, fit) c small =
    let u = (intern e.file strings).1 in
    let ref = (intern e.file strings).0 in
    let (first, p) = intern_grows e.file strings in
    let (later, q) = serialize_entries_grows es u in
    let u_small : length u.bytes < 2 ^ 32 =
      omega (arith, small, ap length q, length-append u.bytes later) in
    let start_small : length strings.bytes < 2 ^ 32 =
      omega (arith, u_small, ap length p, length-append strings.bytes first) in
    let i = intern-Interns e.file strings c start_small in
    let s = i.stands in
    let place = ap length s.split in
    let front = length-append s.before (e.file ++ s.after) in
    let back = length-append e.file s.after in
    let offset_small : ref.offset < 2 ^ 32 = omega (arith, u_small, place, front, s.counted) in
    let size : ref.size ≡ length e.file = omega (arith, i.size, u_small, place, front, back) in
    let size_small : ref.size < 2 ^ 32 = omega (arith, size, u_small, place, front, back) in
    let all : (grown es u).bytes ++ tail ≡ u.bytes ++ (later ++ tail) =
      ap (λ b. b ++ tail) q ∙ append_assoc u.bytes later tail in
    let text : text_at ((grown es u).bytes ++ tail) ref.offset ref.size ≡ some e.file =
      ap (λ b. text_at b ref.offset ref.size) all
      ∙ ap (λ n. text_at (u.bytes ++ (later ++ tail)) ref.offset n) size
      ∙ text_at-Stands e.file u.bytes (later ++ tail) ref.offset s in
    entry_back e ref (written es u) ((grown es u).bytes ++ tail) (length es) fits offset_small
      size_small text
    ∙ ap (add_entry e) (serialize_entries_back es u tail fit i.consistent small)

-- A debug map that is serialized is parsed back, from the table that serializing it gives and whatever is
-- interned later, where the table stays below 2^32 bytes and each number and the count below 2^32.
pub parse_debug_map-serialize_debug_map :
    (map : List DebugLocEntry) (strings : StringTable) (tail : List ℕ)
    → AllFit map
    → Consistent strings.bytes strings.interned
    → length map < 2 ^ 32
    → length ((serialize_debug_map map strings).1).bytes < 2 ^ 32
    → parse_debug_map
        ((serialize_debug_map map strings).0)
        (((serialize_debug_map map strings).1).bytes ++ tail)
      ≡ some map
unfolding parse_debug_map serialize_debug_map low_bytes
parse_debug_map-serialize_debug_map map strings tail fit c few small =
    let count : number_of (low_bytes 4 (length map % 2 ^ 32)) ≡ length map =
      word_back (length map % 2 ^ 32) (omega arith) ∙ below few in
    let enough : ltb (suc (suc (suc (suc (length (written map strings)))))) 4 ≡ false =
      ground arith in
    rw enough (
      ap (λ n. parse_entries ((grown map strings).bytes ++ tail) n (written map strings)) count
      ∙ serialize_entries_back map strings tail fit c small)
  where
    below : length map < 2 ^ 32 → length map % 2 ^ 32 ≡ length map
    below few = omega (arith, few)
