-- ===== src/Format/Strings.antt =====
-- include/bytecode_compiler.hpp: the string table.
use mathlib.Core.Path.{subst}
use mathlib.Core.List.{append_assoc, append-nil}
use munchkinglang.Prelude.{
  ℕ, ◌-◌, ◌%◌, ◌^◌, ◌<◌, List, [], ◌∷◌, ◌++◌, true, ◌&&◌, Option, none, some, ◌≡◌, refl, sym, ap,
  ◌∙◌, arith, leb, if◌then◌else◌, length, take, drop, Bool-cases, Option-cases, inl, inr, same_some,
  length-append, drop-append, take-append,
}
use munchkinglang.Mir.Runtime.{same_bytes}
use munchkinglang.Mir.Runtime.Bytes.{same_bytes-path}

pub record StringRef : Type 0 where
  pub offset : ℕ
  pub size : ℕ

-- `interned_` is a list of texts and their places.
pub record StringTable : Type 0 where
  pub bytes : List ℕ
  pub interned : List (List ℕ × ℕ)

abbrev pub empty_table : StringTable
empty_table = record { bytes = []; interned = [] }

-- `interned_.find`
unfoldable pub find_text : List ℕ → List (List ℕ × ℕ) → Option ℕ
unfolding same_bytes
find_text text [] = none
find_text text ((other, offset) ∷ rest) =
    if same_bytes other text then some offset else find_text text rest

abbrev pub append_text : List ℕ → StringTable → StringTable
append_text text t = record {
  bytes = t.bytes ++ text;
  interned = (text, length t.bytes % 2 ^ 32) ∷ t.interned;
}

unfoldable pub intern : List ℕ → StringTable → StringRef × StringTable
unfolding find_text
intern text t = elim (find_text text t.interned) [
  | some offset ↦ (record { offset = offset; size = length text % 2 ^ 32 }, t)
  | none ↦
      (record { offset = length t.bytes % 2 ^ 32; size = length text % 2 ^ 32 }, append_text text t)
]

-- The text of a reference, whose range is tested as in include/vm.hpp and include/jit/bytecode_utils.hpp.
unfoldable pub text_at : List ℕ → ℕ → ℕ → Option (List ℕ)
text_at strings offset size =
    if leb offset (length strings) && leb size (length strings - offset)
    then some (take size (drop offset strings))
    else none

-- `text` stands at `offset`.
pub record Stands (text bytes : List ℕ) (offset : ℕ) : Type 0 where
  pub before : List ℕ
  pub after : List ℕ
  pub split : bytes ≡ before ++ (text ++ after)
  pub counted : length before ≡ offset

extended :
    (text bytes more : List ℕ) (offset : ℕ)
    → Stands text bytes offset
    → Stands text (bytes ++ more) offset
extended text bytes more offset s = record {
  before = s.before;
  after = s.after ++ more;
  split =
      ap (λ d. d ++ more) s.split
      ∙ append_assoc s.before (text ++ s.after) more
      ∙ ap (λ d. s.before ++ d) (append_assoc text s.after more);
  counted = s.counted;
}

-- Each text stands where it is said to.
unfoldable pub Consistent : List ℕ → List (List ℕ × ℕ) → Type 0
Consistent bytes [] = Unit
Consistent bytes ((text, offset) ∷ rest) = Stands text bytes offset × Consistent bytes rest

extended-Consistent :
    (bytes more : List ℕ) (interned : List (List ℕ × ℕ))
    → Consistent bytes interned
    → Consistent (bytes ++ more) interned
unfolding Consistent
extended-Consistent bytes more [] c = tt
extended-Consistent bytes more ((text, offset) ∷ rest) (s, c) =
    (extended text bytes more offset s, extended-Consistent bytes more rest c)

find_text-Stands :
    (text bytes : List ℕ) (interned : List (List ℕ × ℕ)) (offset : ℕ)
    → Consistent bytes interned
    → find_text text interned ≡ some offset
    → Stands text bytes offset
unfolding Consistent find_text
find_text-Stands text bytes [] offset c q = absurd (cc)
find_text-Stands text bytes ((other, o) ∷ rest) offset (s, c) q =
    elim (Bool-cases (same_bytes other text)) [
      | inl m ↦
          let place : o ≡ offset = same_some refl (rw m at q) in
          subst (λ (e : List ℕ × ℕ). Stands (e.0) bytes (e.1))
            (ap (λ x. (x, o)) (same_bytes-path other text m) ∙ ap (λ x. (text, x)) place) s
      | inr m ↦ find_text-Stands text bytes rest offset c (rw m at q)
    ]

-- What interning a text gives: a reference that stands for it, in a table that keeps what it had.
pub record Interns (text : List ℕ) (t : StringTable) (ref : StringRef) (u : StringTable)
    : Type 0 where
  pub stands : Stands text u.bytes ref.offset
  pub size : ref.size ≡ length text % 2 ^ 32
  pub consistent : Consistent u.bytes u.interned
  pub more : List ℕ
  pub grown : u.bytes ≡ t.bytes ++ more

pub intern-Interns :
    (text : List ℕ) (t : StringTable)
    → Consistent t.bytes t.interned
    → length t.bytes < 2 ^ 32
    → Interns text t ((intern text t).0) ((intern text t).1)
unfolding intern Consistent
intern-Interns text t c small = elim (Option-cases (find_text text t.interned)) [
  | inr (offset, q) ↦
      rw (q, intern)
        (record {
          stands = find_text-Stands text t.bytes t.interned offset c q;
          size = refl;
          consistent = c;
          more = [];
          grown = sym (append-nil t.bytes);
        })
  | inl q ↦
      let stands : Stands text (t.bytes ++ text) (length t.bytes % 2 ^ 32) = record {
        before = t.bytes;
        after = [];
        split = ap (λ d. t.bytes ++ d) (sym (append-nil text));
        counted = omega (arith, small);
      } in
      rw (q, intern)
        (record {
          stands = stands;
          size = refl;
          consistent = (stands, extended-Consistent t.bytes text t.interned c);
          more = text;
          grown = refl;
        })
]

-- A text is read back from where it stands, whatever is appended behind it.
pub text_at-Stands :
    (text bytes more : List ℕ) (offset : ℕ)
    → Stands text bytes offset
    → text_at (bytes ++ more) offset (length text) ≡ some text
unfolding text_at
text_at-Stands text bytes more offset s =
    let whole = extended text bytes more offset s in
    let split = whole.split in
    let size = ap length split in
    let inner = length-append whole.before (text ++ whole.after) in
    let outer = length-append text whole.after in
    let fits : leb offset (length (bytes ++ more)) ≡ true =
      ground (arith, size, inner, whole.counted) in
    let room : leb (length text) (length (bytes ++ more) - offset) ≡ true =
      ground (arith, size, inner, outer, whole.counted) in
    let behind : drop offset (bytes ++ more) ≡ text ++ whole.after =
      ap (λ n. drop n (bytes ++ more)) (sym whole.counted)
      ∙ ap (λ d. drop (length whole.before) d) split
      ∙ drop-append whole.before (text ++ whole.after) in
    let found : take (length text) (drop offset (bytes ++ more)) ≡ text =
      ap (λ d. take (length text) d) behind ∙ take-append text whole.after in
    rw (fits, room) (ap some found)

pub intern_grows :
    (text : List ℕ) (t : StringTable)
    → (more : List ℕ) × (((intern text t).1).bytes ≡ t.bytes ++ more)
unfolding intern
intern_grows text t = elim (Option-cases (find_text text t.interned)) [
  | inl q ↦ rw (q, intern) (text, refl)
  | inr (offset, q) ↦ rw (q, intern) ([], sym (append-nil t.bytes))
]
