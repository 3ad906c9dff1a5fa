-- ===== src/PipeHub/Protocol/Bytes.antt =====
-- include/pipe_hub_protocol.hpp: what the appending functions append, and what the reader reads back.
use mathlib.Core.List.{append_assoc, append-nil}
use mathlib.Core.Bool.{◌||◌}
use mathlib.Core.Path.{subst}
use munchkinglang.Prelude.{
  ℕ, zero, suc, ◌+◌, ◌/◌, ◌%◌, ◌^◌, ◌≤◌, ◌<◌, List, [], ◌∷◌, ◌++◌, Bool, true, false, ◌≡◌, refl,
  sym, ap, ◌∙◌, arith, length, length-append, ltb,
}
use munchkinglang.PipeHub.Protocol.{
  Buffer, append_u8, append_u32, append_bytes_of, append_u64, append_each, append_string,
  append_bytes, encode_frame, too_long,
}
use munchkinglang.PipeHub.Protocol.Decode.{
  Reader, Read, ◌>>=◌, pure, bytes_from, read, little_endian, first_byte, u8, u32, u64, read_bytes,
}

-- The `n` low bytes of a number, lowest first.
abbrev pub bytes_of : ℕ → ℕ → List ℕ
bytes_of zero w = []
bytes_of (suc n) w = w % 256 ∷ bytes_of n (w / 256)

abbrev pub AllBytes : List ℕ → Type 0
AllBytes [] = Unit
AllBytes (b ∷ bs) = (b < 256) × AllBytes bs

-- A text on the wire: its length, then its bytes.
abbrev pub sized : List ℕ → List ℕ
sized text = bytes_of 4 (length text) ++ text

abbrev pub grown : Buffer → List ℕ → Buffer
grown b more = record b { bytes = b.bytes ++ more }

pub append_bytes_of-grown : (n w : ℕ) (b : Buffer) → append_bytes_of n w b ≡ grown b (bytes_of n w)
unfolding append_bytes_of append_u8
append_bytes_of-grown zero w b =
    ap (λ (l : List ℕ). record b { bytes = l }) (sym (append-nil b.bytes))
append_bytes_of-grown (suc n) w b =
    append_bytes_of-grown n (w / 256) (grown b (w % 256 ∷ []))
    ∙ ap (λ (l : List ℕ). record b { bytes = l })
        (append_assoc b.bytes (w % 256 ∷ []) (bytes_of n (w / 256)))

or-false : (b : Bool) → (b || false) ≡ b
or-false true = refl
or-false false = refl

not_less : (a b : ℕ) → b ≤ a → ltb a b ≡ false
not_less a b h = ground arith

shift_again : (w : ℕ) → (w / 2 ^ 16 ≡ w / 2 ^ 8 / 256) × (w / 2 ^ 24 ≡ w / 2 ^ 16 / 256)
shift_again w = (omega arith, omega arith)

pub append_u32-grown : (w : ℕ) (b : Buffer) → append_u32 w b ≡ grown b (bytes_of 4 w)
unfolding append_u32 append_bytes_of
append_u32-grown w b = rw ((shift_again w).1, (shift_again w).0) (append_bytes_of-grown 4 w b)

pub append_u64-grown : (w : ℕ) (b : Buffer) → append_u64 w b ≡ grown b (bytes_of 8 w)
unfolding append_u64
append_u64-grown w b = append_bytes_of-grown 8 w b

pub append_u8-grown : (x : ℕ) (b : Buffer) → x < 256 → append_u8 x b ≡ grown b (x ∷ [])
unfolding append_u8
append_u8-grown x b h = ap (λ (y : ℕ). grown b (y ∷ [])) (omega arith)

grown-grown : (b : Buffer) (xs ys : List ℕ) → grown (grown b xs) ys ≡ grown b (xs ++ ys)
grown-grown b xs ys = ap (λ (l : List ℕ). record b { bytes = l }) (append_assoc b.bytes xs ys)

pub append_each-grown :
    (text : List ℕ) (b : Buffer) → AllBytes text → append_each text b ≡ grown b text
unfolding append_each
append_each-grown [] b h = ap (λ (l : List ℕ). record b { bytes = l }) (sym (append-nil b.bytes))
append_each-grown (x ∷ text) b (hx, h) =
    ap (append_each text) (append_u8-grown x b hx)
    ∙ append_each-grown text (grown b (x ∷ [])) h
    ∙ grown-grown b (x ∷ []) text

-- A length of 32 bits sets no flag and is written whole.
short :
    (text : List ℕ)
    → length text < 2 ^ 32
    → (too_long text ≡ false) × (length text % 2 ^ 32 ≡ length text)
short text h = (ground arith, omega arith)

unflagged :
    (b : Buffer) (text : List ℕ)
    → length text < 2 ^ 32
    → record b { failed = b.failed || too_long text } ≡ b
unflagged b text h = rw ((short text h).0, or-false)

pub append_string-grown :
    (text : List ℕ) (b : Buffer)
    → AllBytes text
    → length text < 2 ^ 32
    → append_string text b ≡ grown b (sized text)
unfolding append_string
append_string-grown text b h small =
    rw (unflagged b text small, (short text small).1, append_u32-grown)
      (append_each-grown text _ h ∙ grown-grown b (bytes_of 4 (length text)) text)

pub append_bytes-grown :
    (bytes : List ℕ) (b : Buffer)
    → length bytes < 2 ^ 32
    → append_bytes bytes b ≡ grown b (sized bytes)
unfolding append_bytes
append_bytes-grown bytes b small =
    rw (unflagged b bytes small, (short bytes small).1, append_u32-grown)
      (grown-grown b (bytes_of 4 (length bytes)) bytes)

pub encode_frame-grown :
    (body : Buffer)
    → length body.bytes < 2 ^ 32
    → encode_frame body ≡ record { bytes = sized body.bytes; failed = body.failed }
unfolding encode_frame
encode_frame-grown body small =
    rw ((short body.bytes small).0, or-false, (short body.bytes small).1, append_u32-grown) refl

-- `memory` holds `xs` from offset `start` on.
abbrev pub At : (ℕ → ℕ) → ℕ → List ℕ → Type 0
At memory start [] = Unit
At memory start (x ∷ xs) = (memory start ≡ x) × At memory (suc start) xs

At-append :
    (memory : ℕ → ℕ) (start : ℕ) (xs ys : List ℕ)
    → At memory start (xs ++ ys)
    → At memory start xs × At memory (start + length xs) ys
At-append memory start [] ys h = (tt, subst (λ c. At memory c ys) (omega arith) h)
At-append memory start (x ∷ xs) ys (hx, h) =
    let (p, q) = At-append memory (suc start) xs ys h in
    ((hx, p), subst (λ c. At memory c ys) (omega arith) q)

At-bytes_from :
    (memory : ℕ → ℕ) (start : ℕ) (xs : List ℕ)
    → At memory start xs
    → bytes_from memory start (length xs) ≡ xs
At-bytes_from memory start [] h = refl
At-bytes_from memory start (x ∷ xs) (hx, h) = rw (hx, At-bytes_from memory (suc start) xs h)

-- A reader that has met no truncation.
abbrev pub reader : (ℕ → ℕ) → ℕ → ℕ → Reader
reader memory size cursor = record { memory = memory; size = size; cursor = cursor; failed = false }

-- Wherever the bytes `xs` lie inside the message, `m` reads `v` from them, passes over them and sets
-- no flag.
abbrev pub Reads : {A : Type 0} → Read A → List ℕ → A → Type 0
Reads m xs v =
    (memory : ℕ → ℕ) (size start : ℕ)
    → At memory start xs
    → start + length xs ≤ size
    → m (reader memory size start) ≡ (v, reader memory size (start + length xs))

pub read-Reads : (xs : List ℕ) → Reads (read (length xs)) xs xs
unfolding read
read-Reads xs memory size start at fits =
    rw (At-bytes_from memory start xs at, not_less size (start + length xs) fits) refl

pub pure-Reads : {A : Type 0} (v : A) → Reads (pure v) [] v
pure-Reads v memory size start at fits = ap (λ c. (v, reader memory size c)) (omega arith)

pub >>=-Reads :
    {A B : Type 0} (m : Read A) (f : A → Read B) (xs ys : List ℕ) (a : A) (b : B)
    → Reads m xs a
    → Reads (f a) ys b
    → Reads (m >>= f) (xs ++ ys) b
>>=-Reads m f xs ys a b hm hf memory size start at fits =
    let (atx, aty) = At-append memory start xs ys at in
    let long = length-append xs ys in
    rw (hm memory size start atx (omega arith)) (
      hf memory size (start + length xs) aty (omega arith)
      ∙ ap (λ c. (b, reader memory size c)) (omega arith))

pub map-Reads :
    {A B : Type 0} (m : Read A) (g : A → B) (xs : List ℕ) (a : A)
    → Reads m xs a
    → Reads (m >>= λ v. pure (g v)) xs (g a)
map-Reads m g xs a hm memory size start at fits = rw (hm memory size start at fits) refl

pub u8-Reads : (x : ℕ) → Reads u8 (x ∷ []) x
unfolding u8
u8-Reads x = map-Reads (read 1) first_byte (x ∷ []) (x ∷ []) (read-Reads (x ∷ []))

-- A word of `n` bytes is read back.
word-bytes : (w : ℕ) → w < 2 ^ 32 → little_endian (bytes_of 4 w) ≡ w
word-bytes w h = omega arith

long-bytes : (w : ℕ) → w < 2 ^ 64 → little_endian (bytes_of 8 w) ≡ w
long-bytes w h = omega arith

pub u32-Reads : (w : ℕ) → w < 2 ^ 32 → Reads u32 (bytes_of 4 w) w
unfolding u32
u32-Reads w h =
    subst (Reads u32 (bytes_of 4 w)) (word-bytes w h)
      (map-Reads (read 4) little_endian (bytes_of 4 w) (bytes_of 4 w) (read-Reads (bytes_of 4 w)))

pub u64-Reads : (w : ℕ) → w < 2 ^ 64 → Reads u64 (bytes_of 8 w) w
unfolding u64
u64-Reads w h =
    subst (Reads u64 (bytes_of 8 w)) (long-bytes w h)
      (map-Reads (read 8) little_endian (bytes_of 8 w) (bytes_of 8 w) (read-Reads (bytes_of 8 w)))

pub read_bytes-Reads : (xs : List ℕ) → length xs < 2 ^ 32 → Reads read_bytes (sized xs) xs
unfolding read_bytes
read_bytes-Reads xs h =
    >>=-Reads u32 read (bytes_of 4 (length xs)) xs (length xs) xs (u32-Reads (length xs) h)
      (read-Reads xs)
