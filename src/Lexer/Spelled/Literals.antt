-- ===== src/Lexer/Spelled/Literals.antt =====
-- include/lexer.hpp: a literal in quotes is spelled as it is read.
use mathlib.Core.Path.{subst}
use mathlib.Core.List.{append_assoc, append-nil}
use munchkinglang.Prelude.{
  ℕ, zero, suc, ◌≡◌, List, [], ◌∷◌, ◌++◌, true, false, ◌||◌, none, some, inl, inr, refl, sym, ap,
  ◌∙◌, arith, ◌==◌, length, take, drop, get_or, Bool-cases, Option-cases, if_cases, elim_cases,
  take-append-drop,
}
use munchkinglang.Lexer.Words.{Payload}
use munchkinglang.Lexer.{
  Place, Complaint, Cursor, eof, peek, make, fail, advance, advance_no_newline, escape_of,
  lex_escape, chunk_length, string_rounds, complain_at_eof, lex_string,
}
use munchkinglang.Lexer.Places.{advance-rest}
use munchkinglang.Lexer.Quoted.{past_end, string_rounds_stops, string_rounds-Clean}
use munchkinglang.Lexer.Spelled.{Decodes, quoted, Spelled}

pub one_of :
    (x : ℕ) (rest : List ℕ)
    → (x == 0) ≡ false
    → (get_or rest 0 0 == x) ≡ true
    → rest ≡ x ∷ drop 1 rest
one_of x [] p h = absurd (ground arith)
one_of x (y ∷ rest) p h = ground arith

escape_split :
    (rest : List ℕ) (v : ℕ)
    → (get_or rest 0 0 == b'\\') ≡ true
    → escape_of (get_or (drop 1 rest) 0 0) ≡ some v
    → rest ≡ b'\\' ∷ get_or (drop 1 rest) 0 0 ∷ drop 1 (drop 1 rest)
unfolding escape_of
escape_split [] v h e = absurd (cc)
escape_split (x ∷ []) v h e = absurd (cc)
escape_split (x ∷ y ∷ rest) v h e = ground arith

-- An escape that is read without an error.
unfoldable pub Escape : List ℕ → ℕ × Cursor → Type 0
Escape rest (v, d) = d.faults ≡ [] → (x : ℕ) × (rest ≡ b'\\' ∷ x ∷ d.rest) × (escape_of x ≡ some v)

abbrev escape_at : Cursor → ℕ × Cursor
escape_at e = elim (escape_of (peek e 0)) [
  | none ↦ (0, fail Complaint.unrecognized_escape e)
  | some value ↦ (value, advance_no_newline 1 e)
]

pub lex_escape-Escape : (c : Cursor) → (peek c 0 == b'\\') ≡ true → Escape c.rest (lex_escape c)
unfolding lex_escape Escape fail advance_no_newline
lex_escape-Escape c h =
    let d = advance_no_newline 1 c in
    if_cases (eof d) (λ (e : Cursor). Escape c.rest (escape_at e))
      (λ q. rw (past_end d.rest (unfold eof in q), escape_at) (λ f. absurd (cc)))
      (λ q. elim (Option-cases (escape_of (peek d 0))) [
        | inl r ↦ rw (r, escape_at) (λ f. absurd (cc))
        | inr (v, r) ↦ rw (r, escape_at) (λ f. (peek d 0, escape_split c.rest v h r, r))
      ])

-- Some text that is decoded, and what is left.
Decoded : List ℕ → List ℕ → List ℕ × Cursor → Type 0
Decoded rest before (value, d) =
    d.faults ≡ []
    → (body : List ℕ) × ((more : List ℕ) × (rest ≡ body ++ d.rest)
        × Decodes body more
        × (value ≡ before ++ more))

chunk-Decodes :
    (xs body more : List ℕ)
    → Decodes body more
    → Decodes (take (chunk_length xs) xs ++ body) (take (chunk_length xs) xs ++ more)
unfolding chunk_length
chunk-Decodes [] body more d = d
chunk-Decodes (x ∷ xs) body more d = elim (Bool-cases (x == b'"' || x == b'\\')) [
  | inl q ↦ rw q d
  | inr q ↦ rw q (Decodes.plain x _ _ q (chunk-Decodes xs body more d))
]

escaped_round :
    (rest value : List ℕ) (v : ℕ) (c : Cursor) (r : List ℕ × Cursor)
    → (c.faults ≡ [] → (x : ℕ) × (rest ≡ b'\\' ∷ x ∷ c.rest) × (escape_of x ≡ some v))
    → ((r.1).faults ≡ [] → c.faults ≡ [])
    → Decoded c.rest (value ++ (v ∷ [])) r
    → Decoded rest value r
unfolding Decoded
escaped_round rest value v c (w, d) escape clean later f =
    let (x, split, e) = escape (clean f) in
    let (body, (more, split', decodes, same)) = later f in
    (
      b'\\' ∷ x ∷ body,
      (
        v ∷ more,
        split ∙ ap (λ r. b'\\' ∷ x ∷ r) split',
        Decodes.escape_pair x v body more e decodes,
        same ∙ append_assoc value (v ∷ []) more,
      ),
    )

chunk_round :
    (c : Cursor) (value : List ℕ) (r : List ℕ × Cursor)
    → Decoded (drop (chunk_length c.rest) c.rest) (value ++ take (chunk_length c.rest) c.rest) r
    → Decoded c.rest value r
unfolding Decoded
chunk_round c value (w, d) later f =
    let chunk = take (chunk_length c.rest) c.rest in
    let (body, (more, split, decodes, same)) = later f in
    (
      chunk ++ body,
      (
        chunk ++ more,
        sym (take-append-drop (chunk_length c.rest) c.rest)
            ∙ ap (λ r. chunk ++ r) split
            ∙ sym (append_assoc chunk body d.rest),
        chunk-Decodes c.rest body more decodes,
        same ∙ append_assoc value chunk more,
      ),
    )

nothing-Decoded : (c : Cursor) (value : List ℕ) → Decoded c.rest value (value, c)
unfolding Decoded
nothing-Decoded c value f = ([], ([], refl, Decodes.done, sym (append-nil value)))

string_rounds-Decoded :
    (n : ℕ) (value : List ℕ) (c : Cursor) → Decoded c.rest value (string_rounds n value c)
unfolding string_rounds
string_rounds-Decoded zero value c = nothing-Decoded c value
string_rounds-Decoded (suc n) value c =
    let P = Decoded c.rest value in
    let k = chunk_length c.rest in
    elim_cases (eof c || peek c 0 == b'"') P (λ _. nothing-Decoded c value)
      (λ e.
        elim_cases (peek c 0 == b'\\') P
          (λ b.
            let r = lex_escape c in
            let last = string_rounds n (value ++ (r.0 ∷ [])) r.1 in
            escaped_round c.rest value r.0 r.1 last (unfold Escape in lex_escape-Escape c b)
              (λ f. ((string_rounds-Clean n (value ++ (r.0 ∷ [])) r.1).taken f).0)
              (string_rounds-Decoded n (value ++ (r.0 ∷ [])) r.1))
          (λ b.
            let next = value ++ take k c.rest in
            chunk_round c value (string_rounds n next (advance k c)) (
              subst (λ r. Decoded r next (string_rounds n next (advance k c))) (advance-rest k c)
                (string_rounds-Decoded n next (advance k c)))))

-- A closing quote that is there.
closed_at :
    (k : Complaint) (d : Cursor)
    → (eof d || peek d 0 == b'"') ≡ true
    → (advance_no_newline 1 (complain_at_eof k d)).faults ≡ []
    → (d.faults ≡ []) × (d.rest ≡ b'"' ∷ (advance_no_newline 1 (complain_at_eof k d)).rest)
unfolding fail advance_no_newline
closed_at k d stops =
    if_cases (eof d)
      (λ (e : Cursor).
        (advance_no_newline 1 e).faults ≡ []
        → (d.faults ≡ []) × (d.rest ≡ b'"' ∷ (advance_no_newline 1 e).rest))
      (λ q f. absurd (cc)) (λ q f. (f, one_of b'"' d.rest refl (ground (arith, stops, q))))

pub lex_string-Spelled :
    (s : Place) (c : Cursor)
    → (peek c 0 == b'"') ≡ true
    → ((lex_string s c).1).faults ≡ []
    → Spelled c.rest ((lex_string s c).0) (((lex_string s c).1).rest)
unfolding lex_string Spelled Decoded make
lex_string-Spelled s c h f =
    let opened = advance_no_newline 1 c in
    let n = suc (length opened.rest) in
    let d = (string_rounds n [] opened).1 in
    let stops = string_rounds_stops n [] opened (omega arith) in
    let (q, close) = closed_at Complaint.unterminated_string d stops f in
    let (body, (more, split, decodes, same)) = string_rounds-Decoded n [] opened q in
    let end = (advance_no_newline 1 (complain_at_eof Complaint.unterminated_string d)).rest in
    (
      b'"' ∷ (body ++ (b'"' ∷ [])),
      one_of b'"' c.rest refl h
          ∙ ap (λ r. b'"' ∷ r)
              ((unfold advance_no_newline in split)
                ∙ ap (λ r. body ++ r) close
                ∙ sym (append_assoc body (b'"' ∷ []) end)),
      quoted body more refl decodes refl (ap Payload.text same),
    )
