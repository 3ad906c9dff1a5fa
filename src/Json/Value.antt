-- ===== src/Json/Value.antt =====
-- include/json.hpp: values, arrays, objects and the whole text.
use munchkinglang.Prelude.{
  ℕ, zero, suc, ◌+◌, List, Bool, true, false, ◌||◌, Option, none, some, ◌==◌, if◌then◌else◌, length,
  take, drop,
}
use munchkinglang.Mir.Runtime.{same_bytes}
use munchkinglang.Lexer.Words.{ascii}
use munchkinglang.Json.{
  Parser, Message, ok, fail, peek, is_empty, skip_ws, match, expect, parse_string,
}
use munchkinglang.Json.Number.{
  Value, null, bool, string, array, object, Values, nil, cons, Entries, empty, entry, is_digit,
  parse_number,
}

-- `text_.substr(pos_, n) == word`, and `pos_ += n`.
unfoldable pub has_word : List ℕ → Parser → Bool
unfolding same_bytes
has_word word p = same_bytes (take (length word) p.rest) word

unfoldable pub take_word : List ℕ → Parser → Parser
take_word word p = record p { rest = drop (length word) p.rest; offset = p.offset + length word }

unfoldable pub parse_null : Parser → Value × Parser
unfolding has_word take_word fail
parse_null p =
    if has_word (ascii "null") p
    then (null, take_word (ascii "null") p)
    else (null, fail Message.expected_null p)

unfoldable pub parse_bool : Parser → Value × Parser
unfolding has_word take_word fail
parse_bool p =
    if has_word (ascii "true") p
    then (bool true, take_word (ascii "true") p)
    else if has_word (ascii "false") p
    then (bool false, take_word (ascii "false") p)
    else (null, fail Message.expected_true_or_false p)

-- `push_back`
unfoldable pub push : Values → Value → Values
push nil v = cons v nil
push (cons w ws) v = cons w (push ws v)

-- `map_store_entry`: the value of a key that is there is replaced.
unfoldable pub store : Entries → List ℕ → Value → Entries
unfolding same_bytes
store empty key v = entry key v empty
store (entry k w rest) key v =
    let more = store rest key v in if same_bytes k key then entry k v rest else entry k w more

-- The loop of `parse_object`, up to the value of an entry: the key, or none where it returns.
unfoldable pub parse_key : Parser → Option (List ℕ) × Parser
unfolding skip_ws fail parse_string expect
parse_key start =
    let p = skip_ws start in
    let (key, q) = parse_string p in
    let r = expect b':' (skip_ws q) in
    elim (peek p == b'"') [
      | false ↦ (none, fail Message.object_keys_must_be_strings p)
      | true ↦ elim (ok q) [
        | false ↦ (none, q)
        | true ↦ elim (ok r) [ false ↦ (none, r) | true ↦ (some key, r) ]
      ]
    ]

-- What comes behind an item or an entry: whether the bracket `close` ends it, or a comma follows.
unfoldable pub parse_close : ℕ → Parser → Bool × Parser
unfolding skip_ws match expect
parse_close close p =
    let (found, q) = match close (skip_ws p) in
    if found then (true, q) else (false, skip_ws (expect b',' q))

-- What opens an array or an object: whether it is empty.
unfoldable pub parse_open : ℕ → ℕ → Parser → Bool × Parser
unfolding skip_ws match expect
parse_open opening close p = match close (skip_ws (expect opening p))

abbrev pub begin : List ℕ → Parser
begin text = record { rest = text; offset = 0; failure = none }

abbrev pub finish : Value × Parser → Value × Parser
finish (v, p) =
    let q = skip_ws p in
    elim (ok p) [
      | false ↦ (null, p)
      | true ↦ elim (is_empty q.rest) [
        | false ↦ (null, fail Message.unexpected_trailing_input q)
        | true ↦ (v, q)
      ]
    ]

module _ (strtod : List ℕ → Option ℕ) where
  -- A value that has no values in it, by its first character. None is an array or an object.
  unfoldable pub parse_scalar : Parser → Value × Parser
  unfolding parse_string parse_bool parse_null parse_number fail
  parse_scalar p =
      let c = peek p in
      if c == b'"'
      then (let (text, q) = parse_string p in (string text, q))
      else if c == b't' || c == b'f'
      then parse_bool p
      else if c == b'n'
      then parse_null p
      else if c == b'-' || is_digit c
      then parse_number strtod p
      else (null, fail Message.invalid_value p)

  -- Calls and rounds are counted by their depth; `none` where `n` does not do.
  unfoldable mutual
    unfolding skip_ws parse_open parse_close parse_scalar parse_key push store

    pub parse_value : ℕ → Parser → Option (Value × Parser)
    parse_value zero start = none
    parse_value (suc n) start = elim (ok start) [
      | false ↦ some (null, start)
      | true ↦
          let p = skip_ws start in
          elim (peek p == b'{') [
            | true ↦
                let (found, q) = parse_open b'{' b'}' p in
                elim found [ true ↦ some (object empty, q) | false ↦ entry_rounds n empty q ]
            | false ↦ elim (peek p == b'[') [
              | true ↦
                  let (found, q) = parse_open b'[' b']' p in
                  elim found [ true ↦ some (array nil, q) | false ↦ item_rounds n nil q ]
              | false ↦ some (parse_scalar p)
            ]
          ]
    ]

    pub item_rounds : ℕ → Values → Parser → Option (Value × Parser)
    item_rounds zero items p = none
    item_rounds (suc n) items p = elim (ok p) [
      | false ↦ some (array items, p)
      | true ↦ elim (parse_value n p) [
        | none ↦ none
        | some (v, q) ↦ elim (ok q) [
          | false ↦ some (null, q)
          | true ↦
              let (found, r) = parse_close b']' q in
              elim found [
                | true ↦ some (array (push items v), r)
                | false ↦ item_rounds n (push items v) r
              ]
        ]
      ]
    ]

    pub entry_rounds : ℕ → Entries → Parser → Option (Value × Parser)
    entry_rounds zero entries p = none
    entry_rounds (suc n) entries p = elim (ok p) [
      | false ↦ some (object entries, p)
      | true ↦
          let (key, q) = parse_key p in
          elim key [
            | none ↦ some (null, q)
            | some k ↦ elim (parse_value n q) [
              | none ↦ none
              | some (v, r) ↦ elim (ok r) [
                | false ↦ some (null, r)
                | true ↦
                    let (found, s) = parse_close b'}' r in
                    elim found [
                      | true ↦ some (object (store entries k v), s)
                      | false ↦ entry_rounds n (store entries k v) s
                    ]
              ]
            ]
          ]
    ]

  -- `parse`: the value with the final state, whose `failure` is the message of a refusal.
  unfoldable pub parse : ℕ → List ℕ → Option (Value × Parser)
  unfolding skip_ws parse_value fail
  parse n text = elim (parse_value n (skip_ws (begin text))) [
    | none ↦ none
    | some r ↦ some (finish r)
  ]
