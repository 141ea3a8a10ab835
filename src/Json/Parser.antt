-- ===== src/Json/Parser.antt =====
-- class JSON of src/json.h: the parser.
-- An offset is a position in `raw`; a loop over the positions behind it recurs on the bytes from there on.
pub mod Termination
pub mod RoundTrip
pub mod Strings
pub mod Printing
pub mod Reading
use vpl_jail_system.Message.{
  TreeNode, tree_node, Children, no_children, child, MessageError, unexpected_end, no_colon,
  bad_object, unexpected_char, object_end, bad_array, array_end, trailing_backslash,
  string_end_not_found, unexpected_value, bad_escape, Parse, ok, failed, out_of_fuel, ◌>>=◌,
  set_tag, leaf,
}
use vpl_jail_system.Prelude.{
  ltb, leb, ◌==◌, if◌then◌else◌, Bytes, codes, length, get_or, take, drop, str_eq, ℕ, zero, suc,
  Bool, true, false, Option, none, some, [], ◌+◌, ◌-◌, ◌&&◌, ◌||◌, ◌∷◌,
}
use vpl_jail_system.Json.{decode_json_string}

abbrev pub is_white_space : ℕ → Bool
is_white_space c = c == b' ' || c == 10 || c == 13 || c == 9

unfoldable pub skip_white_spaces : ℕ → Bytes → Parse ℕ
skip_white_spaces offset [] = failed unexpected_end
skip_white_spaces offset (c ∷ s) = elim (is_white_space c) [
  | true ↦ skip_white_spaces (offset + 1) s
  | false ↦ ok offset
]

-- How many positions behind a backslash are not looked at: the escaped character, and four more behind a
-- `u` where the text is long enough.
unfoldable pub escape_length : Bytes → Parse ℕ
escape_length [] = failed trailing_backslash
escape_length (next ∷ s) = ok (if next == b'u' && leb 4 (length s) then 5 else 1)

-- The loop of processStringNode, `skip` positions before the next one that is looked at.
unfoldable pub string_end : ℕ → ℕ → Bytes → Parse ℕ
unfolding escape_length
string_end skip offset [] = failed string_end_not_found
string_end (suc skip) offset (c ∷ s) = string_end skip (offset + 1) s
string_end zero offset (c ∷ s) = elim (c == b'\\') [
  | true ↦ escape_length s >>= λ skip. string_end skip (offset + 1) s
  | false ↦ elim (c == b'"') [ true ↦ ok offset | false ↦ string_end zero (offset + 1) s ]
]

abbrev pub ends_number : ℕ → Bool
ends_number c = c == b',' || c == b'}' || c == b']'

unfoldable pub number_end : ℕ → Bytes → ℕ
number_end offset [] = offset
number_end offset (c ∷ s) = elim (ends_number c) [
  | true ↦ offset
  | false ↦ number_end (offset + 1) s
]

abbrev pub starts_number : ℕ → Bool
starts_number c = c == b'-' || (leb b'0' c && leb c b'9')

-- `unset` is what an unread size_t of decodeHexaUnicodeToUTF8 holds.
module _ (unset : ℕ) (raw : Bytes) where
  -- `raw[offset]`, which at the end is 0.
  abbrev pub char_at : ℕ → ℕ
  char_at offset = get_or raw offset 0

  abbrev pub ignore_white_spaces : ℕ → Parse ℕ
  ignore_white_spaces offset = skip_white_spaces offset (drop offset raw)

  -- TreeNodeJSON::getString; `none` is its exception.
  unfoldable pub get_string : TreeNode → Option Bytes
  get_string (tree_node tag offset len no_children) = decode_json_string unset raw offset len
  get_string (tree_node tag offset len (child _ _)) = some (codes "Object/Array")

  unfoldable pub name_of : TreeNode → Parse Bytes
  name_of n = elim (get_string n) [ none ↦ failed bad_escape | some s ↦ ok s ]

  -- processStringNode, on a node at the quote: the node, and the offset behind the string.
  unfoldable pub process_string_node : ℕ → Parse (TreeNode × ℕ)
  process_string_node offset = string_end 0 (offset + 1) (drop (offset + 1) raw) >>= λ end.
      ok (tree_node (codes "string") (offset + 1) (end - (offset + 1)) no_children, end + 1)

  -- The test behind a value in an object or an array.
  unfoldable pub separator : ℕ → MessageError → ℕ → Parse ℕ
  separator close error offset = elim (char_at offset == b',') [
    | true ↦ ok (offset + 1)
    | false ↦ elim (char_at offset == close) [ true ↦ ok offset | false ↦ failed error ]
  ]

  unfoldable pub expect_colon : ℕ → Parse ℕ
  expect_colon offset = elim (char_at offset == b':') [
    | true ↦ ok (offset + 1)
    | false ↦ failed no_colon
  ]

  -- The last cases of processNode.
  unfoldable pub process_word : ℕ → Parse (TreeNode × ℕ)
  process_word offset =
      let s = drop offset raw in
      elim (starts_number (char_at offset)) [
        | true ↦ ok (leaf (codes "number") offset (number_end offset s - offset))
        | false ↦ elim (str_eq (take 4 s) (codes "true")) [
          | true ↦ ok (leaf (codes "boolean") offset 4)
          | false ↦ elim (str_eq (take 5 s) (codes "false")) [
            | true ↦ ok (leaf (codes "boolean") offset 5)
            | false ↦ elim (str_eq (take 4 s) (codes "null")) [
              | true ↦ ok (leaf (codes "null") offset 4)
              | false ↦ failed unexpected_value
            ]
          ]
        ]
      ]

  -- The loops of processObjectNode and processArrayNode return the children and where the bracket is.
  -- What a call leaves is not a structural part, so each call costs a unit of fuel.
  unfoldable mutual
    unfolding process_word process_string_node expect_colon separator name_of

    pub process_node : ℕ → ℕ → Parse (TreeNode × ℕ)
    process_node zero offset = out_of_fuel
    process_node (suc f) offset = elim (char_at offset == b'{') [
      | true ↦ process_object_node f (offset + 1) >>= λ (kids, end).
          ok (tree_node (codes "object") offset (end - offset) kids, end + 1)
      | false ↦ elim (char_at offset == b'[') [
        | true ↦ process_array_node f (offset + 1) >>= λ (kids, end).
            ok (tree_node (codes "array") offset (end - offset) kids, end + 1)
        | false ↦ elim (char_at offset == b'"') [
          | true ↦ process_string_node offset
          | false ↦ process_word offset
        ]
      ]
    ]

    pub process_object_node : ℕ → ℕ → Parse (Children × ℕ)
    process_object_node zero offset = out_of_fuel
    process_object_node (suc f) offset = elim (ltb offset (length raw)) [
      | false ↦ failed object_end
      | true ↦ ignore_white_spaces offset >>= λ p. elim (char_at p == b'}') [
        | true ↦ ok (no_children, p)
        | false ↦ elim (char_at p == b'"') [
          | false ↦ failed unexpected_char
          | true ↦ process_string_node p >>= λ (name, q). ignore_white_spaces q >>= λ colon.
              expect_colon colon >>= λ behind. ignore_white_spaces behind >>= λ start.
              process_node f start >>= λ (value, end). name_of name >>= λ tag.
              ignore_white_spaces end >>= λ comma. separator b'}' bad_object comma >>= λ next.
              process_object_node f next >>= λ (kids, close).
              ok (child (set_tag tag value) kids, close)
        ]
      ]
    ]

    pub process_array_node : ℕ → ℕ → Parse (Children × ℕ)
    process_array_node zero offset = out_of_fuel
    process_array_node (suc f) offset = elim (ltb offset (length raw)) [
      | false ↦ failed array_end
      | true ↦ ignore_white_spaces offset >>= λ p. elim (char_at p == b']') [
        | true ↦ ok (no_children, p)
        | false ↦ process_node f p >>= λ (value, end). ignore_white_spaces end >>= λ comma.
            separator b']' bad_array comma >>= λ next.
            process_array_node f next >>= λ (kids, close). ok (child value kids, close)
      ]
    ]

  -- processRawData.
  unfoldable pub process_raw_data : Parse TreeNode
  process_raw_data = ignore_white_spaces 0 >>= λ offset.
      process_node (suc (length raw + length raw)) offset >>= λ (root, _). ok root
