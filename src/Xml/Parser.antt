-- ===== src/Xml/Parser.antt =====
-- class XML of src/xml.h: the parser. An offset is a position in `raw`.
pub mod Printed
pub mod Printing
pub mod Reading
use vpl_jail_system.Prelude.{
  ◌==◌, Bytes, length, take, drop, str_eq, ℕ, zero, suc, Bool, true, false, Option, none, some, [],
  ◌+◌, ◌-◌, ◌∷◌,
}
use vpl_jail_system.Message.{
  TreeNode, tree_node, Children, no_children, child, MessageError, unexpected_end_of_xml,
  unexpected_end_of_tag, end_tag_not_found, start_tag_not_found, out_of_range, Parse, ok, failed,
  out_of_fuel, ◌>>=◌,
}

-- The position of the first `c`.
unfoldable pub find_char : ℕ → ℕ → Bytes → Option ℕ
find_char c offset [] = none
find_char c offset (d ∷ s) = elim (d == c) [
  | true ↦ some offset
  | false ↦ find_char c (offset + 1) s
]

-- What nextTag finds: the tag, where it starts, and the offset behind it.
pub record Tag : Type 0 where
  pub tag : Bytes
  pub btag : ℕ
  pub offset : ℕ

-- The last byte; before the first byte of an empty tag the code reads what stands there in the memory.
unfoldable pub last_or : ℕ → Bytes → ℕ
last_or d [] = d
last_or d (c ∷ s) = last_or c s

abbrev pub is_end_tag : Bytes → Bool
is_end_tag [] = false
is_end_tag (c ∷ s) = c == b'/'

module _ (outside : ℕ) (raw : Bytes) where
  -- The tag between `<` and `>`.
  unfoldable pub close_tag : ℕ → Option ℕ → Parse (Option Tag)
  close_tag b none = failed unexpected_end_of_xml
  close_tag b (some e) =
      ok (some (record { tag = take (e - (b + 1)) (drop (b + 1) raw); btag = b; offset = e + 1 }))

  -- nextTag; `none` is its result `false`.
  unfoldable pub next_tag : ℕ → Parse (Option Tag)
  unfolding close_tag
  next_tag offset = elim (find_char b'<' offset (drop offset raw)) [
    | none ↦ ok none
    | some b ↦ close_tag b (find_char b'>' b (drop b raw))
  ]

  abbrev pub tag_or : MessageError → Option Tag → Parse Tag
  tag_or e none = failed e
  tag_or e (some t) = ok t

  -- `ntag.erase(l - 1, 1)`, which throws for an empty tag.
  unfoldable pub erase_last : Bytes → Parse Bytes
  erase_last [] = failed out_of_range
  erase_last (c ∷ s) = ok (take (length s) (c ∷ s))

  -- The loop of processNode for a node of that name: the children, where the end tag starts, and the offset
  -- behind it. What a call leaves is not a structural part, so each round costs a unit of fuel.
  unfoldable pub process_children : ℕ → Bytes → ℕ → Parse (Children × ℕ × ℕ)
  unfolding next_tag erase_last
  process_children zero name offset = out_of_fuel
  process_children (suc f) name offset = next_tag offset >>= λ found.
      tag_or end_tag_not_found found >>= λ t. elim (is_end_tag t.tag) [
        | true ↦ elim (str_eq name (drop 1 t.tag)) [
          | true ↦ ok (no_children, t.btag, t.offset)
          | false ↦ failed unexpected_end_of_tag
        ]
        | false ↦ elim (last_or outside t.tag == b'/') [
          | true ↦ erase_last t.tag >>= λ ntag.
              process_children f name t.offset >>= λ (kids, end, behind).
              ok (child (tree_node ntag t.offset 0 no_children) kids, end, behind)
          | false ↦ process_children f t.tag t.offset >>= λ (inner, stop, next).
              process_children f name next >>= λ (kids, end, behind).
              ok (child (tree_node t.tag t.offset (stop - t.offset) inner) kids, end, behind)
        ]
      ]

  -- processRawData: the first tag is that of the declaration.
  unfoldable pub process_document : Parse TreeNode
  process_document = next_tag 0 >>= λ first. tag_or start_tag_not_found first >>= λ declaration.
      next_tag declaration.offset >>= λ second. tag_or start_tag_not_found second >>= λ root.
      process_children (suc (length raw)) root.tag root.offset >>= λ (kids, end, behind).
      ok (tree_node root.tag root.offset (end - root.offset) kids)
