-- ===== src/Message.antt =====
-- class TreeNode of src/requestmessage.h, what a parser of messages returns, and the exceptions of the
-- parsers (src/json.h, src/xml.h) and of what reads the tree (src/jsonrpc.h, src/xmlrpc.h).
pub mod Steps
use vpl_jail_system.Prelude.{Bytes, take, drop, str_eq, ℕ, suc, true, false, ◌+◌}

-- TreeNode: the tag, its offset and length in `raw`, and the children.
mutual
  pub data TreeNode : Type 0 where
    tree_node : Bytes → ℕ → ℕ → Children → TreeNode

  pub data Children : Type 0 where
    no_children : Children
    child : TreeNode → Children → Children

-- The messages of the exceptions.
pub data MessageError : Type 0 where
  unexpected_end no_colon bad_object unexpected_char object_end bad_array array_end : MessageError
  trailing_backslash string_end_not_found unexpected_value bad_escape : MessageError
  no_such_child root_not_object no_four_attributes : MessageError
  unexpected_end_of_xml unexpected_end_of_tag end_tag_not_found start_tag_not_found : MessageError
  out_of_range expected_string expected_struct no_two_attributes no_method_call : MessageError

pub data Parse {ℓ} (A : Type ℓ) : Type ℓ where
  ok : A → Parse A
  failed : MessageError → Parse A
  out_of_fuel : Parse A

module _ {ℓ κ} {A : Type ℓ} {B : Type κ} where
  infixl 1 ◌>>=◌
  abbrev pub ◌>>=◌ : Parse A → (A → Parse B) → Parse B
  ok a >>= k = k a
  failed e >>= k = failed e
  out_of_fuel >>= k = out_of_fuel

abbrev pub set_tag : Bytes → TreeNode → TreeNode
set_tag tag (tree_node _ offset len kids) = tree_node tag offset len kids

abbrev pub get_name : TreeNode → Bytes
get_name (tree_node tag _ _ _) = tag

abbrev pub children_of : TreeNode → Children
children_of (tree_node _ _ _ kids) = kids

-- A node without children, and the offset behind it.
abbrev pub leaf : Bytes → ℕ → ℕ → TreeNode × ℕ
leaf tag offset len = (tree_node tag offset len no_children, offset + len)

unfoldable pub get_raw_content : Bytes → TreeNode → Bytes
get_raw_content raw (tree_node tag offset len kids) = take len (drop offset raw)

-- TreeNode::child(stag).
unfoldable pub named_child : Bytes → Children → Parse TreeNode
named_child tag no_children = failed no_such_child
named_child tag (child n kids) = elim (str_eq (get_name n) tag) [
  | true ↦ ok n
  | false ↦ named_child tag kids
]

unfoldable pub nchild : Children → ℕ
nchild no_children = 0
nchild (child _ kids) = suc (nchild kids)
