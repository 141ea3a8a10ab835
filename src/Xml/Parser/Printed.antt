-- ===== src/Xml/Parser/Printed.antt =====
-- XML texts as the clients of src/xml.h write them: elements with texts between them, and the tree of
-- TreeNode objects that such a text stands for.
use vpl_jail_system.Prelude.{◌==◌, Bytes, length, All, ℕ, false, [], ◌+◌, ◌≡◌, ◌∷◌, ◌++◌}
use vpl_jail_system.Message.{TreeNode, tree_node, Children, no_children, child}
use vpl_jail_system.Xml.Parser.{last_or}

mutual
  pub data Element : Type 0 where
    element : Bytes → Content → Element

  -- A last text, or a text and an element before the rest.
  pub data Content : Type 0 where
    ends_with : Bytes → Content
    piece : Bytes → Element → Content → Content

abbrev pub start_tag : Bytes → Bytes
start_tag name = b'<' ∷ (name ++ (b'>' ∷ []))

abbrev pub end_tag : Bytes → Bytes
end_tag name = b'<' ∷ b'/' ∷ (name ++ (b'>' ∷ []))

unfoldable mutual
  pub print_element : Element → Bytes
  print_element (element name c) = start_tag name ++ (print_content c ++ end_tag name)

  pub print_content : Content → Bytes
  print_content (ends_with t) = t
  print_content (piece t e c) = t ++ (print_element e ++ print_content c)

-- A text without `<`.
abbrev pub IsText : Bytes → Type 0
IsText t = All (λ d. (d == b'<') ≡ false) t

-- A name without `>` that neither starts nor ends with a slash.
abbrev pub IsName : Bytes → Type 0
IsName [] = ⊥
IsName (c ∷ s) =
    ((c == b'/') ≡ false) × ((last_or c s == b'/') ≡ false) × All (λ d. (d == b'>') ≡ false) (c ∷ s)

unfoldable mutual
  unfolding last_or

  pub IsPlainElement : Element → Type 0
  IsPlainElement (element name c) = IsName name × IsPlainContent c

  pub IsPlainContent : Content → Type 0
  IsPlainContent (ends_with t) = IsText t
  IsPlainContent (piece t e c) = IsText t × IsPlainElement e × IsPlainContent c

-- The tree of an element that is printed at an offset.
unfoldable mutual
  unfolding print_element

  pub element_at : ℕ → Element → TreeNode
  element_at o (element name c) =
      let start = o + length (start_tag name) in
      tree_node name start (length (print_content c)) (content_at start c)

  pub content_at : ℕ → Content → Children
  content_at o (ends_with t) = no_children
  content_at o (piece t e c) =
      child (element_at (o + length t) e) (content_at (o + length t + length (print_element e)) c)
