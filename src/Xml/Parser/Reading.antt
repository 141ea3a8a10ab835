-- ===== src/Xml/Parser/Reading.antt =====
-- What the names, the raw contents and the children of the tree of a printed document are (src/xml.h,
-- src/requestmessage.h).
use vpl_jail_system.Prelude.{
  ◌==◌, Bytes, length, take, drop, All, length-append, length-drop, take-append, drop-append,
  drop_past, ℕ, suc, refl, ap, false, [], append_assoc, arith, ◌+◌, ◌-◌, ◌<◌, ◌≡◌, ◌∙◌, ◌∷◌, ◌++◌,
}
use vpl_jail_system.Message.{
  TreeNode, tree_node, Children, no_children, child, ok, get_name, children_of, get_raw_content,
}
use vpl_jail_system.Message.Steps.{passes}
use vpl_jail_system.Xml.Parser.{process_document}
use vpl_jail_system.Xml.Parser.Printed.{
  Element, element, Content, ends_with, piece, start_tag, end_tag, print_element, print_content,
  IsText, IsPlainElement, element_at, content_at,
}
use vpl_jail_system.Xml.Parser.Printing.{next_tag-found, IsName-tag, process_children-print}

module _ (raw : Bytes) where
  -- A node has the name of the element, its content as it was printed, and its elements as children in order.
  unfoldable mutual
    unfolding print_element

    pub Represents : Element → TreeNode → Type 0
    Represents (element name c) n =
        (get_name n ≡ name)
        × (get_raw_content raw n ≡ print_content c)
        × RepresentsContent c (children_of n)

    pub RepresentsContent : Content → Children → Type 0
    RepresentsContent (ends_with t) no_children = Unit
    RepresentsContent (piece t e c) (child n kids) = Represents e n × RepresentsContent c kids
    RepresentsContent _ _ = ⊥

  mutual
    unfolding Represents element_at print_element get_raw_content

    element_at-Represents :
        (e : Element) (o : ℕ) (s : Bytes)
        → drop o raw ≡ print_element e ++ s
        → Represents e (element_at o e)
    element_at-Represents (element name c) o s h =
        let inner = print_content c in
        let within = drop_past raw o (start_tag name) _ (h ∙ append_assoc (start_tag name) _ s) in
        let at = within ∙ append_assoc inner (end_tag name) s in
        (
          refl,
          ap (take (length inner)) at ∙ take-append inner _,
          content_at-Represents c (o + length (start_tag name)) (end_tag name ++ s) at,
        )

    content_at-Represents :
        (c : Content) (o : ℕ) (s : Bytes)
        → drop o raw ≡ print_content c ++ s
        → RepresentsContent c (content_at o c)
    content_at-Represents (ends_with t) o s h = tt
    content_at-Represents (piece t e c) o s h =
        let whole = print_element e in
        let past = drop_past raw o t _ (h ∙ append_assoc t _ s) in
        let at = past ∙ append_assoc whole (print_content c) s in
        (
          element_at-Represents e (o + length t) (print_content c ++ s) at,
          content_at-Represents c (o + length t + length whole) s
              (drop_past raw (o + length t) whole _ at),
        )

-- A document: a declaration, a text, the root, and what follows it.
abbrev pub print_document : Bytes → Bytes → Element → Bytes → Bytes
print_document declaration t root behind =
    start_tag declaration ++ (t ++ (print_element root ++ behind))

-- A document is parsed whatever follows its root, and each node of the tree has the name, the raw content
-- and, in order, the children of its element. No text in it is to hold a `<`, no name nor the declaration a
-- `>`, and no name is to be empty or to start or end with a slash.
pub parse-print_document :
    (outside : ℕ) (declaration t : Bytes) (root : Element) (behind : Bytes)
    → All (λ d. (d == b'>') ≡ false) declaration
    → IsText t
    → IsPlainElement root
    → let raw = print_document declaration t root behind in
      (n : TreeNode) × (process_document outside raw ≡ ok n) × Represents raw root n
unfolding process_document print_element IsPlainElement element_at
parse-print_document outside declaration t (element name c) behind hd ht plain =
    let root = element name c in
    let raw = print_document declaration t root behind in
    let inner = print_content c in
    let first = length (start_tag declaration) in
    let b = first + length t in
    let start = b + length (start_tag name) in
    let stop = start + length inner in
    let l = length-append declaration (b'>' ∷ []) in
    let l1 = length-append name (b'>' ∷ []) in
    let opened = ap (λ u. b'<' ∷ u) (append_assoc declaration (b'>' ∷ []) _) in
    let second = drop-append (start_tag declaration) (t ++ (print_element root ++ behind)) in
    let tagged : print_element root ++ behind
        ≡ b'<' ∷ (name ++ (b'>' ∷ (inner ++ (end_tag name ++ behind)))) =
      append_assoc (start_tag name) _ behind
      ∙ ap (λ u. start_tag name ++ u) (append_assoc inner (end_tag name) behind)
      ∙ ap (λ u. b'<' ∷ u) (append_assoc name (b'>' ∷ []) _) in
    let past = drop_past raw first t _ second in
    let within = drop_past raw b (start_tag name) _ (
      past
      ∙ append_assoc (start_tag name) _ behind
      ∙ ap (λ u. start_tag name ++ u) (append_assoc inner (end_tag name) behind)) in
    let fuel : length inner < suc (length raw) = omega (
      arith,
      length-drop start raw,
      ap length within,
      length-append inner (end_tag name ++ behind),
    ) in
    let size : stop - start ≡ length inner = omega arith in
    (
      element_at b root,
      passes _
          (next_tag-found outside raw 0 0 first [] declaration _ opened tt hd refl (omega arith))
          (passes _
            (next_tag-found outside raw first b start t name _ (second ∙ ap (λ u. t ++ u) tagged) ht
              (IsName-tag outside raw name plain.0) refl (omega arith))
            (passes _
              (process_children-print outside raw c (suc (length raw)) start stop _ name behind
                plain.1 plain.0 fuel within refl refl)
              (ap (λ u. ok (tree_node name start u (content_at start c))) size))),
      element_at-Represents raw root b behind past,
    )
