-- ===== src/Json/Parser/Reading.antt =====
-- What the getters of TreeNodeJSON and TreeNode (src/json.h, src/json.cpp, src/requestmessage.h) read
-- from the tree of a printed value.
use vpl_jail_system.Message.{
  TreeNode, tree_node, Children, no_children, child, ok, set_tag, get_name, children_of,
  get_raw_content,
}
use vpl_jail_system.Prelude.{
  Bytes, codes, length, drop, take-append, drop_past, ℕ, refl, sym, true, false, some, [],
  append_assoc, append-nil, ◌+◌, ◌≡◌, ◌∙◌, ◌∷◌, ◌++◌,
}
use vpl_jail_system.Json.Parser.{get_string, process_raw_data}
use vpl_jail_system.Json.Parser.Strings.{quoted_at, get_string-string_at}
use vpl_jail_system.Json.Parser.Printing.{process_raw_data-print}
use vpl_jail_system.Json.Printed.{
  Value, null, boolean, number, text, array, object, Values, no_values, value, Fields, no_fields,
  field, quoted, comma_before, comma_before_field, print, print_values, print_fields, IsPlain,
  node_at, values_at, fields_at,
}

module _ (unset : ℕ) (raw : Bytes) where
  -- A node is read as a value: the text of a string, the raw content of a number, a Boolean or null, the
  -- nodes of an array in order, and those of an object in order, each under its key.
  unfoldable mutual
    unfolding print

    pub Represents : Value → TreeNode → Type 0
    Represents (text t) n = get_string unset raw n ≡ some t
    Represents (array vs) n = RepresentsValues vs (children_of n)
    Represents (object fs) n = RepresentsFields fs (children_of n)
    Represents null n = get_raw_content raw n ≡ print null
    Represents (boolean b) n = get_raw_content raw n ≡ print (boolean b)
    Represents (number digits) n = get_raw_content raw n ≡ digits

    pub RepresentsValues : Values → Children → Type 0
    RepresentsValues no_values no_children = Unit
    RepresentsValues (value v vs) (child n kids) = Represents v n × RepresentsValues vs kids
    RepresentsValues _ _ = ⊥

    pub RepresentsFields : Fields → Children → Type 0
    RepresentsFields no_fields no_children = Unit
    RepresentsFields (field k v fs) (child n kids) =
        (get_name n ≡ k) × Represents v n × RepresentsFields fs kids
    RepresentsFields _ _ = ⊥

  Represents-set_tag :
      (v : Value) (k : Bytes) (n : TreeNode) → Represents v n → Represents v (set_tag k n)
  unfolding Represents get_raw_content get_string
  Represents-set_tag (text t) k (tree_node tag o l no_children) h = h
  Represents-set_tag (text t) k (tree_node tag o l (child _ _)) h = h
  Represents-set_tag null k (tree_node tag o l kids) h = h
  Represents-set_tag (boolean b) k (tree_node tag o l kids) h = h
  Represents-set_tag (number digits) k (tree_node tag o l kids) h = h
  Represents-set_tag (array vs) k (tree_node tag o l kids) h = h
  Represents-set_tag (object fs) k (tree_node tag o l kids) h = h

  get_name-set_tag : (k : Bytes) (n : TreeNode) → get_name (set_tag k n) ≡ k
  get_name-set_tag k (tree_node tag o l kids) = refl

  content_at :
      (o : ℕ) (tag t s : Bytes)
      → drop o raw ≡ t ++ s
      → get_raw_content raw (tree_node tag o (length t) no_children) ≡ t
  unfolding get_raw_content
  content_at o tag t s h = rw h (take-append t s)

  mutual
    unfolding Represents node_at print

    pub node_at-Represents :
        (v : Value) (o : ℕ) (s : Bytes) → drop o raw ≡ print v ++ s → Represents v (node_at o v)
    node_at-Represents null o s h = content_at o _ (codes "null") s h
    node_at-Represents (boolean true) o s h = content_at o _ (codes "true") s h
    node_at-Represents (boolean false) o s h = content_at o _ (codes "false") s h
    node_at-Represents (number digits) o s h = content_at o _ digits s h
    node_at-Represents (text t) o s h =
        get_string-string_at unset raw (o + 1) t s
          (drop_past raw o (b'"' ∷ []) _ (h ∙ quoted_at t s))
    node_at-Represents (array vs) o s h =
        values_at-Represents vs (o + 1) s (drop_past raw o (b'[' ∷ []) _ h)
    node_at-Represents (object fs) o s h =
        fields_at-Represents fs (o + 1) s (drop_past raw o (b'{' ∷ []) _ h)

    values_at-Represents :
        (vs : Values) (o : ℕ) (s : Bytes)
        → drop o raw ≡ print_values vs ++ s
        → RepresentsValues vs (values_at o vs)
    values_at-Represents no_values o s h = tt
    values_at-Represents (value v vs) o s h =
        let c = comma_before vs in
        let rest = c ++ print_values vs in
        let whole = h ∙ append_assoc (print v) rest s in
        let past =
          drop_past raw o (print v) (rest ++ s) whole ∙ append_assoc c (print_values vs) s in
        (
          node_at-Represents v o (rest ++ s) whole,
          values_at-Represents vs _ s (drop_past raw (o + length (print v)) c _ past),
        )

    fields_at-Represents :
        (fs : Fields) (o : ℕ) (s : Bytes)
        → drop o raw ≡ print_fields fs ++ s
        → RepresentsFields fs (fields_at o fs)
    fields_at-Represents no_fields o s h = tt
    fields_at-Represents (field k v fs) o s h =
        let c = comma_before_field fs in
        let rest = c ++ print_fields fs in
        let whole = h ∙ append_assoc (quoted k) (b':' ∷ print v ++ rest) s in
        let colon = o + length (quoted k) in
        let start = colon + 1 in
        let inner =
          drop_past raw colon (b':' ∷ []) _ (drop_past raw o (quoted k) _ whole)
          ∙ append_assoc (print v) rest s in
        let past =
          drop_past raw start (print v) (rest ++ s) inner ∙ append_assoc c (print_fields fs) s in
        (
          get_name-set_tag k (node_at start v),
          Represents-set_tag v k (node_at start v) (node_at-Represents v start (rest ++ s) inner),
          fields_at-Represents fs _ s (drop_past raw (start + length (print v)) c _ past),
        )

-- A value that is printed without spaces is parsed to a tree, and the getters read the value back from it:
-- each text as it was before encodeJSONString, each number as it was written, and the fields of an object
-- under their keys. A number is to start with a digit or a minus and to hold no comma and no closing
-- bracket.
pub parse-print :
    (unset : ℕ) (v : Value)
    → IsPlain v
    → (n : TreeNode) × (process_raw_data unset (print v) ≡ ok n) × Represents unset (print v) v n
parse-print unset v plain =
    let whole : drop 0 (print v) ≡ print v ++ [] = sym (append-nil (print v)) in
    (
      node_at 0 v,
      process_raw_data-print unset v plain,
      node_at-Represents unset (print v) v 0 [] whole,
    )
