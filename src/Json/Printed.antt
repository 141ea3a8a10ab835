-- ===== src/Json/Printed.antt =====
-- JSON texts as the clients of src/json.h write them, without spaces: values, what they print, and the
-- tree of TreeNode objects that such a text stands for.
use vpl_jail_system.Message.{TreeNode, tree_node, Children, no_children, child, set_tag}
use vpl_jail_system.Prelude.{
  if◌then◌else◌, Bytes, codes, length, All, ℕ, Bool, true, false, [], ◌+◌, ◌≡◌, ◌∷◌, ◌++◌,
}
use vpl_jail_system.Json.{encode_json_string}
use vpl_jail_system.Json.Parser.{ends_number, starts_number}

mutual
  pub data Value : Type 0 where
    null : Value
    boolean : Bool → Value
    number : Bytes → Value
    text : Bytes → Value
    array : Values → Value
    object : Fields → Value

  pub data Values : Type 0 where
    no_values : Values
    value : Value → Values → Values

  pub data Fields : Type 0 where
    no_fields : Fields
    field : Bytes → Value → Fields → Fields

unfoldable pub quoted : Bytes → Bytes
quoted s = b'"' ∷ (encode_json_string s ++ (b'"' ∷ []))

abbrev pub comma_before : Values → Bytes
comma_before no_values = []
comma_before (value _ _) = b',' ∷ []

abbrev pub comma_before_field : Fields → Bytes
comma_before_field no_fields = []
comma_before_field (field _ _ _) = b',' ∷ []

unfoldable mutual
  unfolding quoted

  pub print : Value → Bytes
  print null = codes "null"
  print (boolean b) = if b then codes "true" else codes "false"
  print (number digits) = digits
  print (text s) = quoted s
  print (array vs) = b'[' ∷ print_values vs
  print (object fs) = b'{' ∷ print_fields fs

  pub print_values : Values → Bytes
  print_values no_values = b']' ∷ []
  print_values (value v vs) = print v ++ (comma_before vs ++ print_values vs)

  pub print_fields : Fields → Bytes
  print_fields no_fields = b'}' ∷ []
  print_fields (field k v fs) =
      quoted k ++ (b':' ∷ (print v ++ (comma_before_field fs ++ print_fields fs)))

-- Numbers start with a digit or a minus, and hold no comma and no closing bracket.
abbrev pub IsNumber : Bytes → Type 0
IsNumber [] = ⊥
IsNumber (c ∷ s) = (starts_number c ≡ true) × All (λ d. ends_number d ≡ false) (c ∷ s)

unfoldable mutual
  pub IsPlain : Value → Type 0
  IsPlain null = Unit
  IsPlain (boolean b) = Unit
  IsPlain (number digits) = IsNumber digits
  IsPlain (text s) = Unit
  IsPlain (array vs) = ArePlain vs
  IsPlain (object fs) = HasPlain fs

  pub ArePlain : Values → Type 0
  ArePlain no_values = Unit
  ArePlain (value v vs) = IsPlain v × ArePlain vs

  pub HasPlain : Fields → Type 0
  HasPlain no_fields = Unit
  HasPlain (field k v fs) = IsPlain v × HasPlain fs

-- The tree of a value that is printed at an offset.
unfoldable mutual
  unfolding print quoted

  pub node_at : ℕ → Value → TreeNode
  node_at o null = tree_node (codes "null") o 4 no_children
  node_at o (boolean b) = tree_node (codes "boolean") o (if b then 4 else 5) no_children
  node_at o (number digits) = tree_node (codes "number") o (length digits) no_children
  node_at o (text s) =
      tree_node (codes "string") (o + 1) (length (encode_json_string s)) no_children
  node_at o (array vs) =
      tree_node (codes "array") o (length (print_values vs)) (values_at (o + 1) vs)
  node_at o (object fs) =
      tree_node (codes "object") o (length (print_fields fs)) (fields_at (o + 1) fs)

  pub values_at : ℕ → Values → Children
  values_at o no_values = no_children
  values_at o (value v vs) =
      child (node_at o v) (values_at (o + length (print v) + length (comma_before vs)) vs)

  pub fields_at : ℕ → Fields → Children
  fields_at o no_fields = no_children
  fields_at o (field k v fs) =
      let start = o + length (quoted k) + 1 in
      child (set_tag k (node_at start v))
        (fields_at (start + length (print v) + length (comma_before_field fs)) fs)
