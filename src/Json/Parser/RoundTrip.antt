-- ===== src/Json/Parser/RoundTrip.antt =====
-- The parser of src/json.h on a printed value.
use vpl_jail_system.Message.{
  TreeNode, tree_node, Children, no_children, child, bad_object, bad_array, ok, set_tag,
}
use vpl_jail_system.Message.Steps.{when_true, when_false, passes}
use vpl_jail_system.Prelude.{
  ltb, ◌==◌, if◌then◌else◌, lt→ltb, Bytes, codes, length, drop, All, length-drop, get_or-head,
  drop_past, ℕ, suc, refl, ap, Bool, true, false, [], arith, ◌+◌, ◌-◌, ◌≡◌, ◌∙◌, ◌∷◌, ◌++◌,
}
use vpl_jail_system.Json.Parser.{
  is_white_space, skip_white_spaces, ends_number, number_end, char_at, ignore_white_spaces, name_of,
  separator, expect_colon, process_word, process_node, process_object_node, process_array_node,
}
use vpl_jail_system.Json.Parser.Strings.{
  quoted_at, string_at, process_string_node-quoted, get_string-string_at,
}
use vpl_jail_system.Json.Printed.{
  Value, null, boolean, number, text, array, object, quoted, print, IsNumber, IsPlain,
}

-- The first byte of a plain value.
unfoldable pub First : Bytes → Type 0
First s = (c : ℕ) × (t : Bytes) × (s ≡ c ∷ t) × (is_white_space c ≡ false) × ((c == b']') ≡ false)

pub print-First : (v : Value) → IsPlain v → First (print v)
unfolding First IsPlain print quoted
print-First null h = (b'n', codes "ull", refl, refl, refl)
print-First (boolean true) h = (b't', codes "rue", refl, refl, refl)
print-First (boolean false) h = (b'f', codes "alse", refl, refl, refl)
print-First (number []) h = absurd h
print-First (number (c ∷ s)) h = (c, s, refl, ground (arith, h.0), ground (arith, h.0))
print-First (text s) h = (b'"', _, refl, refl, refl)
print-First (array vs) h = (b'[', _, refl, refl, refl)
print-First (object fs) h = (b'{', _, refl, refl, refl)

-- What follows a number: nothing, or a byte that ends it.
abbrev pub Stops : Bytes → Type 0
Stops [] = Unit
Stops (c ∷ s) = ends_number c ≡ true

number_end-digits :
    (digits s : Bytes) (o : ℕ)
    → All (λ d. ends_number d ≡ false) digits
    → Stops s
    → number_end o (digits ++ s) ≡ o + length digits
unfolding number_end
number_end-digits [] [] o h stop = omega arith
number_end-digits [] (c ∷ s) o h stop = rw (stop, number_end) (omega arith)
number_end-digits (d ∷ digits) s o h stop =
    rw (h.0, number_end) (number_end-digits digits s (o + 1) h.1 stop ∙ omega arith)

module _ (unset : ℕ) (raw : Bytes) where
  pub at_head : (o c : ℕ) (t : Bytes) → drop o raw ≡ c ∷ t → char_at unset raw o ≡ c
  at_head o c t h = get_or-head raw o 0 c t h

  pub no_spaces :
      (o c : ℕ) (t : Bytes)
      → drop o raw ≡ c ∷ t
      → is_white_space c ≡ false
      → ignore_white_spaces unset raw o ≡ ok o
  unfolding skip_white_spaces
  no_spaces o c t h w = rw (h, w, skip_white_spaces) refl

  in_text : (o c : ℕ) (t : Bytes) → drop o raw ≡ c ∷ t → ltb o (length raw) ≡ true
  in_text o c t h = lt→ltb o (length raw) (omega (arith, length-drop o raw, ap length h))

  pub is_at :
      {b : Bool} (o c d : ℕ) (t : Bytes)
      → drop o raw ≡ c ∷ t
      → (c == d) ≡ b
      → (char_at unset raw o == d) ≡ b
  is_at o c d t h e = ap (λ x. x == d) (at_head o c t h) ∙ e

  pub number_node :
      (f o q : ℕ) (digits s : Bytes)
      → IsNumber digits
      → Stops s
      → drop o raw ≡ digits ++ s
      → q ≡ o + length digits
      → process_node unset raw (suc f) o
        ≡ ok (tree_node (codes "number") o (length digits) no_children, q)
  unfolding process_node process_word
  number_node f o q [] s n stop h e = absurd n
  number_node f o q (c ∷ digits) s n stop h e =
      let a : (c == b'{') ≡ false = ground (arith, n.0) in
      let b : (c == b'[') ≡ false = ground (arith, n.0) in
      let d : (c == b'"') ≡ false = ground (arith, n.0) in
      let m : number_end o (c ∷ digits ++ s) ≡ o + length (c ∷ digits) =
        number_end-digits (c ∷ digits) s o n.1 stop in
      let l : o + length (c ∷ digits) - o ≡ length (c ∷ digits) = omega arith in
      let at = at_head o c _ h in
      rw (at, a, at, b, at, d, at, n.0, h, m, l, e, process_node, process_word) refl

  pub word_node :
      (f o q : ℕ) (b : Bool) (s : Bytes)
      → drop o raw ≡ (if b then codes "true" else codes "false") ++ s
      → q ≡ o + (if b then 4 else 5)
      → process_node unset raw (suc f) o
        ≡ ok (tree_node (codes "boolean") o (if b then 4 else 5) no_children, q)
  unfolding process_node process_word
  word_node f o q true s h e =
      let at = at_head o _ _ h in rw (at, at, at, at, h, e, process_node, process_word) refl
  word_node f o q false s h e =
      let at = at_head o _ _ h in rw (at, at, at, at, h, h, e, process_node, process_word) refl

  pub null_node :
      (f o q : ℕ) (s : Bytes)
      → drop o raw ≡ codes "null" ++ s
      → q ≡ o + 4
      → process_node unset raw (suc f) o ≡ ok (tree_node (codes "null") o 4 no_children, q)
  unfolding process_node process_word
  null_node f o q s h e =
      let at = at_head o _ _ h in rw (at, at, at, at, h, h, h, e, process_node, process_word) refl

  pub text_node :
      (f o q : ℕ) (t s : Bytes)
      → drop o raw ≡ quoted t ++ s
      → q ≡ o + length (quoted t)
      → process_node unset raw (suc f) o ≡ ok (string_at unset raw (o + 1) t, q)
  unfolding process_node
  text_node f o q t s h e =
      let at = at_head o b'"' _ (h ∙ quoted_at t s) in
      let r = process_string_node-quoted unset raw o q t s h e in
      rw (at, at, at, r, process_node) refl

  -- A bracket, and what the loop behind it finds.
  pub array_node :
      (f o close n q : ℕ) (kids : Children) (s : Bytes)
      → drop o raw ≡ b'[' ∷ s
      → process_array_node unset raw f (o + 1) ≡ ok (kids, close)
      → close ≡ o + n
      → q ≡ o + suc n
      → process_node unset raw (suc f) o ≡ ok (tree_node (codes "array") o n kids, q)
  unfolding process_node
  array_node f o close n q kids s h r e e' =
      let at = at_head o b'[' s h in
      let l : o + n - o ≡ n = omega arith in
      let l' : o + n + 1 ≡ o + suc n = omega arith in
      rw (at, at, r, e, e', l, l', process_node) refl

  pub object_node :
      (f o close n q : ℕ) (kids : Children) (s : Bytes)
      → drop o raw ≡ b'{' ∷ s
      → process_object_node unset raw f (o + 1) ≡ ok (kids, close)
      → close ≡ o + n
      → q ≡ o + suc n
      → process_node unset raw (suc f) o ≡ ok (tree_node (codes "object") o n kids, q)
  unfolding process_node
  object_node f o close n q kids s h r e e' =
      let at = at_head o b'{' s h in
      let l : o + n - o ≡ n = omega arith in
      let l' : o + n + 1 ≡ o + suc n = omega arith in rw (at, r, e, e', l, l', process_node) refl

  pub array_end_at :
      (f o : ℕ) (s : Bytes)
      → drop o raw ≡ b']' ∷ s
      → process_array_node unset raw (suc f) o ≡ ok (no_children, o)
  unfolding process_node
  array_end_at f o s h =
      when_true _ (in_text o b']' s h)
        (passes _ (no_spaces o b']' s h refl) (when_true _ (is_at o b']' b']' s h refl) refl))

  pub object_end_at :
      (f o : ℕ) (s : Bytes)
      → drop o raw ≡ b'}' ∷ s
      → process_object_node unset raw (suc f) o ≡ ok (no_children, o)
  unfolding process_node
  object_end_at f o s h =
      when_true _ (in_text o b'}' s h)
        (passes _ (no_spaces o b'}' s h refl) (when_true _ (is_at o b'}' b'}' s h refl) refl))

  -- One round of the loop of an array: a value, and what stands behind it.
  pub array_round :
      (f o c end d next close : ℕ) (t u : Bytes) (n : TreeNode) (kids : Children)
      → drop o raw ≡ c ∷ t
      → is_white_space c ≡ false
      → (c == b']') ≡ false
      → process_node unset raw f o ≡ ok (n, end)
      → drop end raw ≡ d ∷ u
      → is_white_space d ≡ false
      → separator unset raw b']' bad_array end ≡ ok next
      → process_array_node unset raw f next ≡ ok (kids, close)
      → process_array_node unset raw (suc f) o ≡ ok (child n kids, close)
  unfolding process_node
  array_round f o c end d next close t u n kids h w b v h' w' sep more =
      when_true _ (in_text o c t h) (
        passes _ (no_spaces o c t h w) (
          when_false _ (is_at o c b']' t h b)
            (passes _ v (passes _ (no_spaces end d u h' w') (passes _ sep (passes _ more refl))))))

  pub object_round :
      (f o p end d next close : ℕ) (k t u s : Bytes) (n : TreeNode) (kids : Children)
      → drop o raw ≡ quoted k ++ (b':' ∷ t)
      → p ≡ o + length (quoted k)
      → drop (p + 1) raw ≡ d ∷ u
      → is_white_space d ≡ false
      → process_node unset raw f (p + 1) ≡ ok (n, end)
      → (e : ℕ) → drop end raw ≡ e ∷ s
      → is_white_space e ≡ false
      → separator unset raw b'}' bad_object end ≡ ok next
      → process_object_node unset raw f next ≡ ok (kids, close)
      → process_object_node unset raw (suc f) o ≡ ok (child (set_tag k n) kids, close)
  unfolding process_node expect_colon name_of
  object_round f o p end d next close k t u s n kids h ep h' w' v e h'' w'' sep more =
      let q = h ∙ quoted_at k (b':' ∷ t) in
      let name = process_string_node-quoted unset raw o p k (b':' ∷ t) h ep in
      let colon : drop p raw ≡ b':' ∷ t = rw ep (drop_past raw o (quoted k) (b':' ∷ t) h) in
      let key =
        get_string-string_at unset raw (o + 1) k (b':' ∷ t) (drop_past raw o (b'"' ∷ []) _ q) in
      let named : name_of unset raw (string_at unset raw (o + 1) k) ≡ ok k =
        rw (key, name_of) refl in
      when_true _ (in_text o b'"' _ q) (
        passes _ (no_spaces o b'"' _ q refl) (
          when_false _ (is_at o b'"' b'}' _ q refl) (
            when_true _ (is_at o b'"' b'"' _ q refl) (
              passes _ name (
                passes _ (no_spaces p b':' t colon refl) (
                  passes _ (when_true _ (is_at p b':' b':' t colon refl) refl) (
                    passes _ (no_spaces (p + 1) d u h' w') (
                      passes _ v (
                        passes _ named (
                          passes _ (no_spaces end e s h'' w'')
                            (passes _ sep (passes _ more refl))))))))))))
