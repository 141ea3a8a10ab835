-- ===== src/Json/Parser/Printing.antt =====
-- The parser of src/json.h gives back the tree of each value that is printed.
use vpl_jail_system.Message.{no_children, MessageError, bad_object, bad_array, ok}
use vpl_jail_system.Message.Steps.{passes}
use vpl_jail_system.Prelude.{
  ◌==◌, Bytes, length, drop, length-append, drop_past, ℕ, zero, suc, refl, sym, ap, true, false, [],
  append_assoc, append-nil, arith, ◌+◌, ◌≤◌, ◌<◌, ◌≡◌, ◌∙◌, ◌∷◌, ◌++◌,
}
use vpl_jail_system.Json.Parser.{
  is_white_space, ends_number, separator, process_node, process_object_node, process_array_node,
  process_raw_data,
}
use vpl_jail_system.Json.Parser.RoundTrip.{
  First, print-First, Stops, at_head, no_spaces, number_node, word_node, null_node, text_node,
  array_node, object_node, array_end_at, object_end_at, array_round, object_round,
}
use vpl_jail_system.Json.Printed.{
  Value, null, boolean, number, text, array, object, Values, no_values, value, Fields, no_fields,
  field, quoted, comma_before, comma_before_field, print, print_values, print_fields, IsPlain,
  ArePlain, HasPlain, node_at, values_at, fields_at,
}

module _ (unset : ℕ) (raw : Bytes) where
  separator_comma :
      (close : ℕ) (error : MessageError) (o p : ℕ) (s : Bytes)
      → drop o raw ≡ b',' ∷ s
      → p ≡ o + 1
      → separator unset raw close error o ≡ ok p
  unfolding separator
  separator_comma close error o p s h e =
      rw (at_head unset raw o b',' s h, separator) (ap ok (sym e))

  separator_close :
      (close : ℕ) (error : MessageError) (o p : ℕ) (s : Bytes)
      → drop o raw ≡ close ∷ s
      → (close == b',') ≡ false
      → o ≡ p
      → separator unset raw close error o ≡ ok p
  unfolding separator
  separator_close close error o p s h c e =
      let at = at_head unset raw o close s h in
      let same : (close == close) ≡ true = ground arith in rw (at, c, at, same, separator) (ap ok e)

  -- What stands behind a value of an array: a comma, or the bracket.
  values_behind :
      (o p : ℕ) (vs : Values) (s : Bytes)
      → drop o raw ≡ comma_before vs ++ (print_values vs ++ s)
      → p ≡ o + length (comma_before vs)
      → (d : ℕ) × (u : Bytes) × (drop o raw ≡ d ∷ u)
        × (is_white_space d ≡ false)
        × (ends_number d ≡ true)
        × (separator unset raw b']' bad_array o ≡ ok p)
        × (drop p raw ≡ print_values vs ++ s)
  unfolding print
  values_behind o p no_values s h e =
      let e' : o ≡ p = omega arith in
      (b']', s, h, refl, refl, separator_close b']' bad_array o p s h refl e', rw (← e') h)
  values_behind o p (value v vs) s h e = (
    b',',
    _,
    h,
    refl,
    refl,
    separator_comma b']' bad_array o p _ h e,
    rw e (drop_past raw o (b',' ∷ []) _ h),
  )

  fields_behind :
      (o p : ℕ) (fs : Fields) (s : Bytes)
      → drop o raw ≡ comma_before_field fs ++ (print_fields fs ++ s)
      → p ≡ o + length (comma_before_field fs)
      → (d : ℕ) × (u : Bytes) × (drop o raw ≡ d ∷ u)
        × (is_white_space d ≡ false)
        × (ends_number d ≡ true)
        × (separator unset raw b'}' bad_object o ≡ ok p)
        × (drop p raw ≡ print_fields fs ++ s)
  unfolding print
  fields_behind o p no_fields s h e =
      let e' : o ≡ p = omega arith in
      (b'}', s, h, refl, refl, separator_close b'}' bad_object o p s h refl e', rw (← e') h)
  fields_behind o p (field k v fs) s h e = (
    b',',
    _,
    h,
    refl,
    refl,
    separator_comma b'}' bad_object o p _ h e,
    rw e (drop_past raw o (b',' ∷ []) _ h),
  )

  length-print_pos : (v : Value) → IsPlain v → 1 ≤ length (print v)
  unfolding First
  length-print_pos v h = let (c, t, e, w, b) = print-First v h in rw e (omega arith)

  mutual
    unfolding print IsPlain node_at First

    process_node-print :
        (v : Value) (f o q : ℕ) (s : Bytes)
        → IsPlain v
        → Stops s
        → length (print v) + length (print v) < f
        → drop o raw ≡ print v ++ s
        → q ≡ o + length (print v)
        → process_node unset raw f o ≡ ok (node_at o v, q)
    process_node-print v zero o q s n stop m h e = absurd (omega arith)
    process_node-print null (suc f) o q s n stop m h e = null_node unset raw f o q s h e
    process_node-print (boolean true) (suc f) o q s n stop m h e =
        word_node unset raw f o q true s h e
    process_node-print (boolean false) (suc f) o q s n stop m h e =
        word_node unset raw f o q false s h e
    process_node-print (number digits) (suc f) o q s n stop m h e =
        number_node unset raw f o q digits s n stop h e
    process_node-print (text t) (suc f) o q s n stop m h e = text_node unset raw f o q t s h e
    process_node-print (array vs) (suc f) o q s n stop m h e =
        let l = length (print_values vs) in
        array_node unset raw f o (o + l) l q _ _ h
          (process_array_node-print vs f (o + 1) (o + l) s n (omega arith)
            (drop_past raw o (b'[' ∷ []) _ h) (omega arith))
          refl e
    process_node-print (object fs) (suc f) o q s n stop m h e =
        let l = length (print_fields fs) in
        object_node unset raw f o (o + l) l q _ _ h
          (process_object_node-print fs f (o + 1) (o + l) s n (omega arith)
            (drop_past raw o (b'{' ∷ []) _ h) (omega arith))
          refl e

    process_array_node-print :
        (vs : Values) (f o p : ℕ) (s : Bytes)
        → ArePlain vs
        → suc (length (print_values vs) + length (print_values vs)) < f
        → drop o raw ≡ print_values vs ++ s
        → suc p ≡ o + length (print_values vs)
        → process_array_node unset raw f o ≡ ok (values_at o vs, p)
    process_array_node-print vs zero o p s n m h e = absurd (omega arith)
    process_array_node-print no_values (suc f) o p s n m h e =
        let e' : o ≡ p = omega arith in
        array_end_at unset raw f o s h ∙ ap (λ t. ok (no_children, t)) e'
    process_array_node-print (value v vs) (suc f) o p s n m h e =
        let c = comma_before vs in
        let rest = c ++ print_values vs in
        let l = length-append (print v) rest in
        let l' = length-append c (print_values vs) in
        let pos = length-print_pos v n.0 in
        let whole : drop o raw ≡ print v ++ (rest ++ s) = h ∙ append_assoc (print v) rest s in
        let end = o + length (print v) in
        let next = end + length c in
        let past = drop_past raw o (print v) (rest ++ s) whole in
        let behind = past ∙ append_assoc c (print_values vs) s in
        let (d, u, at, white, ends, sep, more) = values_behind end next vs s behind refl in
        let (k, t, first, w, b) = print-First v n.0 in
        array_round unset raw f o k end d next p _ u _ _ (whole ∙ ap (λ x. x ++ (rest ++ s)) first)
          w b
          (process_node-print v f o end (d ∷ u) n.0 ends (omega arith)
            (whole ∙ ap (λ x. print v ++ x) (sym past ∙ at)) refl)
          at white sep (process_array_node-print vs f next p s n.1 (omega arith) more (omega arith))

    process_object_node-print :
        (fs : Fields) (f o p : ℕ) (s : Bytes)
        → HasPlain fs
        → suc (length (print_fields fs) + length (print_fields fs)) < f
        → drop o raw ≡ print_fields fs ++ s
        → suc p ≡ o + length (print_fields fs)
        → process_object_node unset raw f o ≡ ok (fields_at o fs, p)
    process_object_node-print fs zero o p s n m h e = absurd (omega arith)
    process_object_node-print no_fields (suc f) o p s n m h e =
        let e' : o ≡ p = omega arith in
        object_end_at unset raw f o s h ∙ ap (λ t. ok (no_children, t)) e'
    process_object_node-print (field k v fs) (suc f) o p s n m h e =
        let c = comma_before_field fs in
        let rest = c ++ print_fields fs in
        let value = print v ++ rest in
        let l = length-append (quoted k) (b':' ∷ value) in
        let l' = length-append (print v) rest in
        let l'' = length-append c (print_fields fs) in
        let pos = length-print_pos v n.0 in
        let colon = o + length (quoted k) in
        let start = colon + 1 in
        let end = start + length (print v) in
        let next = end + length c in
        let whole = h ∙ append_assoc (quoted k) (b':' ∷ value) s in
        let inner : drop start raw ≡ print v ++ (rest ++ s) =
          drop_past raw colon (b':' ∷ []) _ (drop_past raw o (quoted k) _ whole)
          ∙ append_assoc (print v) rest s in
        let past = drop_past raw start (print v) (rest ++ s) inner in
        let behind = past ∙ append_assoc c (print_fields fs) s in
        let (d, u, at, white, ends, sep, more) = fields_behind end next fs s behind refl in
        let (a, t, first, w, b) = print-First v n.0 in
        object_round unset raw f o colon end a next p k _ _ u _ _ whole refl
          (inner ∙ ap (λ x. x ++ (rest ++ s)) first) w
          (process_node-print v f start end (d ∷ u) n.0 ends (omega arith)
            (inner ∙ ap (λ x. print v ++ x) (sym past ∙ at)) refl)
          d at white sep
          (process_object_node-print fs f next p s n.1 (omega arith) more (omega arith))

-- A plain value that is printed is parsed, and its tree is the one that stands for it.
pub process_raw_data-print :
    (unset : ℕ) (v : Value) → IsPlain v → process_raw_data unset (print v) ≡ ok (node_at 0 v)
unfolding process_raw_data First
process_raw_data-print unset v n =
    let raw = print v in
    let (c, t, e, w, b) = print-First v n in
    let whole : raw ≡ raw ++ [] = sym (append-nil raw) in
    passes _ (no_spaces unset raw 0 c t e w) (
      passes _
        (process_node-print unset raw v (suc (length raw + length raw)) 0 (length raw) [] n tt
          (omega arith) whole (omega arith))
        refl)
