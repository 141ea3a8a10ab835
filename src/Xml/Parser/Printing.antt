-- ===== src/Xml/Parser/Printing.antt =====
-- The parser of src/xml.h gives back the tree of each element that is printed.
use vpl_jail_system.Prelude.{
  ◌==◌, Bytes, length, drop, All, length-append, take-append, drop_past, str_eq, str_eq_iff, ℕ,
  zero, suc, refl, ap, true, false, some, [], append_assoc, arith, ◌+◌, ◌-◌, ◌<◌, ◌≡◌, ◌∙◌, ◌∷◌,
  ◌++◌,
}
use vpl_jail_system.Message.{tree_node, Children, no_children, child, ok}
use vpl_jail_system.Message.Steps.{when_true, when_false, passes}
use vpl_jail_system.Xml.Parser.{find_char, last_or, close_tag, next_tag, process_children}
use vpl_jail_system.Xml.Parser.Printed.{
  element, Content, ends_with, piece, start_tag, end_tag, print_element, print_content, IsText,
  IsName, IsPlainElement, IsPlainContent, element_at, content_at,
}

find_char-append :
    (c o p : ℕ) (t s : Bytes)
    → All (λ d. (d == c) ≡ false) t
    → p ≡ o + length t
    → find_char c o (t ++ (c ∷ s)) ≡ some p
unfolding find_char
find_char-append c o p [] s h e =
    let same : (c == c) ≡ true = ground arith in
    let e' : o ≡ p = omega arith in when_true _ same (ap some e')
find_char-append c o p (d ∷ t) s h e =
    when_false _ h.0 (find_char-append c (o + 1) p t s h.1 (omega arith))

str_eq_same : (s : Bytes) → str_eq s s ≡ true
str_eq_same s = (str_eq_iff s s).1 refl

module _ (outside : ℕ) (raw : Bytes) where
  pub next_tag-found :
      (o b q : ℕ) (t tag s : Bytes)
      → drop o raw ≡ t ++ (b'<' ∷ (tag ++ (b'>' ∷ s)))
      → IsText t
      → All (λ d. (d == b'>') ≡ false) tag
      → b ≡ o + length t
      → q ≡ b + length tag + 2
      → next_tag outside raw o ≡ ok (some (record { tag = tag; btag = b; offset = q }))
  unfolding next_tag close_tag find_char
  next_tag-found o b q t tag s h text name eb eq =
      let at : drop b raw ≡ b'<' ∷ (tag ++ (b'>' ∷ s)) = rw eb (drop_past raw o t _ h) in
      let behind : drop (b + 1) raw ≡ tag ++ (b'>' ∷ s) = drop_past raw b (b'<' ∷ []) _ at in
      let e = b + 1 + length tag in
      let l : e - (b + 1) ≡ length tag = omega arith in
      let l' : e + 1 ≡ q = omega arith in
      let first : find_char b'<' o (drop o raw) ≡ some b =
        rw h (find_char-append b'<' o b t _ text eb) in
      let second : find_char b'>' b (drop b raw) ≡ some e =
        rw at (find_char-append b'>' (b + 1) e tag s name refl) in
      rw (first, next_tag) (rw (second, close_tag) (rw (behind, l, l', take-append) refl))

  -- The end tag of the node ends its loop.
  end_round :
      (f o e q : ℕ) (name t s : Bytes)
      → drop o raw ≡ t ++ (end_tag name ++ s)
      → IsText t
      → All (λ d. (d == b'>') ≡ false) name
      → e ≡ o + length t
      → q ≡ e + length name + 3
      → process_children outside raw (suc f) name o ≡ ok (no_children, e, q)
  unfolding process_children
  end_round f o e q name t s h text n ee eq =
      let h' = h ∙ ap (λ u. t ++ (b'<' ∷ b'/' ∷ u)) (append_assoc name (b'>' ∷ []) s) in
      passes _ (next_tag-found o e q t (b'/' ∷ name) s h' text (refl, n) ee (omega arith))
        (when_true _ (str_eq_same name) refl)

  -- A start tag: its element is read, and the loop goes on behind it.
  start_round :
      (f o b start stop next e q : ℕ) (name n t s : Bytes) (inner kids : Children)
      → drop o raw ≡ t ++ (b'<' ∷ (n ++ (b'>' ∷ s)))
      → IsText t
      → IsName n
      → b ≡ o + length t
      → start ≡ b + length n + 2
      → process_children outside raw f n start ≡ ok (inner, stop, next)
      → process_children outside raw f name next ≡ ok (kids, e, q)
      → process_children outside raw (suc f) name o
        ≡ ok (child (tree_node n start (stop - start) inner) kids, e, q)
  unfolding process_children last_or
  start_round f o b start stop next e q name [] t s inner kids h text plain eb es v more =
      absurd plain
  start_round f o b start stop next e q name (c ∷ n) t s inner kids h text plain eb es v more =
      passes _ (next_tag-found o b start t (c ∷ n) s h text plain.2 eb es)
        (when_false _ plain.0 (when_false _ plain.1 (passes _ v (passes _ more refl))))

  pub IsName-tag : (n : Bytes) → IsName n → All (λ d. (d == b'>') ≡ false) n
  IsName-tag [] h = absurd h
  IsName-tag (c ∷ n) h = h.2

  pub process_children-print :
      (c : Content) (f o e q : ℕ) (name s : Bytes)
      → IsPlainContent c
      → IsName name
      → length (print_content c) < f
      → drop o raw ≡ print_content c ++ (end_tag name ++ s)
      → e ≡ o + length (print_content c)
      → q ≡ e + length name + 3
      → process_children outside raw f name o ≡ ok (content_at o c, e, q)
  unfolding print_element IsPlainElement element_at
  process_children-print c zero o e q name s plain n m h ee eq = absurd (omega arith)
  process_children-print (ends_with t) (suc f) o e q name s plain n m h ee eq =
      end_round f o e q name t s h plain (IsName-tag name n) ee eq
  process_children-print (piece t (element k ci) c) (suc f) o e q name s plain n m h ee eq =
      let whole = print_element (element k ci) in
      let inner = print_content ci in
      let rest = print_content c ++ (end_tag name ++ s) in
      let l = length-append t (whole ++ print_content c) in
      let l1 = length-append whole (print_content c) in
      let l2 = length-append (start_tag k) (inner ++ end_tag k) in
      let l3 = length-append inner (end_tag k) in
      let l4 = length-append k (b'>' ∷ []) in
      let b = o + length t in
      let start = b + length (start_tag k) in
      let stop = start + length inner in
      let next = b + length whole in
      let at : drop o raw ≡ t ++ (whole ++ rest) =
        h ∙ append_assoc t _ _ ∙ ap (λ u. t ++ u) (append_assoc whole (print_content c) _) in
      let opened : whole ++ rest ≡ b'<' ∷ (k ++ (b'>' ∷ (inner ++ (end_tag k ++ rest)))) =
        append_assoc (start_tag k) _ rest
        ∙ ap (λ u. start_tag k ++ u) (append_assoc inner (end_tag k) rest)
        ∙ ap (λ u. b'<' ∷ u) (append_assoc k (b'>' ∷ []) _) in
      let past = drop_past raw o t (whole ++ rest) at in
      let within : drop start raw ≡ inner ++ (end_tag k ++ rest) = drop_past raw b (start_tag k) _ (
        past
        ∙ append_assoc (start_tag k) _ rest
        ∙ ap (λ u. start_tag k ++ u) (append_assoc inner (end_tag k) rest)) in
      let size : stop - start ≡ length inner = omega arith in
      start_round f o b start stop next e q name k t _ _ _ (at ∙ ap (λ u. t ++ u) opened) plain.0
        plain.1.0 refl (omega (arith, l4))
        (process_children-print ci f start stop next k rest plain.1.1 plain.1.0
          (omega (arith, l, l1, l2, l3)) within refl (omega (arith, l2, l3, l4)))
        (process_children-print c f next e q name s plain.2 n (omega (arith, l, l1, l2, l3, l4))
          (drop_past raw b whole rest past) (omega (arith, l, l1)) eq)
      ∙ ap (λ u. ok (child (tree_node k start u (content_at start ci)) (content_at next c), e, q))
          size
