-- ===== src/Json/Parser/Termination.antt =====
-- The parser of src/json.h comes to an end on every text: each round of its loops and each value that it
-- reads moves the offset forward.
use vpl_jail_system.Message.{
  TreeNode, no_children, MessageError, bad_object, bad_array, bad_escape, ok, failed, out_of_fuel,
  leaf,
}
use vpl_jail_system.Message.Steps.{Ends, chain-Ends, Ends-elim, Ends-weaken, ok-Ends, failed-Ends}
use vpl_jail_system.Json.Parser.{
  is_white_space, skip_white_spaces, escape_length, string_end, number_end, starts_number, char_at,
  ignore_white_spaces, get_string, name_of, process_string_node, separator, expect_colon,
  process_word, process_node, process_object_node, process_array_node, process_raw_data,
}
use vpl_jail_system.Prelude.{
  ltb, ◌==◌, Bytes, codes, length, get_or, take, drop, length-drop, drop-cons, str_eq, ℕ, zero, suc,
  subst, true, Option, none, some, [], arith, ◌+◌, ◌-◌, ◌≤◌, ◌<◌, ◌≡◌, ◌≢◌, ◌∷◌,
}

skip_white_spaces-Ends :
    (o : ℕ) (s : Bytes) → Ends (λ p. (o ≤ p) × (p < o + length s)) (skip_white_spaces o s)
unfolding skip_white_spaces
skip_white_spaces-Ends o [] = failed-Ends _ _
skip_white_spaces-Ends o (c ∷ s) =
    Ends-elim _ (is_white_space c) _ _
      (λ e.
        Ends-weaken _ _ _ (skip_white_spaces-Ends (o + 1) s) (λ p h. (omega arith, omega arith)))
      (λ e. ok-Ends _ o (omega arith, omega arith))

escape_length-Ends : (s : Bytes) → Ends (λ k. Unit) (escape_length s)
unfolding escape_length
escape_length-Ends [] = failed-Ends _ _
escape_length-Ends (c ∷ s) = ok-Ends _ _ tt

string_end-Ends : (k o : ℕ) (s : Bytes) → Ends (λ p. o ≤ p) (string_end k o s)
unfolding string_end
string_end-Ends zero o [] = failed-Ends _ _
string_end-Ends (suc k) o [] = failed-Ends _ _
string_end-Ends (suc k) o (c ∷ s) =
    Ends-weaken _ _ _ (string_end-Ends k (o + 1) s) (λ p h. omega arith)
string_end-Ends zero o (c ∷ s) =
    Ends-elim _ (c == b'\\') _ _
      (λ e.
        chain-Ends _ _ _ _ (escape_length-Ends s)
          (λ k _. Ends-weaken _ _ _ (string_end-Ends k (o + 1) s) (λ p h. omega arith)))
      (λ e.
        Ends-elim _ (c == b'"') _ _ (λ _. ok-Ends _ o (omega arith))
          (λ _. Ends-weaken _ _ _ (string_end-Ends zero (o + 1) s) (λ p h. omega arith)))

number_end-le : (o : ℕ) (s : Bytes) → o ≤ number_end o s
unfolding number_end
number_end-le o [] = omega arith
number_end-le o (c ∷ s) = ground (arith, number_end-le (o + 1) s)

number_end-lt : (o c : ℕ) (s : Bytes) → starts_number c ≡ true → o < number_end o (c ∷ s)
unfolding number_end
number_end-lt o c s h = ground (arith, number_end-le (o + 1) s)

module _ (unset : ℕ) (raw : Bytes) where
  ignore_white_spaces-Ends :
      (o : ℕ) → Ends (λ p. (o ≤ p) × (p < length raw)) (ignore_white_spaces unset raw o)
  ignore_white_spaces-Ends o =
      Ends-weaken _ _ _ (skip_white_spaces-Ends o (drop o raw))
        (λ p h. omega (arith, length-drop o raw))

  separator-Ends :
      (close : ℕ) (e : MessageError) (o : ℕ) → Ends (λ p. o ≤ p) (separator unset raw close e o)
  unfolding separator
  separator-Ends close e o =
      Ends-elim _ (char_at unset raw o == b',') _ _ (λ _. ok-Ends _ (o + 1) (omega arith))
        (λ _.
          Ends-elim _ (char_at unset raw o == close) _ _ (λ _. ok-Ends _ o (omega arith))
            (λ _. failed-Ends _ e))

  expect_colon-Ends : (o : ℕ) → Ends (λ p. o ≤ p) (expect_colon unset raw o)
  unfolding expect_colon
  expect_colon-Ends o =
      Ends-elim _ (char_at unset raw o == b':') _ _ (λ _. ok-Ends _ (o + 1) (omega arith))
        (λ _. failed-Ends _ _)

  name_of-Ends : (n : TreeNode) → Ends (λ s. Unit) (name_of unset raw n)
  unfolding name_of
  name_of-Ends n = named (get_string unset raw n)
    where
      named :
          (s : Option Bytes)
          → Ends (λ _. Unit) (elim s [ none ↦ failed bad_escape | some t ↦ ok t ])
      named none = failed-Ends _ _
      named (some t) = ok-Ends _ t tt

  process_string_node-Ends : (o : ℕ) → Ends (λ r. o < r.1) (process_string_node unset raw o)
  unfolding process_string_node
  process_string_node-Ends o =
      chain-Ends _ _ _ _ (string_end-Ends 0 (o + 1) (drop (o + 1) raw))
        (λ end h. ok-Ends _ _ (omega arith))

  number_end-raw :
      (o : ℕ)
      → o < length raw
      → starts_number (char_at unset raw o) ≡ true
      → o < number_end o (drop o raw)
  number_end-raw o h s = rw (drop-cons raw o 0 h) (number_end-lt o (get_or raw o 0) _ s)

  process_word-Ends : (o : ℕ) → o < length raw → Ends (λ r. o < r.1) (process_word unset raw o)
  unfolding process_word
  process_word-Ends o h =
      let word : (tag : Bytes) (n : ℕ) → 0 < n → Ends (λ r. o < r.1) (ok (leaf tag o n)) =
        λ tag n pos. ok-Ends _ (leaf tag o n) (omega arith) in
      let s = drop o raw in
      Ends-elim _ (starts_number (char_at unset raw o)) _ _
        (λ n. word _ (number_end o s - o) (omega (arith, number_end-raw o h n)))
        (λ _.
          Ends-elim _ (str_eq (take 4 s) (codes "true")) _ _ (λ _. word _ 4 (omega arith))
            (λ _.
              Ends-elim _ (str_eq (take 5 s) (codes "false")) _ _ (λ _. word _ 5 (omega arith))
                (λ _.
                  Ends-elim _ (str_eq (take 4 s) (codes "null")) _ _ (λ _. word _ 4 (omega arith))
                    (λ _. failed-Ends _ _))))

  mutual
    unfolding process_node

    process_node-Ends :
        (f o : ℕ)
        → o < length raw
        → length raw - o + (length raw - o) < f
        → Ends (λ r. o < r.1) (process_node unset raw f o)
    process_node-Ends zero o h e = absurd (omega arith)
    process_node-Ends (suc f) o h e =
        Ends-elim _ (char_at unset raw o == b'{') _ _
          (λ _.
            chain-Ends _ _ _ _ (process_object_node-Ends f (o + 1) (omega arith))
              (λ (kids, end) p. ok-Ends _ (_, end + 1) (omega arith)))
          (λ _.
            Ends-elim _ (char_at unset raw o == b'[') _ _
              (λ _.
                chain-Ends _ _ _ _ (process_array_node-Ends f (o + 1) (omega arith))
                  (λ (kids, end) p. ok-Ends _ (_, end + 1) (omega arith)))
              (λ _.
                Ends-elim _ (char_at unset raw o == b'"') _ _ (λ _. process_string_node-Ends o)
                  (λ _. process_word-Ends o h)))

    process_object_node-Ends :
        (f o : ℕ)
        → suc (length raw - o + (length raw - o)) < f
        → Ends (λ r. o ≤ r.1) (process_object_node unset raw f o)
    process_object_node-Ends zero o e = absurd (omega arith)
    process_object_node-Ends (suc f) o e =
        Ends-elim _ (ltb o (length raw)) _ _
          (λ _. chain-Ends _ _ _ _ (ignore_white_spaces-Ends o) (λ p hp.
            Ends-elim _ (char_at unset raw p == b'}') _ _ (λ _. ok-Ends _ (no_children, p) hp.0)
              (λ _.
                Ends-elim _ (char_at unset raw p == b'"') _ _
                  (λ _. chain-Ends _ _ _ _ (process_string_node-Ends p) (λ (name, q) hq.
                    chain-Ends _ _ _ _ (ignore_white_spaces-Ends q) (λ colon hc.
                      chain-Ends _ _ _ _ (expect_colon-Ends colon) (λ behind hb.
                        chain-Ends _ _ _ _ (ignore_white_spaces-Ends behind) (λ start hs.
                          chain-Ends _ _ _ _ (process_node-Ends f start hs.1 (omega arith))
                            (λ (value, end) hv. chain-Ends _ _ _ _ (name_of-Ends name) (λ tag ht.
                              chain-Ends _ _ _ _ (ignore_white_spaces-Ends end) (λ comma hk.
                                chain-Ends _ _ _ _ (separator-Ends b'}' bad_object comma)
                                  (λ next hn.
                                    chain-Ends _ _ _ _
                                      (process_object_node-Ends f next (omega arith))
                                      (λ (kids, close) hr.
                                        ok-Ends _ (_, close) (omega arith)))))))))))
                  (λ _. failed-Ends _ _))))
          (λ _. failed-Ends _ _)

    process_array_node-Ends :
        (f o : ℕ)
        → suc (length raw - o + (length raw - o)) < f
        → Ends (λ r. o ≤ r.1) (process_array_node unset raw f o)
    process_array_node-Ends zero o e = absurd (omega arith)
    process_array_node-Ends (suc f) o e =
        Ends-elim _ (ltb o (length raw)) _ _
          (λ _. chain-Ends _ _ _ _ (ignore_white_spaces-Ends o) (λ p hp.
            Ends-elim _ (char_at unset raw p == b']') _ _ (λ _. ok-Ends _ (no_children, p) hp.0)
              (λ _.
                chain-Ends _ _ _ _ (process_node-Ends f p hp.1 (omega arith)) (λ (value, end) hv.
                  chain-Ends _ _ _ _ (ignore_white_spaces-Ends end) (λ comma hk.
                    chain-Ends _ _ _ _ (separator-Ends b']' bad_array comma) (λ next hn.
                      chain-Ends _ _ _ _ (process_array_node-Ends f next (omega arith))
                        (λ (kids, close) hr. ok-Ends _ (_, close) (omega arith))))))))
          (λ _. failed-Ends _ _)

  process_raw_data-Ends : Ends (λ r. Unit) (process_raw_data unset raw)
  unfolding process_raw_data
  process_raw_data-Ends =
      chain-Ends (λ (o : ℕ). (0 ≤ o) × (o < length raw)) _ _ _ (ignore_white_spaces-Ends 0)
        (λ o h.
          chain-Ends _ _ _ _ (process_node-Ends (suc (length raw + length raw)) o h.1 (omega arith))
            (λ (root, end) p. ok-Ends _ root tt))

-- Whatever text the JSON parser is given, it comes to an end: it returns a tree or throws, and the fuel of
-- the model is never used up.
pub process_raw_data_ends : (unset : ℕ) (raw : Bytes) → process_raw_data unset raw ≢ out_of_fuel
unfolding Ends
process_raw_data_ends unset raw e = subst (Ends (λ _. Unit)) e (process_raw_data-Ends unset raw)
