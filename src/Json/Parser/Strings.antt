-- ===== src/Json/Parser/Strings.antt =====
-- processStringNode of src/json.h on what encodeJSONString has written.
use vpl_jail_system.Message.{TreeNode, tree_node, no_children, ok}
use vpl_jail_system.Prelude.{
  leb, ◌==◌, le→leb, Bytes, codes, length, drop, length-append, length-drop, drop_past, ℕ, suc,
  refl, sym, ap, true, false, some, [], append_assoc, arith, ◌+◌, ◌-◌, ◌/◌, ◌%◌, ◌≡◌, ◌∙◌, ◌∷◌,
  ◌++◌,
}
use vpl_jail_system.Prelude.Cstd.{hex_digit}
use vpl_jail_system.Json.{escaped, encode_json_string, simple_escape, decode_json_string}
use vpl_jail_system.Json.RoundTrip.{ByteForm, itself, short, hex, byte_form, decode_encoded}
use vpl_jail_system.Json.Parser.{escape_length, string_end, get_string, process_string_node}
use vpl_jail_system.Json.Printed.{quoted}

simple_escape_u : (c next : ℕ) → simple_escape next ≡ some c → (next == b'u') ≡ false
unfolding simple_escape
simple_escape_u c next h = ground arith

-- One escaped byte is one round of the loop, or the two of an escape.
string_end-escaped :
    (c o : ℕ) (s : Bytes)
    → ByteForm c
    → string_end 0 o (escaped c ++ s) ≡ string_end 0 (o + length (escaped c)) s
unfolding string_end escape_length
string_end-escaped c o s (itself p q w) = rw w (ground arith)
string_end-escaped c o s (short next p w) =
    let u = simple_escape_u c next p in let e : o + 1 + 1 ≡ o + 2 = omega arith in rw (w, u, e) refl
string_end-escaped c o s (hex p w) =
    let e : o + 1 + 1 + 1 + 1 + 1 + 1 ≡ o + 6 = omega arith in
    let fits : leb 4 (length (b'0' ∷ b'0' ∷ hex_digit (c / 16 % 16) ∷ hex_digit (c % 16) ∷ s))
        ≡ true =
      le→leb _ _ (omega arith) in
    rw (w, fits) (ap (λ t. string_end 0 t s) e)

string_end-encode_json_string :
    (t : Bytes) (o : ℕ) (s : Bytes)
    → string_end 0 o (encode_json_string t ++ (b'"' ∷ s)) ≡ ok (o + length (encode_json_string t))
unfolding encode_json_string string_end
string_end-encode_json_string [] o s = ap ok (omega arith)
string_end-encode_json_string (c ∷ t) o s = rw append_assoc (
    string_end-escaped c o _ (byte_form c)
    ∙ string_end-encode_json_string t (o + length (escaped c)) s
    ∙ ap ok (omega (arith, length-append (escaped c) (encode_json_string t))))

pub quoted_at : (t s : Bytes) → quoted t ++ s ≡ b'"' ∷ (encode_json_string t ++ (b'"' ∷ s))
unfolding quoted
quoted_at t s = ap (λ u. b'"' ∷ u) (append_assoc (encode_json_string t) (b'"' ∷ []) s)

module _ (unset : ℕ) (raw : Bytes) where
  abbrev pub string_at : ℕ → Bytes → TreeNode
  string_at o t = tree_node (codes "string") o (length (encode_json_string t)) no_children

  pub process_string_node-quoted :
      (o p : ℕ) (t s : Bytes)
      → drop o raw ≡ quoted t ++ s
      → p ≡ o + length (quoted t)
      → process_string_node unset raw o ≡ ok (string_at (o + 1) t, p)
  unfolding process_string_node quoted
  process_string_node-quoted o p t s h e =
      let n = length (encode_json_string t) in
      let l : length (encode_json_string t ++ (b'"' ∷ [])) ≡ n + 1 =
        length-append (encode_json_string t) (b'"' ∷ []) in
      let behind : drop (o + 1) raw ≡ encode_json_string t ++ (b'"' ∷ s) =
        drop_past raw o (b'"' ∷ []) _ (h ∙ quoted_at t s) in
      let a : o + 1 + n - (o + 1) ≡ n = omega arith in
      let b : o + 1 + n + 1 ≡ p = omega (arith, l) in
      rw (behind, string_end-encode_json_string t (o + 1) s, a, b) refl

  pub get_string-string_at :
      (o : ℕ) (t s : Bytes)
      → drop o raw ≡ encode_json_string t ++ (b'"' ∷ s)
      → get_string unset raw (string_at o t) ≡ some t
  unfolding get_string decode_json_string
  get_string-string_at o t s h =
      let n = length (encode_json_string t) in
      let l : length raw - o ≡ n + suc (length s) =
        sym (length-drop o raw) ∙ ap length h ∙ length-append (encode_json_string t) (b'"' ∷ s) in
      let fits : leb (o + n) (length raw) ≡ true = le→leb _ _ (omega arith) in
      rw (fits, h) (decode_encoded unset t (b'"' ∷ s) n (omega arith))
