-- ===== src/Configuration/Lines.antt =====
-- What parseConfigLine of src/configurationFile.cpp reads of a line that writeConfiguration wrote.
use vpl_jail_system.Prelude.{
  Bool-cases, Bytes, All, All-append_split, str_eq, ℕ, refl, sym, ap, subst, inl, inr, false, none,
  some, [], arith, ◌≡◌, ◌∙◌, ◌≢◌, ◌∷◌, ◌++◌,
}
use vpl_jail_system.Prelude.Maps.{bytes_eq, nat_eq, Map, insert}
use vpl_jail_system.Util.Trim.{trim_and_remove_quotes}
use vpl_jail_system.Jail.Access.{to_uppercase}
use vpl_jail_system.Configuration.{
  is_blank, skip_blanks, span_word, split_last, up_to_hash, value_text, behind_equals,
  key_and_value, is_comment, parse_config_line,
}

-- No blank, no `#`.
unfoldable pub IsKeyByte : ℕ → Type 0
IsKeyByte c = (is_blank c ≡ false) × (c ≢ b'#')

-- No `=`, no `#`.
unfoldable pub IsValueByte : ℕ → Type 0
IsValueByte c = (c ≢ b'=') × (c ≢ b'#')

-- A key that is written as it is read, and a value that neither begins with a blank nor ends with a
-- space nor stands in quotes.
pub record IsPlain (key value : Bytes) : Type 0 where
  pub some_key : key ≢ []
  pub key_bytes : All IsKeyByte key
  pub upper : to_uppercase key ≡ key
  pub value_bytes : All IsValueByte value
  pub no_blanks : skip_blanks value ≡ value
  pub no_quotes : trim_and_remove_quotes value ≡ value

span_word-append :
    (key value : Bytes)
    → All IsKeyByte key
    → span_word (key ++ (b'=' ∷ value)) ≡ (key ++ (b'=' ∷ (span_word value).0), (span_word value).1)
unfolding span_word IsKeyByte
span_word-append [] value h = refl
span_word-append (c ∷ key) value h = rw (h.0.0, span_word-append key value h.1) refl

span_word-join : (s : Bytes) → (span_word s).0 ++ (span_word s).1 ≡ s
unfolding span_word
span_word-join [] = refl
span_word-join (c ∷ s) = elim (Bool-cases (is_blank c)) [
  | inl e ↦ rw e refl
  | inr e ↦ rw e (ap (λ t. c ∷ t) (span_word-join s))
]

split_last-none : (s : Bytes) → All IsValueByte s → split_last s ≡ none
unfolding split_last IsValueByte
split_last-none [] h = refl
split_last-none (c ∷ s) h = rw (split_last, split_last-none s h.1) (ground (arith, h.0.0))

split_last-append :
    (key s : Bytes) → All IsValueByte s → split_last (key ++ (b'=' ∷ s)) ≡ some (key, s)
unfolding split_last
split_last-append [] s h = rw (split_last, split_last-none s h) refl
split_last-append (c ∷ key) s h = rw (split_last, split_last-append key s h) refl

up_to_hash-plain : (s : Bytes) → All IsValueByte s → up_to_hash s ≡ s
unfolding up_to_hash IsValueByte
up_to_hash-plain [] h = refl
up_to_hash-plain (c ∷ s) h = let rest = up_to_hash-plain s h.1 in ground (arith, h.0.1)

no_equals : (s : Bytes) → All IsValueByte s → behind_equals (skip_blanks s) ≡ none
unfolding behind_equals skip_blanks IsValueByte
no_equals [] h = refl
no_equals (c ∷ s) h = elim (Bool-cases (is_blank c)) [
  | inl e ↦ rw e (no_equals s h.1)
  | inr e ↦ rw e (ground (arith, h.0.0))
]

skip-key :
    (key more : Bytes) → key ≢ [] → All IsKeyByte key → skip_blanks (key ++ more) ≡ key ++ more
unfolding skip_blanks IsKeyByte
skip-key [] more ne h = absurd (ne refl)
skip-key (c ∷ key) more ne h = rw h.0.0 refl

not_empty : (key : Bytes) → key ≢ [] → str_eq key [] ≡ false
not_empty [] ne = absurd (ne refl)
not_empty (c ∷ key) ne = refl

key_and_value-plain :
    (key value : Bytes)
    → IsPlain key value
    → key_and_value (key ++ (b'=' ∷ value)) ≡ some (key, value)
unfolding key_and_value value_text
key_and_value-plain key value p =
    let word = (span_word value).0 in
    let rest = (span_word value).1 in
    let parts =
      All-append_split IsValueByte word rest
        (subst (All IsValueByte) (sym (span_word-join value)) p.value_bytes) in
    let parsed : span_word (skip_blanks (key ++ (b'=' ∷ value))) ≡ (key ++ (b'=' ∷ word), rest) =
      ap span_word (skip-key key (b'=' ∷ value) p.some_key p.key_bytes)
      ∙ span_word-append key value p.key_bytes in
    rw (key_and_value, parsed)
      (rw (no_equals rest parts.1) (
        rw (parsed) (
          rw (split_last-append key word parts.0) (
            rw (parsed, not_empty key p.some_key)
              (rw (span_word-join value, p.no_blanks)
                (ap (λ (v : Bytes). some (key, v)) (up_to_hash-plain value p.value_bytes)))))))

no_comment : (key more : Bytes) → key ≢ [] → All IsKeyByte key → is_comment (key ++ more) ≡ false
unfolding is_comment IsKeyByte
no_comment [] more ne h = absurd (ne refl)
no_comment (c ∷ key) more ne h =
    rw (is_comment, skip-key (c ∷ key) more ne h) (ground (arith, h.0.1))

-- A line of a plain key and a plain value, as writeConfiguration writes it, is read as that entry. A
-- key is plain when it is written in upper case, without blanks and without #; a value when it has
-- neither = nor # and trimAndRemoveQuotes and the blanks of the pattern take nothing from it.
pub parse_config_line-plain :
    (config : Map Bytes Bytes) (key value : Bytes)
    → IsPlain key value
    → parse_config_line config (key ++ (b'=' ∷ value)) ≡ some (insert key value config)
unfolding parse_config_line
parse_config_line-plain config key value p =
    rw (no_comment key (b'=' ∷ value) p.some_key p.key_bytes)
      (rw (key_and_value-plain key value p) (rw (p.upper, p.no_quotes) refl))
