-- ===== src/Configuration.antt =====
-- class ConfigurationFile of src/configurationFile.cpp: files of lines KEY=value, whose regular
-- expressions take the longest match, and of those the one with the longest key. A text is
-- taken to hold no byte 0, at which the matching of a pattern ends.
pub mod Lines
pub mod Files
use vpl_jail_system.Prelude.{
  ◌==◌, if◌then◌else◌, Bytes, codes, str_eq, ℕ, Bool, true, false, Option, none, some, List, [],
  ◌||◌, ◌∷◌, ◌++◌,
}
use vpl_jail_system.Prelude.Maps.{bytes_eq, nat_eq, Map, lookup, insert}
use vpl_jail_system.Util.Trim.{trim_and_remove_quotes}
use vpl_jail_system.Jail.Access.{to_uppercase}

abbrev pub is_blank : ℕ → Bool
is_blank c = c == b' ' || c == 9

unfoldable pub skip_blanks : Bytes → Bytes
skip_blanks [] = []
skip_blanks (c ∷ s) = let rest = skip_blanks s in if is_blank c then rest else c ∷ s

-- The bytes up to a blank, and what begins there.
unfoldable pub span_word : Bytes → Bytes × Bytes
span_word [] = ([], [])
span_word (c ∷ s) = let r = span_word s in if is_blank c then ([], c ∷ s) else (c ∷ r.0, r.1)

-- The word before its last `=`, and what follows that.
unfoldable pub split_last : Bytes → Option (Bytes × Bytes)
split_last [] = none
split_last (c ∷ s) = elim (split_last s) [
  | some (a, b) ↦ some (c ∷ a, b)
  | none ↦ if c == b'=' then some ([], s) else none
]

-- The value: `[ \t]*([^#]*)`.
unfoldable pub up_to_hash : Bytes → Bytes
up_to_hash [] = []
up_to_hash (c ∷ s) = let rest = up_to_hash s in if c == b'#' then [] else c ∷ rest

unfoldable pub value_text : Bytes → Bytes
value_text s = up_to_hash (skip_blanks s)

-- A `=` behind the blanks that follow the word.
unfoldable pub behind_equals : Bytes → Option Bytes
behind_equals [] = none
behind_equals (c ∷ s) = if c == b'=' then some s else none

-- `^[ \t]*([^ \t]+)[ \t]*=[ \t]*([^#]*)`: the key and the value.
unfoldable pub key_and_value : Bytes → Option (Bytes × Bytes)
key_and_value line =
    let (word, rest) = span_word (skip_blanks line) in
    elim (behind_equals (skip_blanks rest)) [
      | some value ↦ if str_eq word [] then none else some (word, value_text value)
      | none ↦ elim (split_last word) [
        | none ↦ none
        | some (key, more) ↦ if str_eq key [] then none else some (key, value_text (more ++ rest))
      ]
    ]

-- `^[ \t]*(#.*)?$`.
unfoldable pub is_comment : Bytes → Bool
is_comment line = elim (skip_blanks line) [ [] ↦ true | c ∷ s ↦ c == b'#' ]

-- parseConfigLine; `none` is the exception.
unfoldable pub parse_config_line : Map Bytes Bytes → Bytes → Option (Map Bytes Bytes)
parse_config_line config line = if is_comment line then some config else elim (key_and_value line) [
  | none ↦ none
  | some (key, value) ↦ some (insert (to_uppercase key) (trim_and_remove_quotes value) config)
]

-- The lines that getline reads.
unfoldable pub lines_of : Bytes → List Bytes
lines_of [] = []
lines_of (c ∷ s) = elim (c == 10) [
  | true ↦ [] ∷ lines_of s
  | false ↦ elim (lines_of s) [ [] ↦ (c ∷ []) ∷ [] | l ∷ ls ↦ (c ∷ l) ∷ ls ]
]

unfoldable pub parse_lines : Map Bytes Bytes → List Bytes → Option (Map Bytes Bytes)
parse_lines config [] = some config
parse_lines config (l ∷ ls) = elim (parse_config_line config l) [
  | none ↦ none
  | some more ↦ parse_lines more ls
]

-- The defaults, for the keys that are missing.
unfoldable pub add_defaults : Map Bytes Bytes → Map Bytes Bytes → Map Bytes Bytes
add_defaults [] config = config
add_defaults ((key, value) ∷ more) config =
    let param = to_uppercase key in
    add_defaults more
      (elim (lookup param config) [ none ↦ insert param value config | some v ↦ config ])

-- readConfiguration, on the text of the file.
unfoldable pub read_configuration : Map Bytes Bytes → Bytes → Option (Map Bytes Bytes)
read_configuration defaults text = elim (parse_lines [] (lines_of text)) [
  | none ↦ none
  | some config ↦ some (add_defaults defaults config)
]

unfoldable pub written_lines : Map Bytes Bytes → Bytes
written_lines [] = []
written_lines ((key, value) ∷ more) =
    (key ++ codes "=") ++ value ++ codes "\n" ++ written_lines more

-- writeConfiguration: the text of the file, for entries in the order of the map.
unfoldable pub write_configuration : Map Bytes Bytes → Bytes
write_configuration config =
    codes "#Autogenerated Config file of VPL \n"
    ++ written_lines config
    ++ codes "#End Config file of VPL \n"
