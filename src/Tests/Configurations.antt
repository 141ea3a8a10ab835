-- ===== src/Tests/Configurations.antt =====
-- Configuration files of src/configurationFile.cpp at concrete inputs.
use vpl_jail_system.Prelude.{Bytes, codes, refl, some, [], arith, ◌≡◌, ◌∷◌}
use vpl_jail_system.Prelude.Maps.{bytes_eq, nat_eq, Map, insert}
use vpl_jail_system.Util.Trim.{trim_front, trim_back, is_quoted, trim_and_remove_quotes}
use vpl_jail_system.Jail.Access.{to_upper, to_uppercase}
use vpl_jail_system.Configuration.{
  skip_blanks, span_word, split_last, up_to_hash, value_text, behind_equals, key_and_value,
  is_comment, parse_config_line, read_configuration, write_configuration,
}
use vpl_jail_system.Configuration.Lines.{IsKeyByte, IsValueByte}
use vpl_jail_system.Configuration.Files.{IsLine, ArePlain, stored, read-write_configuration}

abbrev entries : Map Bytes Bytes
entries = (codes "LANG", codes "es ES") ∷ []

entries-ArePlain : ArePlain entries
unfolding ArePlain IsLine IsKeyByte IsValueByte to_uppercase to_upper skip_blanks
    trim_and_remove_quotes trim_front trim_back is_quoted
entries-ArePlain = (
  (
    record {
      some_key = λ e. cc;
      key_bytes = ground arith;
      upper = refl;
      value_bytes = ground arith;
      no_blanks = refl;
      no_quotes = refl;
    },
    ground arith,
    ground arith,
  ),
  tt,
)

read-write_configuration_example :
    read_configuration [] (write_configuration entries) ≡ some (stored entries [])
read-write_configuration_example = read-write_configuration entries entries-ArePlain

-- A value with `=` moves into the key.
test_equals :
    parse_config_line [] (codes "LOCALWEBSERVER=h?a=1")
    ≡ some ((codes "LOCALWEBSERVER=H?A", codes "1") ∷ [])
unfolding parse_config_line is_comment skip_blanks key_and_value span_word behind_equals split_last
    value_text up_to_hash to_uppercase to_upper trim_and_remove_quotes trim_front trim_back
    is_quoted insert
test_equals = refl
