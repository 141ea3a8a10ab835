-- ===== src/Configuration/Files.antt =====
-- A configuration file of src/configurationFile.cpp that is written and read back.
use vpl_jail_system.Prelude.{
  ◌==◌, Bytes, codes, All, All-append, ℕ, refl, ap, false, some, [], append_assoc, arith, ◌≡◌, ◌∙◌,
  ◌≢◌, ◌∷◌, ◌++◌,
}
use vpl_jail_system.Prelude.Maps.{bytes_eq, nat_eq, Map, insert}
use vpl_jail_system.Configuration.{
  skip_blanks, is_comment, parse_config_line, lines_of, parse_lines, add_defaults,
  read_configuration, written_lines, write_configuration,
}
use vpl_jail_system.Configuration.Lines.{IsPlain, parse_config_line-plain}

unfoldable pub IsLine : Bytes → Type 0
IsLine = All (λ (c : ℕ). c ≢ 10)

-- Each entry is plain, and has no line end.
unfoldable pub ArePlain : Map Bytes Bytes → Type 0
ArePlain [] = Unit
ArePlain ((key, value) ∷ more) = (IsPlain key value × IsLine key × IsLine value) × ArePlain more

-- The entries, stored one after the other.
unfoldable pub stored : Map Bytes Bytes → Map Bytes Bytes → Map Bytes Bytes
stored [] config = config
stored ((key, value) ∷ more) config = stored more (insert key value config)

lines_of-append :
    (line more : Bytes) → IsLine line → lines_of (line ++ (10 ∷ more)) ≡ line ∷ lines_of more
unfolding lines_of IsLine
lines_of-append [] more h = refl
lines_of-append (c ∷ line) more h =
    let other : (c == 10) ≡ false = ground arith in
    rw (lines_of, other, lines_of-append line more h.1) refl

entry_text :
    (key value more last : Bytes)
    → ((key ++ codes "=") ++ value ++ codes "\n" ++ more) ++ last
      ≡ (key ++ (b'=' ∷ value)) ++ (10 ∷ (more ++ last))
entry_text key value more last = simp append_assoc refl

IsLine-entry : (key value : Bytes) → IsLine key → IsLine value → IsLine (key ++ (b'=' ∷ value))
unfolding IsLine
IsLine-entry key value k v =
    All-append (λ (c : ℕ). c ≢ 10) key (b'=' ∷ value) k ((λ e. absurd (omega arith)), v)

parse_lines-written :
    (m config : Map Bytes Bytes) (last : Bytes)
    → ArePlain m
    → parse_lines config (lines_of (written_lines m ++ last))
      ≡ parse_lines (stored m config) (lines_of last)
unfolding written_lines stored ArePlain parse_lines
parse_lines-written [] config last h = refl
parse_lines-written ((key, value) ∷ more) config last h =
    let (plain, k, v) = h.0 in
    let text = written_lines more ++ last in
    let line = key ++ (b'=' ∷ value) in
    let step : parse_lines config (line ∷ lines_of text)
        ≡ parse_lines (insert key value config) (lines_of text) =
      rw (parse_lines, parse_config_line-plain config key value plain) refl in
    ap (λ t. parse_lines config (lines_of t)) (entry_text key value (written_lines more) last)
    ∙ ap (parse_lines config) (lines_of-append line text (IsLine-entry key value k v))
    ∙ step
    ∙ parse_lines-written more (insert key value config) last h.1

-- What writeConfiguration writes of plain entries, readConfiguration reads without an exception, and
-- with no defaults it gives the entries, stored in the same order. No text is to hold a byte 0, at which the
-- matching of the pattern ends.
pub read-write_configuration :
    (m : Map Bytes Bytes)
    → ArePlain m
    → read_configuration [] (write_configuration m) ≡ some (stored m [])
unfolding read_configuration write_configuration add_defaults lines_of parse_lines parse_config_line
    is_comment skip_blanks
read-write_configuration m h =
    let last = codes "#End Config file of VPL \n" in
    let text : Bytes = write_configuration m in
    let all : parse_lines [] (lines_of text) ≡ some (stored m []) =
      parse_lines-written m [] last h in
    rw (read_configuration, all) refl
