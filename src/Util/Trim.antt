-- ===== src/Util/Trim.antt =====
-- Trimming in class Util of src/util.h: trim and trimAndRemoveQuotes.
use vpl_jail_system.Prelude.{
  ltb, ◌==◌, if◌then◌else◌, Bytes, length, get_or, take, drop, str_eq, ℕ, Bool, [], ◌-◌, ◌&&◌, ◌∷◌,
}

unfoldable pub trim_front : Bytes → Bytes
trim_front [] = []
trim_front (c ∷ s) = let rest = trim_front s in if c == b' ' then rest else c ∷ s

unfoldable pub trim_back : Bytes → Bytes
trim_back [] = []
trim_back (c ∷ s) = let rest = trim_back s in if c == b' ' && str_eq rest [] then [] else c ∷ rest

-- A text of two bytes or more that begins and ends with `q`.
unfoldable pub is_quoted : ℕ → Bytes → Bool
is_quoted q s = ltb 1 (length s) && (get_or s 0 0 == q && get_or s (length s - 1) 0 == q)

unfoldable pub remove_ends : Bytes → Bytes
remove_ends s = take (length s - 2) (drop 1 s)

unfoldable pub trim_and_remove_quotes : Bytes → Bytes
trim_and_remove_quotes s =
    let t = trim_back (trim_front s) in
    if is_quoted 0x27 t then remove_ends t else if is_quoted 0x22 t then remove_ends t else t
