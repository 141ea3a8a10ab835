-- ===== src/Utf8/Spec.antt =====
-- RFC 3629, independently of the code: the scalar values and the bytes that encode each.
use vpl_jail_system.Prelude.{
  ℕ, ◌+◌, ◌/◌, ◌%◌, ◌≤◌, ◌<◌, ◌⊎◌, ◌≡◌, refl, List, [], ◌∷◌, ◌++◌, Bytes, All, ltb, if◌then◌else◌,
}

-- A code point that is no surrogate.
abbrev pub IsScalar : ℕ → Type 0
IsScalar c = (c < 0xd800) ⊎ ((0xe000 ≤ c) × (c ≤ 0x10ffff))

unfoldable pub utf8 : ℕ → Bytes
utf8 c =
    if ltb c 0x80
    then c ∷ []
    else if ltb c 0x800
    then (0xc0 + c / 64) ∷ (0x80 + c % 64) ∷ []
    else if ltb c 0x10000
    then (0xe0 + c / 4096) ∷ (0x80 + c / 64 % 64) ∷ (0x80 + c % 64) ∷ []
    else (0xf0 + c / 262144) ∷ (0x80 + c / 4096 % 64) ∷ (0x80 + c / 64 % 64) ∷ (0x80 + c % 64) ∷ []

unfoldable pub utf8_text : List ℕ → Bytes
utf8_text [] = []
utf8_text (c ∷ cs) = utf8 c ++ utf8_text cs

-- A list of scalar values, and the bytes that encode it.
abbrev pub Text : Bytes → Type 0
Text s = (cs : List ℕ) × All IsScalar cs × (s ≡ utf8_text cs)

pub Text-nil : Text []
unfolding utf8_text
Text-nil = ([], tt, refl)

pub Text-cons : (c : ℕ) (head s : Bytes) → IsScalar c → head ≡ utf8 c → Text s → Text (head ++ s)
unfolding utf8_text
Text-cons c head s sc e t = (c ∷ t.0, (sc, t.1), rw (e, t.2))
