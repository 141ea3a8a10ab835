-- ===== src/Jail/Paths.antt =====
-- The paths of mount points in src/jail.cpp: isOctalDigit, unescapeMountInfoPath and isPathUnderPrefix.
use vpl_jail_system.Prelude.{
  leb, ◌==◌, if◌then◌else◌, leb-false, ==_iff, Bool-cases, Bytes, length, get_or, take, drop,
  length-append, take-append-drop, take-append, str_eq, str_eq_iff, ℕ, zero, suc, refl, sym, ap,
  inl, inr, Bool, true, false, Option, none, some, [], arith, ◌+◌, ◌-◌, ◌*◌, ◌/◌, ◌%◌, ◌≤◌, ◌<◌,
  ◌≡◌, ◌∙◌, ◌≢◌, ◌↔◌, ◌⊎◌, ◌&&◌, ◌||◌, ◌∷◌, ◌++◌,
}

unfoldable pub is_octal_digit : ℕ → Bool
is_octal_digit c = leb b'0' c && leb c b'7'

-- The byte of three octal digits, as a char.
unfoldable pub octal_byte : ℕ → ℕ → ℕ → ℕ
octal_byte a b c = ((a - b'0') * 64 + (b - b'0') * 8 + (c - b'0')) % 256

-- The escape at the front: the byte that stands for it.
unfoldable pub escape_at : Bytes → Option ℕ
escape_at (s ∷ a ∷ b ∷ c ∷ more) =
    if s == 0x5c && (is_octal_digit a && (is_octal_digit b && is_octal_digit c))
    then some (octal_byte a b c)
    else none
escape_at _ = none

-- The loop, with the number of bytes as its fuel.
unfoldable pub unescape_loop : ℕ → Bytes → Bytes
unescape_loop zero s = []
unescape_loop (suc n) [] = []
unescape_loop (suc n) (c ∷ s) = elim (escape_at (c ∷ s)) [
  | some v ↦ v ∷ unescape_loop n (drop 3 s)
  | none ↦ c ∷ unescape_loop n s
]

unfoldable pub unescape_mount_info_path : Bytes → Bytes
unescape_mount_info_path s = unescape_loop (length s) s

unfoldable pub is_path_under_prefix : Bytes → Bytes → Bool
is_path_under_prefix path prefix =
    if str_eq path prefix
    then true
    else if leb (length path) (length prefix)
    then false
    else str_eq (take (length prefix) path) prefix && get_or path (length prefix) 0 == b'/'

-- What the kernel writes of a path into mountinfo: a space, a tab, a line feed and a backslash become
-- a backslash and three octal digits.
unfoldable pub mangled : ℕ → Bytes
mangled c =
    if c == 0x20 || (c == 0x09 || (c == 0x0a || c == 0x5c))
    then 0x5c ∷ (b'0' + c / 64) ∷ (b'0' + c / 8 % 8) ∷ (b'0' + c % 8) ∷ []
    else c ∷ []

unfoldable pub mangle : Bytes → Bytes
mangle [] = []
mangle (c ∷ s) = mangled c ++ mangle s

length-mangled : (c : ℕ) → 1 ≤ length (mangled c)
unfolding mangled
length-mangled c = ground arith

escape_at-plain : (c : ℕ) (s : Bytes) → c ≢ 0x5c → escape_at (c ∷ s) ≡ none
unfolding escape_at
escape_at-plain c [] h = refl
escape_at-plain c (a ∷ []) h = refl
escape_at-plain c (a ∷ b ∷ []) h = refl
escape_at-plain c (a ∷ b ∷ d ∷ s) h = ground arith

unescape-mangled :
    (c n : ℕ) (s : Bytes) → unescape_loop (suc n) (mangled c ++ s) ≡ c ∷ unescape_loop n s
unfolding mangled unescape_loop escape_at octal_byte is_octal_digit
unescape-mangled c n s = elim (Bool-cases (c == 0x20)) [
  | inl e ↦ rw ((==_iff c 0x20).0 e) refl
  | inr n1 ↦ elim (Bool-cases (c == 0x09)) [
    | inl e ↦ rw ((==_iff c 0x09).0 e) refl
    | inr n2 ↦ elim (Bool-cases (c == 0x0a)) [
      | inl e ↦ rw ((==_iff c 0x0a).0 e) refl
      | inr n3 ↦ elim (Bool-cases (c == 0x5c)) [
        | inl e ↦ rw ((==_iff c 0x5c).0 e) refl
        | inr n4 ↦ rw (n1, n2, n3, n4) (rw (unescape_loop, escape_at-plain c s (ground arith)) refl)
      ]
    ]
  ]
]

unescape-mangle : (s : Bytes) (n : ℕ) → length (mangle s) ≤ n → unescape_loop n (mangle s) ≡ s
unfolding mangle unescape_loop
unescape-mangle [] zero h = refl
unescape-mangle [] (suc n) h = refl
unescape-mangle (c ∷ s) zero h =
    absurd (omega (arith, length-append (mangled c) (mangle s), length-mangled c))
unescape-mangle (c ∷ s) (suc n) h =
    unescape-mangled c n (mangle s)
    ∙ ap (λ t. c ∷ t)
        (unescape-mangle s n
          (omega (arith, length-append (mangled c) (mangle s), length-mangled c)))

-- unescapeMountInfoPath gives back the path that the kernel has written, whatever bytes it has.
pub unescape_mount_info_path-mangle : (s : Bytes) → unescape_mount_info_path (mangle s) ≡ s
unfolding unescape_mount_info_path
unescape_mount_info_path-mangle s = unescape-mangle s (length (mangle s)) (omega arith)

drop-get_or : (i : ℕ) (s : Bytes) → i < length s → drop i s ≡ get_or s i 0 ∷ drop (suc i) s
drop-get_or i [] h = absurd (omega arith)
drop-get_or zero (c ∷ s) h = refl
drop-get_or (suc i) (c ∷ s) h = drop-get_or i s (omega arith)

get_or-behind : (s t : Bytes) (c : ℕ) → get_or (s ++ (c ∷ t)) (length s) 0 ≡ c
get_or-behind [] t c = refl
get_or-behind (x ∷ s) t c = get_or-behind s t c

under_append : (prefix s : Bytes) → is_path_under_prefix (prefix ++ (b'/' ∷ s)) prefix ≡ true
unfolding is_path_under_prefix
under_append prefix s =
    let longer =
      leb-false (length (prefix ++ (b'/' ∷ s))) (length prefix)
        (omega (arith, length-append prefix (b'/' ∷ s))) in
    elim (Bool-cases (str_eq (prefix ++ (b'/' ∷ s)) prefix)) [
      | inl e ↦ rw e refl
      | inr e ↦
          rw
            (
              e,
              longer,
              take-append prefix (b'/' ∷ s),
              get_or-behind prefix s b'/',
              (str_eq_iff prefix prefix).1 refl,
            )
            refl
    ]

-- A path is under a prefix exactly where it is the prefix, or the prefix with a slash and more behind
-- it: never where it only begins with the same letters.
pub is_path_under_prefix_iff :
    (path prefix : Bytes)
    → (is_path_under_prefix path prefix ≡ true)
      ↔ ((path ≡ prefix) ⊎ ((s : Bytes) × (path ≡ prefix ++ (b'/' ∷ s))))
unfolding is_path_under_prefix
is_path_under_prefix_iff path prefix = (to, from)
  where
    to :
        is_path_under_prefix path prefix ≡ true
        → (path ≡ prefix) ⊎ ((s : Bytes) × (path ≡ prefix ++ (b'/' ∷ s)))
    to h = elim (Bool-cases (str_eq path prefix)) [
      | inl e ↦ inl ((str_eq_iff path prefix).0 e)
      | inr e ↦
          let n = length prefix in
          let front = (str_eq_iff (take n path) prefix).0 (ground arith) in
          let slash : get_or path n 0 ≡ b'/' = ground arith in
          let longer : n < length path = ground arith in
          inr (
            drop (suc n) path,
            sym (take-append-drop n path)
                ∙ ap (λ t. t ++ drop n path) front
                ∙ ap (λ t. prefix ++ t)
                    (drop-get_or n path longer ∙ ap (λ c. c ∷ drop (suc n) path) slash),
          )
    ]

    from :
        (path ≡ prefix) ⊎ ((s : Bytes) × (path ≡ prefix ++ (b'/' ∷ s)))
        → is_path_under_prefix path prefix ≡ true
    from (inl e) = rw ((str_eq_iff path prefix).1 e) refl
    from (inr (s, e)) = rw e (under_append prefix s)
