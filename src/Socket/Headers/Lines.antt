-- ===== src/Socket/Headers/Lines.antt =====
-- The lines of a request as a client of src/socket.cpp prints them, and what getLine, regRequestLine and
-- regHeader read from one.
use vpl_jail_system.Prelude.{
  ◌==◌, Bytes, All, All-append, ℕ, refl, ap, Bool, true, false, some, List, [], arith, ◌≡◌, ◌||◌,
  ◌∷◌, ◌++◌,
}
use vpl_jail_system.Prelude.Maps.{bytes_eq, nat_eq}
use vpl_jail_system.Socket.Headers.{
  span_line, has_newline, drop_cr, get_line, span_until, c_str, is_space_byte, word_and_space,
  request_line, is_blank, skip_blanks_of, ends_field, header_line,
}

abbrev pub crlf : Bytes
crlf = 13 ∷ 10 ∷ []

abbrev pub Headers : Type 0
Headers = List (Bytes × Bytes)

unfoldable pub print_headers : Headers → Bytes
print_headers [] = crlf
print_headers ((n, v) ∷ hs) = (n ++ (b':' ∷ b' ' ∷ v)) ++ (13 ∷ 10 ∷ print_headers hs)

-- `span_until` passes a text that holds no byte to stop at.
abbrev pub Passes : (ℕ → Bool) → Bytes → Type 0
Passes stop s = All (λ c. stop c ≡ false) s

pub span_until-append :
    (stop : ℕ → Bool) (s : Bytes) (c : ℕ) (t : Bytes)
    → Passes stop s
    → stop c ≡ true
    → span_until stop (s ++ (c ∷ t)) ≡ (s, c ∷ t)
unfolding span_until
span_until-append stop [] c t p e = rw e refl
span_until-append stop (d ∷ s) c t p e = rw (p.0, span_until-append stop s c t p.1 e) refl

pub span_until-all : (stop : ℕ → Bool) (s : Bytes) → Passes stop s → span_until stop s ≡ (s, [])
unfolding span_until
span_until-all stop [] p = refl
span_until-all stop (d ∷ s) p = rw (p.0, span_until) (rw (span_until-all stop s p.1) refl)

or_left : (a b : Bool) → (a || b) ≡ false → a ≡ false
or_left a b h = ground arith

or_right : (a b : Bool) → (a || b) ≡ false → b ≡ false
or_right a b h = ground arith

-- A text without a newline or a byte 0.
abbrev pub IsLine : Bytes → Type 0
IsLine s = Passes (λ c. c == 10 || c == 0) s

no_newline : (s : Bytes) → IsLine s → Passes (λ c. c == 10) s
no_newline [] p = tt
no_newline (c ∷ s) p = (or_left _ _ p.0, no_newline s p.1)

no_zero : (s : Bytes) → IsLine s → Passes (λ c. c == 0) s
no_zero [] p = tt
no_zero (c ∷ s) p = (or_right _ _ p.0, no_zero s p.1)

pub c_str-IsLine : (s : Bytes) → IsLine s → c_str s ≡ s
unfolding c_str
c_str-IsLine s p = ap (λ (r : Bytes × Bytes). r.0) (span_until-all (λ c. c == 0) s (no_zero s p))

pub span_line-append :
    (s t : Bytes) → Passes (λ c. c == 10) s → span_line (s ++ (13 ∷ 10 ∷ t)) ≡ (s ++ (13 ∷ []), t)
unfolding span_line
span_line-append [] t p = refl
span_line-append (c ∷ s) t p = rw (p.0, span_line) (rw (span_line-append s t p.1) refl)

pub has_newline-append :
    (s t : Bytes) → Passes (λ c. c == 10) s → has_newline (s ++ (13 ∷ 10 ∷ t)) ≡ true
unfolding has_newline
has_newline-append [] t p = refl
has_newline-append (c ∷ s) t p = rw (p.0, has_newline) (has_newline-append s t p.1)

pub drop_cr-append : (s : Bytes) → drop_cr (s ++ (13 ∷ [])) ≡ s
unfolding drop_cr
drop_cr-append [] = refl
drop_cr-append (c ∷ []) = refl
drop_cr-append (c ∷ d ∷ s) = ap (λ u. c ∷ u) (drop_cr-append (d ∷ s))

pub get_line-append : (s t : Bytes) → IsLine s → get_line (s ++ (13 ∷ 10 ∷ t)) ≡ (s, t)
unfolding get_line
get_line-append s t p =
    rw
      (
        has_newline-append s t (no_newline s p),
        span_line-append s t (no_newline s p),
        drop_cr-append s,
      )
      refl

-- The name of a header, without blanks and colons, and its value, which starts with no blank.
abbrev pub IsField : Bytes → Type 0
IsField [] = ⊥
IsField (c ∷ s) = Passes ends_field (c ∷ s) × IsLine (c ∷ s)

abbrev pub IsContent : Bytes → Type 0
IsContent [] = Unit
IsContent (c ∷ s) = (is_blank c ≡ false) × IsLine (c ∷ s)

pub skip_blanks_of-content : (v : Bytes) → IsContent v → skip_blanks_of (b' ' ∷ v) ≡ v
unfolding skip_blanks_of
skip_blanks_of-content [] q = refl
skip_blanks_of-content (c ∷ s) q = rw (q.0, skip_blanks_of) refl

pub header_line-print :
    (n v : Bytes) → IsField n → IsContent v → header_line (n ++ (b':' ∷ b' ' ∷ v)) ≡ some (n, v)
unfolding header_line skip_blanks_of
header_line-print [] v p q = absurd p
header_line-print (c ∷ s) v p q =
    let first : is_blank c ≡ false = or_left _ _ (p.0.0) in
    let field = span_until-append ends_field (c ∷ s) b':' (b' ' ∷ v) (p.0) refl in
    let content = skip_blanks_of-content v q in
    rw (first, skip_blanks_of) (rw field (rw content refl))

-- A part of the request line.
abbrev pub IsWord : Bytes → Type 0
IsWord [] = ⊥
IsWord (c ∷ s) = Passes is_space_byte (c ∷ s) × IsLine (c ∷ s)

pub word_and_space-append :
    (w t : Bytes) → IsWord w → word_and_space (w ++ (b' ' ∷ t)) ≡ some (w, t)
unfolding word_and_space
word_and_space-append [] t p = absurd p
word_and_space-append (c ∷ s) t p =
    let e = span_until-append is_space_byte (c ∷ s) b' ' t (p.0) refl in
    rw (e, word_and_space) (rw e refl)

abbrev pub print_line : Bytes → Bytes → Bytes → Bytes
print_line m u v = m ++ (b' ' ∷ (u ++ (b' ' ∷ v)))

pub request_line-print :
    (m u v : Bytes)
    → IsWord m
    → IsWord u
    → IsWord v
    → request_line (print_line m u v) ≡ some (m, u, v)
unfolding request_line
request_line-print m u [] hm hu hv = absurd hv
request_line-print m u (c ∷ s) hm hu hv =
    rw (word_and_space-append m (u ++ (b' ' ∷ c ∷ s)) hm, request_line)
      (rw (word_and_space-append u (c ∷ s) hu)
        (rw (span_until-all is_space_byte (c ∷ s) (hv.0)) refl))

pub IsLine-word : (w : Bytes) → IsWord w → IsLine w
IsLine-word [] h = absurd h
IsLine-word (c ∷ s) h = h.1

pub IsLine-print_line : (m u v : Bytes) → IsWord m → IsWord u → IsWord v → IsLine (print_line m u v)
IsLine-print_line m u v hm hu hv =
    let behind = All-append _ u (b' ' ∷ v) (IsLine-word u hu) (refl, IsLine-word v hv) in
    All-append _ m (b' ' ∷ (u ++ (b' ' ∷ v))) (IsLine-word m hm) (refl, behind)
