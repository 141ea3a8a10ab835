-- ===== src/Socket/Headers/Fuel.antt =====
-- The fuel of the loop of Socket::processHeaders of src/socket.cpp: more than the length of the text makes no
-- difference.
use vpl_jail_system.Prelude.{
  Bytes, length, ℕ, zero, suc, refl, sym, ap, Option, none, some, [], arith, ◌+◌, ◌≤◌, ◌≡◌, ◌∙◌,
  ◌∷◌,
}
use vpl_jail_system.Socket.Headers.{
  span_line, has_newline, get_line, HttpHeader, parse_header, header_loop,
}

length-span_line : (c : ℕ) (s : Bytes) → length (span_line (c ∷ s)).1 ≤ length s
unfolding span_line
length-span_line c [] = ground arith
length-span_line c (d ∷ s) = let ih = length-span_line d s in ground arith

length-get_line : (c : ℕ) (s : Bytes) → length (get_line (c ∷ s)).1 ≤ length s
unfolding get_line
length-get_line c s = length-span_line c s

-- A round of the loop, with what is done behind it.
abbrev round : Bytes → HttpHeader → (HttpHeader → Option HttpHeader) → Option HttpHeader
round line h next = elim line [
  | [] ↦ some h
  | c ∷ rest ↦ elim (parse_header (c ∷ rest) h) [ none ↦ none | some h' ↦ next h' ]
]

header_loop-round :
    (fuel : ℕ) (s : Bytes) (h : HttpHeader)
    → header_loop (suc fuel) s h ≡ round (get_line s).0 h (λ h'. header_loop fuel (get_line s).1 h')
unfolding header_loop
header_loop-round fuel s h = refl

header_loop-more :
    (fuel : ℕ) (s : Bytes) (h : HttpHeader)
    → length s ≤ fuel
    → header_loop (suc fuel) s h ≡ header_loop fuel s h
unfolding header_loop get_line span_line has_newline
header_loop-more zero [] h l = refl
header_loop-more zero (c ∷ s) h l = absurd (omega arith)
header_loop-more (suc fuel) [] h l = refl
header_loop-more (suc fuel) (c ∷ s) h l =
    let shorter = length-get_line c s in
    let rest = (get_line (c ∷ s)).1 in
    let same : (h' : HttpHeader) → header_loop (suc fuel) rest h' ≡ header_loop fuel rest h' =
      λ h'. header_loop-more fuel rest h' (omega arith) in
    header_loop-round (suc fuel) (c ∷ s) h
    ∙ (λ i. round (get_line (c ∷ s)).0 h (λ h'. same h' i))
    ∙ sym (header_loop-round fuel (c ∷ s) h)

-- With any more fuel than the length of the text, the loop gives what it gives with that length.
header_loop-enough :
    (more fuel : ℕ) (s : Bytes) (h : HttpHeader)
    → fuel ≡ more + length s
    → header_loop fuel s h ≡ header_loop (length s) s h
header_loop-enough zero fuel s h e =
    let e' : fuel ≡ length s = omega arith in ap (λ k. header_loop k s h) e'
header_loop-enough (suc more) fuel s h e =
    let e' : fuel ≡ suc (more + length s) = omega arith in
    ap (λ k. header_loop k s h) e'
    ∙ header_loop-more (more + length s) s h (omega arith)
    ∙ header_loop-enough more (more + length s) s h refl
