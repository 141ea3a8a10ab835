-- ===== src/Socket/Headers/Target.antt =====
-- The target of a request as a client of src/socket.cpp prints it, and what regURL reads from it.
use vpl_jail_system.Prelude.{
  ◌==◌, Bytes, drop, refl, ap, not, Option, none, some, [], append-nil, ◌≡◌, ◌∙◌, ◌∷◌, ◌++◌,
}
use vpl_jail_system.Prelude.Maps.{bytes_eq, nat_eq, Map}
use vpl_jail_system.Socket.Headers.{span_until, is_letter, skip_host, behind_host, with_url}
use vpl_jail_system.Socket.Headers.Lines.{Passes, span_until-append, span_until-all}

-- The target of a request: where it is absolute, a scheme and a host; a path, which starts with a slash, and
-- a query where there is one.
pub record Target : Type 0 where
  pub origin : Option (Bytes × Bytes)
  pub behind_slash : Bytes
  pub query : Option Bytes

abbrev pub path : Target → Bytes
path t = b'/' ∷ t.behind_slash

unfoldable pub print_query : Option Bytes → Bytes
print_query none = []
print_query (some q) = b'?' ∷ q

unfoldable pub print_origin : Option (Bytes × Bytes) → Bytes → Bytes
print_origin none rest = rest
print_origin (some (scheme, host)) rest = scheme ++ (b':' ∷ b'/' ∷ b'/' ∷ (host ++ rest))

abbrev pub print_target : Target → Bytes
print_target t = print_origin t.origin (path t ++ print_query t.query)

-- A scheme of letters, and a host without a slash.
abbrev pub IsHost : Bytes → Type 0
IsHost [] = ⊥
IsHost (c ∷ s) = Passes (λ d. d == b'/') (c ∷ s)

unfoldable pub IsOrigin : Option (Bytes × Bytes) → Type 0
IsOrigin none = Unit
IsOrigin (some (scheme, host)) = Passes (λ c. not (is_letter c)) scheme × IsHost host

pub record IsTarget (t : Target) : Type 0 where
  pub origin : IsOrigin t.origin
  pub path : Passes (λ d. d == b'?') t.behind_slash

abbrev pub scheme_of : Target → Bytes
scheme_of t = elim t.origin [ none ↦ [] | some (scheme, host) ↦ scheme ]

abbrev pub query_of : Target → Bytes
query_of t = elim t.query [ none ↦ [] | some q ↦ q ]

letters_of : (o : Option (Bytes × Bytes)) (rest : Bytes) → Bytes × Bytes
letters_of o rest = span_until (λ c. not (is_letter c)) (print_origin o (b'/' ∷ rest))

-- The scheme is read, and behind the host the path.
protocol-origin :
    (o : Option (Bytes × Bytes)) (rest : Bytes)
    → IsOrigin o
    → (letters_of o rest).0 ≡ elim o [ none ↦ [] | some (scheme, host) ↦ scheme ]
unfolding print_origin span_until IsOrigin letters_of
protocol-origin none rest p = refl
protocol-origin (some (scheme, host)) rest p =
    ap (λ (r : Bytes × Bytes). r.0)
      (span_until-append (λ c. not (is_letter c)) scheme b':' _ p.0 refl)

skip_host-print :
    (url host rest : Bytes) → IsHost host → skip_host url (host ++ (b'/' ∷ rest)) ≡ b'/' ∷ rest
unfolding skip_host
skip_host-print url [] rest p = absurd p
skip_host-print url (c ∷ s) rest p =
    rw (p.0, skip_host)
      (ap (λ (r : Bytes × Bytes). r.1)
        (span_until-append (λ d. d == b'/') (c ∷ s) b'/' rest p refl))

behind_host-origin :
    (o : Option (Bytes × Bytes)) (rest : Bytes)
    → IsOrigin o
    → behind_host (letters_of o rest).1 ≡ b'/' ∷ rest
unfolding print_origin span_until behind_host IsOrigin letters_of
behind_host-origin none rest p = refl
behind_host-origin (some (scheme, host)) rest p =
    let e = span_until-append (λ c. not (is_letter c)) scheme b':' _ p.0 refl in
    ap (λ (r : Bytes × Bytes). behind_host r.1) e ∙ skip_host-print _ host rest p.1

path-query :
    (s : Bytes) (q : Option Bytes)
    → Passes (λ d. d == b'?') s
    → span_until (λ d. d == b'?') (s ++ print_query q) ≡ (s, print_query q)
unfolding print_query
path-query s none p =
    ap (span_until (λ d. d == b'?')) (append-nil s) ∙ span_until-all (λ d. d == b'?') s p
path-query s (some q) p = span_until-append (λ d. d == b'?') s b'?' q p refl

drop-query : (q : Option Bytes) → drop 1 (print_query q) ≡ elim q [ none ↦ [] | some s ↦ s ]
unfolding print_query
drop-query none = refl
drop-query (some q) = refl

pub with_url-target :
    (m v : Bytes) (t : Target) (hs : Map Bytes Bytes)
    → IsTarget t
    → let h = with_url m (print_target t) v hs in
      (h.protocol ≡ scheme_of t) × (h.url_path ≡ path t) × (h.query_string ≡ query_of t)
unfolding span_until letters_of
with_url-target m v t hs p =
    let rest = t.behind_slash ++ print_query t.query in
    let behind = behind_host-origin t.origin rest p.origin in
    let e = path-query t.behind_slash t.query p.path in
    (
      protocol-origin t.origin rest p.origin,
      ap (λ u. (span_until (λ d. d == b'?') u).0) behind ∙ ap (λ (r : Bytes × Bytes). b'/' ∷ r.0) e,
      ap (λ u. drop 1 (span_until (λ d. d == b'?') u).1) behind
          ∙ ap (λ (r : Bytes × Bytes). drop 1 r.1) e
          ∙ drop-query t.query,
    )
