-- ===== src/Socket/Headers/Reading.antt =====
-- What Socket::processHeaders of src/socket.cpp reads from a request that a client prints.
use vpl_jail_system.Prelude.{
  if◌then◌else◌, Bytes, length, All, length-append, All-append, str_eq, ℕ, zero, suc, refl, sym, ap,
  subst, Option, none, some, [], append_assoc, arith, ◌<◌, ◌≡◌, ◌∙◌, ◌∷◌, ◌++◌,
}
use vpl_jail_system.Prelude.Maps.{bytes_eq, nat_eq, Map, lookup, insert, lookup_or, lookup-insert}
use vpl_jail_system.Jail.Access.{to_uppercase}
use vpl_jail_system.Socket.Headers.{
  span_line, has_newline, drop_cr, get_line, c_str, request_line, header_line, HttpHeader,
  get_header, parse_header, with_url, parse_request_line, header_loop, first_line, process_headers,
}
use vpl_jail_system.Socket.Headers.Lines.{
  crlf, Headers, print_headers, IsLine, c_str-IsLine, get_line-append, IsField, IsContent,
  header_line-print, IsWord, print_line, request_line-print, IsLine-print_line,
}
use vpl_jail_system.Socket.Headers.Target.{
  Target, path, print_target, IsTarget, scheme_of, query_of, with_url-target,
}

store : Headers → Map Bytes Bytes → Map Bytes Bytes
store [] m = m
store ((n, v) ∷ hs) m = store hs (insert (to_uppercase n) v m)

abbrev pub IsHeaders : Headers → Type 0
IsHeaders hs = All (λ h. IsField h.0 × IsContent h.1) hs

IsLine-header : (n v : Bytes) → IsField n → IsContent v → IsLine (n ++ (b':' ∷ b' ' ∷ v))
IsLine-header [] v p q = absurd p
IsLine-header (c ∷ s) [] p q = All-append _ (c ∷ s) (b':' ∷ b' ' ∷ []) (p.1) (refl, (refl, tt))
IsLine-header (c ∷ s) (d ∷ t) p q =
    All-append _ (c ∷ s) (b':' ∷ b' ' ∷ d ∷ t) (p.1) (refl, (refl, q.1))

header_loop-crlf :
    (fuel : ℕ) (body : Bytes) (h : HttpHeader) → header_loop (suc fuel) (crlf ++ body) h ≡ some h
unfolding header_loop get_line has_newline span_line drop_cr
header_loop-crlf fuel body h = refl

-- A line that is read is parsed, and the loop goes on behind it.
header_loop-line :
    (fuel : ℕ) (s : Bytes) (c : ℕ) (line rest : Bytes) (h h' : HttpHeader)
    → get_line s ≡ (c ∷ line, rest)
    → parse_header (c ∷ line) h ≡ some h'
    → header_loop (suc fuel) s h ≡ header_loop fuel rest h'
unfolding header_loop
header_loop-line fuel s c line rest h h' e parsed = ground arith

parse_header-print :
    (n v : Bytes) (h : HttpHeader)
    → IsField n
    → IsContent v
    → parse_header (n ++ (b':' ∷ b' ' ∷ v)) h
      ≡ some (record h { headers = insert (to_uppercase n) v h.headers })
unfolding parse_header
parse_header-print n v h p q =
    let line = c_str-IsLine _ (IsLine-header n v p q) in
    let asked : header_line (c_str (n ++ (b':' ∷ b' ' ∷ v))) ≡ some (n, v) =
      rw line (header_line-print n v p q) in
    rw (asked, parse_header) refl

header_loop-print :
    (fuel : ℕ) (hs : Headers) (body : Bytes) (h : HttpHeader)
    → length hs < fuel
    → IsHeaders hs
    → header_loop fuel (print_headers hs ++ body) h
      ≡ some (record h { headers = store hs h.headers })
unfolding print_headers store
header_loop-print zero hs body h l p = absurd (omega arith)
header_loop-print (suc fuel) [] body h l p = header_loop-crlf fuel body h
header_loop-print (suc fuel) (([], v) ∷ hs) body h l p = absurd p.0.0
header_loop-print (suc fuel) ((c ∷ s, v) ∷ hs) body h l p =
    let n : Bytes = c ∷ s in
    let line = n ++ (b':' ∷ b' ' ∷ v) in
    let apart = append_assoc line (13 ∷ 10 ∷ print_headers hs) body in
    let read =
      get_line-append line (print_headers hs ++ body) (IsLine-header n v (p.0.0) (p.0.1)) in
    let h' = record h { headers = insert (to_uppercase n) v h.headers } in
    let parsed = parse_header-print n v h (p.0.0) (p.0.1) in
    rw (apart) (
      header_loop-line fuel _ c _ _ h h' read parsed
      ∙ header_loop-print fuel hs body h' (omega arith) (p.1))

-- The last value of the headers of a name, in capitals or not.
unfoldable pub last_value : Bytes → Headers → Option Bytes
last_value name [] = none
last_value name ((n, v) ∷ hs) = elim (last_value name hs) [
  | some w ↦ some w
  | none ↦ if str_eq (to_uppercase n) (to_uppercase name) then some v else none
]

lookup-store :
    (name : Bytes) (hs : Headers) (m : Map Bytes Bytes)
    → lookup (to_uppercase name) (store hs m)
      ≡ elim (last_value name hs) [ none ↦ lookup (to_uppercase name) m | some v ↦ some v ]
unfolding store last_value
lookup-store name [] m = refl
lookup-store name ((n, v) ∷ hs) m =
    let e = lookup-store name hs (insert (to_uppercase n) v m) in
    let i = lookup-insert (to_uppercase n) (to_uppercase name) v m in ground arith

length-print_headers : (hs : Headers) (body : Bytes) → length hs < length (print_headers hs ++ body)
unfolding print_headers
length-print_headers [] body = omega arith
length-print_headers ((n, v) ∷ hs) body =
    let line : Bytes = n ++ (b':' ∷ b' ' ∷ v) in
    let more = length-print_headers hs body in
    let apart = ap length (append_assoc line (13 ∷ 10 ∷ print_headers hs) body) in
    let sum = length-append line (13 ∷ 10 ∷ (print_headers hs ++ body)) in omega arith

first_line-print :
    (fuel c : ℕ) (s line rest : Bytes)
    → get_line s ≡ (c ∷ line, rest)
    → first_line fuel s ≡ (c ∷ line, rest)
unfolding first_line
first_line-print zero c s line rest e = e
first_line-print (suc fuel) c s line rest e = ground arith

-- What getHeader and the members give for what has been read.
unfoldable pub Reads : Bytes → Target → Bytes → Bytes → Headers → Option HttpHeader → Type 0
unfolding get_header last_value
Reads m t v name hs none = ⊥
Reads m t v name hs (some h) =
    (h.method ≡ m)
    × (h.url ≡ print_target t)
    × (h.protocol ≡ scheme_of t)
    × (h.url_path ≡ path t)
    × (h.query_string ≡ query_of t)
    × (h.version ≡ v)
    × (get_header name h ≡ elim (last_value name hs) [ none ↦ [] | some w ↦ w ])

get_header-store :
    (name : Bytes) (hs : Headers) (h : HttpHeader)
    → get_header name (record h { headers = store hs [] })
      ≡ elim (last_value name hs) [ none ↦ [] | some w ↦ w ]
unfolding get_header lookup_or
get_header-store name hs h = let e = lookup-store name hs [] in ground arith

abbrev pub print_request : Bytes → Target → Bytes → Headers → Bytes → Bytes
print_request m t v hs body =
    print_line m (print_target t) v ++ (13 ∷ 10 ∷ (print_headers hs ++ body))

first_line-request :
    (fuel : ℕ) (m : Bytes) (t : Target) (v : Bytes) (hs : Headers) (body : Bytes)
    → IsWord m
    → IsWord (print_target t)
    → IsWord v
    → first_line fuel (print_request m t v hs body)
      ≡ (print_line m (print_target t) v, print_headers hs ++ body)
first_line-request fuel [] t v hs body hm hu hv = absurd hm
first_line-request fuel (c ∷ m) t v hs body hm hu hv =
    let line = IsLine-print_line (c ∷ m) (print_target t) v hm hu hv in
    first_line-print fuel c _ _ _ (get_line-append _ (print_headers hs ++ body) line)

-- Behind the request line, the headers are read.
process_headers-line :
    (input line rest m u v : Bytes)
    → first_line (length input) input ≡ (line, rest)
    → c_str line ≡ line
    → request_line line ≡ some (m, u, v)
    → process_headers input [] ≡ header_loop (length rest) rest (with_url m u v [])
unfolding process_headers parse_request_line
process_headers-line input line rest m u v first seen asked =
    let asked' : request_line (c_str line) ≡ some (m, u, v) = rw seen asked in ground arith

-- A request that is printed is read: its method and its version; its URL with the scheme, the path and the
-- query, of which each that it does not have is the empty text; and for each name, in capitals or not, the
-- last of its headers, or the empty text without one. The URL is a path that starts with a slash, behind a
-- scheme of letters, `://` and a host or not, with `?` and a query behind it or not. The method, the URL and
-- the version are not empty and hold no space; a host is not empty and holds no slash, the path no question
-- mark. The name of a header is not empty and holds no blank and no colon; its value starts with no blank.
-- None of them holds a newline or a byte 0. What follows the headers is not read.
pub process_headers-Reads :
    (m : Bytes) (t : Target) (v : Bytes) (hs : Headers) (body name : Bytes)
    → IsWord m
    → IsWord (print_target t)
    → IsWord v
    → IsTarget t
    → IsHeaders hs
    → Reads m t v name hs (process_headers (print_request m t v hs body) [])
unfolding Reads
process_headers-Reads m t v hs body name hm hu hv ht hh =
    let input = print_request m t v hs body in
    let u = print_target t in
    let first = first_line-request (length input) m t v hs body hm hu hv in
    let seen = c_str-IsLine _ (IsLine-print_line m u v hm hu hv) in
    let asked = request_line-print m u v hm hu hv in
    let h = with_url m u v [] in
    let enough = length-print_headers hs body in
    let looped = header_loop-print _ hs body h enough hh in
    let url = with_url-target m v t [] ht in
    let e = process_headers-line input _ _ m u v first seen asked ∙ looped in
    let read = get_header-store name hs h in
    subst (Reads m t v name hs) (sym e) (refl, refl, url.0, url.1, url.2, refl, read)
