-- ===== src/Socket/Headers.antt =====
-- Socket::processHeaders, parseRequestLine and parseHeader of src/socket.cpp, with Util::getLine of src/util.h:
-- what a header of HTTP is read as, and getHeader. The cookies are left out.
pub mod Lines
pub mod Fuel
pub mod Target
pub mod Reading
use vpl_jail_system.Prelude.{
  leb, ◌==◌, if◌then◌else◌, Bytes, codes, length, take, drop, str_eq, ℕ, zero, suc, Bool, true,
  false, not, Option, none, some, [], ◌&&◌, ◌||◌, ◌∷◌,
}
use vpl_jail_system.Prelude.Maps.{bytes_eq, nat_eq, Map, insert, lookup_or}
use vpl_jail_system.Jail.Access.{to_uppercase}

-- What is in front of the first `\n`, and what is behind it.
unfoldable pub span_line : Bytes → Bytes × Bytes
span_line [] = ([], [])
span_line (c ∷ s) = elim (c == 10) [
  | true ↦ ([], s)
  | false ↦ (c ∷ (span_line s).0, (span_line s).1)
]

unfoldable pub has_newline : Bytes → Bool
has_newline [] = false
has_newline (c ∷ s) = elim (c == 10) [ true ↦ true | false ↦ has_newline s ]

unfoldable pub drop_cr : Bytes → Bytes
drop_cr [] = []
drop_cr (c ∷ []) = if c == 13 then [] else c ∷ []
drop_cr (c ∷ d ∷ s) = c ∷ drop_cr (d ∷ s)

-- getLine: the line, and the text from the new offset on. The `\r` stays where there is no `\n`.
unfoldable pub get_line : Bytes → Bytes × Bytes
unfolding span_line has_newline drop_cr
get_line s = (if has_newline s then drop_cr (span_line s).0 else (span_line s).0, (span_line s).1)

-- What is in front of the first byte of some kind, and the text from it on.
unfoldable pub span_until : (ℕ → Bool) → Bytes → Bytes × Bytes
span_until stop [] = ([], [])
span_until stop (c ∷ s) = elim (stop c) [
  | true ↦ ([], c ∷ s)
  | false ↦ (c ∷ (span_until stop s).0, (span_until stop s).1)
]

-- `c_str()`: what regexec sees of a text.
unfoldable pub c_str : Bytes → Bytes
unfolding span_until
c_str s = (span_until (λ c. c == 0) s).0

abbrev pub is_space_byte : ℕ → Bool
is_space_byte c = c == b' '

abbrev pub some_text : Bytes → Bytes → Option (Bytes × Bytes)
some_text [] rest = none
some_text (c ∷ s) rest = some (c ∷ s, rest)

-- `[^ ]+` and the space behind it.
unfoldable pub word_and_space : Bytes → Option (Bytes × Bytes)
unfolding span_until
word_and_space s = elim (span_until is_space_byte s).1 [
  | [] ↦ none
  | c ∷ rest ↦ some_text (span_until is_space_byte s).0 rest
]

-- regRequestLine: three words and single spaces between them.
unfoldable pub request_line : Bytes → Option (Bytes × Bytes × Bytes)
unfolding word_and_space
request_line line = elim (word_and_space line) [
  | none ↦ none
  | some (m, rest) ↦ elim (word_and_space rest) [
    | none ↦ none
    | some (u, v) ↦ elim (span_until is_space_byte v).1 [
      | c ∷ more ↦ none
      | [] ↦ elim v [ [] ↦ none | c ∷ s ↦ some (m, u, c ∷ s) ]
    ]
  ]
]

abbrev pub is_blank : ℕ → Bool
is_blank c = c == b' ' || c == 9

unfoldable pub skip_blanks_of : Bytes → Bytes
skip_blanks_of [] = []
skip_blanks_of (c ∷ s) = elim (is_blank c) [ true ↦ skip_blanks_of s | false ↦ c ∷ s ]

abbrev pub ends_field : ℕ → Bool
ends_field c = is_blank c || c == b':'

abbrev pub behind_field : Bytes → Bytes → Option (Bytes × Bytes)
behind_field name [] = none
behind_field name (c ∷ rest) = if c == b':' then some_text name (skip_blanks_of rest) else none

-- regHeader: the field and its value.
unfoldable pub header_line : Bytes → Option (Bytes × Bytes)
unfolding skip_blanks_of span_until
header_line line =
    let s = skip_blanks_of line in
    behind_field (span_until ends_field s).0 (span_until ends_field s).1

-- regURL matches every text: letters, `://` and the text up to a slash, the path up to a `?`, and the query
-- behind it.
abbrev pub is_letter : ℕ → Bool
is_letter c = leb b'a' c && leb c b'z' || leb b'A' c && leb c b'Z'

unfoldable pub skip_host : Bytes → Bytes → Bytes
unfolding span_until
skip_host url [] = url
skip_host url (c ∷ s) = if c == b'/' then url else (span_until (λ d. d == b'/') (c ∷ s)).1

unfoldable pub behind_host : Bytes → Bytes
unfolding skip_host
behind_host url = if str_eq (take 3 url) (codes "://") then skip_host url (drop 3 url) else url

-- The members that processHeaders sets, but for the cookies.
pub record HttpHeader : Type 0 where
  pub method : Bytes
  pub url : Bytes
  pub version : Bytes
  pub protocol : Bytes
  pub url_path : Bytes
  pub query_string : Bytes
  pub headers : Map Bytes Bytes

unfoldable pub get_header : Bytes → HttpHeader → Bytes
get_header name h = lookup_or [] (to_uppercase name) h.headers

-- parseHeader; `none` is the exception.
unfoldable pub parse_header : Bytes → HttpHeader → Option HttpHeader
unfolding header_line c_str
parse_header line h = elim (header_line (c_str line)) [
  | none ↦ none
  | some (field, content) ↦
      some (record h { headers = insert (to_uppercase field) content h.headers })
]

abbrev pub with_url : Bytes → Bytes → Bytes → Map Bytes Bytes → HttpHeader
with_url m u v headers =
    let letters = span_until (λ c. not (is_letter c)) u in
    let path = span_until (λ c. c == b'?') (behind_host letters.1) in
    record {
      method = m;
      url = u;
      version = v;
      protocol = letters.0;
      url_path = path.0;
      query_string = drop 1 path.1;
      headers = headers;
    }

-- parseRequestLine, with the headers that there are.
unfoldable pub parse_request_line : Bytes → Map Bytes Bytes → Option HttpHeader
unfolding request_line behind_host span_until c_str
parse_request_line line headers = elim (request_line (c_str line)) [
  | none ↦ none
  | some (m, u, v) ↦ some (with_url m u v headers)
]

-- The loop on the headers. A line takes a byte at least, so the length is fuel enough.
unfoldable pub header_loop : ℕ → Bytes → HttpHeader → Option HttpHeader
unfolding parse_header get_line
header_loop zero s h = some h
header_loop (suc fuel) s h = elim (get_line s).0 [
  | [] ↦ some h
  | c ∷ line ↦ elim (parse_header (c ∷ line) h) [
    | none ↦ none
    | some h' ↦ header_loop fuel (get_line s).1 h'
  ]
]

-- The empty lines in front of the request line are skipped.
unfoldable pub first_line : ℕ → Bytes → Bytes × Bytes
unfolding get_line
first_line zero s = get_line s
first_line (suc fuel) s = elim (get_line s).0 [
  | c ∷ line ↦ get_line s
  | [] ↦ elim (get_line s).1 [ [] ↦ get_line s | d ∷ rest ↦ first_line fuel (get_line s).1 ]
]

unfoldable pub process_headers : Bytes → Map Bytes Bytes → Option HttpHeader
unfolding first_line parse_request_line header_loop
process_headers input headers =
    let (line, rest) = first_line (length input) input in
    elim (parse_request_line line headers) [
      | none ↦ none
      | some h ↦ header_loop (length rest) rest h
    ]
