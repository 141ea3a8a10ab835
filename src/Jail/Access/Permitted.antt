-- ===== src/Jail/Access/Permitted.antt =====
-- What a request must be for process of src/jail.cpp to run a command for it.
use vpl_jail_system.Prelude.{
  ◌==◌, ==_iff, Bool-cases, Option-cases, Bytes, codes, str_eq, str_eq_iff, refl, sym, ap, subst,
  inl, inr, true, some, [], arith, ◌≡◌, ◌∙◌, ◌≢◌, ◌∷◌, ◌++◌,
}
use vpl_jail_system.Util.Text.{compare_constant_time, compare_constant_time_iff}
use vpl_jail_system.Jail.Access.{
  is_valid_ip, split_slash, two_parts, is_requesting_cookie, to_uppercase, predefined_url_response,
  command_named, Asked, Served, by_application, page, redirect, head, post, monitor_socket,
  execute_socket, refused, private_page, or_not_found, serve_get, or_root, validate_request,
  serve_post, serve_http, serve_websocket, process,
}
use vpl_jail_system.Jail.Access.Admitted.{
  Admits, method_of, is_valid_ip-Admits, method_of-command_named,
}

-- The path of a WebSocket for a ticket.
unfoldable pub socket_path : Bytes → Bytes → Bytes
socket_path ticket command = b'/' ∷ (ticket ++ (b'/' ∷ command))

unfoldable pub Permits : Asked → Served → Type 0
Permits a (post c) =
    (a.http_method ≡ codes "POST")
    × Admits a.task_only_from a.ip
    × (or_root a.expected_path ≡ or_root a.url_path)
    × (a.method_name ≡ method_of c)
Permits a (monitor_socket ticket) =
    (a.http_method ≡ codes "GET")
    × (to_uppercase a.upgrade ≡ codes "WEBSOCKET")
    × (a.url_path ≡ socket_path ticket (codes "monitor"))
Permits a (execute_socket ticket) =
    (a.http_method ≡ codes "GET")
    × (to_uppercase a.upgrade ≡ codes "WEBSOCKET")
    × (a.url_path ≡ socket_path ticket (codes "execute"))
Permits a by_application = a.passed_through ≡ true
Permits a (page text) = (a.http_method ≡ codes "GET") × (text ≢ [])
Permits a (redirect ticket) = (a.http_method ≡ codes "GET") × (a.cookie_set ≡ true)
Permits a head = a.http_method ≡ codes "HEAD"
Permits a (refused code) = Unit

split_slash-append : (s a b : Bytes) → split_slash s ≡ some (a, b) → s ≡ a ++ (b'/' ∷ b)
unfolding split_slash
split_slash-append [] a b h = absurd cc
split_slash-append (c ∷ s) a b h = elim (Bool-cases (c == b'/')) [
  | inl e ↦
      let ea : a ≡ [] = ground arith in
      let eb : b ≡ s = ground arith in rw (ea, eb, (==_iff c b'/').0 e) refl
  | inr e ↦ elim (Option-cases (split_slash s)) [
    | inl n ↦ absurd (ground arith)
    | inr ((a', b'), q) ↦
        let ea : a ≡ c ∷ a' = ground arith in
        let eb : b ≡ b' = ground arith in
        rw (ea, eb) (ap (λ t. c ∷ t) (split_slash-append s a' b' q))
  ]
]

two_parts-append : (path a b : Bytes) → two_parts path ≡ some (a, b) → path ≡ socket_path a b
unfolding two_parts socket_path
two_parts-append [] a b h = absurd cc
two_parts-append (c ∷ s) a b h = elim (Option-cases (split_slash s)) [
  | inl n ↦ absurd (ground arith)
  | inr ((a', b'), q) ↦
      let slash : c ≡ b'/' = ground arith in
      let ea : a ≡ a' = ground arith in
      let eb : b ≡ b' = ground arith in
      rw (ea, eb, slash) (ap (λ t. b'/' ∷ t) (split_slash-append s a' b' q))
]

Permits-or_not_found :
    (a : Asked) (text : Bytes) → a.http_method ≡ codes "GET" → Permits a (or_not_found text)
unfolding Permits
Permits-or_not_found a text g = elim (Bool-cases (str_eq text [])) [
  | inl e ↦ rw e tt
  | inr e ↦ rw e (g, λ q. absurd (ground (arith, str_eq_iff text [])))
]

Permits-as : (a : Asked) (r q : Served) → r ≡ q → Permits a q → Permits a r
Permits-as a r q e h = subst (λ (t : Served). Permits a t) (sym e) h

Permits-serve_get : (a : Asked) → a.http_method ≡ codes "GET" → Permits a (serve_get a)
unfolding serve_get Permits
Permits-serve_get a g =
    let other = predefined_url_response a.icon a.challenge a.url_path in
    let usual = Permits-or_not_found a other g in
    elim (Option-cases (is_requesting_cookie a.url_path)) [
      | inl e ↦ Permits-as a _ (or_not_found other) (ground arith) usual
      | inr (ticket, e) ↦ elim (Bool-cases a.was_here) [
        | inl w ↦ Permits-as a _ (page private_page) (ground arith) (g, λ q. absurd cc)
        | inr w ↦ elim (Bool-cases a.cookie_set) [
          | inl c ↦ Permits-as a _ (redirect ticket) (ground arith) (g, c)
          | inr c ↦ Permits-as a _ (or_not_found other) (ground arith) usual
        ]
      ]
    ]

Permits-serve_post : (a : Asked) → a.http_method ≡ codes "POST" → Permits a (serve_post a)
unfolding serve_post Permits validate_request
Permits-serve_post a g =
    let is_post = (str_eq_iff a.http_method (codes "POST")).1 g in
    elim (Bool-cases (is_valid_ip a.task_only_from a.ip)) [
      | inr e ↦ Permits-as a _ (refused 400) (rw e refl) tt
      | inl ip ↦
          elim (Bool-cases (compare_constant_time (or_root a.expected_path) (or_root a.url_path))) [
            | inr e ↦ Permits-as a _ (refused 404) (rw (ip, is_post, e) refl) tt
            | inl path ↦ elim (Option-cases (command_named a.method_name)) [
              | inl e ↦ Permits-as a _ (refused 400) (rw (ip, is_post, path, e) refl) tt
              | inr (c, e) ↦ Permits-as a _ (post c) (rw (ip, is_post, path, e) refl) (
                g,
                is_valid_ip-Admits a.task_only_from a.ip ip,
                (compare_constant_time_iff _ _).0 path,
                method_of-command_named a.method_name c e,
              )
            ]
          ]
    ]

Permits-serve_http : (a : Asked) → Permits a (serve_http a)
unfolding serve_http Permits
Permits-serve_http a = elim (Bool-cases (str_eq a.http_method (codes "GET"))) [
  | inl g ↦ Permits-as a _ (serve_get a) (rw g refl) (Permits-serve_get a ((str_eq_iff _ _).0 g))
  | inr ng ↦ elim (Bool-cases (str_eq a.http_method (codes "HEAD"))) [
    | inl h ↦
        elim (Bool-cases (str_eq (predefined_url_response a.icon a.challenge a.url_path) [])) [
          | inl e ↦ Permits-as a _ (refused 404) (rw (ng, h, e) refl) tt
          | inr e ↦ Permits-as a _ head (rw (ng, h, e) refl) ((str_eq_iff _ _).0 h)
        ]
    | inr nh ↦ elim (Bool-cases (str_eq a.http_method (codes "POST"))) [
      | inl p ↦
          Permits-as a _ (serve_post a) (rw (ng, nh, p) refl)
            (Permits-serve_post a ((str_eq_iff _ _).0 p))
      | inr np ↦ Permits-as a _ (refused 400) (rw (ng, nh, np) refl) tt
    ]
  ]
]

Permits-serve_websocket :
    (a : Asked) → to_uppercase a.upgrade ≡ codes "WEBSOCKET" → Permits a (serve_websocket a)
unfolding serve_websocket Permits
Permits-serve_websocket a u = elim (Bool-cases (str_eq a.http_method (codes "GET"))) [
  | inr n ↦ Permits-as a _ (refused 500) (rw n refl) tt
  | inl g ↦ elim (Option-cases (two_parts a.url_path)) [
    | inl e ↦ Permits-as a _ (refused 500) (rw (g, e) refl) tt
    | inr ((ticket, command), e) ↦
        let path = two_parts-append a.url_path ticket command e in
        let get = (str_eq_iff _ _).0 g in
        elim (Bool-cases (str_eq command (codes "monitor"))) [
          | inl m ↦
              Permits-as a _ (monitor_socket ticket) (rw (g, e, m) refl)
                (get, u, path ∙ ap (socket_path ticket) ((str_eq_iff _ _).0 m))
          | inr nm ↦ elim (Bool-cases (str_eq command (codes "execute"))) [
            | inl x ↦
                Permits-as a _ (execute_socket ticket) (rw (g, e, nm, x) refl)
                  (get, u, path ∙ ap (socket_path ticket) ((str_eq_iff _ _).0 x))
            | inr nx ↦ Permits-as a _ (refused 500) (rw (g, e, nm, nx) refl) tt
          ]
        ]
  ]
]

-- process runs a command of RPC only for a POST from an address that starts with a text of TASK_ONLY_FROM, or
-- any where that is empty, to the configured path, that has the name of that command; it monitors or executes a task only for an upgrade to a
-- WebSocket by GET at the path of that ticket and command; it sends a page or a redirect only for a GET
-- and headers alone only for a HEAD.
pub Permits-process : (a : Asked) → Permits a (process a)
unfolding process Permits
Permits-process a = elim (Bool-cases a.passed_through) [
  | inl p ↦ Permits-as a _ by_application (ground arith) p
  | inr n ↦ elim (Bool-cases (str_eq (to_uppercase a.upgrade) (codes "WEBSOCKET"))) [
    | inl w ↦
        Permits-as a _ (serve_websocket a) (ground arith)
          (Permits-serve_websocket a ((str_eq_iff _ _).0 w))
    | inr w ↦ Permits-as a _ (serve_http a) (ground arith) (Permits-serve_http a)
  ]
]
