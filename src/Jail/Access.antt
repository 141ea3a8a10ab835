-- ===== src/Jail/Access.antt =====
-- Who may ask for what, in src/jail.cpp: isValidIPforRequest, isRequestingCookie, the path of a
-- WebSocket, predefinedURLResponse, and the dispatch of process.
pub mod Admitted
pub mod Permitted
use vpl_jail_system.Util.Text.{compare_constant_time}
use vpl_jail_system.Prelude.{
  leb, ◌==◌, if◌then◌else◌, Bytes, codes, length, take, str_eq, ℕ, Bool, true, false, not, Option,
  none, some, List, [], ◌-◌, ◌&&◌, ◌||◌, ◌∷◌,
}

unfoldable pub begins_with : Bytes → Bytes → Bool
begins_with prefix s = str_eq (take (length prefix) s) prefix && leb (length prefix) (length s)

-- isValidIPforRequest: no TASK_ONLY_FROM, or the address begins with one of its entries.
unfoldable pub any_prefix : List Bytes → Bytes → Bool
any_prefix [] ip = false
any_prefix (p ∷ more) ip = let rest = any_prefix more ip in if begins_with p ip then true else rest

unfoldable pub is_valid_ip : List Bytes → Bytes → Bool
is_valid_ip [] ip = true
is_valid_ip (p ∷ more) ip = any_prefix (p ∷ more) ip

-- The bytes up to the first slash, and what follows it.
unfoldable pub split_slash : Bytes → Option (Bytes × Bytes)
split_slash [] = none
split_slash (c ∷ s) = elim (c == b'/') [
  | true ↦ some ([], s)
  | false ↦ elim (split_slash s) [ none ↦ none | some (a, b) ↦ some (c ∷ a, b) ]
]

-- The regular expression `^\/([^\/]+)\/(.+)$`: the two groups.
unfoldable pub two_parts : Bytes → Option (Bytes × Bytes)
two_parts [] = none
two_parts (c ∷ s) = if not (c == b'/') then none else elim (split_slash s) [
  | none ↦ none
  | some (a, b) ↦ if str_eq a [] || str_eq b [] then none else some (a, b)
]

-- isRequestingCookie: `^\/([^\/]+)\/httpPassthrough$`.
unfoldable pub is_requesting_cookie : Bytes → Option Bytes
is_requesting_cookie path = elim (two_parts path) [
  | none ↦ none
  | some (ticket, name) ↦ if str_eq name (codes "httpPassthrough") then some ticket else none
]

unfoldable pub to_upper : ℕ → ℕ
to_upper c = if leb b'a' c && leb c b'z' then c - 32 else c

unfoldable pub to_uppercase : Bytes → Bytes
to_uppercase [] = []
to_uppercase (c ∷ s) = to_upper c ∷ to_uppercase s

abbrev pub ok_page : Bytes
ok_page = codes "<!DOCTYPE html><html><body><h1>OK</h1></body></html>"

abbrev pub robots_page : Bytes
robots_page = codes "User-agent: *\nDisallow: /\n"

-- predefinedURLResponse. The page of the icon, and the file of a challenge of Certbot, which is empty
-- where there is none, are arguments.
unfoldable pub predefined_url_response : Bytes → Bytes → Bytes → Bytes
predefined_url_response icon challenge path =
    if str_eq (to_uppercase path) (codes "/OK")
    then ok_page
    else if str_eq path (codes "/robots.txt")
    then robots_page
    else if str_eq path (codes "/favicon.ico")
    then icon
    else challenge

-- The requests that a POST may name.
pub data Command : Type 0 where
  available_request task_request direct_run_request get_result_request running_request : Command
  stop_request update_request : Command

unfoldable pub command_named : Bytes → Option Command
command_named name =
    if str_eq name (codes "available")
    then some available_request
    else if str_eq name (codes "request")
    then some task_request
    else if str_eq name (codes "directrun")
    then some direct_run_request
    else if str_eq name (codes "getresult")
    then some get_result_request
    else if str_eq name (codes "running")
    then some running_request
    else if str_eq name (codes "stop")
    then some stop_request
    else if str_eq name (codes "update")
    then some update_request
    else none

-- What a request asks for, as process reads it from the socket and the configuration.
pub record Asked : Type 0 where
  pub ip : Bytes
  pub task_only_from : List Bytes
  pub http_method : Bytes
  pub upgrade : Bytes
  pub url_path : Bytes
  -- Whether the cookie of the web application's ticket let httpPassthrough serve the request.
  pub passed_through : Bool
  -- Whether the cookie that marks a visit is there and the query is "private".
  pub was_here : Bool
  -- Whether commandSetPassthroughCookie took the ticket.
  pub cookie_set : Bool
  pub icon : Bytes
  pub challenge : Bytes
  -- URLPATH of the configuration.
  pub expected_path : Bytes
  -- The name of the method, as rpc.getMethodName reads it of a body that was received and parsed.
  pub method_name : Bytes

-- What process does: the page it sends, the command it runs, or the code of the error it answers.
pub data Served : Type 0 where
  by_application : Served
  page : Bytes → Served
  redirect : Bytes → Served
  head : Served
  post : Command → Served
  monitor_socket : Bytes → Served
  execute_socket : Bytes → Served
  refused : ℕ → Served

abbrev pub private_page : Bytes
private_page =
    codes
      "<html><body><h1>Please, to access web applications use a new Private or Incognito window.</h1></body></html>"

abbrev pub or_not_found : Bytes → Served
or_not_found text = if str_eq text [] then refused 404 else page text

-- A redirect closes the socket, so that what process sends behind it reaches nobody.
unfoldable pub serve_get : Asked → Served
serve_get a =
    let predefined = or_not_found (predefined_url_response a.icon a.challenge a.url_path) in
    elim (is_requesting_cookie a.url_path) [
      | none ↦ predefined
      | some ticket ↦
          if a.was_here
          then page private_page
          else if a.cookie_set
          then redirect ticket
          else predefined
    ]

abbrev pub or_root : Bytes → Bytes
or_root path = if str_eq path [] then codes "/" else path

-- validateRequest of src/httpServer.cpp: the code of the error.
unfoldable pub validate_request : Bytes → Bytes → Bytes → Option ℕ
validate_request http_method expected path =
    if not (str_eq http_method (codes "POST"))
    then some 501
    else if not (compare_constant_time (or_root expected) (or_root path))
    then some 404
    else none

unfoldable pub serve_post : Asked → Served
serve_post a =
    if not (is_valid_ip a.task_only_from a.ip)
    then refused 400
    else elim (validate_request a.http_method a.expected_path a.url_path) [
      | some code ↦ refused code
      | none ↦ elim (command_named a.method_name) [ none ↦ refused 400 | some c ↦ post c ]
    ]

unfoldable pub serve_http : Asked → Served
serve_http a =
    if str_eq a.http_method (codes "GET")
    then serve_get a
    else if str_eq a.http_method (codes "HEAD")
    then if str_eq (predefined_url_response a.icon a.challenge a.url_path) []
      then refused 404
      else head
    else if str_eq a.http_method (codes "POST")
    then serve_post a
    else refused 400

unfoldable pub serve_websocket : Asked → Served
serve_websocket a =
    if not (str_eq a.http_method (codes "GET")) then refused 500 else elim (two_parts a.url_path) [
      | none ↦ refused 500
      | some (ticket, command) ↦
          if str_eq command (codes "monitor")
          then monitor_socket ticket
          else if str_eq command (codes "execute")
          then execute_socket ticket
          else refused 500
    ]

-- process, behind readHeaders.
unfoldable pub process : Asked → Served
process a =
    if a.passed_through
    then by_application
    else if str_eq (to_uppercase a.upgrade) (codes "WEBSOCKET")
    then serve_websocket a
    else serve_http a
