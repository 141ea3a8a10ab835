-- ===== src/JsonRpc/Forged.antt =====
-- An id of a request that src/jsonrpc.h writes into the response as it is.
use vpl_jail_system.Message.{TreeNode, ok}
use vpl_jail_system.Prelude.{Bytes, codes, ℕ, append_assoc, ◌≡◌, ◌∙◌, ◌++◌}
use vpl_jail_system.Json.{escaped, encode_json_string}
use vpl_jail_system.Json.Parser.{process_raw_data}
use vpl_jail_system.Json.Parser.Reading.{Represents, parse-print}
use vpl_jail_system.Json.Printed.{Value, text, object, no_fields, field, quoted, print, IsPlain}
use vpl_jail_system.JsonRpc.{response_wraper}
use vpl_jail_system.JsonRpc.Responses.{
  Response, respond, said, respond-response_wraper, said-HasPlain,
}

-- A message with one more member behind the id.
abbrev pub forged_message : Bytes → Bytes → Bytes → Response → Value
forged_message id name content r = object (
    field (codes "jsonrpc") (text (codes "2.0")) (
      field (codes "result") (object (said r))
        (field (codes "id") (text id) (field name (text content) no_fields))))

-- The id of a request that holds `","`, a name, `":"` and a content.
abbrev pub forged_id : Bytes → Bytes → Bytes → Bytes
forged_id id name content = id ++ (codes "\",\"" ++ (name ++ (codes "\":\"" ++ content)))

respond-print_forged :
    (id name content : Bytes) (r : Response)
    → encode_json_string id ≡ id
    → encode_json_string name ≡ name
    → encode_json_string content ≡ content
    → respond (forged_id id name content) r ≡ print (forged_message id name content r)
unfolding response_wraper print quoted encode_json_string escaped
respond-print_forged id name content r i n c =
    respond-response_wraper (forged_id id name content) r ∙ rw (i, n, c) (simp append_assoc)

-- An id that holds a quote ends its string in the response: where a request's id is a text, `","`, a name,
-- `":"` and a content, the parser reads from the response that text as the id, and the name and the content
-- as a member of their own behind it. The text, the name and the content are to be such as encodeJSONString
-- leaves.
pub parse-respond_forged :
    (unset : ℕ) (id name content : Bytes) (r : Response)
    → encode_json_string id ≡ id
    → encode_json_string name ≡ name
    → encode_json_string content ≡ content
    → let response = respond (forged_id id name content) r in
      (n : TreeNode) × (process_raw_data unset response ≡ ok n)
      × Represents unset response (forged_message id name content r) n
unfolding IsPlain
parse-respond_forged unset id name content r i n c =
    rw (respond-print_forged id name content r i n c)
      (parse-print unset (forged_message id name content r) (tt, (said-HasPlain r, (tt, (tt, tt)))))
