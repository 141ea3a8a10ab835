-- ===== src/Tests/Requests.antt =====
-- Requests and responses through src/json.h and src/jsonrpc.h at concrete inputs.
use vpl_jail_system.Message.{
  TreeNode, tree_node, no_children, child, no_such_child, ok, failed, out_of_fuel, named_child,
}
use vpl_jail_system.Prelude.{Bytes, codes, refl, inl, true, false, none, ◌≡◌, ◌≢◌}
use vpl_jail_system.Prelude.Maps.{bytes_eq, nat_eq, lookup}
use vpl_jail_system.Json.{
  escaped, encode_json_string, simple_escape, escape_round, decode_loop, decode_json_string,
}
use vpl_jail_system.Json.Parser.{
  skip_white_spaces, escape_length, string_end, number_end, get_string, name_of,
  process_string_node, separator, expect_colon, process_word, process_node, process_object_node,
  process_array_node, process_raw_data,
}
use vpl_jail_system.Json.Parser.Reading.{Represents, parse-print}
use vpl_jail_system.Json.Parser.Termination.{process_raw_data_ends}
use vpl_jail_system.Json.Printed.{
  null, boolean, number, text, array, object, no_values, value, Fields, no_fields, field, print,
  IsPlain, HasPlain,
}
use vpl_jail_system.JsonRpc.{RpcRequest, process_root, json_rpc}
use vpl_jail_system.JsonRpc.Requests.{first_field, count, last_field, Reads, json_rpc-print}
use vpl_jail_system.JsonRpc.Responses.{Response, got_result, respond, message, parse-respond}
use vpl_jail_system.JsonRpc.Forged.{forged_message, forged_id, parse-respond_forged}

-- {"files":{"a.c":"x\n"},"lines":[1,true,null]}
abbrev sample_fields : Fields
sample_fields =
    field (codes "files") (object (field (codes "a.c") (text (codes "x\n")) no_fields)) (
      field (codes "lines")
        (array (value (number (codes "1")) (value (boolean true) (value null no_values))))
        no_fields)

sample_plain : HasPlain sample_fields
unfolding HasPlain
sample_plain = ((tt, tt), (((refl, (refl, tt)), (tt, (tt, tt))), tt))

parse-print_example :
    (n : TreeNode) × (process_raw_data 0 (print (object sample_fields)) ≡ ok n)
    × Represents 0 (print (object sample_fields)) (object sample_fields) n
parse-print_example = parse-print 0 (object sample_fields) (unfold IsPlain in sample_plain)

-- An array that does not end.
process_raw_data_ends_example : process_raw_data 0 (codes "[1,") ≢ out_of_fuel
process_raw_data_ends_example = process_raw_data_ends 0 (codes "[1,")

-- {"id":"12","params":{...},"jsonrpc":"2.0","method":"request"}
abbrev sample_request : Fields
sample_request = field (codes "id") (text (codes "12")) (
    field (codes "params") (object sample_fields) (
      field (codes "jsonrpc") (text (codes "2.0"))
        (field (codes "method") (text (codes "request")) no_fields)))

json_rpc-print_example :
    let raw = print (object sample_request) in
    (r : RpcRequest) × (json_rpc 0 raw ≡ ok r)
    × (r.method ≡ codes "request")
    × (r.id ≡ codes "12")
    × ((k : Bytes) → Reads 0 raw (last_field k sample_fields none) (lookup k r.data_members))
unfolding HasPlain IsPlain first_field count
json_rpc-print_example =
    json_rpc-print 0 sample_request sample_fields (codes "request") (codes "12")
      (tt, (sample_plain, (tt, (tt, tt))))
      (record {
        method_field = refl;
        params_field = refl;
        id_field = refl;
        version = inl (refl, refl);
      })

abbrev got : Response
got = got_result (codes "warning: \"x\"") (codes "Grade :=>> 10") true false

plain_id : encode_json_string (codes "12") ≡ codes "12"
unfolding encode_json_string escaped
plain_id = refl

parse-respond_example :
    (n : TreeNode) × (process_raw_data 0 (respond (codes "12") got) ≡ ok n)
    × Represents 0 (respond (codes "12") got) (message (codes "12") got) n
parse-respond_example = parse-respond 0 (codes "12") got plain_id

plain_name : encode_json_string (codes "error") ≡ codes "error"
unfolding encode_json_string escaped
plain_name = refl

-- The id 12","error":"12
parse-respond_forged_example :
    let response = respond (forged_id (codes "12") (codes "error") (codes "12")) got in
    (n : TreeNode) × (process_raw_data 0 response ≡ ok n)
    × Represents 0 response (forged_message (codes "12") (codes "error") (codes "12") got) n
parse-respond_forged_example =
    parse-respond_forged 0 (codes "12") (codes "error") (codes "12") got plain_id plain_name
      plain_id

-- Two attributes are missing.
test_no_method : json_rpc 0 (codes "{\"id\":\"1\"}") ≡ failed no_such_child
unfolding json_rpc process_root named_child process_raw_data process_node process_object_node
    process_array_node separator expect_colon process_word process_string_node string_end
    escape_length number_end skip_white_spaces name_of get_string decode_json_string decode_loop
    escape_round simple_escape
test_no_method = refl

test_parse :
    process_raw_data 0 (codes " {\"a\" : [1,true ],\"b\":\"x\\\"\"} ")
    ≡ ok (
        tree_node (codes "object") 1 26 (
          child
            (tree_node (codes "a") 8 8 (
              child
                (tree_node (codes "number") 9 1 no_children)
                (child (tree_node (codes "boolean") 11 4 no_children) no_children)))
            (child (tree_node (codes "b") 23 3 no_children) no_children)))
unfolding process_raw_data process_node process_object_node process_array_node separator
    expect_colon process_word process_string_node string_end escape_length number_end
    skip_white_spaces name_of get_string decode_json_string decode_loop escape_round simple_escape
test_parse = refl
