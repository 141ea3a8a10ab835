-- ===== src/JsonRpc.antt =====
-- class JSONRPC of src/jsonrpc.h, over the parser of src/json.h and TreeNode of src/requestmessage.h: what a
-- request asks, and the texts that are sent back. The numbers sent are not negative.
pub mod Requests
pub mod Responses
pub mod Forged
use vpl_jail_system.Message.{
  TreeNode, Children, no_children, child, root_not_object, no_four_attributes, Parse, ok, failed,
  ◌>>=◌, get_name, children_of, named_child, nchild,
}
use vpl_jail_system.Prelude.{
  ◌==◌, if◌then◌else◌, Bytes, codes, str_eq, ℕ, Bool, true, false, [], ◌++◌,
}
use vpl_jail_system.Prelude.Maps.{bytes_eq, nat_eq, Map, insert}
use vpl_jail_system.Util.Sizes.{decimal}
use vpl_jail_system.Json.{encode_json_string}
use vpl_jail_system.Json.Parser.{name_of, process_raw_data}

-- The loop of getStructMembers.
unfoldable pub struct_members : Children → Map Bytes TreeNode → Map Bytes TreeNode
struct_members no_children ret = ret
struct_members (child n kids) ret = struct_members kids (insert (get_name n) n ret)

pub record RpcRequest : Type 0 where
  pub method : Bytes
  pub id : Bytes
  pub data_members : Map Bytes TreeNode

module _ (unset : ℕ) (raw : Bytes) where
  -- The test of the number of attributes.
  unfoldable pub check_attributes : Children → Parse (Unit {0})
  check_attributes kids =
      let three : Parse (Unit {0}) =
        if nchild kids == 3 then ok tt else failed no_four_attributes in
      elim (nchild kids == 4) [
        | true ↦ named_child (codes "jsonrpc") kids >>= λ version.
            name_of unset raw version >>= λ text. if str_eq text (codes "2.0") then ok tt else three
        | false ↦ three
      ]

  -- processRoot.
  unfoldable pub process_root : TreeNode → Parse RpcRequest
  unfolding check_attributes
  process_root root = elim (str_eq (get_name root) (codes "object")) [
    | true ↦ named_child (codes "method") (children_of root) >>= λ m.
        name_of unset raw m >>= λ method.
        named_child (codes "params") (children_of root) >>= λ params.
        named_child (codes "id") (children_of root) >>= λ i. name_of unset raw i >>= λ id.
        check_attributes (children_of root) >>= λ _.
        ok (record {
          method = method;
          id = id;
          data_members = struct_members (children_of params) [];
        })
    | false ↦ failed root_not_object
  ]

  -- The constructor.
  unfoldable pub json_rpc : Parse RpcRequest
  json_rpc = process_raw_data unset raw >>= λ root. process_root root

-- responseMember, of a text and of a number.
unfoldable pub text_member : Bytes → Bytes → Bytes
text_member name value =
    codes "\"" ++ (name ++ (codes "\":\"" ++ (encode_json_string value ++ codes "\"")))

unfoldable pub number_member : Bytes → ℕ → Bytes
number_member name value = codes "\"" ++ (name ++ (codes "\":" ++ decimal value))

-- A member and the text behind it.
abbrev pub followed : Bytes → Bytes → Bytes → Bytes
followed member mark rest = member ++ (mark ++ rest)

unfoldable pub response_wraper : Bytes → Bytes → Bytes
response_wraper id response =
    codes "{\"jsonrpc\":\"2.0\",\"result\":"
    ++ (response ++ (codes ",\"id\":\"" ++ (id ++ codes "\"}")))

abbrev comma : Bytes
comma = codes ","

abbrev end_mark : Bytes
end_mark = codes "}"

abbrev flag_value : Bool → ℕ
flag_value b = if b then 1 else 0

unfoldable pub available_response : Bytes → Bytes → ℕ → ℕ → ℕ → ℕ → ℕ → ℕ → Bytes
unfolding text_member number_member response_wraper
available_response id status load maxtime maxfilesize maxmemory maxprocesses secureport =
    response_wraper id (
      codes "{"
      ++ (followed (text_member (codes "status") status) comma (
          followed (number_member (codes "load") load) comma (
            followed (number_member (codes "maxtime") maxtime) comma (
              followed (number_member (codes "maxfilesize") maxfilesize) comma (
                followed (number_member (codes "maxmemory") maxmemory) comma (
                  followed (number_member (codes "maxprocesses") maxprocesses) comma
                    (followed (number_member (codes "secureport") secureport) end_mark []))))))))

unfoldable pub request_response : Bytes → Bytes → Bytes → Bytes → ℕ → ℕ → Bytes
unfolding text_member number_member response_wraper
request_response id adminticket monitorticket executionticket port secuport = response_wraper id (
    codes "{"
    ++ (followed (text_member (codes "adminticket") adminticket) comma (
        followed (text_member (codes "monitorticket") monitorticket) comma (
          followed (text_member (codes "executionticket") executionticket) comma (
            followed (number_member (codes "port") port) comma
              (followed (number_member (codes "secureport") secuport) end_mark []))))))

unfoldable pub direct_run_response : Bytes → Bytes → Bytes → Bytes → ℕ → ℕ → Bytes
unfolding text_member number_member response_wraper
direct_run_response id homepath adminticket executionticket port secuport = response_wraper id (
    codes "{"
    ++ (followed (text_member (codes "homepath") homepath) comma (
        followed (text_member (codes "adminticket") adminticket) comma (
          followed (text_member (codes "executionticket") executionticket) comma (
            followed (number_member (codes "port") port) comma
              (followed (number_member (codes "secureport") secuport) end_mark []))))))

unfoldable pub get_result_response : Bytes → Bytes → Bytes → Bool → Bool → Bytes
unfolding text_member number_member response_wraper
get_result_response id compilation execution executed interactive = response_wraper id (
    codes "{"
    ++ (followed (text_member (codes "compilation") compilation) comma (
        followed (text_member (codes "execution") execution) comma (
          followed (number_member (codes "executed") (flag_value executed)) comma (
            followed (number_member (codes "interactive") (flag_value interactive)) end_mark [])))))

-- updateResponse, runningResponse and stopResponse send one flag_value.
unfoldable pub flag_response : Bytes → Bytes → Bool → Bytes
unfolding number_member response_wraper
flag_response name id done =
    response_wraper id (codes "{" ++ followed (number_member name (flag_value done)) end_mark [])

abbrev pub update_response : Bytes → Bool → Bytes
update_response = flag_response (codes "update")

abbrev pub running_response : Bytes → Bool → Bytes
running_response = flag_response (codes "running")

abbrev pub stop_response : Bytes → Bytes
stop_response id = flag_response (codes "stop") id true
