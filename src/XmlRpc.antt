-- ===== src/XmlRpc.antt =====
-- class XMLRPC of src/xmlrpc.h, over the parser of src/xml.h and TreeNode of src/requestmessage.h: what a
-- request asks, and the texts that are sent back. The numbers sent are not negative.
pub mod Said
pub mod Responses
use vpl_jail_system.Prelude.{
  leb, ◌==◌, if◌then◌else◌, Bytes, codes, str_eq, ℕ, Bool, none, some, [], ◌&&◌, ◌||◌, ◌++◌,
}
use vpl_jail_system.Prelude.Maps.{bytes_eq, nat_eq, Map, insert}
use vpl_jail_system.Message.{
  TreeNode, Children, no_children, child, bad_escape, no_such_child, expected_string,
  expected_struct, no_two_attributes, no_method_call, Parse, ok, failed, ◌>>=◌, get_name,
  children_of, get_raw_content, named_child, nchild,
}
use vpl_jail_system.Util.Sizes.{decimal}
use vpl_jail_system.Xml.{encode_xml, decode_xml}
use vpl_jail_system.Xml.Parser.{process_document}

-- What a request was read as.
pub record XmlRequest : Type 0 where
  pub method_node : TreeNode
  pub struct_data : Map Bytes TreeNode

-- TreeNode::child(0).
unfoldable pub first_child : Children → Parse TreeNode
first_child no_children = failed no_such_child
first_child (child n _) = ok n

module _ (outside : ℕ) (raw : Bytes) where
  -- TreeNodeXML::getString of src/xml.cpp.
  unfoldable pub xml_string : TreeNode → Parse Bytes
  xml_string n =
      if str_eq (get_name n) (codes "string") || str_eq (get_name n) (codes "name")
      then elim (decode_xml (get_raw_content raw n)) [ none ↦ failed bad_escape | some s ↦ ok s ]
      else failed expected_string

  -- The loop of getStructMembers.
  unfoldable pub xml_members : Children → Map Bytes TreeNode → Parse (Map Bytes TreeNode)
  unfolding first_child xml_string
  xml_members no_children ret = ok ret
  xml_members (child n kids) ret = named_child (codes "name") (children_of n) >>= λ name.
      xml_string name >>= λ key. named_child (codes "value") (children_of n) >>= λ v.
      first_child (children_of v) >>= λ content. xml_members kids (insert key content ret)

  unfoldable pub get_struct_members : TreeNode → Parse (Map Bytes TreeNode)
  unfolding xml_members
  get_struct_members st =
      if str_eq (get_name st) (codes "struct")
      then xml_members (children_of st) []
      else if str_eq (get_name st) (codes "array") && nchild (children_of st) == 0
      then ok []
      else failed expected_struct

  -- processRoot.
  unfoldable pub process_method_call : TreeNode → Parse XmlRequest
  unfolding get_struct_members
  process_method_call root =
      let call : Parse XmlRequest = named_child (codes "methodName") (children_of root) >>= λ m.
      named_child (codes "params") (children_of root) >>= λ params.
      named_child (codes "param") (children_of params) >>= λ param.
      named_child (codes "value") (children_of param) >>= λ v.
      named_child (codes "struct") (children_of v) >>= λ st.
      get_struct_members st >>= λ members. ok (record { method_node = m; struct_data = members }) in
      if str_eq (get_name root) (codes "methodCall")
      then if nchild (children_of root) == 2 then call else failed no_two_attributes
      else failed no_method_call

  -- The constructor.
  unfoldable pub xml_rpc : Parse XmlRequest
  xml_rpc = process_document outside raw >>= λ root. process_method_call root

  unfoldable pub get_method_name : XmlRequest → Bytes
  get_method_name r = get_raw_content raw r.method_node

-- responseWraper.
unfoldable pub xml_response_wraper : Bytes → Bytes
xml_response_wraper response =
    codes
      "<?xml version=\"1.0\" encoding=\"UTF-8\"?>\n<methodResponse>\n<params>\n<param>\n<struct>\n"
    ++ (response ++ codes "</struct>\n</param>\n</params>\n</methodResponse>\n")

-- responseMember, of a text.
unfoldable pub xml_text_member : Bytes → Bytes → Bytes
xml_text_member name s =
    codes "<member><name>"
    ++ (encode_xml name
        ++ (codes "</name>\n<value><string>"
            ++ (encode_xml s ++ codes "</string></value>\n</member>\n")))

abbrev pub int32_max : ℕ
int32_max = 0x7fff_ffff

-- Util::dtos is "%lg", which is the C library's.
module _ (dtos : ℕ → Bytes) where
  -- responseMember, of a number.
  unfoldable pub xml_number_member : Bytes → ℕ → Bytes
  xml_number_member name n =
      codes "<member><name>"
      ++ (encode_xml name
          ++ (codes "</name>\n<value>"
              ++ ((if leb n int32_max
                    then codes "<int>" ++ (decimal n ++ codes "</int>")
                    else codes "<double>" ++ (dtos n ++ codes "</double>"))
                  ++ codes "</value>\n</member>\n")))

  abbrev switch : Bool → ℕ
  switch b = if b then 1 else 0

  unfoldable pub xml_available_response : Bytes → ℕ → ℕ → ℕ → ℕ → ℕ → ℕ → Bytes
  unfolding xml_number_member xml_text_member xml_response_wraper
  xml_available_response status load maxtime maxfilesize maxmemory maxprocesses secureport =
      xml_response_wraper (
        xml_text_member (codes "status") status
        ++ (xml_number_member (codes "load") load
            ++ (xml_number_member (codes "maxtime") maxtime
                ++ (xml_number_member (codes "maxfilesize") maxfilesize
                    ++ (xml_number_member (codes "maxmemory") maxmemory
                        ++ (xml_number_member (codes "maxprocesses") maxprocesses
                            ++ xml_number_member (codes "secureport") secureport))))))

  unfoldable pub xml_request_response : Bytes → Bytes → Bytes → ℕ → ℕ → Bytes
  unfolding xml_number_member xml_text_member xml_response_wraper
  xml_request_response adminticket monitorticket executionticket port secuport =
      xml_response_wraper (
        xml_text_member (codes "adminticket") adminticket
        ++ (xml_text_member (codes "monitorticket") monitorticket
            ++ (xml_text_member (codes "executionticket") executionticket
                ++ (xml_number_member (codes "port") port
                    ++ xml_number_member (codes "secureport") secuport))))

  unfoldable pub xml_direct_run_response : Bytes → Bytes → Bytes → ℕ → ℕ → Bytes
  unfolding xml_number_member xml_text_member xml_response_wraper
  xml_direct_run_response homepath adminticket executionticket port secuport = xml_response_wraper (
      xml_text_member (codes "homepath") homepath
      ++ (xml_text_member (codes "adminticket") adminticket
          ++ (xml_text_member (codes "executionticket") executionticket
              ++ (xml_number_member (codes "port") port
                  ++ xml_number_member (codes "secureport") secuport))))

  unfoldable pub xml_get_result_response : Bytes → Bytes → Bool → Bool → Bytes
  unfolding xml_number_member xml_text_member xml_response_wraper
  xml_get_result_response compilation execution executed interactive = xml_response_wraper (
      xml_text_member (codes "compilation") compilation
      ++ (xml_text_member (codes "execution") execution
          ++ (xml_number_member (codes "executed") (switch executed)
              ++ xml_number_member (codes "interactive") (switch interactive))))

  -- updateResponse, runningResponse and stopResponse send one flag.
  unfoldable pub xml_flag_response : Bytes → Bool → Bytes
  unfolding xml_number_member xml_response_wraper
  xml_flag_response name done = xml_response_wraper (xml_number_member name (switch done))
