-- ===== src/Tests/Documents.antt =====
-- XML documents and responses through src/xml.h and src/xmlrpc.h at concrete inputs.
use vpl_jail_system.Prelude.{Bytes, codes, ℕ, refl, true, false, [], ◌≡◌, ◌∷◌}
use vpl_jail_system.Prelude.Maps.{bytes_eq, nat_eq, insert}
use vpl_jail_system.Message.{
  TreeNode, tree_node, no_children, child, ok, get_raw_content, named_child, nchild,
}
use vpl_jail_system.Xml.{decode_loop, decode_xml}
use vpl_jail_system.Xml.Parser.{
  find_char, last_or, close_tag, next_tag, erase_last, process_children, process_document,
}
use vpl_jail_system.Xml.Parser.Printed.{Element, element, ends_with, piece, IsPlainElement}
use vpl_jail_system.Xml.Parser.Reading.{Represents, print_document, parse-print_document}
use vpl_jail_system.JsonRpc.Responses.{Response, got_result}
use vpl_jail_system.XmlRpc.{
  first_child, xml_string, xml_members, get_struct_members, process_method_call, xml_rpc,
}
use vpl_jail_system.XmlRpc.Said.{xml_respond, response_element}
use vpl_jail_system.XmlRpc.Responses.{parse-xml_respond}

-- <a>x<b></b></a>
abbrev small : Element
small = element (codes "a") (piece (codes "x") (element (codes "b") (ends_with [])) (ends_with []))

small_plain : IsPlainElement small
unfolding IsPlainElement last_or
small_plain = ((refl, refl, (refl, tt)), ((refl, tt), ((refl, refl, (refl, tt)), tt), tt))

parse-print_document_example :
    let raw = print_document (codes "?xml?") (codes "\n") small (codes "\n") in
    (n : TreeNode) × (process_document 0 raw ≡ ok n) × Represents raw small n
parse-print_document_example =
    parse-print_document 0 (codes "?xml?") (codes "\n") small (codes "\n")
      (refl, (refl, (refl, (refl, (refl, tt))))) (refl, tt) small_plain

abbrev result : Response
result = got_result (codes "a < b") (codes "Grade :=>> 10") true false

-- Six digits, as "%lg" writes them.
abbrev some_digits : ℕ → Bytes
some_digits n = codes "1.71799e+10"

parse-xml_respond_example :
    (n : TreeNode) × (process_document 0 (xml_respond some_digits result) ≡ ok n)
    × Represents (xml_respond some_digits result) (response_element some_digits result) n
parse-xml_respond_example =
    parse-xml_respond some_digits
      (λ n.
        (refl, (refl, (refl, (refl, (refl, (refl, (refl, (refl, (refl, (refl, (refl, tt))))))))))))
      0 result

test_document :
    process_document 0 (codes "<?xml?><a>x<b/><c></c></a>")
    ≡ ok (
        tree_node (codes "a") 10 12 (
          child
            (tree_node (codes "b") 15 0 no_children)
            (child (tree_node (codes "c") 18 0 no_children) no_children)))
unfolding process_document process_children next_tag close_tag find_char erase_last last_or
test_document = refl

-- A parameter of a request.
test_request :
    let raw =
      codes
        "<?xml?><methodCall><methodName>stop</methodName><params><param><value><struct><member><name>adminticket</name><value><string>12</string></value></member></struct></value></param></params></methodCall>" in
    xml_rpc 0 raw
    ≡ ok (record {
      method_node = tree_node (codes "methodName") 31 4 no_children;
      struct_data = (codes "adminticket", tree_node (codes "string") 125 2 no_children) ∷ [];
    })
unfolding xml_rpc process_method_call get_struct_members xml_members xml_string first_child
    named_child nchild get_raw_content decode_xml decode_loop insert process_document
    process_children next_tag close_tag find_char last_or
test_request = refl
