-- ===== src/XmlRpc/Responses.antt =====
-- The responses of src/xmlrpc.h, read by the parser of src/xml.h.
use vpl_jail_system.Prelude.{
  leb, ◌==◌, if◌then◌else◌, Bytes, codes, All, ℕ, refl, Bool, true, false, not, List, [], arith,
  ◌+◌, ◌≡◌, ◌&&◌, ◌∷◌,
}
use vpl_jail_system.Message.{TreeNode, ok}
use vpl_jail_system.Util.Sizes.{decimal}
use vpl_jail_system.Util.Decimal.{decimal_loop-All}
use vpl_jail_system.Xml.{encode_xml}
use vpl_jail_system.Xml.RoundTrip.{Inert, encode_xml-Inert}
use vpl_jail_system.Xml.Parser.{last_or, process_document}
use vpl_jail_system.Xml.Parser.Printed.{
  Element, element, ends_with, IsText, IsName, IsPlainElement, IsPlainContent,
}
use vpl_jail_system.Xml.Parser.Reading.{Represents, parse-print_document}
use vpl_jail_system.JsonRpc.Responses.{Response}
use vpl_jail_system.XmlRpc.{int32_max}
use vpl_jail_system.XmlRpc.Said.{
  MemberValue, as_text, as_number, Member, nl, xml_said, one, line, xml_respond, value_element,
  member_element, struct_content, response_element, declaration, xml_respond-print,
}

Inert-IsText : (s : Bytes) → All Inert s → IsText s
Inert-IsText [] h = tt
Inert-IsText (c ∷ s) h = (ground (arith, h.0), Inert-IsText s h.1)

decimal-IsText : (n : ℕ) → IsText (decimal n)
unfolding decimal
decimal-IsText n = decimal_loop-All (λ d. (d == b'<') ≡ false) (λ d h. ground arith) (n + 1) n

nl-IsText : IsText nl
nl-IsText = (refl, tt)

-- All bytes of a text differ from one.
no_byte : ℕ → Bytes → Bool
no_byte c [] = true
no_byte c (d ∷ s) = not (d == c) && no_byte c s

no_byte-All : (c : ℕ) (s : Bytes) → no_byte c s ≡ true → All (λ d. (d == c) ≡ false) s
unfolding no_byte
no_byte-All c [] h = tt
no_byte-All c (d ∷ s) h = (ground arith, no_byte-All c s (ground arith))

is_name : Bytes → Bool
is_name [] = false
is_name (c ∷ s) = not (c == b'/') && (not (last_or c s == b'/') && no_byte b'>' (c ∷ s))

is_name-IsName : (s : Bytes) → is_name s ≡ true → IsName s
unfolding is_name no_byte
is_name-IsName [] h = absurd (ground arith)
is_name-IsName (c ∷ s) h = (ground arith, ground arith, no_byte-All b'>' (c ∷ s) (ground arith))

module _ (dtos : ℕ → Bytes) (plain : (n : ℕ) → IsText (dtos n)) where
  value_element-plain : (v : MemberValue) → IsPlainElement (value_element dtos v)
  unfolding IsPlainElement last_or no_byte is_name
  value_element-plain (as_text s) =
      (is_name-IsName (codes "string") refl, Inert-IsText (encode_xml s) (encode_xml-Inert s))
  value_element-plain (as_number n) = numbered (leb n int32_max)
    where
      numbered :
          (b : Bool)
          → IsPlainElement (
              if b
              then element (codes "int") (ends_with (decimal n))
              else element (codes "double") (ends_with (dtos n)))
      numbered true = (is_name-IsName (codes "int") refl, decimal-IsText n)
      numbered false = (is_name-IsName (codes "double") refl, plain n)

  member_element-plain : (m : Member) → IsPlainElement (member_element dtos m)
  unfolding IsPlainElement last_or no_byte is_name
  member_element-plain (name, v) =
      let named = Inert-IsText (encode_xml name) (encode_xml-Inert name) in
      let whole : IsPlainElement (element (codes "value") (one (value_element dtos v))) =
        (is_name-IsName (codes "value") refl, (tt, value_element-plain v, tt)) in
      (
        is_name-IsName (codes "member") refl,
        (tt, (is_name-IsName (codes "name") refl, named), (nl-IsText, whole, nl-IsText)),
      )

  struct_content-plain : (ms : List Member) → IsPlainContent (struct_content dtos ms)
  unfolding IsPlainElement struct_content
  struct_content-plain [] = nl-IsText
  struct_content-plain (m ∷ ms) = (nl-IsText, member_element-plain m, struct_content-plain ms)

  line-plain :
      (name : Bytes) (e : Element)
      → IsName name
      → IsPlainElement e
      → IsPlainElement (element name (line e))
  unfolding IsPlainElement
  line-plain name e n h = (n, (nl-IsText, h, nl-IsText))

  response_element-plain : (r : Response) → IsPlainElement (response_element dtos r)
  unfolding IsPlainElement last_or no_byte is_name
  response_element-plain r =
      let st = element (codes "struct") (struct_content dtos (xml_said r)) in
      let param = element (codes "param") (line st) in
      line-plain (codes "methodResponse") (element (codes "params") (line param))
        (is_name-IsName (codes "methodResponse") refl)
        (line-plain (codes "params") param (is_name-IsName (codes "params") refl) (
          line-plain (codes "param") st (is_name-IsName (codes "param") refl)
            (is_name-IsName (codes "struct") refl, struct_content-plain (xml_said r))))

  -- Whatever texts and numbers a response is given, the parser reads it, and its tree is that of the response:
  -- under the struct one member for each thing that is said, in order, whose name and value have as raw
  -- contents the texts as encodeXML writes them, a number up to INT32_MAX in decimal digits, and a larger
  -- one as dtos writes it. What dtos writes is to hold no `<`.
  pub parse-xml_respond :
      (outside : ℕ) (r : Response)
      → (n : TreeNode) × (process_document outside (xml_respond dtos r) ≡ ok n)
        × Represents (xml_respond dtos r) (response_element dtos r) n
  unfolding no_byte
  parse-xml_respond outside r = rw (xml_respond-print dtos r) (
      parse-print_document outside (declaration dtos) nl (response_element dtos r) nl
        (no_byte-All b'>' (declaration dtos) refl) nl-IsText (response_element-plain r))
