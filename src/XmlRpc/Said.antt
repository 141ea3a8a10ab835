-- ===== src/XmlRpc/Said.antt =====
-- What the responses of src/xmlrpc.h say, as elements of src/xml.h.
use vpl_jail_system.Prelude.{
  leb, if◌then◌else◌, Bool-cases, Bytes, codes, ℕ, refl, ap, inl, inr, Bool, true, List, [],
  append_assoc, ◌≡◌, ◌∙◌, ◌∷◌, ◌++◌,
}
use vpl_jail_system.Util.Sizes.{decimal}
use vpl_jail_system.Xml.{encode_xml}
use vpl_jail_system.Xml.Parser.Printed.{
  Element, element, Content, ends_with, piece, print_element, print_content,
}
use vpl_jail_system.Xml.Parser.Reading.{print_document}
use vpl_jail_system.JsonRpc.Responses.{
  Response, available, requested, direct_run, got_result, updated, running, stopped,
}
use vpl_jail_system.XmlRpc.{
  xml_response_wraper, xml_text_member, int32_max, xml_number_member, xml_available_response,
  xml_request_response, xml_direct_run_response, xml_get_result_response, xml_flag_response,
}

-- The value of a member.
pub data MemberValue : Type 0 where
  as_text : Bytes → MemberValue
  as_number : ℕ → MemberValue

abbrev pub Member : Type 0
Member = Bytes × MemberValue

abbrev pub nl : Bytes
nl = codes "\n"

abbrev flagged : Bool → MemberValue
flagged b = as_number (if b then 1 else 0)

-- What a response says.
abbrev pub xml_said : Response → List Member
xml_said (available status load maxtime maxfilesize maxmemory maxprocesses secureport) =
    (codes "status", as_text status)
    ∷ (codes "load", as_number load)
    ∷ (codes "maxtime", as_number maxtime)
    ∷ (codes "maxfilesize", as_number maxfilesize)
    ∷ (codes "maxmemory", as_number maxmemory)
    ∷ (codes "maxprocesses", as_number maxprocesses)
    ∷ (codes "secureport", as_number secureport)
    ∷ []
xml_said (requested admin monitor execution port secuport) =
    (codes "adminticket", as_text admin)
    ∷ (codes "monitorticket", as_text monitor)
    ∷ (codes "executionticket", as_text execution)
    ∷ (codes "port", as_number port)
    ∷ (codes "secureport", as_number secuport)
    ∷ []
xml_said (direct_run homepath admin execution port secuport) =
    (codes "homepath", as_text homepath)
    ∷ (codes "adminticket", as_text admin)
    ∷ (codes "executionticket", as_text execution)
    ∷ (codes "port", as_number port)
    ∷ (codes "secureport", as_number secuport)
    ∷ []
xml_said (got_result compilation execution executed interactive) =
    (codes "compilation", as_text compilation)
    ∷ (codes "execution", as_text execution)
    ∷ (codes "executed", flagged executed)
    ∷ (codes "interactive", flagged interactive)
    ∷ []
xml_said (updated done) = (codes "update", flagged done) ∷ []
xml_said (running done) = (codes "running", flagged done) ∷ []
xml_said stopped = (codes "stop", flagged true) ∷ []

abbrev pub only : Bytes → Content
only t = ends_with t

abbrev pub one : Element → Content
one e = piece [] e (ends_with [])

abbrev pub line : Element → Content
line e = piece nl e (ends_with nl)

module _ (dtos : ℕ → Bytes) where
  -- The method that writes it.
  abbrev pub xml_respond : Response → Bytes
  xml_respond (available status load maxtime maxfilesize maxmemory maxprocesses secureport) =
      xml_available_response dtos status load maxtime maxfilesize maxmemory maxprocesses secureport
  xml_respond (requested admin monitor execution port secuport) =
      xml_request_response dtos admin monitor execution port secuport
  xml_respond (direct_run homepath admin execution port secuport) =
      xml_direct_run_response dtos homepath admin execution port secuport
  xml_respond (got_result compilation execution executed interactive) =
      xml_get_result_response dtos compilation execution executed interactive
  xml_respond (updated done) = xml_flag_response dtos (codes "update") done
  xml_respond (running done) = xml_flag_response dtos (codes "running") done
  xml_respond stopped = xml_flag_response dtos (codes "stop") true

  -- A value as an element: numbers up to INT32_MAX are written as `int`.
  abbrev pub value_element : MemberValue → Element
  value_element (as_text s) = element (codes "string") (only (encode_xml s))
  value_element (as_number n) =
      if leb n int32_max
      then element (codes "int") (only (decimal n))
      else element (codes "double") (only (dtos n))

  abbrev pub member_element : Member → Element
  member_element (name, v) = element (codes "member") (
      piece [] (element (codes "name") (only (encode_xml name)))
        (line (element (codes "value") (one (value_element v)))))

  unfoldable pub struct_content : List Member → Content
  struct_content [] = ends_with nl
  struct_content (m ∷ ms) = piece nl (member_element m) (struct_content ms)

  -- The whole message: the members in order within their struct.
  abbrev pub response_element : Response → Element
  response_element r = element (codes "methodResponse") (
      line (
        element (codes "params") (
          line (
            element (codes "param")
              (line (element (codes "struct") (struct_content (xml_said r))))))))

  abbrev pub declaration : Bytes
  declaration = codes "?xml version=\"1.0\" encoding=\"UTF-8\"?"

  member_bytes : Member → Bytes
  member_bytes (name, as_text s) = xml_text_member name s
  member_bytes (name, as_number n) = xml_number_member dtos name n

  joined : List Member → Bytes
  joined [] = []
  joined (m ∷ []) = member_bytes m
  joined (m ∷ o ∷ ms) = member_bytes m ++ joined (o ∷ ms)

  respond-joined : (r : Response) → xml_respond r ≡ xml_response_wraper (joined (xml_said r))
  unfolding xml_available_response xml_request_response xml_direct_run_response
      xml_get_result_response xml_flag_response joined member_bytes
  respond-joined (available _ _ _ _ _ _ _) = refl
  respond-joined (requested _ _ _ _ _) = refl
  respond-joined (direct_run _ _ _ _ _) = refl
  respond-joined (got_result _ _ _ _) = refl
  respond-joined (updated _) = refl
  respond-joined (running _) = refl
  respond-joined stopped = refl

  member_bytes-print : (m : Member) → member_bytes m ≡ print_element (member_element m) ++ nl
  unfolding member_bytes xml_text_member xml_number_member print_element
  member_bytes-print (name, as_text s) = simp append_assoc
  member_bytes-print (name, as_number n) = elim (Bool-cases (leb n int32_max)) [
    | inl e ↦ rw e (simp append_assoc)
    | inr e ↦ rw e (simp append_assoc)
  ]

  joined-print : (ms : List Member) → nl ++ joined ms ≡ print_content (struct_content ms)
  unfolding joined struct_content print_element
  joined-print [] = refl
  joined-print (m ∷ []) = ap (λ u. nl ++ u) (member_bytes-print m)
  joined-print (m ∷ o ∷ ms) =
      ap (λ u. nl ++ u)
        (ap (λ u. u ++ joined (o ∷ ms)) (member_bytes-print m)
          ∙ append_assoc (print_element (member_element m)) nl _
          ∙ ap (λ u. print_element (member_element m) ++ u) (joined-print (o ∷ ms)))

  pub xml_respond-print :
      (r : Response) → xml_respond r ≡ print_document declaration nl (response_element r) nl
  unfolding xml_response_wraper print_element
  xml_respond-print r = respond-joined r ∙ rw (← joined-print (xml_said r)) (simp append_assoc)
