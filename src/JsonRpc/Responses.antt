-- ===== src/JsonRpc/Responses.antt =====
-- The responses of src/jsonrpc.h, read by the parser of src/json.h.
use vpl_jail_system.Util.Decimal.{decimal_loop-All}
use vpl_jail_system.Message.{TreeNode, ok}
use vpl_jail_system.Prelude.{
  ltb, if◌then◌else◌, ltb→lt, Bool-cases, Bytes, codes, All, ℕ, zero, suc, refl, inl, inr, Bool,
  true, false, [], append_assoc, arith, ◌+◌, ◌/◌, ◌<◌, ◌≡◌, ◌∙◌, ◌∷◌, ◌++◌,
}
use vpl_jail_system.Util.Sizes.{decimal_loop, decimal}
use vpl_jail_system.Json.{escaped, encode_json_string}
use vpl_jail_system.Json.Parser.{ends_number, starts_number, process_raw_data}
use vpl_jail_system.Json.Parser.Reading.{Represents, parse-print}
use vpl_jail_system.Json.Printed.{
  Value, number, text, object, Fields, no_fields, field, quoted, print, IsNumber, IsPlain, HasPlain,
}
use vpl_jail_system.JsonRpc.{
  text_member, number_member, response_wraper, available_response, request_response,
  direct_run_response, get_result_response, flag_response, update_response, running_response,
  stop_response,
}

-- The responses, with what each method is given.
pub data Response : Type 0 where
  available : Bytes → ℕ → ℕ → ℕ → ℕ → ℕ → ℕ → Response
  requested : Bytes → Bytes → Bytes → ℕ → ℕ → Response
  direct_run : Bytes → Bytes → Bytes → ℕ → ℕ → Response
  got_result : Bytes → Bytes → Bool → Bool → Response
  updated : Bool → Response
  running : Bool → Response
  stopped : Response

-- The method that writes it.
abbrev pub respond : Bytes → Response → Bytes
respond id (available status load maxtime maxfilesize maxmemory maxprocesses secureport) =
    available_response id status load maxtime maxfilesize maxmemory maxprocesses secureport
respond id (requested admin monitor execution port secuport) =
    request_response id admin monitor execution port secuport
respond id (direct_run homepath admin execution port secuport) =
    direct_run_response id homepath admin execution port secuport
respond id (got_result compilation execution executed interactive) =
    get_result_response id compilation execution executed interactive
respond id (updated done) = update_response id done
respond id (running done) = running_response id done
respond id stopped = stop_response id

abbrev text_field : Bytes → Bytes → Fields → Fields
text_field name s = field name (text s)

abbrev number_field : Bytes → ℕ → Fields → Fields
number_field name n = field name (number (decimal n))

abbrev flag_field : Bytes → Bool → Fields → Fields
flag_field name b = number_field name (if b then 1 else 0)

-- What a response says.
abbrev pub said : Response → Fields
said (available status load maxtime maxfilesize maxmemory maxprocesses secureport) =
    text_field (codes "status") status (
      number_field (codes "load") load (
        number_field (codes "maxtime") maxtime (
          number_field (codes "maxfilesize") maxfilesize (
            number_field (codes "maxmemory") maxmemory (
              number_field (codes "maxprocesses") maxprocesses
                (number_field (codes "secureport") secureport no_fields))))))
said (requested admin monitor execution port secuport) = text_field (codes "adminticket") admin (
    text_field (codes "monitorticket") monitor (
      text_field (codes "executionticket") execution
        (number_field (codes "port") port (number_field (codes "secureport") secuport no_fields))))
said (direct_run homepath admin execution port secuport) = text_field (codes "homepath") homepath (
    text_field (codes "adminticket") admin (
      text_field (codes "executionticket") execution
        (number_field (codes "port") port (number_field (codes "secureport") secuport no_fields))))
said (got_result compilation execution executed interactive) =
    text_field (codes "compilation") compilation (
      text_field (codes "execution") execution (
        flag_field (codes "executed") executed
          (flag_field (codes "interactive") interactive no_fields)))
said (updated done) = flag_field (codes "update") done no_fields
said (running done) = flag_field (codes "running") done no_fields
said stopped = flag_field (codes "stop") true no_fields

-- The whole message.
abbrev pub message : Bytes → Response → Value
message id r = object (
    field (codes "jsonrpc") (text (codes "2.0"))
      (field (codes "result") (object (said r)) (field (codes "id") (text id) no_fields)))

pub respond-response_wraper :
    (id : Bytes) (r : Response) → respond id r ≡ response_wraper id (print (object (said r)))
unfolding available_response request_response direct_run_response get_result_response flag_response
    text_member number_member print quoted encode_json_string escaped
respond-response_wraper id (available _ _ _ _ _ _ _) = refl
respond-response_wraper id (requested _ _ _ _ _) = refl
respond-response_wraper id (direct_run _ _ _ _ _) = refl
respond-response_wraper id (got_result _ _ _ _) = refl
respond-response_wraper id (updated _) = refl
respond-response_wraper id (running _) = refl
respond-response_wraper id stopped = refl

respond-print :
    (id : Bytes) (r : Response) → encode_json_string id ≡ id → respond id r ≡ print (message id r)
unfolding response_wraper print quoted encode_json_string escaped
respond-print id r plain = respond-response_wraper id r ∙ rw (plain, append_assoc) refl

is_digit-number :
    (d : ℕ) → d < 10 → (starts_number (b'0' + d) ≡ true) × (ends_number (b'0' + d) ≡ false)
is_digit-number d h = ground arith

StartsNumber : Bytes → Type 0
StartsNumber [] = ⊥
StartsNumber (c ∷ s) = starts_number c ≡ true

StartsNumber-append : (s t : Bytes) → StartsNumber s → StartsNumber (s ++ t)
unfolding StartsNumber
StartsNumber-append [] t h = absurd h
StartsNumber-append (c ∷ s) t h = h

decimal_loop-starts : (fuel n : ℕ) → n < fuel → StartsNumber (decimal_loop fuel n)
unfolding decimal_loop StartsNumber
decimal_loop-starts zero n h = absurd (omega arith)
decimal_loop-starts (suc fuel) n h = elim (Bool-cases (ltb n 10)) [
  | inl e ↦ rw (e, decimal_loop) (is_digit-number n (ltb→lt n 10 e)).0
  | inr e ↦
      rw (e, decimal_loop)
        (StartsNumber-append (decimal_loop fuel (n / 10)) _
          (decimal_loop-starts fuel (n / 10) (ground arith)))
]

IsNumber-intro : (s : Bytes) → StartsNumber s → All (λ d. ends_number d ≡ false) s → IsNumber s
unfolding StartsNumber
IsNumber-intro [] h all = h
IsNumber-intro (c ∷ s) h all = (h, all)

decimal-IsNumber : (n : ℕ) → IsNumber (decimal n)
unfolding decimal
decimal-IsNumber n =
    IsNumber-intro (decimal_loop (n + 1) n) (decimal_loop-starts (n + 1) n (omega arith))
      (decimal_loop-All (λ d. ends_number d ≡ false) (λ d h. (is_digit-number d h).1) (n + 1) n)

pub said-HasPlain : (r : Response) → HasPlain (said r)
unfolding HasPlain
said-HasPlain (available a b c d e f g) = (
  tt,
  (
    decimal-IsNumber b,
    (
      decimal-IsNumber c,
      (decimal-IsNumber d, (decimal-IsNumber e, (decimal-IsNumber f, (decimal-IsNumber g, tt)))),
    ),
  ),
)
said-HasPlain (requested a b c d e) =
    (tt, (tt, (tt, (decimal-IsNumber d, (decimal-IsNumber e, tt)))))
said-HasPlain (direct_run a b c d e) =
    (tt, (tt, (tt, (decimal-IsNumber d, (decimal-IsNumber e, tt)))))
said-HasPlain (got_result a b c d) = (tt, (tt, (decimal-IsNumber _, (decimal-IsNumber _, tt))))
said-HasPlain (updated b) = (decimal-IsNumber _, tt)
said-HasPlain (running b) = (decimal-IsNumber _, tt)
said-HasPlain stopped = (decimal-IsNumber _, tt)

message-IsPlain : (id : Bytes) (r : Response) → IsPlain (message id r)
unfolding IsPlain
message-IsPlain id r = (tt, (said-HasPlain r, (tt, tt)))

-- Whatever texts and numbers a response is given: when encodeJSONString leaves the request's id as it is,
-- the parser reads the response, and the getters give back from its tree the version, the id and each
-- member with its text or number, in order.
pub parse-respond :
    (unset : ℕ) (id : Bytes) (r : Response)
    → encode_json_string id ≡ id
    → (n : TreeNode) × (process_raw_data unset (respond id r) ≡ ok n)
      × Represents unset (respond id r) (message id r) n
parse-respond unset id r plain =
    rw (respond-print id r plain) (parse-print unset (message id r) (message-IsPlain id r))
