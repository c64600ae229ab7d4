-- ===== src/Tools/Arguments.antt =====
-- validateArgs and requireString of internal/tools/gateway.go.
use mathlib.Core.List.{◌∷◌, []}
use orvexa.Base.{List, String, Option, if◌then◌else◌, str_eq, some, ltb, byte_length, is_blank}
use orvexa.Errors.{Error, invalid_error}
use mathlib.Core.Option.{none}

pub data Arg : Type 0 where
  text_arg : String → Arg
  other_arg : Arg

-- `args[field].(string)`, where a missing key and another type give "".
unfoldable pub text_of : String → List (String × Arg) → String
text_of field [] = ""
text_of field ((f, text_arg s) ∷ rest) = if str_eq f field then s else text_of field rest
text_of field ((f, other_arg) ∷ rest) = if str_eq f field then "" else text_of field rest

unfoldable pub require_string : List (String × Arg) → String → Option Error
unfolding is_blank byte_length text_of
require_string args field =
    if is_blank (text_of field args)
    then some (invalid_error "tool.field_required")
    else if ltb 512 (byte_length (text_of field args))
    then some (invalid_error "tool.field_too_long")
    else none

unfoldable pub require_body : String → Option Error
unfolding is_blank byte_length
require_body body =
    if is_blank body
    then some (invalid_error "tool.body_required")
    else if ltb 4096 (byte_length body)
    then some (invalid_error "tool.body_too_long")
    else none

abbrev or_then : Option Error → Option Error → Option Error
or_then none next = next
or_then (some e) next = some e

unfoldable pub validate_args : String → List (String × Arg) → Option Error
unfolding require_string require_body
validate_args tool args =
    if str_eq tool "get_customer"
    then require_string args "customer_id"
    else if str_eq tool "create_case"
    then or_then (require_string args "customer_id") (require_string args "subject")
    else if str_eq tool "send_whatsapp"
    then or_then (require_string args "to") (require_body (text_of "body" args))
    else some (invalid_error "tool.unknown")
