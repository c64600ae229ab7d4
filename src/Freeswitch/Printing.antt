-- ===== src/Freeswitch/Printing.antt =====
-- ParseEvent and the writers of frames in internal/telephony/adapters/freeswitch/frame.go.
use orvexa.Base.{◌∷◌, List, if◌then◌else◌, Option, ℕ, length, ◌++◌, [], suc, some}
use orvexa.Strconv.{itoa}
use orvexa.Freeswitch.{Header, same_bytes, is_empty, trim_return, split_header}
use mathlib.Core.List.{[]}
use mathlib.Core.Option.{none}
use Prim.Native.Nat.{zero}
use orvexa.Bytes.{Bytes, codes, break_at, lower, lex_lt}

-- A map from names to values: its entries in the order of sort.Strings.
abbrev pub Fields : Type 0
Fields = List Header

-- fields[name] = val
unfoldable pub set_field : Bytes → Bytes → Fields → Fields
set_field name val [] = (name, val) ∷ []
set_field name val ((n, v) ∷ fs) =
    let later = (n, v) ∷ set_field name val fs in
    if same_bytes name n
    then (name, val) ∷ fs
    else if lex_lt name n
    then (name, val) ∷ (n, v) ∷ fs
    else later

-- EventField on lower-case keys
unfoldable pub event_field : Bytes → Fields → Bytes
event_field name [] = []
event_field name ((n, v) ∷ fs) = if same_bytes (lower name) n then v else event_field name fs

pub data Parsed : Type 0 where
  parsed : Fields → Bytes → Parsed
  bad_line : Parsed
  out_of_fuel : Parsed

-- The next line and what is left; the last line may have no newline.
unfoldable pub next_line : Bytes → Option (Bytes × Bytes) → Bytes × Bytes
next_line s none = (s, [])
next_line s (some (line, rest)) = (line, rest)

-- What a round of the loop does with a header of the event; `next` goes on.
unfoldable pub add_field : (Fields → Parsed) → Fields → Option Header → Parsed
add_field next fields none = bad_line
add_field next fields (some (name, val)) = next (set_field (lower name) val fields)

unfoldable pub event_round : (Fields → Bytes → Parsed) → Fields → Bytes × Bytes → Parsed
unfolding add_field
event_round next fields (line, rest) =
    if is_empty (trim_return line)
    then parsed fields rest
    else add_field (λ fs. next fs rest) fields (split_header (trim_return line))

-- The loop of ParseEvent, each round of which takes a byte at least from what is left.
unfoldable pub parse_lines : ℕ → Fields → Bytes → Parsed
unfolding next_line event_round
parse_lines fuel fields [] = parsed fields []
parse_lines zero fields (c ∷ s) = out_of_fuel
parse_lines (suc fuel) fields (c ∷ s) =
    event_round (parse_lines fuel) fields (next_line (c ∷ s) (break_at b'\n' (c ∷ s)))

-- ParseEvent
unfoldable pub parse_event : Bytes → Parsed
unfolding parse_lines
parse_event body = parse_lines (length body) [] body

-- One line of a header block: `name: val`.
unfoldable pub header_line : Header → Bytes
header_line (name, val) = name ++ (b':' ∷ b' ' ∷ (val ++ (b'\n' ∷ [])))

unfoldable pub field_lines : Fields → Bytes
unfolding header_line
field_lines [] = []
field_lines (h ∷ fs) = header_line h ++ field_lines fs

-- payloadBody
unfoldable pub payload_body : Fields → Bytes → Bytes
unfolding field_lines
payload_body fields payload =
    if is_empty payload then field_lines fields else field_lines fields ++ (b'\n' ∷ payload)

-- A frame with a Content-Length: eventFrame and apiResponseFrame.
unfoldable pub sized_frame : Bytes → Bytes → Bytes
unfolding header_line
sized_frame content_type body =
    header_line (codes "Content-Type", content_type)
    ++ (header_line (codes "Content-Length", itoa (length body)) ++ (b'\n' ∷ body))

unfoldable pub event_frame : Fields → Bytes → Bytes
unfolding sized_frame payload_body
event_frame fields payload = sized_frame (codes "text/event-plain") (payload_body fields payload)

unfoldable pub api_response_frame : Bytes → Bytes
unfolding sized_frame
api_response_frame body = sized_frame (codes "api/response") body

-- replyFrame
unfoldable pub reply_frame : Bytes → Fields → Bytes
unfolding field_lines
reply_frame reply extra =
    header_line (codes "Content-Type", codes "command/reply")
    ++ (header_line (codes "Reply-Text", reply) ++ (field_lines extra ++ (b'\n' ∷ [])))

-- bareFrame
unfoldable pub bare_frame : Bytes → Fields → Bytes
unfolding field_lines
bare_frame content_type extra =
    header_line (codes "Content-Type", content_type) ++ (field_lines extra ++ (b'\n' ∷ []))
