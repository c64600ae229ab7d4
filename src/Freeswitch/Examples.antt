-- ===== src/Freeswitch/Examples.antt =====
-- A hangup event, written as a frame and read from a stream that goes on.
use orvexa.Base.{◌∷◌, [], ◌≢◌, All, arith, ◌++◌, ◌≡◌, length, ◌≤◌, refl}
use orvexa.Strconv.{atoi, unsigned, within, scan}
use orvexa.Freeswitch.{
  read_frame, trim_return, read_headers, read_line, Frame, line_of, max_frame_bytes, trim_line,
  split_header, header_of, got, add_header, finish_frame, read_body, header, content_type_of,
  max_headers, sized_body, read_full,
}
use orvexa.Freeswitch.Printing.{
  Fields, parse_event, payload_body, field_lines, out_of_fuel, header_line, event_frame, parsed,
}
use orvexa.Freeswitch.Events.{IsField, parse_event-ends}
use orvexa.Freeswitch.Frames.{read_frame-event_frame}
use orvexa.Freeswitch.Bounds.{IsBounded, read_frame-bounds}
use orvexa.Bytes.{break_at, codes, Bytes}

abbrev hangup : Fields
hangup = (codes "event-name", codes "CHANNEL_HANGUP") ∷ (codes "unique-id", codes "7f:3") ∷ []

abbrev payload : Bytes
payload = codes "bye"

event_name-IsField : IsField (codes "event-name", codes "CHANNEL_HANGUP")
unfolding trim_return
event_name-IsField = (
  record {
    named = refl;
    no_colon = ground arith;
    name_in_line = ground arith;
    val_in_line = ground arith;
    no_return = refl;
  },
  refl,
)

unique_id-IsField : IsField (codes "unique-id", codes "7f:3")
unfolding trim_return
unique_id-IsField = (
  record {
    named = refl;
    no_colon = ground arith;
    name_in_line = ground arith;
    val_in_line = ground arith;
    no_return = refl;
  },
  refl,
)

read_frame-event_frame_example :
    (f : Frame) × (read_frame max_frame_bytes (event_frame hangup payload ++ codes "more")
      ≡ got f (codes "more"))
    × (f.content_type ≡ codes "text/event-plain")
    × (parse_event f.body ≡ parsed hangup payload)
unfolding payload_body field_lines header_line
read_frame-event_frame_example =
    read_frame-event_frame hangup payload (codes "more")
      (event_name-IsField, (unique_id-IsField, tt)) ((refl, tt), (tt, tt)) (omega arith)

parse_event-ends_example : parse_event (codes "a: b\n\nc") ≢ out_of_fuel
parse_event-ends_example = parse_event-ends (codes "a: b\n\nc")

abbrev greeting : Frame
greeting = record {
  content_type = codes "x";
  body = codes "hi";
  headers = (codes "Content-Type", codes "x") ∷ (codes "Content-Length", codes "2") ∷ [];
}

read_frame-bounds_example :
    (length greeting.body ≤ 40)
    × (length greeting.headers ≤ max_headers)
    × All (IsBounded 40) greeting.headers
unfolding read_frame read_headers read_line line_of trim_line trim_return break_at split_header
    header_of add_header finish_frame read_body header content_type_of sized_body read_full atoi
    unsigned within scan
read_frame-bounds_example =
    read_frame-bounds 40 (codes "Content-Type: x\nContent-Length: 2\n\nhi") [] greeting refl
