-- ===== src/Freeswitch.antt =====
-- internal/telephony/adapters/freeswitch/frame.go: the frames of the event socket over a stream of
-- bytes that ends. A stream is what the reader has not yet read; bufio's buffer of 4096 bytes shows
-- only in the error of a line that never ends. Header names are ASCII, which is what strings.ToLower,
-- strings.EqualFold and strings.TrimSpace are modelled on. A Go map is its list of entries in the
-- order of the keys.
pub mod Printing
pub mod Lines
pub mod Events
pub mod Frames
pub mod Bounds
mod Examples
use orvexa.Base.{
  ◌∷◌, ℕ, zero, suc, ◌+◌, ◌*◌, ◌/◌, List, [], Option, none, some, Bool, true, false, not, ltb, leb,
  ◌==◌, ◌&&◌, ◌||◌, if◌then◌else◌, length, take, drop, String,
}
use orvexa.Bytes.{break_at, Bytes, codes, equal_fold, same_bytes}
use orvexa.Strconv.{atoi}

abbrev pub max_frame_bytes : ℕ
max_frame_bytes = 8388608

abbrev pub max_headers : ℕ
max_headers = 128

-- The size of bufio's buffer.
abbrev pub buffer_bytes : ℕ
buffer_bytes = 4096

pub data FrameError : Type 0 where
  frame_too_large malformed_frame short_frame eof : FrameError

-- What was read, with the stream that is left.
pub data Read (A : Type 0) : Type 0 where
  got : A → Bytes → Read A
  failed : FrameError → Read A

abbrev pub Header : Type 0
Header = Bytes × Bytes

pub record Frame : Type 0 where
  pub content_type : Bytes
  pub body : Bytes
  pub headers : List Header

-- strings.TrimSuffix(line, "\r")
unfoldable pub trim_return : Bytes → Bytes
trim_return [] = []
trim_return (c ∷ []) = if c == b'\r' then [] else c ∷ []
trim_return (c ∷ d ∷ s) = c ∷ trim_return (d ∷ s)

-- A stream without a newline: the buffer filled up past the limit, or the stream ended.
unfoldable pub unended : ℕ → Bytes → FrameError
unended limit s =
    if ltb limit (length s / buffer_bytes * buffer_bytes)
    then frame_too_large
    else if length s == 0
    then eof
    else short_frame

-- trimLine, on a line without its newline
unfoldable pub trim_line : ℕ → Bytes → Bytes → Read Bytes
unfolding trim_return
trim_line limit line rest =
    if ltb limit (length line + 1) then failed frame_too_large else got (trim_return line) rest

unfoldable pub line_of : ℕ → Bytes → Option (Bytes × Bytes) → Read Bytes
unfolding unended trim_line
line_of limit s none = failed (unended limit s)
line_of limit s (some (line, rest)) = trim_line limit line rest

-- readLine
unfoldable pub read_line : ℕ → Bytes → Read Bytes
unfolding line_of
read_line limit s = line_of limit s (break_at b'\n' s)

abbrev pub is_space : ℕ → Bool
is_space c = leb 9 c && leb c 13 || c == b' '

abbrev pub is_blank : Bytes → Bool
is_blank [] = true
is_blank (c ∷ s) = is_space c && is_blank s

-- strings.TrimPrefix(val, " ")
abbrev pub trim_space : Bytes → Bytes
trim_space [] = []
trim_space (c ∷ s) = if c == b' ' then s else c ∷ s

unfoldable pub header_of : Option (Bytes × Bytes) → Option Header
header_of none = none
header_of (some (name, val)) = if is_blank name then none else some (name, trim_space val)

-- splitHeader
unfoldable pub split_header : Bytes → Option Header
unfolding header_of
split_header line = header_of (break_at b':' line)

abbrev pub content_type_name : Bytes
content_type_name = codes "content-type"

abbrev pub content_length_name : Bytes
content_length_name = codes "content-length"

abbrev pub reply_text_name : Bytes
reply_text_name = codes "reply-text"

abbrev pub prepend : Header → Read (List Header) → Read (List Header)
prepend h (got hs rest) = got (h ∷ hs) rest
prepend h (failed e) = failed e

-- One round of the loop of ReadFrame, the first test of the first round included; `more` goes on.
unfoldable pub add_header : Bool → Option Header → Read (List Header) → Read (List Header)
add_header first none more = failed malformed_frame
add_header first (some (name, val)) more =
    if first && not (equal_fold name content_type_name)
    then failed malformed_frame
    else prepend (name, val) more

abbrev pub is_empty {ℓ} : {A : Type ℓ} → List A → Bool
is_empty [] = true
is_empty (x ∷ xs) = false

-- The header block, with the rounds that are left.
unfoldable pub read_headers : ℕ → Bool → ℕ → Bytes → Read (List Header)
read_headers zero first limit s = failed malformed_frame
read_headers (suc left) first limit s = elim (read_line limit s) [
  | failed e ↦ failed e
  | got line rest ↦
      let more = read_headers left false limit rest in
      if is_empty line then got [] rest else add_header first (split_header line) more
]

-- The last Content-Type counts.
unfoldable pub content_type_of : Bytes → List Header → Bytes
content_type_of seen [] = seen
content_type_of seen ((name, val) ∷ hs) =
    content_type_of (if equal_fold name content_type_name then val else seen) hs

-- Frame.Header: the first header of the name counts.
unfoldable pub header : Bytes → List Header → Bytes
header name [] = []
header name ((n, val) ∷ hs) = if equal_fold n name then val else header name hs

abbrev pub frame_of : List Header → Bytes → Frame
frame_of hs body = record { content_type = content_type_of [] hs; body = body; headers = hs }

-- io.ReadFull
unfoldable pub read_full : ℕ → List Header → Bytes → Read Frame
read_full n hs rest =
    if ltb (length rest) n
    then failed short_frame
    else got (frame_of hs (take n rest)) (drop n rest)

unfoldable pub sized_body : ℕ → Option ℕ → List Header → Bytes → Read Frame
unfolding read_full
sized_body limit none hs rest = failed malformed_frame
sized_body limit (some n) hs rest =
    if ltb limit n then failed frame_too_large else read_full n hs rest

unfoldable pub read_body : ℕ → List Header → Bytes → Read Frame
unfolding sized_body header
read_body limit hs rest =
    if is_empty (header content_length_name hs)
    then got (frame_of hs []) rest
    else sized_body limit (atoi (header content_length_name hs)) hs rest

-- `sawCT` after the loop
abbrev pub has_content_type : List Header → Bool
has_content_type [] = false
has_content_type ((name, val) ∷ hs) = equal_fold name content_type_name || has_content_type hs

unfoldable pub finish_frame : ℕ → Read (List Header) → Read Frame
unfolding read_body content_type_of
finish_frame limit (failed e) = failed e
finish_frame limit (got hs rest) =
    if has_content_type hs then read_body limit hs rest else failed malformed_frame

-- ReadFrame
unfoldable pub read_frame : ℕ → Bytes → Read Frame
unfolding finish_frame
read_frame limit s = finish_frame limit (read_headers (max_headers + 1) true limit s)

-- Frame.Result
unfoldable pub trim_newlines : Bytes → Bytes
trim_newlines [] = []
trim_newlines (c ∷ s) =
    let rest = trim_newlines s in if is_empty rest && c == b'\n' then [] else c ∷ rest

unfoldable pub result : Frame → Bytes
unfolding trim_newlines header
result f =
    if same_bytes f.content_type (codes "api/response")
    then trim_newlines f.body
    else header reply_text_name f.headers
