-- ===== src/Upstream/EventStream.antt =====
-- src/upstream/event_stream.rs, the framing: the decoder that cuts the bytes of the upstream
-- response into messages. A checksum is a parameter, the CRC-32 of the crc library.
pub mod Chunks
pub mod Push
pub mod Headers
pub mod Events
use kiro_gateway.Common.{
  ℕ, zero, suc, ◌+◌, ◌-◌, ◌*◌, Bool, true, false, not, ◌&&◌, ◌||◌, List, [], ◌∷◌, ◌++◌, Option,
  none, some, length, take, drop, is_empty, ltb, leb, ◌==◌, if◌then◌else◌,
}
use kiro_gateway.Common.Text.{Text}
use kiro_gateway.Common.Result.{Result, ok, err, ◌>>=◌, ok_or}
use kiro_gateway.Common.Utf8.{from_utf8}

-- src/upstream/error.rs
pub data UpstreamStreamError : Type 0 where
  truncated_frame : ℕ → ℕ → UpstreamStreamError
  invalid_length : ℕ → UpstreamStreamError
  crc_mismatch malformed_header : UpstreamStreamError
  event upstream : Text → UpstreamStreamError

pub record EventMessage : Type 0 where
  pub headers : List (Text × Text)
  pub payload : List ℕ

pub record EventStreamDecoder : Type 0 where
  pub buffer : List ℕ
  pub max_frame_size : ℕ

abbrev pub default_decoder : EventStreamDecoder
default_decoder = record { buffer = []; max_frame_size = 16 * 1024 * 1024 }

-- `u32::from_be_bytes` and `u16::from_be_bytes`.
be_from : ℕ → List ℕ → ℕ
be_from n [] = n
be_from n (b ∷ bs) = be_from (n * 256 + b) bs

unfoldable pub be : List ℕ → ℕ
unfolding be_from
be bs = be_from 0 bs

-- `&bytes[from..to]`
abbrev pub slice : ℕ → ℕ → List ℕ → List ℕ
slice from to bs = take (to - from) (drop from bs)

-- The length of a header's value by its type, and the bytes after the length field.
unfoldable pub value_len : ℕ → List ℕ → Result (ℕ × List ℕ) UpstreamStreamError
value_len t bytes =
    if t == 0 || t == 1
    then ok (0, bytes)
    else if t == 2
    then ok (1, bytes)
    else if t == 3
    then ok (2, bytes)
    else if t == 4
    then ok (4, bytes)
    else if t == 5 || t == 8
    then ok (8, bytes)
    else if t == 9
    then ok (16, bytes)
    else if t == 6 || t == 7
    then (if ltb (length bytes) 2
        then err malformed_header
        else ok (be (take 2 bytes), drop 2 bytes))
    else err malformed_header

-- A text header is kept, a header of another type is skipped.
unfoldable pub header_value :
    Text → ℕ → ℕ → List ℕ → Result (List (Text × Text) × List ℕ) UpstreamStreamError
header_value name t len bytes =
    if ltb (length bytes) len
    then err malformed_header
    else if t == 7
    then (do
      value ← ok_or malformed_header (from_utf8 (take len bytes))
      ok ((name, value) ∷ [], drop len bytes))
    else ok ([], drop len bytes)

-- The rest of a round after the header's name.
unfoldable pub header_after_name :
    Text → List ℕ → Result (List (Text × Text) × List ℕ) UpstreamStreamError
unfolding value_len header_value
header_after_name name [] = err malformed_header
header_after_name name (t ∷ bytes) = do v ← value_len t bytes; header_value name t v.0 v.1

-- One round of `parse_headers` on what follows the length of a name.
unfoldable pub header_round : ℕ → List ℕ → Result (List (Text × Text) × List ℕ) UpstreamStreamError
unfolding header_after_name
header_round name_len bytes =
    if name_len == 0 || ltb (length bytes) (name_len + 1) then err malformed_header else (do
      name ← ok_or malformed_header (from_utf8 (take name_len bytes))
      header_after_name name (drop name_len bytes))

unfoldable pub parse_headers_from :
    ℕ → List ℕ → List (Text × Text) → Result (List (Text × Text)) UpstreamStreamError
parse_headers_from fuel [] headers = ok headers
parse_headers_from zero (name_len ∷ bytes) headers = ok headers
parse_headers_from (suc fuel) (name_len ∷ bytes) headers = elim (header_round name_len bytes) [
  | err e ↦ err e
  | ok r ↦ parse_headers_from fuel r.1 (headers ++ r.0)
]

-- Each round consumes its name's length at least.
unfoldable pub parse_headers : List ℕ → Result (List (Text × Text)) UpstreamStreamError
parse_headers bytes = parse_headers_from (length bytes) bytes []

module _ (checksum : List ℕ → ℕ) where
  -- What `decode_one` does with a whole frame.
  unfoldable pub decode_frame : ℕ → ℕ → List ℕ → Result (Option EventMessage) UpstreamStreamError
  decode_frame total_len headers_len frame =
      if not (checksum (take (total_len - 4) frame) == be (drop (total_len - 4) frame))
      then err crc_mismatch
      else if not (checksum (take 8 frame) == be (slice 8 12 frame))
      then err crc_mismatch
      else (do
        headers ← parse_headers (slice 12 (12 + headers_len) frame)
        ok (
            some (record {
              headers = headers;
              payload = slice (12 + headers_len) (total_len - 4) frame;
            })))

  abbrev pub lengths_ok : ℕ → ℕ → ℕ → Bool
  lengths_ok max total_len headers_len =
      leb 16 total_len && leb total_len max && leb headers_len (total_len - 16)

  -- The new buffer comes first.
  unfoldable pub decode_one : ℕ → List ℕ → List ℕ × Result (Option EventMessage) UpstreamStreamError
  decode_one max buffer =
      let total_len = be (take 4 buffer) in
      let headers_len = be (slice 4 8 buffer) in
      if ltb (length buffer) 12
      then (buffer, ok none)
      else if not (lengths_ok max total_len headers_len)
      then (buffer, err (invalid_length total_len))
      else if ltb (length buffer) total_len
      then (buffer, ok none)
      else (drop total_len buffer, decode_frame total_len headers_len (take total_len buffer))

  -- The loop of `push`.
  unfoldable pub push_loop :
      ℕ → ℕ → List ℕ → List EventMessage → List ℕ × Result (List EventMessage) UpstreamStreamError
  push_loop max zero buffer out = (buffer, ok out)
  push_loop max (suc fuel) buffer out =
      let r = decode_one max buffer in
      elim r.1 [
        | err e ↦ (r.0, err e)
        | ok none ↦ (r.0, ok out)
        | ok (some m) ↦ push_loop max fuel r.0 (out ++ m ∷ [])
      ]

  -- A message takes sixteen bytes at least, so the bytes in the buffer bound the rounds.
  unfoldable pub push :
      List ℕ
      → EventStreamDecoder
      → EventStreamDecoder × Result (List EventMessage) UpstreamStreamError
  push chunk d =
      let buffer = d.buffer ++ chunk in
      let r = push_loop d.max_frame_size (suc (length buffer)) buffer [] in
      (record d { buffer = r.0 }, r.1)

unfoldable pub finish : EventStreamDecoder → Result (Unit {0}) UpstreamStreamError
finish d = if is_empty d.buffer then ok tt else err (truncated_frame 12 (length d.buffer))
