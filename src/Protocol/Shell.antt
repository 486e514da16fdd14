-- ===== src/Protocol/Shell.antt =====
-- The frames of pkg/shell/protocol.go: type, big-endian length, payload.
use stockyard.Base.{
  ℕ, not, [], ◌∷◌, ◌++◌, Option, none, some, Text, length, ltb, if◌then◌else◌, Result, ok, err,
}
use stockyard.Protocol.Word.{big_endian, read_big_endian, read_full}
use stockyard.Protocol.Snapshot.{
  EncodeError, status_not_written, length_not_written, bytes_not_written, DecodeError, no_status,
  no_length, too_long, no_bytes, Faults, length_word,
}

abbrev pub max_payload_size : ℕ
max_payload_size = 1048576

-- The payload is written only where it is not empty.
unfoldable pub write_message : Faults → ℕ → Text → Option EncodeError × Text
write_message fails msg_type payload =
    if fails 0
    then (some status_not_written, [])
    else if fails 1
    then (some length_not_written, msg_type ∷ [])
    else if not (ltb 0 (length payload))
    then (none, msg_type ∷ big_endian (length_word payload))
    else if fails 2
    then (some bytes_not_written, msg_type ∷ big_endian (length_word payload))
    else (none, msg_type ∷ (big_endian (length_word payload) ++ payload))

unfoldable pub read_message : Text → Result DecodeError ((ℕ × Text) × Text)
read_message [] = err no_status
read_message (msg_type ∷ s) = elim (read_big_endian s) [
  | none ↦ err no_length
  | some (n, rest) ↦
      if ltb max_payload_size n
      then err too_long
      else if not (ltb 0 n)
      then ok ((msg_type, []), rest)
      else elim (read_full n rest) [
        | none ↦ err no_bytes
        | some (payload, rest') ↦ ok ((msg_type, payload), rest')
      ]
]
