-- ===== src/Protocol/Snapshot.antt =====
-- pkg/vsock/protocol.go. An encoder is told which of its writes fail, and returns what it has sent;
-- a decoder takes the bytes that the peer sends before it closes.
use stockyard.Base.{
  ℕ, Bool, not, ◌==◌, [], ◌∷◌, ◌++◌, Option, none, some, Text, length, ltb, ◌%◌, if◌then◌else◌,
  Result, ok, err,
}
use stockyard.Protocol.Word.{little_endian, read_little_endian, read_full}

abbrev pub status_success : ℕ
status_success = 0

abbrev pub status_failure : ℕ
status_failure = 1

abbrev pub max_label_length : ℕ
max_label_length = 1024

abbrev pub max_message_length : ℕ
max_message_length = 4096

-- `uint32(len(s))`
abbrev pub length_word : Text → ℕ
length_word s = length s % 4294967296

pub data EncodeError : Type 0 where
  status_not_written length_not_written bytes_not_written : EncodeError

pub data DecodeError : Type 0 where
  no_status no_length too_long no_bytes : DecodeError

-- The failing writes, counted from 0.
abbrev pub Faults : Type 0
Faults = ℕ → Bool

unfoldable pub encode_snapshot_request : Faults → Text → Option EncodeError × Text
encode_snapshot_request fails label =
    if fails 0
    then (some length_not_written, [])
    else if fails 1
    then (some bytes_not_written, little_endian (length_word label))
    else (none, little_endian (length_word label) ++ label)

-- A decoder's result, with the bytes that it has not read.
unfoldable pub decode_snapshot_request : Text → Result DecodeError (Text × Text)
decode_snapshot_request s = elim (read_little_endian s) [
  | none ↦ err no_length
  | some (n, rest) ↦
      if ltb max_label_length n
      then err too_long
      else elim (read_full n rest) [ none ↦ err no_bytes | some (label, rest') ↦ ok (label, rest') ]
]

unfoldable pub encode_snapshot_response : Faults → Bool → Text → Option EncodeError × Text
encode_snapshot_response fails success message =
    let status = (if success then status_success else status_failure) in
    if fails 0
    then (some status_not_written, [])
    else if fails 1
    then (some length_not_written, status ∷ [])
    else if fails 2
    then (some bytes_not_written, status ∷ little_endian (length_word message))
    else (none, status ∷ (little_endian (length_word message) ++ message))

-- The message, which is read only where its length is not 0.
read_message : ℕ → Text → Result DecodeError (Text × Text)
read_message n rest =
    if not (ltb 0 n)
    then ok ([], rest)
    else if ltb max_message_length n
    then err too_long
    else elim (read_full n rest) [
      | none ↦ err no_bytes
      | some (message, rest') ↦ ok (message, rest')
    ]

unfoldable pub decode_snapshot_response : Text → Result DecodeError ((Bool × Text) × Text)
unfolding read_message
decode_snapshot_response [] = err no_status
decode_snapshot_response (status ∷ s) = elim (read_little_endian s) [
  | none ↦ err no_length
  | some (n, rest) ↦ elim (read_message n rest) [
    | err e ↦ err e
    | ok (message, rest') ↦ ok ((status == status_success, message), rest')
  ]
]
