-- ===== src/Protocol/Laws.antt =====
-- Round trips of the three framings, with the bytes that follow; and what the decoders refuse.
use stockyard.Base.{
  ℕ, ◌<◌, ◌≡◌, Bool, [], ◌∷◌, ◌++◌, none, Text, length, ltb, Bool-cases, if◌then◌else◌, ok, err,
  arith,
}
use mathlib.Core.Logic.{inl, inr}
use mathlib.Core.List.{append_assoc}
use stockyard.Protocol.Word.{
  little_endian, big_endian, read_little_endian-append, read_big_endian-append, read_full-append,
}
use stockyard.Protocol.Snapshot.{
  encode_snapshot_request, decode_snapshot_request, encode_snapshot_response,
  decode_snapshot_response, too_long, Faults, max_label_length, max_message_length, length_word,
}
use stockyard.Protocol.Shell.{write_message, read_message, max_payload_size}

-- A label of less than 2 ^ 32 bytes that was sent with no error is read back whole if it has at
-- most 1024 bytes, and refused as too long otherwise; what follows it in the stream is left to the
-- next reader.
pub decode-encode_request :
    (fails : Faults) (label rest : Text)
    → length label < 4294967296
    → (encode_snapshot_request fails label).0 ≡ none
    → decode_snapshot_request ((encode_snapshot_request fails label).1 ++ rest)
      ≡ (if ltb max_label_length (length label) then err too_long else ok (label, rest))
unfolding encode_snapshot_request decode_snapshot_request
decode-encode_request fails label rest h sent = ground (
  arith,
  append_assoc (little_endian (length_word label)) label rest,
  read_little_endian-append (length label) (label ++ rest) h,
  read_full-append label rest,
)

-- A response whose message has less than 2 ^ 32 bytes, sent with no error, is read back with its
-- success flag if the message has at most 4096 bytes, and refused as too long otherwise; what
-- follows it is left.
pub decode-encode_response :
    (fails : Faults) (success : Bool) (message rest : Text)
    → length message < 4294967296
    → (encode_snapshot_response fails success message).0 ≡ none
    → decode_snapshot_response ((encode_snapshot_response fails success message).1 ++ rest) ≡ (
        if ltb max_message_length (length message)
        then err too_long
        else ok ((success, message), rest))
unfolding encode_snapshot_response decode_snapshot_response
decode-encode_response fails success [] rest h sent = elim (Bool-cases success) [
  | inl e ↦
      ground (arith, append_assoc (little_endian 0) [] rest, read_little_endian-append 0 rest h)
  | inr e ↦
      ground (arith, append_assoc (little_endian 0) [] rest, read_little_endian-append 0 rest h)
]
decode-encode_response fails success (c ∷ m) rest h sent = ground (
  arith,
  append_assoc (little_endian (length_word (c ∷ m))) (c ∷ m) rest,
  read_little_endian-append (length (c ∷ m)) ((c ∷ m) ++ rest) h,
  read_full-append (c ∷ m) rest,
)

-- A shell frame with a payload of less than 2 ^ 32 bytes, written with no error, is read back with
-- its type if the payload has at most 1 MiB, and refused as too long otherwise; what follows it is
-- left.
pub read-write_message :
    (fails : Faults) (msg_type : ℕ) (payload rest : Text)
    → length payload < 4294967296
    → (write_message fails msg_type payload).0 ≡ none
    → read_message ((write_message fails msg_type payload).1 ++ rest) ≡ (
        if ltb max_payload_size (length payload)
        then err too_long
        else ok ((msg_type, payload), rest))
unfolding write_message read_message
read-write_message fails msg_type [] rest h sent =
    ground (arith, append_assoc (big_endian 0) [] rest, read_big_endian-append 0 rest h)
read-write_message fails msg_type (c ∷ m) rest h sent = ground (
  arith,
  append_assoc (big_endian (length_word (c ∷ m))) (c ∷ m) rest,
  read_big_endian-append (length (c ∷ m)) ((c ∷ m) ++ rest) h,
  read_full-append (c ∷ m) rest,
)
