-- ===== src/Tests/Frames.antt =====
-- The framings (pkg/vsock/protocol.go, pkg/shell/protocol.go) of short texts.
use stockyard.Base.{
  ◌≡◌, refl, false, [], ◌∷◌, ◌++◌, none, Text, codes, length, ltb, if◌then◌else◌, ok, err, arith,
}
use stockyard.Protocol.Snapshot.{
  Faults, too_long, max_label_length, encode_snapshot_request, decode_snapshot_request,
  encode_snapshot_response,
}
use stockyard.Protocol.Shell.{write_message, read_message, max_payload_size}
use stockyard.Protocol.Laws.{decode-encode_request, read-write_message}

abbrev all_written : Faults
all_written n = false

abbrev label : Text
label = codes "before-upgrade"

abbrev next_bytes : Text
next_bytes = 1 ∷ 2 ∷ []

request-sent : (encode_snapshot_request all_written label).0 ≡ none
unfolding encode_snapshot_request
request-sent = refl

response-sent : (encode_snapshot_response all_written false label).0 ≡ none
unfolding encode_snapshot_response
response-sent = refl

message-sent : (write_message all_written 3 label).0 ≡ none
unfolding write_message
message-sent = refl

decode-encode_request_example :
    decode_snapshot_request ((encode_snapshot_request all_written label).1 ++ next_bytes)
    ≡ (if ltb max_label_length (length label) then err too_long else ok (label, next_bytes))
decode-encode_request_example =
    decode-encode_request all_written label next_bytes (ground arith) request-sent

read-write_message_example :
    read_message ((write_message all_written 3 label).1 ++ next_bytes)
    ≡ (if ltb max_payload_size (length label) then err too_long else ok ((3, label), next_bytes))
read-write_message_example =
    read-write_message all_written 3 label next_bytes (ground arith) message-sent
