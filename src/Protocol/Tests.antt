-- ===== src/Protocol/Tests.antt =====
-- The protocol at concrete packets: the bytes that test_package/src/example.cpp expects of a
-- publish packet, and the theorems at these packets.
use spraybus.Prelude.{ℕ, ◌≡◌, refl, List, [], ◌∷◌, ◌++◌, arith, drop}
use spraybus.Protocol.Print.{
  message_to_string, header_to_string, read_dump, printed_payload, dump, hex_char,
}
use spraybus.Text.{text, to_string, decimal}
use spraybus.Word.{little, big, store, host_to_network64, network_to_host64, byteswap}
use spraybus.Exec.{ok}
use spraybus.Protocol.Enum.{
  Origin, MessageType, origin_value, origin_of, version_value, version_of, type_value, type_of,
  version_to_string, origin_to_string, type_to_string,
}
use spraybus.Protocol.Header.{
  Header, topic_key, make_header, publish_header, header_bytes, read_header,
}
use spraybus.Protocol.Message
use spraybus.Protocol.Message.{Message, new_constructor, construct, new_message}
use spraybus.Protocol.Layout.{IsHeader}
use spraybus.Protocol.RoundTrip.{
  Carries, new_message-construct, construct-new_message, packets_carry, wire_image,
}

abbrev sample_key : ℕ
sample_key = 0x0102030405060708

abbrev sample_packet : List ℕ
sample_packet = (Message.publish little new_constructor sample_key [] Origin.client).1

-- The checks of the example program: 16 bytes, the last eight of them the key in network order.
expected_wire_bytes : drop 8 sample_packet ≡ 1 ∷ 2 ∷ 3 ∷ 4 ∷ 5 ∷ 6 ∷ 7 ∷ 8 ∷ []
unfolding Message.publish header_bytes store host_to_network64 byteswap version_value origin_value
    type_value
expected_wire_bytes = refl

packets_carry_example :
    Carries big
      (Message.fanout little new_constructor sample_key (text "hi") Origin.server).1
      MessageType.fanout
      Origin.server
      sample_key
      (text "hi")
unfolding origin_of origin_value
packets_carry_example =
    (packets_carry little big new_constructor Origin.server sample_key (text "hi") refl
      (omega arith)).5

sample_header : Header
unfolding publish_header
sample_header = publish_header little sample_key Origin.client

sample_header-IsHeader : IsHeader sample_header
unfolding sample_header host_to_network64 byteswap version_value version_of origin_of origin_value
    type_of type_value
sample_header-IsHeader = record {
  reserved_fits = refl;
  version_fits = refl;
  version_named = refl;
  origin_named = refl;
  type_named = refl;
  topic_key_fits = refl;
}

new_message-construct_example :
    new_message little (construct little new_constructor sample_header (text "hi")).1
    ≡ ok (record { header = sample_header; payload = text "hi"; topic = [] })
new_message-construct_example =
    new_message-construct little new_constructor sample_header (text "hi") sample_header-IsHeader

-- A packet with an unnamed type, a reserved word and a two-byte payload.
abbrev odd_packet : List ℕ
odd_packet = 9 ∷ 0 ∷ 0 ∷ 1 ∷ 2 ∷ 0 ∷ 77 ∷ 200 ∷ 255 ∷ 0 ∷ 0 ∷ 0 ∷ 0 ∷ 0 ∷ 0 ∷ 1 ∷ 5 ∷ 6 ∷ []

abbrev odd_message : Message.Message
odd_message = record { header = read_header big odd_packet; payload = 5 ∷ 6 ∷ []; topic = [] }

construct-new_message_example :
    (construct big new_constructor odd_message.header odd_message.payload).1 ≡ odd_packet
unfolding new_message
construct-new_message_example =
    construct-new_message big new_constructor odd_packet odd_message (omega arith) refl

wire_image_example :
    (construct big new_constructor
      (make_header big Origin.client MessageType.publish 258)
      (text "x")).1
    ≡ 0 ∷ 0 ∷ 0 ∷ 0 ∷ 0 ∷ 1 ∷ 1 ∷ 3 ∷ 0 ∷ 0 ∷ 0 ∷ 0 ∷ 0 ∷ 0 ∷ 1 ∷ 2 ∷ b'x' ∷ []
unfolding store origin_value type_value
wire_image_example = wire_image big new_constructor Origin.client MessageType.publish 258 (text "x")

-- The text of a message with three bytes.
abbrev three_bytes : Message
three_bytes = record {
  header = make_header big Origin.server MessageType.fanout 7;
  payload = 0 ∷ 171 ∷ 16 ∷ [];
  topic = [];
}

printed_payload_example :
    (shown : List ℕ) × (message_to_string big three_bytes
      ≡ (text "Message { " ++ (header_to_string big three_bytes.header ++ text ", Payload { "))
        ++ (shown ++ text " } }"))
    × (read_dump shown ≡ 0 ∷ 171 ∷ 16 ∷ [])
printed_payload_example =
    printed_payload big three_bytes (omega arith, (omega arith, (omega arith, tt)))

three_bytes-text :
    message_to_string big three_bytes
    ≡ text
        "Message { Header { version: v1, origin: server, type: fanout, topic_key: 7 }, Payload { 0x00 0xab 0x10 } }"
unfolding message_to_string header_to_string dump hex_char to_string decimal version_to_string
    origin_to_string type_to_string topic_key make_header host_to_network64 network_to_host64
three_bytes-text = refl
