-- ===== src/Protocol/Header.antt =====
-- struct Header of include/spraybus/networking/protocol.hpp: its fields, its memory image, the
-- factories and the accessors. `topic_key` holds the key in network order, as m_topic_key_ does.
use spraybus.Prelude.{ℕ, List, ◌∷◌, ◌++◌, take, drop}
use spraybus.Word.{Endian, store, load, host_to_network64, network_to_host64}
use spraybus.Protocol.Enum.{
  Origin, Version, MessageType, v1, origin_value, origin_of, version_value, version_of, type_value,
  type_of,
}

pub record Header : Type 0 where
  pub reserved : ℕ
  pub version : Version
  pub origin : Origin
  pub type : MessageType
  pub topic_key : ℕ

-- sizeof(Header)
abbrev pub header_size : ℕ
header_size = 16

-- Header::current_version
abbrev pub current_version : Version
current_version = v1

-- The private constructor Header(origin, type, topic_key).
unfoldable pub make_header : Endian → Origin → MessageType → ℕ → Header
make_header e origin type topic_key = record {
  reserved = 0;
  version = current_version;
  origin = origin;
  type = type;
  topic_key = host_to_network64 e topic_key;
}

-- The static factories.
unfoldable pub topic_request_header : Endian → Origin → Header
unfolding make_header
topic_request_header e origin = make_header e origin MessageType.topic_request 0

unfoldable pub topic_response_header : Endian → ℕ → Origin → Header
unfolding make_header
topic_response_header e key origin = make_header e origin MessageType.topic_response key

unfoldable pub publish_header : Endian → ℕ → Origin → Header
unfolding make_header
publish_header e key origin = make_header e origin MessageType.publish key

unfoldable pub subscribe_header : Endian → ℕ → Origin → Header
unfolding make_header
subscribe_header e key origin = make_header e origin MessageType.subscribe key

unfoldable pub unsubscribe_header : Endian → ℕ → Origin → Header
unfolding make_header
unsubscribe_header e key origin = make_header e origin MessageType.unsubscribe key

unfoldable pub fanout_header : Endian → ℕ → Origin → Header
unfolding make_header
fanout_header e key origin = make_header e origin MessageType.fanout key

-- Header::topic_key()
unfoldable pub topic_key : Endian → Header → ℕ
topic_key e h = network_to_host64 e h.topic_key

-- The memory image of the packed struct, field by field.
unfoldable pub header_bytes : Endian → Header → List ℕ
header_bytes e h =
    store e 4 h.reserved
    ++ (store e 2 (version_value h.version)
        ++ (origin_value h.origin ∷ type_value h.type ∷ store e 8 h.topic_key))

-- The header that the first 16 bytes of a packet hold: reinterpret_cast<const Header*>(packet).
unfoldable pub read_header : Endian → List ℕ → Header
read_header e packet = record {
  reserved = load e (take 4 packet);
  version = version_of (load e (take 2 (drop 4 packet)));
  origin = origin_of (load e (take 1 (drop 6 packet)));
  type = type_of (load e (take 1 (drop 7 packet)));
  topic_key = load e (take 8 (drop 8 packet));
}
