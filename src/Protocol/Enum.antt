-- ===== src/Protocol/Enum.antt =====
-- Origin, Version and Type of include/spraybus/networking/protocol.hpp, with their display strings.
-- An enum class with a fixed underlying type holds every value of that type, also one that no
-- enumerator names: `unnamed` is such a value, as a received header may carry it.
use spraybus.Prelude.{ℕ, List, ◌==◌, if◌then◌else◌}
use spraybus.Text.{text}

-- enum class Origin : uint8_t
pub data Origin : Type 0 where
  unknown client server leaf : Origin
  unnamed : ℕ → Origin

-- enum class Version : uint16_t
pub data Version : Type 0 where
  v1 : Version
  unnamed : ℕ → Version

-- enum class Type : uint8_t
pub data MessageType : Type 0 where
  unknown topic_request topic_response publish subscribe unsubscribe fanout : MessageType
  unnamed : ℕ → MessageType

-- The value that stands in memory, and the enum of a value in memory.
unfoldable pub origin_value : Origin → ℕ
origin_value Origin.unknown = 0x00
origin_value Origin.client = 0x01
origin_value Origin.server = 0x02
origin_value Origin.leaf = 0x03
origin_value (Origin.unnamed n) = n

unfoldable pub origin_of : ℕ → Origin
origin_of n =
    if n == 0x00
    then Origin.unknown
    else if n == 0x01
    then Origin.client
    else if n == 0x02
    then Origin.server
    else if n == 0x03
    then Origin.leaf
    else Origin.unnamed n

unfoldable pub version_value : Version → ℕ
version_value Version.v1 = 0x01
version_value (Version.unnamed n) = n

unfoldable pub version_of : ℕ → Version
version_of n = if n == 0x01 then Version.v1 else Version.unnamed n

unfoldable pub type_value : MessageType → ℕ
type_value MessageType.unknown = 0x00
type_value MessageType.topic_request = 0x01
type_value MessageType.topic_response = 0x02
type_value MessageType.publish = 0x03
type_value MessageType.subscribe = 0x04
type_value MessageType.unsubscribe = 0x05
type_value MessageType.fanout = 0x06
type_value (MessageType.unnamed n) = n

unfoldable pub type_of : ℕ → MessageType
type_of n =
    if n == 0x00
    then MessageType.unknown
    else if n == 0x01
    then MessageType.topic_request
    else if n == 0x02
    then MessageType.topic_response
    else if n == 0x03
    then MessageType.publish
    else if n == 0x04
    then MessageType.subscribe
    else if n == 0x05
    then MessageType.unsubscribe
    else if n == 0x06
    then MessageType.fanout
    else MessageType.unnamed n

-- to_string(Origin), to_string(Version), to_string(Type)
unfoldable pub origin_to_string : Origin → List ℕ
origin_to_string Origin.unknown = text "unknown"
origin_to_string Origin.client = text "client"
origin_to_string Origin.server = text "server"
origin_to_string Origin.leaf = text "leaf"
origin_to_string (Origin.unnamed n) = text "invalid"

unfoldable pub version_to_string : Version → List ℕ
version_to_string Version.v1 = text "v1"
version_to_string (Version.unnamed n) = text "invalid"

unfoldable pub type_to_string : MessageType → List ℕ
type_to_string MessageType.unknown = text "unknown"
type_to_string MessageType.topic_request = text "topic_request"
type_to_string MessageType.topic_response = text "topic_response"
type_to_string MessageType.publish = text "publish"
type_to_string MessageType.subscribe = text "subscribe"
type_to_string MessageType.unsubscribe = text "unsubscribe"
type_to_string MessageType.fanout = text "fanout"
type_to_string (MessageType.unnamed n) = text "invalid"
