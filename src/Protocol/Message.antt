-- ===== src/Protocol/Message.antt =====
-- The classes Constructor and Message of include/spraybus/networking/protocol.hpp. A span into the
-- constructor's buffer is the bytes that it shows until the next construction.
use spraybus.Prelude.{ℕ, List, [], ◌++◌, ltb, if◌then◌else◌, length, drop}
use spraybus.Word.{Endian}
use spraybus.Exec.{Result, ok, throw, runtime_error, ◌>>=◌}
use spraybus.Protocol.Enum.{Origin}
use spraybus.Text.{text}
use spraybus.Protocol.Header.{
  Header, header_size, header_bytes, read_header, topic_request_header, topic_response_header,
  publish_header, subscribe_header, unsubscribe_header, fanout_header,
}

pub record Constructor : Type 0 where
  pub buffer : List ℕ

-- Constructor()
abbrev pub new_constructor : Constructor
new_constructor = record { buffer = [] }

-- m_buffer.clear(), then two inserts at the end; the result is a span over the buffer.
unfoldable pub construct : Endian → Constructor → Header → List ℕ → Constructor × List ℕ
construct e c header payload =
    let cleared : List ℕ = [] in
    let with_header = cleared ++ header_bytes e header in
    let filled = with_header ++ payload in (record c { buffer = filled }, filled)

unfoldable pub topic_request : Endian → Constructor → List ℕ → Origin → Constructor × List ℕ
unfolding topic_request_header construct
topic_request e c topic_name origin = construct e c (topic_request_header e origin) topic_name

unfoldable pub topic_response : Endian → Constructor → ℕ → List ℕ → Origin → Constructor × List ℕ
unfolding topic_response_header construct
topic_response e c key topic_name origin =
    construct e c (topic_response_header e key origin) topic_name

unfoldable pub publish : Endian → Constructor → ℕ → List ℕ → Origin → Constructor × List ℕ
unfolding publish_header construct
publish e c key payload origin = construct e c (publish_header e key origin) payload

unfoldable pub subscribe : Endian → Constructor → ℕ → Origin → Constructor × List ℕ
unfolding subscribe_header construct
subscribe e c key origin = construct e c (subscribe_header e key origin) []

unfoldable pub unsubscribe : Endian → Constructor → ℕ → Origin → Constructor × List ℕ
unfolding unsubscribe_header construct
unsubscribe e c key origin = construct e c (unsubscribe_header e key origin) []

unfoldable pub fanout : Endian → Constructor → ℕ → List ℕ → Origin → Constructor × List ℕ
unfolding fanout_header construct
fanout e c key payload origin = construct e c (fanout_header e key origin) payload

pub record Message : Type 0 where
  pub header : Header
  pub payload : List ℕ
  pub topic : List ℕ

-- Message::parse_header
unfoldable pub parse_header : Endian → List ℕ → Result Header
parse_header e packet =
    if ltb (length packet) header_size
    then throw (runtime_error (text "Data too short to contain header"))
    else ok (read_header e packet)

-- Message(data): the header, then data.subspan(sizeof(Header)).
unfoldable pub new_message : Endian → List ℕ → Result Message
unfolding parse_header
new_message e packet = do
  header ← parse_header e packet
  ok (record { header = header; payload = drop header_size packet; topic = [] })

unfoldable pub set_topic : Message → List ℕ → Message
set_topic m topic_name = record m { topic = topic_name }

-- payload_as_string(): the payload's bytes as characters.
unfoldable pub payload_as_string : Message → List ℕ
payload_as_string m = m.payload
