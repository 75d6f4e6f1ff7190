-- ===== src/PackageTest.antt =====
-- test_package/src/example.cpp: the program that tests the installed package.
mod Tests
use spraybus.Prelude.{
  ℕ, Bool, not, ◌-◌, List, [], ◌∷◌, length, drop, take, ◌==◌, ltb, leb, if◌then◌else◌, bytes_eq,
}
use spraybus.Word.{Endian}
use spraybus.Exec.{Result, ok, ◌>>=◌}
use spraybus.Text.{text}
use spraybus.Protocol.Enum.{Origin}
use spraybus.Protocol.Header.{header_size, topic_key}
use spraybus.Protocol.Message as Protocol
use spraybus.Protocol.Message.{new_constructor, new_message}
use spraybus.Cli.Run.{init}

abbrev key : ℕ
key = 0x0102030405060708

abbrev expected_topic_key : List ℕ
expected_topic_key = 1 ∷ 2 ∷ 3 ∷ 4 ∷ 5 ∷ 6 ∷ 7 ∷ 8 ∷ []

-- The tests after the publish packet was parsed.
unfoldable pub check_message : Endian → Protocol.Constructor → Protocol.Message → ℕ
check_message e constructor publish_message =
    let (_, packet) = Protocol.topic_request e constructor (text "alerts") Origin.client in
    if not (topic_key e publish_message.header == key)
    then 3
    else if leb (length packet) header_size
    then 4
    else 0

-- The tests of the publish packet, and what follows.
unfoldable pub check_packet : Endian → Protocol.Constructor → List ℕ → Result ℕ
unfolding check_message
check_packet e constructor publish_packet =
    let wire_topic_key = take 8 (drop (header_size - 8) publish_packet) in
    if not (length publish_packet == header_size)
    then ok 1
    else if not (bytes_eq wire_topic_key expected_topic_key)
    then ok 2
    else new_message e publish_packet >>= λ publish_message.
        ok (check_message e constructor publish_message)

-- main, on a host where ENet starts or does not.
unfoldable pub main : Endian → Bool → Result ℕ
unfolding init check_packet
main e enet_ready = do
  _ ← init enet_ready
  let (constructor, publish_packet) = Protocol.publish e new_constructor key [] Origin.client
  check_packet e constructor publish_packet
