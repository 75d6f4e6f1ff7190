-- ===== src/PackageTest/Tests.antt =====
-- The package test passes on hosts of both byte orders.
use spraybus.Prelude.{◌≡◌, refl, true, bytes_eq}
use spraybus.Word.{little, big, store, load, network_to_host64, host_to_network64, byteswap}
use spraybus.Exec.{ok}
use spraybus.Protocol.Header.{header_bytes, read_header, topic_key}
use spraybus.Protocol.Message as Protocol
use spraybus.Protocol.Message.{new_message}
use spraybus.PackageTest.{main}

little_passes : main little true ≡ ok 0
unfolding main Protocol.publish header_bytes store bytes_eq host_to_network64 byteswap new_message
    topic_key network_to_host64 read_header load Protocol.topic_request
little_passes = refl

big_passes : main big true ≡ ok 0
unfolding main Protocol.publish header_bytes store bytes_eq host_to_network64 new_message topic_key
    network_to_host64 read_header load Protocol.topic_request
big_passes = refl
