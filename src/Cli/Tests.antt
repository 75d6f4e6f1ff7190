-- ===== src/Cli/Tests.antt =====
-- The command line client at concrete arguments.
use spraybus.Prelude.{
  ◌⊎◌, ℕ, ◌≡◌, refl, true, List, [], ◌∷◌, ◌++◌, none, some, arith, bytes_eq, if◌then◌else◌,
  word_key, text_key,
}
use spraybus.Containers.Dict
use spraybus.Word.{little, big}
use spraybus.Exec.{ok, throw, out_of_range}
use spraybus.Text.{text, to_string}
use spraybus.Text.Decimal.{value_from}
use spraybus.Text.Stoi.{stoi, stoi_digits, read_sign}
use spraybus.Protocol.Enum.{Origin}
use spraybus.Protocol.Message
use spraybus.Protocol.Message.{new_constructor}
use spraybus.Networking.Server.{is_outside}
use spraybus.Networking.Client as Net
use spraybus.Client.{Client, new_client}
use spraybus.Client.Cache.{asked}
use spraybus.Common.{Environment}
use spraybus.Cli.{
  Flag, classify, parse_port, checked_port, to_uint16, parse_options, join_message, join_from,
}
use spraybus.Cli.Port.{IsPort, parse_port_iff, parse_port-to_string}
use spraybus.Cli.Settings.{
  Setting, host_setting, port_setting, long, short, joined, written, parse_options-written,
}
use spraybus.Cli.Message.{joined_by_spaces, drop_empty, join_message-eq}
use spraybus.Cli.Exit.{main_exits}
use spraybus.Cli.Run.{Exit, main, usage, World, newline}
use spraybus.Cli.Arrivals.{Arrival, service_of}
use spraybus.Cli.Commands.{Connects}

signed_port : parse_port (text " +080") ≡ ok 80
unfolding parse_port stoi stoi_digits read_sign checked_port is_outside to_uint16 value_from
signed_port = refl

trailing_port :
    parse_port (text "8080abc") ≡ throw (out_of_range (text "Port must be between 0 and 65535"))
unfolding parse_port stoi stoi_digits read_sign checked_port is_outside to_uint16 value_from
trailing_port = refl

parse_port_iff_example : IsPort (text " +080") 80
parse_port_iff_example = (parse_port_iff (text " +080") 80).0 signed_port

parse_port-to_string_example : parse_port (to_string 6767) ≡ ok 6767
parse_port-to_string_example = parse_port-to_string 6767 (omega arith)

-- SPRAYBUS_PORT has no port in it, and is not looked at.
abbrev fresh_client : Client
fresh_client = new_client (text "localhost") 6767

abbrev environment : Environment
environment name = if bytes_eq name (text "SPRAYBUS_PORT") then some (text "none") else none

abbrev settings : List Setting
settings =
    port_setting short 80 ∷ host_setting joined (text "a") ∷ host_setting long (text "b") ∷ []

pub_is_command : classify (text "pub") ≡ Flag.command
unfolding classify bytes_eq
pub_is_command = refl

parse_options-written_example :
    parse_options environment (written settings ++ text "pub" ∷ text "t" ∷ text "m" ∷ [])
    ≡ ok (record {
      host = text "b";
      port = 80;
      command = text "pub";
      args = text "t" ∷ text "m" ∷ [];
    })
parse_options-written_example =
    parse_options-written environment settings b'p' (b'u' ∷ b'b' ∷ []) (text "t" ∷ text "m" ∷ [])
      (omega arith, (tt, (tt, tt))) pub_is_command

join_message-eq_example :
    join_message (text "t" ∷ [] ∷ text "a" ∷ [] ∷ text "b" ∷ []) 1
    ≡ joined_by_spaces (drop_empty ([] ∷ text "a" ∷ [] ∷ text "b" ∷ []))
join_message-eq_example = join_message-eq (text "t" ∷ [] ∷ text "a" ∷ [] ∷ text "b" ∷ []) 1

joined_words : join_message (text "t" ∷ [] ∷ text "a" ∷ [] ∷ text "b" ∷ []) 1 ≡ text "a  b"
unfolding join_message join_from
joined_words = refl

abbrev arrival : Arrival
arrival = record {
  address = 3;
  order = big;
  constructor' = new_constructor;
  key = 1;
  payload = text "disk low";
}

abbrev world : World
world = record {
  enet_ready = true;
  resolve = λ host. some 1;
  host_created = true;
  peer_found = true;
  handshake = some Net.connected;
  network = record {
    resolve = λ host. some 1;
    host_created = true;
    peer_found = true;
    handshake = some Net.connected;
    reply = λ msg. some (
        Net.received (record {
          address = 5;
          bytes = (Message.topic_response big new_constructor 1 (text "alerts") Origin.server).1;
        }));
    closing = [];
  };
  rounds = none ∷ service_of (some arrival) ∷ [];
}

world-Connects : Connects world (text "localhost")
world-Connects = record {
  enet = refl;
  created = refl;
  peer = refl;
  shake = refl;
  address = 1;
  known = refl;
}

response : List ℕ
response = (Message.topic_response big new_constructor 1 (text "alerts") Origin.server).1

abbrev resolved_client : Client
resolved_client = record (asked little fresh_client world.network (text "alerts")) {
  topic_map = Dict.put fresh_client.topic_map (text "alerts") 1;
  inverse_topic_map = Dict.put fresh_client.inverse_topic_map 1 (text "alerts");
}

main_exits_example :
    (x : Exit) × (main little environment (text "pub" ∷ text "alerts" ∷ []) world ≡ some x)
    × (((x.code ≡ 0) × (x.err ≡ []))
        ⊎ ((x.code ≡ 1)
            × (message : List ℕ) × (x.err ≡ text "error: " ++ (message ++ (newline ++ usage)))))
main_exits_example =
    main_exits little environment (text "pub" ∷ text "alerts" ∷ []) world
      (λ options parsed. ((1, refl), (1, refl)))
