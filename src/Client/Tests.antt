-- ===== src/Client/Tests.antt =====
-- The client's theorems at a client that asks a server for one name.
use spraybus.Prelude.{
  ℕ, ◌≡◌, refl, sym, ap, subst, ◌∙◌, List, [], ◌∷◌, Option, none, some, true, arith, if◌then◌else◌,
  bytes_eq, bytes_eq_iff,
}
use spraybus.Containers.Dict
use spraybus.Word.{little, big}
use spraybus.Exec.{Result, ok, throw, runtime_error, ◌>>=◌}
use spraybus.Text.{text}
use spraybus.Protocol.Enum.{Origin, MessageType}
use spraybus.Protocol.Header.{topic_key}
use spraybus.Protocol.Message
use spraybus.Protocol.Message.{Message, new_constructor, new_message}
use spraybus.Protocol.RoundTrip.{Carries, packets_carry}
use spraybus.TopicMap.{Topic}
use spraybus.Networking.Client as Net
use spraybus.Client.{Client, Network, new_client, ask, get_topic_key, poll, topic_name}
use spraybus.Server.Delivery.{named_server}
use spraybus.Client.Cache.{
  Agrees, request_of, new_client-Agrees, resolution_failed, get_topic_key-Agrees,
}
use spraybus.Client.Polling.{polls}
use spraybus.Client.Temporary.{IsOver, temporary_released}

abbrev fresh_client : Client
fresh_client = new_client (text "localhost") 6767

abbrev answer : List ℕ
answer = (Message.topic_response big new_constructor 1 (text "alerts") Origin.server).1

abbrev answering : Network
answering = record {
  resolve = λ host. some 1;
  host_created = true;
  peer_found = true;
  handshake = some Net.connected;
  reply = λ msg. some (Net.received (record { address = 5; bytes = answer }));
  closing = [];
}

abbrev silent : Network
silent = record {
  resolve = λ host. some 1;
  host_created = true;
  peer_found = true;
  handshake = some Net.connected;
  reply = λ msg. none;
  closing = [];
}

abbrev timed_out : Result ℕ
timed_out = throw (runtime_error (text "Timeout while waiting for packet."))

silent_times_out : (get_topic_key little fresh_client silent (text "alerts")).1 ≡ timed_out
unfolding get_topic_key ask Dict.get Dict.empty
silent_times_out = refl

resolution_failed_example : (get_topic_key little fresh_client silent (text "alerts")).0.sent ≡ []
resolution_failed_example =
    (resolution_failed little fresh_client silent (text "alerts") _ silent_times_out).2

-- A server that has given key 1 to "alerts", and no other key.
abbrev one_key : Topic → Option ℕ
one_key t = if bytes_eq t (text "alerts") then some 1 else none

one_name : (t u : Topic) (k : ℕ) → one_key t ≡ some k → one_key u ≡ some k → t ≡ u
one_name t u k h g =
    ground (arith, bytes_eq_iff t (text "alerts"), bytes_eq_iff u (text "alerts"), h, g)

answer-Carries : Carries little answer MessageType.topic_response Origin.server 1 (text "alerts")
answer-Carries =
    (packets_carry big little new_constructor Origin.server 1 (text "alerts") named_server
      (omega arith)).1

answer_honest :
    (bytes : List ℕ) (m : Message)
    → (ask fresh_client answering (request_of little fresh_client (text "alerts"))).1 ≡ ok bytes
    → new_message little bytes ≡ ok m
    → m.header.type ≡ MessageType.topic_response
    → one_key m.payload ≡ some (topic_key little m.header)
unfolding ask
answer_honest bytes m asked read response =
    let (m', parsed, _, _, k, p) = answer-Carries in
    let same : ok m' ≡ ok m = sym parsed ∙ ap (λ r. r >>= new_message little) asked ∙ read in
    subst (λ x. one_key x.payload ≡ some (topic_key little x.header)) (ok_injective same)
      (subst2 p k)
  where
    ok_injective : {x y : Message} → ok x ≡ ok y → x ≡ y
    ok_injective h = cc h

    subst2 : {t : Topic} {n : ℕ} → t ≡ text "alerts" → n ≡ 1 → one_key t ≡ some n
    subst2 h g = ground (arith, bytes_eq_iff (text "alerts") (text "alerts"))

get_topic_key-Agrees_example :
    Agrees one_key (get_topic_key little fresh_client answering (text "alerts")).0
get_topic_key-Agrees_example =
    get_topic_key-Agrees one_key little fresh_client answering (text "alerts") one_name
      answer_honest (new_client-Agrees one_key (text "localhost") 6767)

fanout_packet : List ℕ
fanout_packet = (Message.fanout big new_constructor 4 (text "disk low") Origin.server).1

fanout-Carries : Carries little fanout_packet MessageType.fanout Origin.server 4 (text "disk low")
unfolding fanout_packet
fanout-Carries =
    (packets_carry big little new_constructor Origin.server 4 (text "disk low") named_server
      (omega arith)).5

polls_example :
    poll little fresh_client (some (Net.received (record { address = 6; bytes = fanout_packet })))
    ≡ ok (
        some (record {
          topic_key = 4;
          topic = topic_name little fresh_client 4;
          payload = text "disk low";
        }))
polls_example =
    (polls little fresh_client).0 (record { address = 6; bytes = fanout_packet }) Origin.server 4
      (text "disk low") fanout-Carries

-- The answer never comes, and a packet comes late.
abbrev late : Network
late = record silent {
  closing = Net.received (record { address = 7; bytes = [] }) ∷ Net.disconnected ∷ [];
}

temporary_released_example : IsOver 7 1 6767 none late.closing (ask fresh_client late []).0
temporary_released_example = temporary_released fresh_client late [] 7 1 refl refl refl refl
