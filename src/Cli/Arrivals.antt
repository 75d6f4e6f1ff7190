-- ===== src/Cli/Arrivals.antt =====
-- What the loop of `sub` prints of the fanout packets that arrive.
use mathlib.Core.List.{append-nil, append_assoc}
use spraybus.Prelude.{
  ℕ, ◌^◌, ◌<◌, ◌≡◌, refl, ap, sym, ◌∙◌, List, [], ◌∷◌, ◌++◌, map, Option, none, some, arith, All,
}
use spraybus.Word.{Endian}
use spraybus.Exec.{ok}
use spraybus.Protocol.Enum.{Origin, MessageType}
use spraybus.Protocol.Message
use spraybus.Protocol.Message.{
  Constructor, Message, new_constructor, payload_as_string, set_topic, new_message,
}
use spraybus.Protocol.RoundTrip.{packets_carry}
use spraybus.Networking.Client as Net
use spraybus.Networking.Client.{Service, new_client, received, connected}
use spraybus.Client as Bus
use spraybus.Client.{Client, Network, get_topic_key, publish_key, subscribe_key}
use spraybus.Client.Polling.{process-fanout}
use spraybus.Server.Delivery.{named_server}
use spraybus.Common.{run_forever}
use spraybus.Cli.Run.{newline, show_message}

-- A fanout packet that a server of either byte order sent, as it is received.
pub record Arrival : Type 0 where
  pub address : ℕ
  pub order : Endian
  pub constructor' : Constructor
  pub key : ℕ
  pub payload : List ℕ

abbrev pub received_packet : Arrival → Net.Received
received_packet a = record {
  address = a.address;
  bytes = (Message.fanout a.order a.constructor' a.key a.payload Origin.server).1;
}

-- What one round of the loop finds: nothing, or such a packet.
abbrev pub service_of : Option Arrival → Service
service_of none = none
service_of (some a) = some (received (received_packet a))

abbrev pub IsArrival : Option Arrival → Type 0
IsArrival none = Unit {0}
IsArrival (some a) = a.key < 2 ^ 64

-- The payloads, each on its line.
abbrev pub lines : List (Option Arrival) → List ℕ
lines [] = []
lines (none ∷ rounds) = lines rounds
lines (some a ∷ rounds) = (a.payload ++ newline) ++ lines rounds

abbrev line_of : Option Arrival → List ℕ
line_of none = []
line_of (some a) = a.payload ++ newline

lines_step :
    (a : Option Arrival) (rounds : List (Option Arrival))
    → line_of a ++ lines rounds ≡ lines (a ∷ rounds)
lines_step none rounds = refl
lines_step (some a) rounds = refl

show_parsed :
    (e : Endian) (client : Client) (out : List ℕ) (r : Net.Received) (m : Message)
    (payload : List ℕ)
    → new_message e r.bytes ≡ ok m
    → m.header.type ≡ MessageType.fanout
    → m.payload ≡ payload
    → show_message e client out (some (received r)) ≡ (out ++ (payload ++ newline), ok tt)
unfolding show_message set_topic payload_as_string
show_parsed e client out r m payload parsed t p =
    let shown : show_message e client out (some (received r))
        ≡ (out ++ (m.payload ++ newline), ok tt) =
      ground (arith, process-fanout e client r m parsed t) in
    shown ∙ λ i. (out ++ (p i ++ newline), ok tt)

show_round :
    (e : Endian) (client : Client) (out : List ℕ) (a : Option Arrival)
    → IsArrival a
    → show_message e client out (service_of a) ≡ (out ++ line_of a, ok tt)
unfolding show_message Bus.process Net.process
show_round e client out none h = λ i. (sym (append-nil out) i, ok tt)
show_round e client out (some a) h =
    let (m, parsed, t, _, _, p) =
      (packets_carry a.order e a.constructor' Origin.server a.key a.payload named_server h).5 in
    show_parsed e client out (received_packet a) m a.payload parsed t p

pub show_rounds :
    (e : Endian) (client : Client) (out : List ℕ) (rounds : List (Option Arrival))
    → All IsArrival rounds
    → run_forever (show_message e client) out (map service_of rounds) ≡ (out ++ lines rounds, ok tt)
unfolding run_forever
show_rounds e client out [] h = λ i. (sym (append-nil out) i, ok tt)
show_rounds e client out (a ∷ rounds) h =
    let first = show_round e client out a h.0 in
    let rest = show_rounds e client (out ++ line_of a) rounds h.1 in
    let step : run_forever (show_message e client) out (map service_of (a ∷ rounds))
        ≡ ((out ++ line_of a) ++ lines rounds, ok tt) =
      ground (arith, first, rest) in
    step ∙ λ i. (
      (append_assoc out (line_of a) (lines rounds) ∙ ap (λ x. out ++ x) (lines_step a rounds)) i,
      ok tt,
    )
