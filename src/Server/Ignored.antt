-- ===== src/Server/Ignored.antt =====
-- Packets that the server does not act on.
use mathlib.Core.List.{append-nil}
use spraybus.Prelude.{
  ℕ, ◌+◌, ◌^◌, ◌<◌, ◌≡◌, ◌⊎◌, inl, inr, refl, ap, ◌∙◌, subst, Bool, true, false, List, [], length,
  some, arith,
}
use spraybus.Word.{Endian}
use spraybus.Exec.{ok}
use spraybus.Protocol.Enum.{MessageType}
use spraybus.Protocol.Header.{header_size, topic_key}
use spraybus.Protocol.Message.{Message, new_message}
use spraybus.Networking.Server.{Client}
use spraybus.Networking.Server.Table.{find_client}
use spraybus.Server.{ClientData, Server, on_message}
use spraybus.Server.Bus.{Bus, answer, answer_parsed, answer_bytes}
use spraybus.Server.Refinement.{Shows, Refines, on_message-Refines, new_message_short}

-- The types that a server acts on.
abbrev pub is_served : MessageType → Bool
is_served MessageType.topic_request = true
is_served MessageType.publish = true
is_served MessageType.subscribe = true
is_served MessageType.unsubscribe = true
is_served _ = false

unserved :
    (e : Endian) (b : Bus) (c : Client ClientData) (type : MessageType) (key : ℕ) (payload : List ℕ)
    → is_served type ≡ false
    → answer e b c type key payload ≡ (b, [])
unserved e b c MessageType.topic_request key payload h = cc
unserved e b c MessageType.publish key payload h = cc
unserved e b c MessageType.subscribe key payload h = cc
unserved e b c MessageType.unsubscribe key payload h = cc
unserved e b c MessageType.unknown key payload h = refl
unserved e b c MessageType.topic_response key payload h = refl
unserved e b c MessageType.fanout key payload h = refl
unserved e b c (MessageType.unnamed n) key payload h = refl

-- A server shows a bus with fewer than 2 ^ 64 - 2 names. For a packet from a connected client that
-- is shorter than a header, or whose type is none of the four that clients send: on_message
-- returns, sends nothing, and changes no client, subscription or name.
pub ignored_packets :
    (e : Endian) (o : Server) (b : Bus) (c : Client ClientData) (bytes : List ℕ)
    → Shows o b
    → find_client c.id b.live ≡ some c
    → length b.names + 2 < 2 ^ 64
    → (length bytes < header_size)
      ⊎ ((m : Message) × (new_message e bytes ≡ ok m) × (is_served m.header.type ≡ false))
    → let result = on_message e o c.id bytes in
      (result.1 ≡ ok tt) × (result.0.base.effects ≡ o.base.effects) × Shows result.0 b
ignored_packets e o b c bytes v found room useless =
    let nothing : answer_bytes e b c bytes ≡ (b, []) = elim useless [
      | inl short ↦ ap (answer_parsed e b c) (new_message_short e bytes (ground arith))
      | inr (m, parsed, other) ↦
          ap (answer_parsed e b c) parsed
          ∙ unserved e b c m.header.type (topic_key e m.header) m.payload other
    ] in
    let r =
      subst (Refines o.base.effects (on_message e o c.id bytes)) nothing
        (on_message-Refines e o b c bytes v found room) in
    (r.returned, r.sent ∙ append-nil o.base.effects, r.shows)
