-- ===== src/System/EndToEnd.antt =====
-- From publish on one client to poll on another.
use mathlib.Core.List.{Mem, mem-map_of_mem, mem-append_right, mem-cons_self, mem-cons_of_mem}
use spraybus.Prelude.{
  ℕ, ◌+◌, ◌^◌, ◌<◌, ◌≡◌, ◌≢◌, sym, ap, ◌∙◌, subst, Bool, true, not, ◌&&◌, List, [], ◌∷◌, select,
  some, arith, length, ◌==◌, Bool-cases, inl, inr, word_key, select_hit, select_miss,
}
use spraybus.Containers.Dict
use spraybus.Word.{Endian}
use spraybus.Exec.{ok}
use spraybus.Protocol.Enum.{Origin}
use spraybus.Protocol.Message
use spraybus.Protocol.Message.{Constructor}
use spraybus.Networking.Server.{Client as Record, send}
use spraybus.Networking.Server.Table.{find_client}
use spraybus.Networking.Client as Net
use spraybus.Server.{ClientData, Server, on_message}
use spraybus.Server.Bus.{Bus}
use spraybus.Server.Refinement.{Shows}
use spraybus.Server.Delivery.{subscribed, publish_fans_out}
use spraybus.Client.{Client, topic_name, poll}
use spraybus.Client.Polling.{polls}

mem-select :
    (p : Record ClientData → Bool) (id : ℕ) (c : Record ClientData)
    (live : List (Record ClientData))
    → find_client id live ≡ some c
    → p c ≡ true
    → Mem c (select p live)
mem-select p id c [] h t = cc
mem-select p id c (d ∷ ds) h t = elim (Bool-cases (d.id == id)) [
  | inl hit ↦
      let e : d ≡ c = ground arith in
      subst (λ x. Mem c (select p (x ∷ ds))) (sym e) (rw (select_hit p c ds t) mem-cons_self)
  | inr miss ↦
      let rest = mem-select p id c ds (ground arith) t in
      elim (Bool-cases (p d)) [
        | inl in_ ↦ rw (select_hit p d ds in_) (mem-cons_of_mem d rest)
        | inr out ↦ rw (select_miss p d ds out) rest
      ]
]

topic_name_known :
    (h : Endian) (cl : Client) (key : ℕ) (topic : List ℕ)
    → Dict.get cl.inverse_topic_map key ≡ some topic
    → topic_name h cl key ≡ topic
unfolding topic_name
topic_name_known h cl key topic known = ground arith

-- A server shows a bus with fewer than 2 ^ 64 - 2 names. A connected client publishes a payload to
-- a 64-bit key; another connected client is subscribed to the key and has resolved it to a topic
-- name. Then the server sends that client a packet from which its poll() returns the key, the topic
-- name and the payload as published, whatever the byte orders of the three hosts are.
pub published_payload_arrives :
    (e d h : Endian) (o : Server) (b : Bus) (publisher subscriber : Record ClientData)
    (k : Constructor) (cl : Client) (key : ℕ) (topic payload : List ℕ)
    → Shows o b
    → find_client publisher.id b.live ≡ some publisher
    → find_client subscriber.id b.live ≡ some subscriber
    → publisher.id ≢ subscriber.id
    → length b.names + 2 < 2 ^ 64
    → key < 2 ^ 64
    → subscribed o subscriber.id key ≡ true
    → Dict.get cl.inverse_topic_map key ≡ some topic
    → let sent =
        (on_message e o publisher.id
          (Message.publish d k key payload Origin.client).1).0.base.effects in
      (packet : List ℕ) × Mem (send subscriber.peer packet) sent
      × ((address : ℕ)
          → poll h cl (some (Net.received (record { address = address; bytes = packet })))
            ≡ ok (some (record { topic_key = key; topic = topic; payload = payload })))
published_payload_arrives e d h o b publisher subscriber k cl key topic payload v from to differ
      room fits joined known =
    let (packet, sent, carries, _) =
      publish_fans_out e d o b publisher v from room k key fits payload in
    (
      packet,
      subst (Mem (send subscriber.peer packet)) (sym sent) (
          mem-append_right o.base.effects (
            mem-map_of_mem (λ (other : Record ClientData). send other.peer packet)
              (mem-select (λ other. not (other.id == publisher.id) && subscribed o other.id key)
                subscriber.id subscriber b.live to (ground arith)))),
      λ address.
          (polls h cl).0 (record { address = address; bytes = packet }) Origin.server key payload
            (carries h)
          ∙ ap (λ t. ok (some (record { topic_key = key; topic = t; payload = payload })))
              (topic_name_known h cl key topic known),
    )
