-- ===== src/Server/Delivery.antt =====
-- What subscribe, unsubscribe and publish packets from a client do, from the bytes that the client
-- sends to the bytes that the subscribers receive. The hosts may differ in byte order.
use mathlib.Core.List.{append-nil}
use spraybus.Prelude.{
  ℕ, ◌+◌, ◌^◌, ◌<◌, ◌≡◌, refl, sym, ap, ◌∙◌, Bool, false, not, ◌&&◌, ◌||◌, List, [], ◌∷◌, ◌++◌, map,
  select, subst, none, some, arith, length, ◌==◌, if◌then◌else◌, word_key,
}
use spraybus.Containers.Dict
use spraybus.Containers.KeySet
use spraybus.Containers.KeySet.{contains-insert, contains-erase}
use spraybus.Word.{Endian}
use spraybus.Protocol.Enum.{MessageType, Origin, origin_of, origin_value}
use spraybus.Protocol.Message
use spraybus.Protocol.Message.{Constructor, Message, new_message, new_constructor}
use spraybus.Protocol.RoundTrip.{Carries, packets_carry}
use spraybus.Networking.Server.{Client, send}
use spraybus.Networking.Server.Table.{find_client, find_client-set_data, set_data}
use spraybus.Server.{ClientData, Server, wants, on_message}
use spraybus.Server.Forward.{AllFound, all_found}
use spraybus.Server.Bus.{Bus, answer, answer_bytes}
use spraybus.Server.Refinement.{Shows, Refines, on_message-Refines}

-- Is the client with this id subscribed to this key?
unfoldable pub subscribed : Server → ℕ → ℕ → Bool
subscribed o id key = elim (Dict.get o.base.client_map id) [
  | some c ↦ KeySet.contains c.client_data.subscribed_topics key
  | none ↦ false
]

pub answer_carried :
    (e : Endian) (b : Bus) (c : Client ClientData) (bytes : List ℕ) (type : MessageType)
    (origin : Origin) (key : ℕ) (payload : List ℕ)
    → Carries e bytes type origin key payload
    → answer_bytes e b c bytes ≡ answer e b c type key payload
answer_carried e b c bytes type origin key payload (m, parsed, t, _, k, p) =
    rw parsed (λ i. answer e b c (t i) (k i) (p i))

pub named_client : origin_of (origin_value Origin.client) ≡ Origin.client
unfolding origin_of origin_value
named_client = refl

pub named_server : origin_of (origin_value Origin.server) ≡ Origin.server
unfolding origin_of origin_value
named_server = refl

module _ (e d : Endian) (o : Server) (b : Bus) (c : Client ClientData) (v : Shows o b)
    (found : find_client c.id b.live ≡ some c) (room : length b.names + 2 < 2 ^ 64)
    (k : Constructor) (key : ℕ) (fits : key < 2 ^ 64) where
  replaced :
      (topics : KeySet.KeySet ℕ) (o' : Server) (id j : ℕ)
      → Shows o' (record b { live = set_data c.id (record { subscribed_topics = topics }) b.live })
      → subscribed o' id j ≡ (if c.id == id then KeySet.contains topics j else subscribed o id j)
  unfolding subscribed
  replaced topics o' id j v' =
      let after : Dict.get o'.base.client_map id ≡ (
          if c.id == id
          then some (record c { client_data = record { subscribed_topics = topics } })
          else Dict.get o.base.client_map id) =
        v'.table.stored id
        ∙ find_client-set_data c.id id (record { subscribed_topics = topics }) b.live c found
        ∙ ap
            (λ x.
              if c.id == id
              then some (record c { client_data = record { subscribed_topics = topics } })
              else x)
            (sym (v.table.stored id)) in
      ground (arith, after)

  own : (j : ℕ) → KeySet.contains c.client_data.subscribed_topics j ≡ subscribed o c.id j
  unfolding subscribed
  own j = ground (arith, v.table.stored c.id)

  wanting :
      (rest : List (Client ClientData))
      → AllFound b.live rest
      → select (wants c.id key) rest
        ≡ select
            (λ (other : Client ClientData). not (other.id == c.id) && subscribed o other.id key)
            rest
  unfolding wants subscribed
  wanting [] all = refl
  wanting (other ∷ rest) all = ground (arith, wanting rest all.1, v.table.stored other.id, all.0)

  -- What on_message does with a packet that carries such a message.
  answered :
      (bytes : List ℕ) (type : MessageType) (payload : List ℕ)
      → Carries e bytes type Origin.client key payload
      → Refines o.base.effects (on_message e o c.id bytes) (answer e b c type key payload)
  answered bytes type payload carried =
      subst (Refines o.base.effects (on_message e o c.id bytes))
        (answer_carried e b c bytes type Origin.client key payload carried)
        (on_message-Refines e o b c bytes v found room)

  -- A server shows a bus with fewer than 2 ^ 64 - 2 names. A subscribe packet of a connected client
  -- with a 64-bit key adds the key to the sender's subscriptions and changes no other; an
  -- unsubscribe packet takes it away and changes no other. Neither makes the server send anything.
  pub subscriptions :
      let after = λ (bytes : List ℕ). on_message e o c.id bytes in
      let joined = after (Message.subscribe d k key Origin.client).1 in
      let left = after (Message.unsubscribe d k key Origin.client).1 in
      ((id j : ℕ)
        → (subscribed joined.0 id j ≡ ((c.id == id && key == j) || subscribed o id j))
          × (subscribed left.0 id j ≡ (not (c.id == id && key == j) && subscribed o id j)))
      × (joined.0.base.effects ≡ o.base.effects)
      × (left.0.base.effects ≡ o.base.effects)
  subscriptions =
      let packets = packets_carry d e k Origin.client key [] named_client fits in
      let join = answered _ MessageType.subscribe [] packets.3 in
      let leave = answered _ MessageType.unsubscribe [] packets.4 in
      let topics = c.client_data.subscribed_topics in
      (
        (λ id j. (
          replaced (KeySet.insert topics key) _ id j join.shows
              ∙ ground (arith, contains-insert topics key j, own j),
          replaced (KeySet.erase topics key) _ id j leave.shows
              ∙ ground (arith, contains-erase topics key j, own j),
        )),
        join.sent ∙ append-nil o.base.effects,
        leave.sent ∙ append-nil o.base.effects,
      )

  -- A server shows a bus with fewer than 2 ^ 64 - 2 names. A publish packet of a connected client
  -- with a 64-bit key makes it send one fanout packet, the same for all, to each connected client
  -- other than the sender that is subscribed to the key, in the order of their connections, and
  -- nothing else; every host reads from it the key and the payload that the sender published. No
  -- subscription, name or client changes.
  pub publish_fans_out :
      (payload : List ℕ)
      → let result = on_message e o c.id (Message.publish d k key payload Origin.client).1 in
        (packet : List ℕ) × (result.0.base.effects
          ≡ o.base.effects
            ++ map
                (λ (other : Client ClientData). send other.peer packet)
                (select (λ other. not (other.id == c.id) && subscribed o other.id key) b.live))
        × ((host : Endian) → Carries host packet MessageType.fanout Origin.server key payload)
        × Shows result.0 b
  publish_fans_out payload =
      let packets = packets_carry d e k Origin.client key payload named_client fits in
      let published = answered _ MessageType.publish payload packets.2 in
      (
        (Message.fanout e new_constructor key payload Origin.server).1,
        published.sent
            ∙ ap
                (λ os.
                  o.base.effects
                  ++ map
                      (λ (other : Client ClientData).
                        send other.peer
                          (Message.fanout e new_constructor key payload Origin.server).1)
                      os)
                (wanting b.live (all_found b.live v.table.distinct)),
        (λ host.
            (packets_carry e host new_constructor Origin.server key payload named_server fits).5),
        published.shows,
      )
