-- ===== src/System/World/Resolving.antt =====
-- get_topic_key over a temporary connection, and everything still holds.
use spraybus.Prelude.{
  ℕ, ◌+◌, ◌^◌, ◌<◌, ◌≡◌, ◌≢◌, refl, ap, sym, ◌∙◌, subst, true, false, List, [], ◌∷◌, ◌++◌, Option,
  none, some, arith, length, ◌==◌, All, Bool-cases, Option-cases, inl, inr, text_key,
}
use spraybus.Containers.Dict
use spraybus.Word.{Endian}
use spraybus.Protocol.Enum.{Origin, MessageType}
use spraybus.Protocol.Message.{new_constructor}
use spraybus.Protocol.RoundTrip.{packets_carry}
use spraybus.TopicMap.{Topic}
use spraybus.TopicMap.Names.{key_of, request, length-request}
use spraybus.TopicMap.Keys.{key_of-request}
use spraybus.Networking.Server.{Client as Record, disconnect, send, packet_destroy}
use spraybus.Networking.Server.Table.{find_peer, find_peer-snoc}
use spraybus.Server.{ClientData, Server, process, dispatch}
use spraybus.Server.Bus.{Bus, bus_step, disconnect_step, key_in}
use spraybus.Server.Refinement.{Shows, Refines}
use spraybus.Server.Runs.{dispatch-Refines}
use spraybus.Server.Delivery.{named_server}
use spraybus.Client.{Client, get_topic_key}
use spraybus.Client.Cache.{Agrees, request_of}
use spraybus.System.{idle, exchange, server_network}
use spraybus.System.Resolve.{
  idle-Shows, visitor, answer_packet, sent, shown, key_of_requested, caches_agree,
}
use spraybus.System.World.{World, leaves, sent_to, is_unused, look_up}
use spraybus.System.World.Events.{
  found, others_stay, has_record-after, advance, lifecycle, find_peer-snoc_other,
}
use spraybus.System.World.Packets.{Reads, Honest, response, sent_to_one}
use spraybus.System.World.Invariant.{InStep, Holds, update-InStep, delivered-InStep, unused_absent}

-- Maps that agree with some keys agree with more of them.
later-Agrees :
    (keys keys' : Topic → Option ℕ) (c : Client)
    → ((t : Topic) (k : ℕ) → keys t ≡ some k → keys' t ≡ some k)
    → Agrees keys c
    → Agrees keys' c
later-Agrees keys keys' c later a = record {
  known = λ t k h. later t k (a.known t k h);
  named = λ t k h. later t k (a.named t k h);
  paired = a.paired;
}

disconnect_step_keeps :
    (e : Endian) (b : Bus) (c : Option (Record ClientData))
    → let (b', _) = disconnect_step e b c in (b'.names ≡ b.names) × (b'.next_id ≡ b.next_id)
disconnect_step_keeps e b none = (refl, refl)
disconnect_step_keeps e b (some c) = (refl, refl)

module _ (e : Endian) (order : ℕ → Endian) (n : ℕ) (b : Bus) (w : World) (h : Holds n b w)
    (few : n + 4 < 2 ^ 64) (i peer : ℕ) (topic : Topic)
    (fresh : Dict.get (w.links i).client.topic_map topic ≡ none)
    (free : is_unused (w.links peer) ≡ true) where
  abbrev names' : List Topic
  names' = request b.names topic

  -- The bus while the temporary connection is open.
  abbrev open_bus : Bus
  open_bus = record b {
    live = b.live ++ visitor e b peer [] topic ∷ [];
    next_id = b.next_id + 1;
    names = names';
  }

  absent : find_peer peer b.live ≡ none
  absent =
      let no_record = unused_absent w.published b peer (w.links peer) (h.linked peer) free in
      elim (Option-cases (find_peer peer b.live)) [
        | inl gone ↦ gone
        | inr (c, there) ↦ cc (no_record, ap found there)
      ]

  ids : b.next_id + 2 < 2 ^ 64
  ids = omega (arith, h.ids)

  room : length b.names + 3 < 2 ^ 64
  room = omega (arith, h.names)

  abbrev client : Client
  client = (w.links i).client

  abbrev msg : List ℕ
  msg = request_of (order i) client topic

  abbrev pub asked_server : Server
  asked_server = (process e (idle w.server) (exchange peer msg)).0

  asked-Shows : Shows asked_server open_bus
  asked-Shows = shown e (order i) w.server b h.shows client peer topic absent ids room

  abbrev pub closed_bus : Bus
  closed_bus = (bus_step e open_bus (disconnect peer)).0

  here : find_peer peer open_bus.live ≡ some (visitor e b peer msg topic)
  here = find_peer-snoc peer (visitor e b peer msg topic) b.live absent refl

  left :
      Refines []
        (dispatch e (idle asked_server) (disconnect peer))
        (bus_step e open_bus (disconnect peer))
  left =
      dispatch-Refines e (idle asked_server) open_bus (idle-Shows asked_server open_bus asked-Shows)
        (disconnect peer) (visitor e b peer msg topic, here) (omega (arith, h.ids))
        (omega (arith, h.names, length-request b.names topic))

  -- The temporary connection leaves its answer's name behind, and nothing else.
  closed : (closed_bus.names ≡ names') × (closed_bus.next_id ≡ b.next_id + 1)
  closed = disconnect_step_keeps e open_bus (find_peer peer open_bus.live)

  gone_again : find_peer peer closed_bus.live ≡ none
  gone_again =
      let none_found : found (find_peer peer closed_bus.live) ≡ false =
        has_record-after e open_bus asked-Shows.table.distinct peer leaves false
          (ap (λ r. advance (found r) leaves) here) in
      elim (Option-cases (find_peer peer closed_bus.live)) [
        | inl gone ↦ gone
        | inr (c, there) ↦ cc (none_found, ap found there)
      ]

  pub same_records : (j : ℕ) → find_peer j closed_bus.live ≡ find_peer j b.live
  same_records j = elim (Bool-cases (peer == j)) [
    | inl same ↦
        subst (λ k. find_peer k closed_bus.live ≡ find_peer k b.live) (ground arith)
          (gone_again ∙ sym absent)
    | inr away ↦
        let other : peer ≢ j = ground arith in
        others_stay e open_bus asked-Shows.table.distinct peer leaves j other
        ∙ find_peer-snoc_other j (visitor e b peer msg topic) b.live other
  ]

  -- The answer to the request, which is all that the server sends.
  pub answered :
      (answer : List ℕ) × (key : ℕ) × Reads answer MessageType.topic_response Origin.server key
        topic
      × (asked_server.base.effects ≡ send peer answer ∷ packet_destroy 0 ∷ [])
  answered =
      let (k, fits) = key_of_requested b.names topic in
      (
        answer_packet e b peer msg topic,
        key_in names' topic,
        λ host.
            (packets_carry e host new_constructor Origin.server (key_in names' topic) topic
              named_server (omega (arith, fits))).1,
        sent e (order i) w.server b h.shows client peer topic absent ids room,
      )

  honest :
      (j : ℕ)
      → All (Honest w.published j) (sent_to j (send peer answered.0 ∷ packet_destroy 0 ∷ []))
  honest j =
      sent_to_one (Honest w.published j) j peer 0 answered.0 (response answered.1 topic answered.2)

  more_keys : (t : Topic) (k : ℕ) → key_of b.names t ≡ some k → key_of closed_bus.names t ≡ some k
  more_keys t k known = rw closed.0 (key_of-request b.names t topic k known)

  asker-Agrees :
      Agrees
        (key_of closed_bus.names)
        (get_topic_key (order i) client (server_network e w.server peer) topic).0
  asker-Agrees =
      later-Agrees _ _ _ (λ t k known. rw closed.0 (sym (asked-Shows.topics.at_name t) ∙ known))
        (caches_agree e (order i) w.server b h.shows client peer topic absent ids room fresh
          (later-Agrees _ _ _ (λ t k known. h.shows.topics.at_name t ∙ known) (h.linked i).knows))

  later-InStep :
      (j : ℕ) (c : Client)
      → Agrees (key_of closed_bus.names) c
      → InStep w.published closed_bus j (record (w.links j) { client = c })
  later-InStep j c agrees = record {
    alive =
        ap (λ r. lifecycle (some (found r)) (w.links j).up) (same_records j) ∙ (h.linked j).alive;
    sends = (h.linked j).sends;
    receives = (h.linked j).receives;
    knows = agrees;
  }

  pub look_up-Holds : Holds (n + 1) closed_bus (look_up e order w i peer topic)
  unfolding look_up
  look_up-Holds = record {
    shows = left.shows;
    ids = omega (arith, closed.1, h.ids);
    names = omega (arith, ap length closed.0, length-request b.names topic, h.names);
    linked = delivered-InStep w.published b closed_bus _ _ _ answered.3 honest (
        update-InStep w.published closed_bus w.links i _
          (λ j away. later-InStep j _ (later-Agrees _ _ _ more_keys (h.linked j).knows))
          (later-InStep i _ asker-Agrees));
  }
