-- ===== src/System/World/Arrival.antt =====
-- Every message that is published to a subscriber arrives, once the queues are taken.
use spraybus.Prelude.{
  ℕ, suc, ◌+◌, ◌^◌, ◌<◌, ◌≡◌, ◌≢◌, ap, sym, ◌∙◌, subst, true, List, [], ◌∷◌, ◌++◌, none, some,
  arith, length, word_key,
}
use mathlib.Core.Path.{ap₂}
use spraybus.Containers.Dict
use spraybus.Word.{Endian}
use spraybus.Text.{text}
use spraybus.Exec.{ok}
use spraybus.Protocol.Enum.{Origin, MessageType}
use spraybus.Protocol.Message
use spraybus.Protocol.Message.{new_constructor}
use spraybus.Protocol.RoundTrip.{packets_carry}
use spraybus.Server.Bus.{Bus, empty_bus, bus_step}
use spraybus.Server.Delivery.{named_client, named_server}
use spraybus.Client.{Client, publish_key, subscribe_key, topic_name, poll}
use spraybus.Client.Polling.{polls}
use spraybus.System.World.{
  packet, Link, World, Action, new_world, serve, subscribe, publish, poll_client, update, call,
  event_of, act, run, polled, ready,
}
use spraybus.System.World.Packets.{Reads}
use spraybus.System.World.Invariant.{Holds}
use spraybus.System.World.Runs.{new_world-Holds, run-Holds, published-Holds, subscribed-Holds}
use spraybus.System.World.Draining.{repeat, polled_up_to, update_own}
use spraybus.System.World.LastItem.{
  IsSubscribed, subscribes, forwards, update_other, emptied, Emptied,
}

module _ (e : Endian) (order : ℕ → Endian) where
  -- A client subscribes, and the server takes its queue.
  module _ (n : ℕ) (b : Bus) (w : World) (i key : ℕ) (h : Holds n b w)
      (on : (w.links i).is_open ≡ true) (fits : key < 2 ^ 64)
      (few : n + length (w.links i).up + 8 < 2 ^ 64) where
    abbrev subscribe_bytes : List ℕ
    subscribe_bytes =
        (Message.subscribe (order i) (w.links i).client.protocol_constructor key Origin.client).1

    abbrev subscribing : World
    subscribing = record w {
      links = update w.links i (call (w.links i) (λ c. subscribe_key (order i) c key));
    }

    subscribe_is : act e order w (subscribe i key) ≡ subscribing
    unfolding act
    subscribe_is = ground (arith, on, fits)

    subscribing-Holds : Holds (n + 1) b subscribing
    subscribing-Holds = subscribed-Holds e order n b w h i key on fits

    subscribing_queue : (subscribing.links i).up ≡ (w.links i).up ++ packet subscribe_bytes ∷ []
    unfolding subscribe_key
    subscribing_queue = ap (λ (l : Link). l.up) (update_own w.links i _)

    abbrev pub joined : World
    joined = run e order w (subscribe i key ∷ repeat (suc (length (w.links i).up)) (serve i))

    subscribe_handled :
        Emptied e i (n + 1 + length (w.links i).up + 1) b subscribing subscribe_bytes joined
    unfolding run
    subscribe_handled =
        subst
          (λ w'.
            Emptied e i (n + 1 + length (w.links i).up + 1) b subscribing subscribe_bytes
              (run e order w' (repeat (suc (length (w.links i).up)) (serve i))))
          (sym subscribe_is)
          (emptied e order (n + 1) b subscribing i (w.links i).up subscribe_bytes subscribing-Holds
            (omega (arith, few)) subscribing_queue)

    abbrev joined_bus : Bus
    joined_bus = (bus_step e subscribe_handled.mid (event_of i (packet subscribe_bytes))).0

    -- Afterwards the server has it as a subscriber, and nothing changes for another client.
    pub joins_topic :
        (bus : Bus) × Holds (n + 1 + length (w.links i).up + 1) bus joined
        × IsSubscribed bus i key
        × ((joined.links i).client.inverse_topic_map ≡ (w.links i).client.inverse_topic_map)
        × ((j : ℕ)
            → i ≢ j
            → ((joined.links j).is_open ≡ (w.links j).is_open)
              × ((joined.links j).up ≡ (w.links j).up))
    unfolding subscribe_key
    joins_topic =
        let done = subscribe_handled in
        (
          joined_bus,
          done.taken.holds,
          subscribes e done.mid i done.sender.0 done.sender.1 done.distinct key subscribe_bytes
              (λ host.
                (packets_carry (order i) host (w.links i).client.protocol_constructor Origin.client
                  key [] named_client fits).3),
          ap (λ (c : Client). c.inverse_topic_map) (done.taken.clients i)
              ∙ ap (λ (l : Link). l.client.inverse_topic_map) (update_own w.links i _),
          λ j away. (
            done.taken.opens j ∙ ap (λ (l : Link). l.is_open) (update_other w.links i _ j away),
            done.taken.queues j away ∙ ap (λ (l : Link). l.up) (update_other w.links i _ j away),
          ),
        )

  -- A client publishes, and the server takes its queue.
  module _ (n : ℕ) (b : Bus) (w : World) (j key : ℕ) (payload : List ℕ) (h : Holds n b w)
      (on : (w.links j).is_open ≡ true) (fits : key < 2 ^ 64)
      (few : n + length (w.links j).up + 6 < 2 ^ 64) where
    abbrev publish_bytes : List ℕ
    publish_bytes =
        (Message.publish (order j) (w.links j).client.protocol_constructor key payload
          Origin.client).1

    abbrev publishing : World
    publishing = record w {
      links = update w.links j (call (w.links j) (λ c. publish_key (order j) c key payload));
      published = w.published ++ record { peer = j; key = key; payload = payload } ∷ [];
    }

    publish_is : act e order w (publish j key payload) ≡ publishing
    unfolding act
    publish_is = ground (arith, on, fits)

    publishing_queue : (publishing.links j).up ≡ (w.links j).up ++ packet publish_bytes ∷ []
    unfolding publish_key
    publishing_queue = ap (λ (l : Link). l.up) (update_own w.links j _)

    abbrev pub told : World
    told = run e order w (publish j key payload ∷ repeat (suc (length (w.links j).up)) (serve j))

    publish_handled :
        Emptied e j (n + 1 + length (w.links j).up + 1) b publishing publish_bytes told
    unfolding run
    publish_handled =
        subst
          (λ w'.
            Emptied e j (n + 1 + length (w.links j).up + 1) b publishing publish_bytes
              (run e order w' (repeat (suc (length (w.links j).up)) (serve j))))
          (sym publish_is)
          (emptied e order (n + 1) b publishing j (w.links j).up publish_bytes
            (published-Holds e order n b w h j key payload on fits) (omega (arith, few))
            publishing_queue)

    abbrev pub out : List ℕ
    out = (Message.fanout e new_constructor key payload Origin.server).1

    -- Afterwards the packet of the message is on its way to a subscriber.
    pub reaches :
        (i : ℕ)
        → IsSubscribed b i key
        → j ≢ i
        → (xs ys : List (List ℕ)) × ((told.links i).down ≡ xs ++ out ∷ ys)
          × ((told.links i).client.inverse_topic_map ≡ (w.links i).client.inverse_topic_map)
    unfolding publish_key
    reaches i (c, there, member) away =
        let done = publish_handled in
        let (ys, sent) =
          forwards e done.mid j done.sender.0 done.sender.1 done.distinct key publish_bytes payload
            i
            (λ host.
              (packets_carry (order j) host (w.links j).client.protocol_constructor Origin.client
                key payload named_client fits).2)
            (c, done.records i away ∙ there, member) away in
        let (xs, down) = done.down i away in
        (
          xs,
          ys,
          down ∙ ap (λ packets. xs ++ packets) sent,
          ap (λ (x : Client). x.inverse_topic_map) (done.taken.clients i)
              ∙ ap (λ (l : Link). l.client.inverse_topic_map) (update_other w.links j _ i away),
        )

-- A client that polls comes to a fanout packet in its queue.
comes_to :
    (e : Endian) (order : ℕ → Endian) (w : World) (i key : ℕ) (bytes payload : List ℕ)
    (xs ys : List (List ℕ))
    → (w.links i).down ≡ xs ++ bytes ∷ ys
    → Reads bytes MessageType.fanout Origin.server key payload
    → polled e order (run e order w (repeat (length xs) (poll_client i))) i
      ≡ ok (
          some (record {
            topic_key = key;
            topic = topic_name (order i) (w.links i).client key;
            payload = payload;
          }))
unfolding polled
comes_to e order w i key bytes payload xs ys down reads =
    let (ready_now, client) = polled_up_to e order i xs (bytes ∷ ys) w down in
    ap₂ (λ (c : Client) (packets : List (List ℕ)). poll (order i) c (ready packets)) client
      ready_now
    ∙ (polls (order i) (w.links i).client).0 (record { address = 0; bytes = bytes }) Origin.server
        key payload (reads (order i))

topic_name_same :
    (h : Endian) (c d : Client) (key : ℕ)
    → c.inverse_topic_map ≡ d.inverse_topic_map
    → topic_name h c key ≡ topic_name h d key
unfolding topic_name
topic_name_same h c d key same =
    ap (λ m. elim (Dict.get m key) [ some name ↦ name | none ↦ text "unknown" ]) same

-- After any schedule from the start, two clients are open. The first subscribes to a 64-bit key and
-- the server takes what the client has sent; then the second publishes to the key and the server
-- takes what that client has sent. Then some number of poll() calls of the first client leads to
-- one that returns the key and the payload, with the name that the client has for the key, whatever
-- else is in the queues. The actions and the two queues together are fewer than the ids.
pub published_arrives :
    (e : Endian) (order : ℕ → Endian) (actions : List Action) (i j key : ℕ) (payload : List ℕ)
    → ((run e order new_world actions).links i).is_open ≡ true
    → ((run e order new_world actions).links j).is_open ≡ true
    → i ≢ j
    → key < 2 ^ 64
    → length actions
        + length ((run e order new_world actions).links i).up
        + length ((run e order new_world actions).links j).up
        + 8
      < 2 ^ 64
    → let w = run e order new_world actions in
      let w1 = run e order w (subscribe i key ∷ repeat (suc (length (w.links i).up)) (serve i)) in
      let w2 =
        run e order w1 (publish j key payload ∷ repeat (suc (length (w1.links j).up)) (serve j)) in
      (n : ℕ) × (polled e order (run e order w2 (repeat n (poll_client i))) i
        ≡ ok (
            some (record {
              topic_key = key;
              topic = topic_name (order i) (w.links i).client key;
              payload = payload;
            })))
unfolding polled
published_arrives e order actions i j key payload on_i on_j away fits few =
    let w = run e order new_world actions in
    let n = 0 + length actions in
    let (b, h) =
      run-Holds e order 0 empty_bus new_world actions new_world-Holds (omega (arith, few)) in
    let (b1, h1, member, names1, others) =
      joins_topic e order n b w i key h on_i fits (omega (arith, few)) in
    let w1 = joined e order n b w i key h on_i fits (omega (arith, few)) in
    let n1 = n + 1 + length (w.links i).up + 1 in
    let queue : length (w1.links j).up ≡ length (w.links j).up = ap length (others j away).1 in
    let few1 : n1 + length (w1.links j).up + 6 < 2 ^ 64 = omega (arith, few, queue) in
    let on1 = (others j away).0 ∙ on_j in
    let (xs, ys, down, names2) =
      reaches e order n1 b1 w1 j key payload h1 on1 fits few1 i member (λ same. away (sym same)) in
    let w2 = told e order n1 b1 w1 j key payload h1 on1 fits few1 in
    (
      length xs,
      comes_to e order w2 i key (out e order n1 b1 w1 j key payload h1 on1 fits few1) payload xs ys
            down
            (λ host.
              (packets_carry e host new_constructor Origin.server key payload named_server fits).5)
          ∙ ap (λ t. ok (some (record { topic_key = key; topic = t; payload = payload })))
              (topic_name_same (order i) (w2.links i).client (w.links i).client key
                (names2 ∙ names1)),
    )
