-- ===== src/System/World/Tests.antt =====
-- Two little-endian clients and a big-endian server.
use spraybus.Prelude.{ℕ, suc, ◌≡◌, refl, false, List, [], ◌∷◌, ◌++◌, map, some, arith, length}
use spraybus.Word.{Endian, little, big, store, load, byteswap, network_to_host64, host_to_network64}
use spraybus.Protocol.Enum.{type_of, type_value}
use spraybus.Protocol.Header.{header_bytes, read_header, topic_key}
use spraybus.Protocol.Message
use spraybus.Protocol.Message.{new_message}
use spraybus.Exec.{ok}
use spraybus.Text.{text}
use spraybus.Client.{topic_name, publish_key, subscribe_key}
use spraybus.System.World.{
  World, Action, new_world, open_client, close_client, poll_client, serve, publish, subscribe,
  resolve, run, act, polled, serve_result,
}
use spraybus.System.World.Safety.{PollsHonestly, polled_was_published}
use spraybus.System.World.Histories.{content, waiting, pending, from_peer, taken, given}
use spraybus.System.World.Ordering.{messages_in_order}
use spraybus.System.World.Exact.{messages_exact, Stays}
use spraybus.System.World.Interests.{meant, interest}
use mathlib.Core.List.{Sublist}
use spraybus.System.World.Draining.{repeat}
use spraybus.System.World.Arrival.{published_arrives}

abbrev order : ℕ → Endian
order i = little

-- Both are open, and one has published before the other subscribes.
abbrev opening : List Action
opening = open_client 10 ∷ open_client 11 ∷ publish 11 1 (text "too early") ∷ []

abbrev start : World
start = run big order new_world opening

abbrev joined : World
joined = run big order start (subscribe 10 1 ∷ repeat (suc (length (start.links 10).up)) (serve 10))

abbrev told : World
told =
    run big order joined
      (publish 11 1 (text "disk low") ∷ repeat (suc (length (joined.links 11).up)) (serve 11))

published_arrives_example :
    (n : ℕ) × (polled big order (run big order told (repeat n (poll_client 10))) 10
      ≡ ok (
          some (record {
            topic_key = 1;
            topic = topic_name little (start.links 10).client 1;
            payload = text "disk low";
          })))
unfolding run act new_world publish_key
published_arrives_example =
    published_arrives big order opening 10 11 1 (text "disk low") refl refl (λ h. ground (arith, h))
      (omega arith) (omega arith)

abbrev schedule : List Action
schedule =
    open_client 10
    ∷ open_client 11
    ∷ serve 11
    ∷ resolve 10 12 (text "alerts")
    ∷ subscribe 10 1
    ∷ serve 10
    ∷ serve 10
    ∷ publish 11 1 (text "disk low")
    ∷ serve 11
    ∷ []

abbrev end : World
end = run big order new_world schedule

polled_was_published_example :
    (serve_result big end 10 (end.links 10).up ≡ ok tt)
    × PollsHonestly (polled big order end 10) 10 end
polled_was_published_example = polled_was_published big order schedule 10 (omega arith)

-- The publisher leaves, with a packet on its way that may be lost.
abbrev leaving : List Action
leaving = schedule ++ publish 11 1 (text "bye") ∷ close_client 11 0 ∷ serve 11 ∷ []

messages_in_order_example :
    Sublist
      (given big order 10 new_world (leaving ++ poll_client 10 ∷ [])
        ++ waiting little
            ((run big order new_world (leaving ++ poll_client 10 ∷ [])).links 10).down)
      (map content (taken big order new_world (leaving ++ poll_client 10 ∷ [])))
    × Sublist
        (from_peer 11 (taken big order new_world (leaving ++ poll_client 10 ∷ []))
          ++ pending big 11
              ((run big order new_world (leaving ++ poll_client 10 ∷ [])).links 11).up)
        (from_peer 11 (run big order new_world (leaving ++ poll_client 10 ∷ [])).published)
messages_in_order_example =
    messages_in_order big order (leaving ++ poll_client 10 ∷ []) 10 11 (omega arith)

abbrev both_open : List Action
both_open = open_client 10 ∷ open_client 11 ∷ serve 10 ∷ serve 11 ∷ []

-- The client subscribes between two messages to the key.
abbrev talk : List Action
talk =
    publish 11 1 (text "too early")
    ∷ serve 11
    ∷ subscribe 10 1
    ∷ serve 10
    ∷ publish 11 2 (text "other")
    ∷ publish 11 1 (text "disk low")
    ∷ publish 10 1 (text "own")
    ∷ serve 11
    ∷ serve 10
    ∷ serve 11
    ∷ poll_client 10
    ∷ []

what_is_said :
    meant big order 10
      (interest big order 10 (λ k. false) new_world both_open)
      (run big order new_world both_open)
      talk
    ≡ (1, text "disk low") ∷ []
unfolding meant interest run act new_world publish_key subscribe_key new_message Message.publish
    Message.subscribe header_bytes read_header topic_key type_of type_value store load byteswap
    network_to_host64 host_to_network64
what_is_said = refl

messages_exact_example :
    let w = run big order new_world both_open in
    given big order 10 w talk ++ waiting little ((run big order w talk).links 10).down
    ≡ waiting little (w.links 10).down
      ++ meant big order 10 (interest big order 10 (λ k. false) new_world both_open) w talk
unfolding Stays
messages_exact_example =
    messages_exact big order both_open talk 10 (omega arith)
      (refl, (refl, (refl, (refl, (refl, (refl, (refl, (refl, (refl, (refl, (refl, tt)))))))))))
