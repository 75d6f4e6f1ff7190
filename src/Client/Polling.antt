-- ===== src/Client/Polling.antt =====
-- process and poll of the client: what a received packet becomes.
use spraybus.Prelude.{ℕ, ◌<◌, ◌≡◌, ◌≢◌, refl, ap, ◌∙◌, List, none, some, arith, length}
use spraybus.Word.{Endian}
use spraybus.Exec.{ok, throw, runtime_error, ◌>>=◌}
use spraybus.Text.{text}
use spraybus.Protocol.Enum.{Origin, MessageType}
use spraybus.Protocol.Header.{header_size, topic_key}
use spraybus.Protocol.Message.{Message, new_message, set_topic}
use spraybus.Protocol.RoundTrip.{Carries}
use spraybus.Networking.Client as Net
use spraybus.Networking.Client.{Received}
use spraybus.Client.{Client, topic_name, on_packet, deliver, process, poll, copy}

module _ (e : Endian) (c : Client) where
  pub poll_received :
      (r : Received)
      → poll e c (some (Net.received r))
        ≡ (deliver e c (new_message e r.bytes) >>= λ m. ok (copy e m))
  unfolding poll Net.process
  poll_received r = refl

  -- A fanout packet reaches the callback with its topic's name.
  pub process-fanout :
      (r : Received) (m : Message)
      → new_message e r.bytes ≡ ok m
      → m.header.type ≡ MessageType.fanout
      → process e c (some (Net.received r))
        ≡ ok (some (set_topic m (topic_name e c (topic_key e m.header))))
  unfolding process Net.process deliver on_packet
  process-fanout r m parsed t = ap (deliver e c) parsed ∙ ap (λ type. ok (on_packet e c m type)) t

  on_packet_other :
      (m : Message) (type : MessageType) → type ≢ MessageType.fanout → on_packet e c m type ≡ none
  unfolding on_packet
  on_packet_other m MessageType.fanout h = absurd (h refl)
  on_packet_other m _ h = refl

  short_message :
      (bytes : List ℕ)
      → length bytes < header_size
      → new_message e bytes ≡ throw (runtime_error (text "Data too short to contain header"))
  unfolding new_message
  short_message bytes h = ground arith

  -- A fanout packet becomes a message with its key, its payload, and the name that the client has
  -- resolved for the key, or "unknown". A packet of another type and a call with nothing ready give
  -- no message. A packet shorter than a header and a disconnect throw.
  pub polls :
      ((r : Received) (origin : Origin) (key : ℕ) (payload : List ℕ)
        → Carries e r.bytes MessageType.fanout origin key payload
        → poll e c (some (Net.received r))
          ≡ ok (some (record { topic_key = key; topic = topic_name e c key; payload = payload })))
      × ((r : Received) (m : Message)
          → new_message e r.bytes ≡ ok m
          → m.header.type ≢ MessageType.fanout
          → poll e c (some (Net.received r)) ≡ ok none)
      × ((r : Received)
          → length r.bytes < header_size
          → poll e c (some (Net.received r))
            ≡ throw (runtime_error (text "Data too short to contain header")))
      × (poll e c none ≡ ok none)
      × (poll e c (some Net.disconnected)
          ≡ throw (runtime_error (text "Disconnected from server.")))
  unfolding poll Net.process deliver set_topic
  polls = (
    (λ r origin key payload (m, parsed, t, _, k, p).
        poll_received r
        ∙ ap (λ x. deliver e c x >>= λ m. ok (copy e m)) parsed
        ∙ ap (λ t'. ok (copy e (on_packet e c m t'))) t
        ∙ λ i. ok (some (record { topic_key = k i; topic = topic_name e c (k i); payload = p i }))),
    (λ r m parsed other.
        poll_received r
        ∙ ap (λ x. deliver e c x >>= λ m. ok (copy e m)) parsed
        ∙ ap (λ o. ok (copy e o)) (on_packet_other m m.header.type other)),
    (λ r short.
        poll_received r
        ∙ ap (λ x. deliver e c x >>= λ m. ok (copy e m)) (short_message r.bytes short)),
    refl,
    refl,
  )
