-- ===== src/System/World/Histories.antt =====
-- What the server has taken and what a client has been given, over a schedule.
use mathlib.Core.List.{append_assoc}
use spraybus.Prelude.{
  ℕ, ◌≡◌, refl, sym, arith, Bool, ap, ◌∙◌, List, [], ◌∷◌, ◌++◌, map, select, Option, none, some,
  ◌==◌, if◌then◌else◌,
}
use spraybus.Word.{Endian}
use spraybus.Exec.{Result, ok, throw, ◌>>=◌}
use spraybus.Protocol.Enum.{Origin, MessageType}
use spraybus.Protocol.Header.{topic_key}
use spraybus.Protocol.Message.{Message, new_message, set_topic}
use spraybus.Protocol.RoundTrip.{Carries}
use spraybus.Client.{Client, FanoutMessage, poll, copy, deliver, on_packet}
use spraybus.Client.Polling.{poll_received}
use spraybus.System.World.{
  Item, joins, leaves, packet, Publication, World, Action, serve, poll_client, act, polled, ready,
}

-- A key and a payload.
abbrev pub Content : Type 0
Content = ℕ × List ℕ

-- The content of a packet, if it is of this type.
abbrev pub fanout_content : MessageType → ℕ → List ℕ → List Content
fanout_content MessageType.fanout key payload = (key, payload) ∷ []
fanout_content other key payload = []

abbrev pub publish_content : MessageType → ℕ → List ℕ → List Content
publish_content MessageType.publish key payload = (key, payload) ∷ []
publish_content other key payload = []

abbrev pub subscribe_content : MessageType → ℕ → List ℕ → List Content
subscribe_content MessageType.subscribe key payload = (key, payload) ∷ []
subscribe_content other key payload = []

abbrev parsed : (MessageType → ℕ → List ℕ → List Content) → Endian → Result Message → List Content
parsed f h (ok m) = f m.header.type (topic_key h m.header) m.payload
parsed f h (throw error) = []

abbrev pub fanouts_in : Endian → List ℕ → List Content
fanouts_in h bytes = parsed fanout_content h (new_message h bytes)

abbrev pub publishes_in : Endian → List ℕ → List Content
publishes_in h bytes = parsed publish_content h (new_message h bytes)

abbrev pub subscribes_in : Endian → List ℕ → List Content
subscribes_in h bytes = parsed subscribe_content h (new_message h bytes)

module _ (h : Endian) (bytes : List ℕ) (type : MessageType) (origin : Origin) (key : ℕ)
    (payload : List ℕ) (reads : Carries h bytes type origin key payload) where
  parsed_read :
      (f : MessageType → ℕ → List ℕ → List Content)
      → parsed f h (new_message h bytes) ≡ f type key payload
  parsed_read f =
      let (m, read, t, _, k, p) = reads in ap (parsed f h) read ∙ λ i. f (t i) (k i) (p i)

  pub fanouts_in_read : fanouts_in h bytes ≡ fanout_content type key payload
  fanouts_in_read = parsed_read fanout_content

  pub publishes_in_read : publishes_in h bytes ≡ publish_content type key payload
  publishes_in_read = parsed_read publish_content

  pub subscribes_in_read : subscribes_in h bytes ≡ subscribe_content type key payload
  subscribes_in_read = parsed_read subscribe_content

-- The contents in a queue to a client.
abbrev pub waiting : Endian → List (List ℕ) → List Content
waiting h [] = []
waiting h (bytes ∷ rest) = fanouts_in h bytes ++ waiting h rest

-- What one poll() gave.
abbrev pub heard : Result (Option FanoutMessage) → List Content
heard (ok (some m)) = (m.topic_key, m.payload) ∷ []
heard (ok none) = []
heard (throw error) = []

abbrev heard_packet : Endian → Client → Result Message → List Content
heard_packet h c r = heard (deliver h c r >>= λ m. ok (copy h m))

heard_type :
    (h : Endian) (c : Client) (m : Message) (type : MessageType)
    → heard (ok (copy h (on_packet h c m type)))
      ≡ fanout_content type (topic_key h m.header) m.payload
unfolding on_packet set_topic
heard_type h c m MessageType.fanout = refl
heard_type h c m _ = refl

heard_parsed :
    (h : Endian) (c : Client) (r : Result Message) → heard_packet h c r ≡ parsed fanout_content h r
unfolding deliver
heard_parsed h c (throw error) = refl
heard_parsed h c (ok m) = heard_type h c m m.header.type

pub heard-poll :
    (h : Endian) (c : Client) (bytes : List ℕ) (rest : List (List ℕ))
    → heard (poll h c (ready (bytes ∷ rest))) ≡ fanouts_in h bytes
heard-poll h c bytes rest =
    ap heard (poll_received h c (record { address = 0; bytes = bytes }))
    ∙ heard_parsed h c (new_message h bytes)

abbrev pub content : Publication → Content
content p = (p.key, p.payload)

abbrev pub publication : ℕ → Content → Publication
publication i c = record { peer = i; key = c.0; payload = c.1 }

-- The publish that an item of a connection is, if it is one.
abbrev pub item_publish : Endian → ℕ → Item → List Publication
item_publish e i joins = []
item_publish e i leaves = []
item_publish e i (packet bytes) = map (publication i) (publishes_in e bytes)

abbrev pub next_publish : Endian → ℕ → List Item → List Publication
next_publish e i [] = []
next_publish e i (item ∷ items) = item_publish e i item

-- The publishes that the server has not taken yet.
abbrev pub pending : Endian → ℕ → List Item → List Publication
pending e i [] = []
pending e i (item ∷ items) = item_publish e i item ++ pending e i items

abbrev pub from_peer : ℕ → List Publication → List Publication
from_peer i = select (λ p. p.peer == i)

pub select-append :
    (test : Publication → Bool) (xs ys : List Publication)
    → select test (xs ++ ys) ≡ select test xs ++ select test ys
select-append test [] ys = refl
select-append test (x ∷ xs) ys = ground (arith, select-append test xs ys)

module _ (e : Endian) (i : ℕ) where
  pub pending-append :
      (xs ys : List Item) → pending e i (xs ++ ys) ≡ pending e i xs ++ pending e i ys
  pending-append [] ys = refl
  pending-append (x ∷ xs) ys =
      ap (λ ps. item_publish e i x ++ ps) (pending-append xs ys)
      ∙ sym (append_assoc (item_publish e i x) (pending e i xs) (pending e i ys))

  from_publications :
      (j : ℕ) (cs : List (ℕ × List ℕ))
      → from_peer j (map (publication i) cs) ≡ (if i == j then map (publication i) cs else [])
  from_publications j [] = ground arith
  from_publications j (c ∷ cs) = ground (arith, from_publications j cs)

  pub from_item :
      (j : ℕ) (item : Item)
      → from_peer j (item_publish e i item) ≡ (if i == j then item_publish e i item else [])
  from_item j joins = ground arith
  from_item j leaves = ground arith
  from_item j (packet bytes) = from_publications j (publishes_in e bytes)

module _ (e : Endian) (order : ℕ → Endian) where
  abbrev pub taken_by : World → Action → List Publication
  taken_by w (serve i) = next_publish e i (w.links i).up
  taken_by w other = []

  abbrev pub given_by : ℕ → World → Action → List Content
  given_by i w (poll_client j) = if j == i then heard (polled e order w i) else []
  given_by i w other = []

  -- The publishes that the server takes in a schedule, in this order.
  unfoldable pub taken : World → List Action → List Publication
  taken w [] = []
  taken w (action ∷ actions) = taken_by w action ++ taken (act e order w action) actions

  -- What the polls of a client give in a schedule, in this order.
  unfoldable pub given : ℕ → World → List Action → List Content
  given i w [] = []
  given i w (action ∷ actions) = given_by i w action ++ given i (act e order w action) actions
