-- ===== src/System/World/Events.antt =====
-- One event of a client's connection at the bus: which peers have a record afterwards, and what
-- stays the same for the others.
use spraybus.Prelude.{
  ℕ, ◌≡◌, ◌≢◌, refl, ap, sym, ◌∙◌, Bool, true, false, List, [], ◌∷◌, ◌++◌, Option, none, some,
  arith, ◌==◌, if◌then◌else◌, All, All-imp, Option-cases, Bool-cases, inl, inr, ◌⊎◌, word_key,
}
use spraybus.Containers.KeySet
use spraybus.Word.{Endian}
use spraybus.Exec.{Result, ok, throw}
use spraybus.Protocol.Enum.{MessageType}
use spraybus.Protocol.Header.{topic_key}
use spraybus.Protocol.Message.{Message, new_message}
use spraybus.Networking.Server.{Client as Record}
use spraybus.Networking.Server.Table.{
  find_client, find_peer, find_peer-snoc, find_peer_peer, find_peer-find_client, All-find_peer,
  remove_client, set_data, Distinct,
}
use spraybus.Server.{ClientData, no_topics}
use spraybus.Server.Bus.{Bus, bus_step, answer, answer_parsed, Allows}
use spraybus.System.World.{Item, joins, leaves, packet, event_of}

-- Whether a peer has a record after an item, none if ENet brings no such item then.
abbrev pub advance : Bool → Item → Option Bool
advance false joins = some true
advance false leaves = none
advance false (packet bytes) = none
advance true joins = none
advance true leaves = some false
advance true (packet bytes) = some true

abbrev pub and_then : Option Bool → Item → Option Bool
and_then none item = none
and_then (some known) item = advance known item

abbrev pub lifecycle : Option Bool → List Item → Option Bool
lifecycle known [] = known
lifecycle known (item ∷ items) = lifecycle (and_then known item) items

pub lifecycle-snoc :
    (known : Option Bool) (items : List Item) (item : Item)
    → lifecycle known (items ++ item ∷ []) ≡ and_then (lifecycle known items) item
lifecycle-snoc known [] item = refl
lifecycle-snoc known (x ∷ xs) item = lifecycle-snoc (and_then known x) xs item

pub lifecycle-none : (items : List Item) → lifecycle none items ≡ none
lifecycle-none [] = refl
lifecycle-none (item ∷ items) = lifecycle-none items

abbrev pub found : Option (Record ClientData) → Bool
found (some c) = true
found none = false

abbrev pub has_record : Bus → ℕ → Bool
has_record b i = found (find_peer i b.live)

module _ (j : ℕ) where
  pub find_peer-set_data :
      (id : ℕ) (v : ClientData) (live : List (Record ClientData))
      → find_peer j (set_data id v live) ≡ elim (find_peer j live) [
        | none ↦ none
        | some c ↦ some (if c.id == id then record c { client_data = v } else c)
      ]
  find_peer-set_data id v [] = refl
  find_peer-set_data id v (d ∷ ds) = ground (arith, find_peer-set_data id v ds)

  pub find_peer-snoc_other :
      (c : Record ClientData) (live : List (Record ClientData))
      → c.peer ≢ j
      → find_peer j (live ++ c ∷ []) ≡ find_peer j live
  find_peer-snoc_other c [] n = ground arith
  find_peer-snoc_other c (d ∷ ds) n = ground (arith, find_peer-snoc_other c ds n)

  find_peer_absent :
      (live : List (Record ClientData)) → All (λ d. d.peer ≢ j) live → find_peer j live ≡ none
  find_peer_absent [] h = refl
  find_peer_absent (d ∷ ds) h = ground (arith, find_peer_absent ds h.1)

remove_absent :
    (id : ℕ) (live : List (Record ClientData))
    → All (λ d. d.id ≢ id) live
    → remove_client id live ≡ live
remove_absent id [] h = refl
remove_absent id (d ∷ ds) h = ground (arith, remove_absent id ds h.1)

pub find_peer-remove_client :
    (i j : ℕ) (c : Record ClientData) (live : List (Record ClientData))
    → Distinct live
    → find_peer i live ≡ some c
    → find_peer j (remove_client c.id live) ≡ (if i == j then none else find_peer j live)
find_peer-remove_client i j c [] distinct h = cc
find_peer-remove_client i j c (d ∷ ds) distinct h = elim (Bool-cases (d.peer == i)) [
  | inl here ↦
      let ids = remove_absent d.id ds (All-imp ds (λ x n. n.0) distinct.0) in
      let gone : (i == j) ≡ true → find_peer j ds ≡ none =
        λ e. find_peer_absent j ds (All-imp ds (λ x n. ground (arith, n.1)) distinct.0) in
      let same : d ≡ c = ground arith in
      let rest : remove_client c.id (d ∷ ds) ≡ ds =
        ap (λ (x : Record ClientData). remove_client x.id (d ∷ ds)) (sym same)
        ∙ ground (arith, ids) in
      ap (find_peer j) rest ∙ ground (arith, gone)
  | inr later ↦
      let h' : find_peer i ds ≡ some c = ground arith in
      let other = All-find_peer (λ x. (x.id ≢ d.id) × (x.peer ≢ d.peer)) i ds c distinct.0 h' in
      let rest : remove_client c.id (d ∷ ds) ≡ d ∷ remove_client c.id ds =
        ground (arith, other.0) in
      ap (find_peer j) rest ∙ ground (arith, find_peer-remove_client i j c ds distinct.1 h')
]

-- What an answer does to the list of clients: nothing, or the sender's topics are replaced.
answer-live :
    (e : Endian) (b : Bus) (c : Record ClientData) (type : MessageType) (key : ℕ) (payload : List ℕ)
    → ((answer e b c type key payload).0.live ≡ b.live)
      ⊎ ((topics : KeySet.KeySet ℕ) × ((answer e b c type key payload).0.live
            ≡ set_data c.id (record { subscribed_topics = topics }) b.live))
answer-live e b c MessageType.subscribe key payload = inr (_, refl)
answer-live e b c MessageType.unsubscribe key payload = inr (_, refl)
answer-live e b c MessageType.topic_request key payload = inl refl
answer-live e b c MessageType.topic_response key payload = inl refl
answer-live e b c MessageType.publish key payload = inl refl
answer-live e b c MessageType.fanout key payload = inl refl
answer-live e b c MessageType.unknown key payload = inl refl
answer-live e b c (MessageType.unnamed n) key payload = inl refl

-- A packet from the peer with record `c`, read as `m`.
answered-live :
    (e : Endian) (b : Bus) (c : Record ClientData) (m : Result Message)
    → ((answer_parsed e b c m).0.live ≡ b.live)
      ⊎ ((topics : KeySet.KeySet ℕ) × ((answer_parsed e b c m).0.live
            ≡ set_data c.id (record { subscribed_topics = topics }) b.live))
answered-live e b c (throw error) = inl refl
answered-live e b c (ok m) = answer-live e b c m.header.type (topic_key e m.header) m.payload

module _ (live : List (Record ClientData)) (distinct : Distinct live) (i : ℕ)
    (c : Record ClientData) (h : find_peer i live ≡ some c) where
  -- The records of two peers have two ids.
  pub ids_differ : (j : ℕ) (d : Record ClientData) → find_peer j live ≡ some d → i ≢ j → d.id ≢ c.id
  ids_differ j d g n same =
      let mine = find_peer-find_client i live c distinct h in
      let theirs = find_peer-find_client j live d distinct g in
      ground (
        arith,
        n,
        same,
        mine,
        theirs,
        ap (λ id. find_client id live) same,
        find_peer_peer i live c h,
        find_peer_peer j live d g,
      )

  find_peer-set_data_other :
      (j : ℕ) (v : ClientData) → i ≢ j → find_peer j (set_data c.id v live) ≡ find_peer j live
  find_peer-set_data_other j v n = elim (Option-cases (find_peer j live)) [
    | inl none_there ↦ find_peer-set_data j c.id v live ∙ ground arith
    | inr (d, there) ↦ find_peer-set_data j c.id v live ∙ ground (arith, ids_differ j d there n)
  ]

  pub find_peer-set_data_own :
      (v : ClientData) → find_peer i (set_data c.id v live) ≡ some (record c { client_data = v })
  find_peer-set_data_own v = find_peer-set_data i c.id v live ∙ ground arith

module _ (e : Endian) (b : Bus) (distinct : Distinct b.live) (i : ℕ) where
  abbrev pub after : Item → Bus
  after item = (bus_step e b (event_of i item)).0

  pub item-Allows :
      (item : Item) (known : Bool)
      → advance (has_record b i) item ≡ some known
      → Allows b (event_of i item)
  item-Allows joins known h = ground arith
  item-Allows leaves known h = elim (Option-cases (find_peer i b.live)) [
    | inl gone ↦ ground arith
    | inr there ↦ there
  ]
  item-Allows (packet bytes) known h = elim (Option-cases (find_peer i b.live)) [
    | inl gone ↦ ground arith
    | inr there ↦ there
  ]

  received_others :
      (c : Record ClientData) (m : Result Message) (j : ℕ)
      → find_peer i b.live ≡ some c
      → i ≢ j
      → find_peer j (answer_parsed e b c m).0.live ≡ find_peer j b.live
  received_others c m j h n = elim (answered-live e b c m) [
    | inl same ↦ ap (find_peer j) same
    | inr (topics, set) ↦
        ap (find_peer j) set ∙ find_peer-set_data_other b.live distinct i c h j _ n
  ]

  -- The records of the other peers stay as they are.
  pub others_stay :
      (item : Item) (j : ℕ) → i ≢ j → find_peer j (after item).live ≡ find_peer j b.live
  others_stay joins j n = find_peer-snoc_other j _ b.live n
  others_stay leaves j n = elim (Option-cases (find_peer i b.live)) [
    | inl gone ↦ rw (find_peer, gone) refl
    | inr (c, h) ↦
        rw (find_peer, h) (find_peer-remove_client i j c b.live distinct h ∙ ground arith)
  ]
  others_stay (packet bytes) j n = elim (Option-cases (find_peer i b.live)) [
    | inl gone ↦ rw (find_peer, gone) refl
    | inr (c, h) ↦ rw (find_peer, h) (received_others c (new_message e bytes) j h n)
  ]

  received_own :
      (c : Record ClientData) (m : Result Message)
      → find_peer i b.live ≡ some c
      → found (find_peer i (answer_parsed e b c m).0.live) ≡ true
  received_own c m h = elim (answered-live e b c m) [
    | inl same ↦ ap (λ live. found (find_peer i live)) same ∙ ap found h
    | inr (topics, set) ↦
        ap (λ live. found (find_peer i live)) set
        ∙ ap found (find_peer-set_data_own b.live distinct i c h _)
  ]

  pub has_record-after :
      (item : Item) (known : Bool)
      → advance (has_record b i) item ≡ some known
      → has_record (after item) i ≡ known
  has_record-after joins known h =
      let new : Record ClientData = record { id = b.next_id; peer = i; client_data = no_topics } in
      let free : find_peer i b.live ≡ none = ground arith in
      ap found (find_peer-snoc i new b.live free refl) ∙ ground arith
  has_record-after leaves known h = elim (Option-cases (find_peer i b.live)) [
    | inl gone ↦ ground arith
    | inr (c, there) ↦
        rw (found, there)
          (ap found (find_peer-remove_client i i c b.live distinct there) ∙ ground arith)
  ]
  has_record-after (packet bytes) known h = elim (Option-cases (find_peer i b.live)) [
    | inl gone ↦ ground arith
    | inr (c, there) ↦ rw (found, there) (received_own c (new_message e bytes) there ∙ ground arith)
  ]
