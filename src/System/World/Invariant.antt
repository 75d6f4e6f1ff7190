-- ===== src/System/World/Invariant.antt =====
-- What holds between two actions: the server is in a state of the bus, each connection is in step
-- with it, every packet on its way is honest, and the maps of the clients hold the server's keys.
use spraybus.Prelude.{
  zero, suc, ℕ, ◌+◌, ◌≤◌, ◌≡◌, ◌≢◌, refl, ap, ◌∙◌, subst, Bool, true, false, not, List, [], ◌∷◌,
  ◌++◌, Option, some, arith, length, ◌==◌, All, All-append, All-imp, Bool-cases, inl, inr, word_key,
  text_key,
}
use spraybus.TopicMap.Names.{key_of}
use spraybus.Networking.Server.{Effect}
use spraybus.Server.Bus.{Bus}
use spraybus.Server.Refinement.{Shows}
use spraybus.Client.{Client}
use spraybus.Client.Cache.{Agrees, new_client-Agrees}
use spraybus.System.World.{
  Item, joins, leaves, packet, survives, Link, Publication, World, unused, update, sent_to,
  delivered, is_unused, tail,
}
use spraybus.System.World.Events.{
  lifecycle, and_then, advance, lifecycle-snoc, lifecycle-none, has_record,
}
use spraybus.System.World.Packets.{Sent, joined, left, Honest, Sent-later, Honest-later}

-- A connection, when the server is in this state of the bus.
pub record InStep (published : List Publication) (b : Bus) (i : ℕ) (l : Link) : Type 0 where
  pub alive : lifecycle (some (has_record b i)) l.up ≡ some l.is_open
  pub sends : All (Sent published i) l.up
  pub receives : All (Honest published i) l.down
  pub knows : Agrees (key_of b.names) l.client

-- After `n` actions.
pub record Holds (n : ℕ) (bus : Bus) (w : World) : Type 0 where
  pub shows : Shows w.server bus
  pub ids : bus.next_id ≤ n + 1
  pub names : length bus.names ≤ n
  pub linked : (i : ℕ) → InStep w.published bus i (w.links i)

pub update-InStep :
    (published : List Publication) (b : Bus) (links : ℕ → Link) (i : ℕ) (l : Link)
    → ((j : ℕ) → i ≢ j → InStep published b j (links j))
    → InStep published b i l
    → (j : ℕ) → InStep published b j (update links i l j)
update-InStep published b links i l others own j = elim (Bool-cases (i == j)) [
  | inl here ↦ rw (update, here) (subst (λ k. InStep published b k l) (ground arith) own)
  | inr away ↦ rw (update, away) (others j (ground arith))
]

pub later-InStep :
    (published : List Publication) (new : Publication) (b : Bus) (i : ℕ) (l : Link)
    → InStep published b i l
    → InStep (published ++ new ∷ []) b i l
later-InStep published new b i l h = record {
  alive = h.alive;
  sends = All-imp l.up (Sent-later published new i) h.sends;
  receives = All-imp l.down (Honest-later published new i) h.receives;
  knows = h.knows;
}

same_maps :
    (keys : List ℕ → Option ℕ) (c d : Client)
    → d.topic_map ≡ c.topic_map
    → d.inverse_topic_map ≡ c.inverse_topic_map
    → Agrees keys c
    → Agrees keys d
same_maps keys c d t u a = record {
  known = rw t a.known;
  named = rw u a.named;
  paired = rw (t, u) a.paired;
}

module _ (published : List Publication) (b : Bus) (i : ℕ) (l : Link)
    (h : InStep published b i l) where
  -- An unused peer has no record.
  pub unused_absent : is_unused l ≡ true → has_record b i ≡ false
  unused_absent free = absent l.up l.is_open free h.alive
    where
      absent :
          (up : List Item) (on : Bool)
          → (elim up [ [] ↦ not on | item ∷ items ↦ false ]) ≡ true
          → lifecycle (some (has_record b i)) up ≡ some on
          → has_record b i ≡ false
      absent [] on f a = ground arith
      absent (x ∷ xs) on f a = cc

  pub opened :
      is_unused l ≡ true → InStep published b i (record unused { is_open = true; up = joins ∷ [] })
  opened free = record {
    alive = rw (unused_absent free) refl;
    sends = (joined, tt);
    receives = tt;
    knows = new_client-Agrees _ _ _;
  }

  -- One more item at the end of what the client has sent.
  pub queued :
      (item : Item) (client' : Client) (is_open' : Bool)
      → l.is_open ≡ true
      → advance true item ≡ some is_open'
      → Sent published i item
      → client'.topic_map ≡ l.client.topic_map
      → client'.inverse_topic_map ≡ l.client.inverse_topic_map
      → InStep published b i
          (record l { client = client'; is_open = is_open'; up = l.up ++ item ∷ [] })
  queued item client' is_open' is_on step sent t u = record {
    alive = lifecycle-snoc _ l.up item ∙ ap (λ k. and_then k item) (h.alive ∙ ap some is_on) ∙ step;
    sends = All-append (Sent published i) l.up (item ∷ []) h.sends (sent, tt);
    receives = h.receives;
    knows = same_maps _ l.client client' t u h.knows;
  }

  surviving :
      (kept : ℕ) (up : List Item) (known : Bool)
      → lifecycle (some known) up ≡ some true
      → lifecycle (some known) (survives kept up) ≡ some true
  surviving kept [] known a = a
  surviving zero (packet bytes ∷ up) true a = surviving zero up true a
  surviving zero (packet bytes ∷ up) false a = cc (a, lifecycle-none up)
  surviving zero (joins ∷ up) false a = surviving zero up true a
  surviving zero (joins ∷ up) true a = cc (a, lifecycle-none up)
  surviving zero (leaves ∷ up) true a = surviving zero up false a
  surviving zero (leaves ∷ up) false a = cc (a, lifecycle-none up)
  surviving (suc kept) (packet bytes ∷ up) true a = surviving kept up true a
  surviving (suc kept) (packet bytes ∷ up) false a = cc (a, lifecycle-none up)
  surviving (suc kept) (joins ∷ up) false a = surviving kept up true a
  surviving (suc kept) (joins ∷ up) true a = cc (a, lifecycle-none up)
  surviving (suc kept) (leaves ∷ up) true a = surviving kept up false a
  surviving (suc kept) (leaves ∷ up) false a = cc (a, lifecycle-none up)

  All-survives :
      (kept : ℕ) (up : List Item)
      → All (Sent published i) up
      → All (Sent published i) (survives kept up)
  All-survives kept [] all = tt
  All-survives zero (packet bytes ∷ up) all = All-survives zero up all.1
  All-survives zero (joins ∷ up) all = (all.0, All-survives zero up all.1)
  All-survives zero (leaves ∷ up) all = (all.0, All-survives zero up all.1)
  All-survives (suc kept) (item ∷ up) all = (all.0, All-survives kept up all.1)

  -- The client closes its connection.
  pub closed :
      (kept : ℕ)
      → l.is_open ≡ true
      → InStep published b i (record l { is_open = false; up = survives kept l.up ++ leaves ∷ [] })
  closed kept is_on =
      let surviving_queue = surviving kept l.up (has_record b i) (h.alive ∙ ap some is_on) in
      record {
        alive =
            lifecycle-snoc _ (survives kept l.up) leaves
            ∙ ap (λ k. and_then k leaves) surviving_queue;
        sends =
            All-append (Sent published i) (survives kept l.up) (leaves ∷ [])
              (All-survives kept l.up h.sends) (left, tt);
        receives = h.receives;
        knows = h.knows;
      }

  pub polled_once : InStep published b i (record l { down = tail l.down })
  polled_once = record {
    alive = h.alive;
    sends = h.sends;
    receives = rest l.down h.receives;
    knows = h.knows;
  }
    where
      rest :
          (down : List (List ℕ))
          → All (Honest published i) down
          → All (Honest published i) (tail down)
      rest [] all = tt
      rest (x ∷ xs) all = all.1

-- The connections when the server's state has changed and packets were sent.
pub delivered-InStep :
    (published : List Publication) (b b' : Bus) (links : ℕ → Link) (effects sent : List Effect)
    → effects ≡ sent
    → ((j : ℕ) → All (Honest published j) (sent_to j sent))
    → ((j : ℕ) → InStep published b' j (links j))
    → (j : ℕ) → InStep published b' j (delivered links effects j)
delivered-InStep published b b' links effects sent same honest h j = record {
  alive = (h j).alive;
  sends = (h j).sends;
  receives =
      All-append (Honest published j) (links j).down (sent_to j effects) (h j).receives
        (rw same (honest j));
  knows = (h j).knows;
}
