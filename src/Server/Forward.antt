-- ===== src/Server/Forward.antt =====
-- The loop over the clients that forwards a published packet.
use mathlib.Core.List.{append-nil, append_assoc}
use spraybus.Prelude.{
  ℕ, ◌≡◌, sym, ap, ◌∙◌, List, [], ◌∷◌, ◌++◌, map, select, select_hit, select_miss, All, All-imp,
  ◌≢◌, some, arith, Bool-cases, inl, inr, if◌then◌else◌,
}
use spraybus.Exec.{ok}
use spraybus.Networking.Server.{Client, Effect, send, send_to}
use spraybus.Networking.Server.Table as Table
use spraybus.Networking.Server.Table.{find_peer, find_client, ids, deref_lem}
use spraybus.Server.{ClientData, BaseServer, wants, forward}

-- The base with other effects has the same table.
pub effects-Represents :
    (s : BaseServer) (live : List (Client ClientData)) (effects : List Effect)
    → Table.Represents s live
    → Table.Represents (record s { effects = effects }) live
effects-Represents s live effects r = record {
  order = r.order;
  stored = r.stored;
  pointers = r.pointers;
  below = r.below;
  distinct = r.distinct;
}

pub send_to_lem :
    (s : BaseServer) (live : List (Client ClientData)) (i : ℕ) (c : Client ClientData)
    (packet : List ℕ)
    → Table.Represents s live
    → find_client i live ≡ some c
    → send_to s i packet ≡ (record s { effects = s.effects ++ send c.peer packet ∷ [] }, ok tt)
unfolding send_to
send_to_lem s live i c packet r found = ground (arith, deref_lem s live i c r found)

-- The packets that the loop sends: one to each client of `rest` that wants it.
abbrev pub sends : ℕ → ℕ → List ℕ → List (Client ClientData) → List Effect
sends sender key packet rest =
    map (λ (other : Client ClientData). send other.peer packet) (select (wants sender key) rest)

-- The records of a list that stands in the table, one by one.
abbrev pub AllFound : List (Client ClientData) → List (Client ClientData) → Type 0
AllFound live [] = Unit {0}
AllFound live (c ∷ cs) = (find_client c.id live ≡ some c) × AllFound live cs

-- One round of the loop.
forward_round :
    (s : BaseServer) (live : List (Client ClientData)) (o c : Client ClientData) (key : ℕ)
    (packet : List ℕ) (others : List ℕ)
    → Table.Represents s live
    → find_client c.id live ≡ some c
    → find_client o.id live ≡ some o
    → forward c.id key packet s (o.id ∷ others) ≡ (
        if wants c.id key o
        then forward c.id key packet
            (record s { effects = s.effects ++ send o.peer packet ∷ [] })
            others
        else forward c.id key packet s others)
unfolding forward
forward_round s live o c key packet others r found here = elim (Bool-cases (wants c.id key o)) [
  | inl hit ↦ ground (
    arith,
    deref_lem s live c.id c r found,
    deref_lem s live o.id o r here,
    send_to_lem s live o.id o packet r here,
  )
  | inr miss ↦ ground (arith, deref_lem s live c.id c r found, deref_lem s live o.id o r here)
]

pub forward_lem :
    (s : BaseServer) (live rest : List (Client ClientData)) (c : Client ClientData) (key : ℕ)
    (packet : List ℕ)
    → Table.Represents s live
    → find_client c.id live ≡ some c
    → AllFound live rest
    → forward c.id key packet s (ids rest)
      ≡ (record s { effects = s.effects ++ sends c.id key packet rest }, ok tt)
forward_lem s live [] c key packet r found all = unfold forward in rw append-nil
forward_lem s live (o ∷ rest) c key packet r found all =
    let round = forward_round s live o c key packet (ids rest) r found all.0 in
    let emitted = s.effects ++ send o.peer packet ∷ [] in
    let onward = λ (s' : BaseServer). forward c.id key packet s' (ids rest) in
    let sender = λ (other : Client ClientData). send other.peer packet in
    elim (Bool-cases (wants c.id key o)) [
      | inl hit ↦
          round
          ∙ ap (λ b. if b then onward (record s { effects = emitted }) else onward s) hit
          ∙ forward_lem (record s { effects = emitted }) live rest c key packet
              (effects-Represents s live emitted r) found all.1
          ∙ ap (λ fx. (record s { effects = fx }, ok tt))
              (append_assoc s.effects (send o.peer packet ∷ []) (sends c.id key packet rest)
                ∙ ap (λ os. s.effects ++ map sender os)
                    (sym (select_hit (wants c.id key) o rest hit)))
      | inr miss ↦
          round
          ∙ ap (λ b. if b then onward (record s { effects = emitted }) else onward s) miss
          ∙ forward_lem s live rest c key packet r found all.1
          ∙ ap (λ os. (record s { effects = s.effects ++ map sender os }, ok tt))
              (sym (select_miss (wants c.id key) o rest miss))
    ]

-- Each record of the table is found under its own id.
AllFound-cons :
    (d : Client ClientData) (ds cs : List (Client ClientData))
    → All (λ (c : Client ClientData). c.id ≢ d.id) cs
    → AllFound ds cs
    → AllFound (d ∷ ds) cs
AllFound-cons d ds [] n a = tt
AllFound-cons d ds (c ∷ cs) n a = (ground arith, AllFound-cons d ds cs n.1 a.1)

pub all_found : (live : List (Client ClientData)) → Table.Distinct live → AllFound live live
all_found [] h = tt
all_found (d ∷ ds) h =
    (ground arith, AllFound-cons d ds ds (All-imp ds (λ c n. n.0) h.0) (all_found ds h.1))
