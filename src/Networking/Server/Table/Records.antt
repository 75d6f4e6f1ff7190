-- ===== src/Networking/Server/Table/Records.antt =====
-- The list of client records that stands for the client table of the server: lookup by id and by
-- peer, and what removing a record and replacing its data do.
use spraybus.Prelude.{
  ℕ, ◌<◌, ◌≡◌, ◌≢◌, refl, List, [], ◌∷◌, ◌++◌, map, Option, none, some, arith, ◌==◌, if◌then◌else◌,
  All, All-append, subst, word_key, Bool-cases, Bool-cases, inl, inr,
}
use spraybus.Networking.Server.{Client, erase_all}

module _ {ClientData : Type 0} where
  abbrev pub find_client : ℕ → List (Client ClientData) → Option (Client ClientData)
  find_client i [] = none
  find_client i (c ∷ cs) = if c.id == i then some c else find_client i cs

  abbrev pub find_peer : ℕ → List (Client ClientData) → Option (Client ClientData)
  find_peer p [] = none
  find_peer p (c ∷ cs) = if c.peer == p then some c else find_peer p cs

  abbrev pub remove_client : ℕ → List (Client ClientData) → List (Client ClientData)
  remove_client i [] = []
  remove_client i (c ∷ cs) = let rest = remove_client i cs in if c.id == i then rest else c ∷ rest

  abbrev pub set_data : ℕ → ClientData → List (Client ClientData) → List (Client ClientData)
  set_data i v [] = []
  set_data i v (c ∷ cs) =
      let rest = set_data i v cs in
      if c.id == i then record c { client_data = v } ∷ rest else c ∷ rest

  abbrev pub ids : List (Client ClientData) → List ℕ
  ids = map (λ c. c.id)

  -- No two records have one id or one peer.
  abbrev pub Distinct : List (Client ClientData) → Type 0
  Distinct [] = Unit {0}
  Distinct (c ∷ cs) = All (λ d. (d.id ≢ c.id) × (d.peer ≢ c.peer)) cs × Distinct cs

  pub find_client_above :
      (n : ℕ) (live : List (Client ClientData))
      → All (λ c. c.id < n) live
      → find_client n live ≡ none
  find_client_above n [] h = refl
  find_client_above n (c ∷ cs) h = ground (arith, find_client_above n cs h.1)

  pub find_client-snoc :
      (i : ℕ) (c : Client ClientData) (live : List (Client ClientData))
      → find_client c.id live ≡ none
      → find_client i (live ++ c ∷ []) ≡ (if c.id == i then some c else find_client i live)
  find_client-snoc i c [] h = refl
  find_client-snoc i c (d ∷ ds) h = ground (arith, find_client-snoc i c ds)

  pub find_client-remove_client :
      (i j : ℕ) (live : List (Client ClientData))
      → find_client j (remove_client i live) ≡ (if i == j then none else find_client j live)
  find_client-remove_client i j [] = ground arith
  find_client-remove_client i j (c ∷ cs) = ground (arith, find_client-remove_client i j cs)

  pub ids-remove_client :
      (i : ℕ) (live : List (Client ClientData))
      → erase_all i (ids live) ≡ ids (remove_client i live)
  unfolding erase_all
  ids-remove_client i [] = refl
  ids-remove_client i (c ∷ cs) = ground (arith, ids-remove_client i cs)

  pub All-remove_client :
      (P : Client ClientData → Type 0) (i : ℕ) (live : List (Client ClientData))
      → All P live
      → All P (remove_client i live)
  All-remove_client P i [] h = tt
  All-remove_client P i (c ∷ cs) h = ground (arith, All-remove_client P i cs h.1)

  pub remove_client-Distinct :
      (i : ℕ) (live : List (Client ClientData)) → Distinct live → Distinct (remove_client i live)
  remove_client-Distinct i [] h = tt
  remove_client-Distinct i (c ∷ cs) h = ground (
    arith,
    remove_client-Distinct i cs h.1,
    All-remove_client (λ d. (d.id ≢ c.id) × (d.peer ≢ c.peer)) i cs h.0,
  )

  pub snoc-Distinct :
      (live : List (Client ClientData)) (c : Client ClientData)
      → All (λ d. (c.id ≢ d.id) × (c.peer ≢ d.peer)) live
      → Distinct live
      → Distinct (live ++ c ∷ [])
  snoc-Distinct [] c a h = (tt, tt)
  snoc-Distinct (d ∷ ds) c a h =
      (All-append _ ds (c ∷ []) h.0 (a.0, tt), snoc-Distinct ds c a.1 h.1)

  -- A peer with no record differs from every record's peer.
  pub All-peers_differ :
      (p : ℕ) (live : List (Client ClientData))
      → find_peer p live ≡ none
      → All (λ c. p ≢ c.peer) live
  All-peers_differ p [] h = tt
  All-peers_differ p (c ∷ cs) h = (ground arith, All-peers_differ p cs (ground arith))

  pub find_client-set_data_other :
      (i j : ℕ) (v : ClientData) (live : List (Client ClientData))
      → i ≢ j
      → find_client j (set_data i v live) ≡ find_client j live
  find_client-set_data_other i j v [] n = refl
  find_client-set_data_other i j v (d ∷ ds) n =
      ground (arith, find_client-set_data_other i j v ds n)

  pub ids-set_data :
      (i : ℕ) (v : ClientData) (live : List (Client ClientData))
      → ids (set_data i v live) ≡ ids live
  ids-set_data i v [] = refl
  ids-set_data i v (d ∷ ds) = ground (arith, ids-set_data i v ds)

  -- What speaks of ids and peers alone is kept.
  pub All-set_data :
      (P : ℕ → ℕ → Type 0) (i : ℕ) (v : ClientData) (live : List (Client ClientData))
      → All (λ c. P c.id c.peer) live
      → All (λ c. P c.id c.peer) (set_data i v live)
  All-set_data P i v [] h = tt
  All-set_data P i v (d ∷ ds) h = ground (arith, All-set_data P i v ds h.1)

  pub set_data-Distinct :
      (i : ℕ) (v : ClientData) (live : List (Client ClientData))
      → Distinct live
      → Distinct (set_data i v live)
  set_data-Distinct i v [] h = tt
  set_data-Distinct i v (d ∷ ds) h = ground (
    arith,
    set_data-Distinct i v ds h.1,
    All-set_data (λ id peer. (id ≢ d.id) × (peer ≢ d.peer)) i v ds h.0,
  )

  pub find_client-set_data :
      (i j : ℕ) (v : ClientData) (live : List (Client ClientData)) (c : Client ClientData)
      → find_client i live ≡ some c
      → find_client j (set_data i v live)
        ≡ (if i == j then some (record c { client_data = v }) else find_client j live)
  find_client-set_data i j v [] c h = cc
  find_client-set_data i j v (d ∷ ds) c h = elim (Bool-cases (d.id == i)) [
    | inl hit ↦ ground (arith, find_client-set_data_other i j v ds)
    | inr miss ↦ ground (arith, find_client-set_data i j v ds c)
  ]

  pub find_client_id :
      (i : ℕ) (live : List (Client ClientData)) (c : Client ClientData)
      → find_client i live ≡ some c
      → c.id ≡ i
  find_client_id i [] c h = cc
  find_client_id i (d ∷ ds) c h = ground (arith, find_client_id i ds c)

  pub All-find_peer :
      (P : Client ClientData → Type 0) (peer : ℕ) (live : List (Client ClientData))
      (c : Client ClientData)
      → All P live
      → find_peer peer live ≡ some c
      → P c
  All-find_peer P peer [] c h found = cc
  All-find_peer P peer (d ∷ ds) c h found = elim (Bool-cases (d.peer == peer)) [
    | inl hit ↦ let e : d ≡ c = ground arith in subst P e h.0
    | inr miss ↦ All-find_peer P peer ds c h.1 (ground arith)
  ]

  pub find_peer_peer :
      (peer : ℕ) (live : List (Client ClientData)) (c : Client ClientData)
      → find_peer peer live ≡ some c
      → c.peer ≡ peer
  find_peer_peer peer [] c h = cc
  find_peer_peer peer (d ∷ ds) c h = ground (arith, find_peer_peer peer ds c)

  pub find_peer-snoc :
      (peer : ℕ) (c : Client ClientData) (live : List (Client ClientData))
      → find_peer peer live ≡ none
      → c.peer ≡ peer
      → find_peer peer (live ++ c ∷ []) ≡ some c
  find_peer-snoc peer c [] h e = ground arith
  find_peer-snoc peer c (d ∷ ds) h e = ground (arith, find_peer-snoc peer c ds)

  pub find_peer-find_client :
      (peer : ℕ) (live : List (Client ClientData)) (c : Client ClientData)
      → Distinct live
      → find_peer peer live ≡ some c
      → find_client c.id live ≡ some c
  find_peer-find_client peer [] c h found = cc
  find_peer-find_client peer (d ∷ ds) c h found = elim (Bool-cases (d.peer == peer)) [
    | inl hit ↦ ground arith
    | inr miss ↦
        let in_rest : find_peer peer ds ≡ some c = ground arith in
        ground (
          arith,
          find_peer-find_client peer ds c h.1 in_rest,
          (All-find_peer _ peer ds c h.0 in_rest).0,
        )
  ]
