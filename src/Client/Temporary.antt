-- ===== src/Client/Temporary.antt =====
-- The temporary connection of get_topic_key (src/spraybus/client/client.cpp): where it goes, and that
-- nothing of it is left.
use spraybus.Prelude.{ℕ, ◌+◌, ◌≡◌, refl, ap, true, List, [], ◌∷◌, ◌++◌, some, none, arith}
use spraybus.Networking.Client as Net
use spraybus.Networking.Client.{
  Effect, packet_destroy, host_create, host_connect, host_destroy, Event, Service, received,
  connected, disconnected, no_event, drain,
}
use spraybus.Networking.Client.Ownership.{arrives, released}
use spraybus.Networking.Client.Connection.{
  hosts_created, hosts_destroyed, arrives_before_disconnect, drain_releases,
}
use spraybus.Client.{Client, Network, ask, ask_connected, received_answer}

-- The addresses and ports that are connected to.
abbrev pub connects_to : List Effect → List (ℕ × ℕ)
connects_to [] = []
connects_to (host_connect address port ∷ rest) = (address, port) ∷ connects_to rest
connects_to (_ ∷ rest) = connects_to rest

drain_connects : (events : List Event) → connects_to (drain events ++ host_destroy ∷ []) ≡ []
unfolding drain
drain_connects [] = refl
drain_connects (disconnected ∷ events) = refl
drain_connects (received r ∷ events) = drain_connects events
drain_connects (connected ∷ events) = drain_connects events
drain_connects (no_event ∷ events) = drain_connects events

-- One connection, to this address and port, that is over: its host is destroyed, and the packet
-- with address `a` is released as often as it arrived.
abbrev pub IsOver : ℕ → ℕ → ℕ → Service → List Event → List Effect → Type 0
IsOver a address port reply closing calls =
    (connects_to calls ≡ (address, port) ∷ [])
    × (hosts_created calls ≡ 1)
    × (hosts_destroyed calls ≡ 1)
    × (released a calls ≡ arrives a reply + arrives_before_disconnect a closing)

module _ (a address port : ℕ) (closing : List Event) where
  abbrev made : List Effect
  made = host_create ∷ host_connect address port ∷ []

  no_packet-IsOver : IsOver a address port none closing (made ++ Net.close closing)
  unfolding Net.close
  no_packet-IsOver =
      let rest = drain_releases a closing in
      (
        ap (λ xs. (address, port) ∷ xs) (drain_connects closing),
        ground (arith, rest),
        ground (arith, rest),
        ground (arith, rest),
      )

  answered-IsOver :
      (reply : Service)
      → IsOver a address port reply closing (received_answer made closing (Net.recv reply)).0
  unfolding received_answer Net.recv Net.close Net.destroy_packet
  answered-IsOver none = no_packet-IsOver
  answered-IsOver (some connected) = no_packet-IsOver
  answered-IsOver (some disconnected) = no_packet-IsOver
  answered-IsOver (some no_event) = no_packet-IsOver
  answered-IsOver (some (received r)) =
      let rest = drain_releases a closing in
      let (target, created, destroyed, freed) = no_packet-IsOver in
      (target, created, destroyed, ground (arith, freed))

-- Asking for a key over a temporary connection that is made, to a host whose name resolves: it is
-- made to the address of the client's host and the client's port, and to nothing else. Whatever
-- recv() finds, also when it throws, the one host is destroyed once, and each packet, the answer
-- and what comes while the destructor waits, is released once per arrival.
pub temporary_released :
    (c : Client) (net : Network) (msg : List ℕ) (a address : ℕ)
    → net.resolve c.host ≡ some address
    → net.host_created ≡ true
    → net.peer_found ≡ true
    → net.handshake ≡ some connected
    → IsOver a address c.port (net.reply msg) net.closing (ask c net msg).0
unfolding ask Net.new_client Net.connect_peer ask_connected
temporary_released c net msg a address known created found shake =
    rw (created, found, shake, known) (answered-IsOver a address c.port net.closing (net.reply msg))
