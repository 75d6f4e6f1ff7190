-- ===== src/Networking/Server/Start.antt =====
-- The constructor of the server's base class: which ports it takes.
use spraybus.Prelude.{ℕ, ◌≤◌, ◌≡◌, ◌↔◌, refl, ap, Bool, true, false, arith, Bool-cases, inl, inr}
use spraybus.Prelude.Int.{ℤ, pos, negsuc}
use spraybus.Exec.{ok}
use spraybus.Networking.Server.{Server, empty_server, new_server, is_outside}

-- The port is a uint16_t.
abbrev pub IsWord16 : ℤ → Type 0
IsWord16 port = (n : ℕ) × (port ≡ pos n) × (n ≤ 65535)

inside : (port : ℤ) → (is_outside port ≡ false) ↔ IsWord16 port
unfolding is_outside
inside (pos n) = ((λ h. (n, refl, ground arith)), (λ (m, e, b). ground arith))
inside (negsuc n) = ((λ h. cc), (λ (m, e, b). cc))

-- The constructor returns exactly if the port is a 16-bit number and ENet gives a host; the server
-- has no clients then, and the next id is 1.
pub new_server_iff :
    {ClientData : Type 0} (port : ℤ) (created : Bool) (s : Server ClientData)
    → (new_server port created ≡ ok s) ↔ (IsWord16 port × (created ≡ true) × (empty_server ≡ s))
unfolding new_server
new_server_iff port true s = elim (Bool-cases (is_outside port)) [
  | inl outside ↦ rw outside ((λ h. cc), (λ (w, _, _). let ok_port = (inside port).1 w in cc))
  | inr fits ↦ rw fits ((λ h. ((inside port).0 fits, refl, cc)), (λ (_, _, e). ap ok e))
]
new_server_iff port false s = elim (Bool-cases (is_outside port)) [
  | inl outside ↦ rw outside ((λ h. cc), (λ (_, t, _). cc))
  | inr fits ↦ rw fits ((λ h. cc), (λ (_, t, _). cc))
]
