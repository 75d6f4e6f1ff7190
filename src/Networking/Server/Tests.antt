-- ===== src/Networking/Server/Tests.antt =====
-- The constructor of the server at its largest port.
use spraybus.Prelude.{◌≡◌, refl, true, arith}
use spraybus.Prelude.Int.{pos}
use spraybus.Exec.{ok}
use spraybus.Networking.Server.{new_server, empty_server}
use spraybus.Networking.Server.Start.{new_server_iff}

new_server_iff_example : new_server {ClientData = Unit} (pos 65535) true ≡ ok empty_server
new_server_iff_example =
    (new_server_iff (pos 65535) true (empty_server {ClientData = Unit})).1
      ((65535, refl, omega arith), refl, refl)
