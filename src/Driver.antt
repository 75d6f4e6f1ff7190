-- ===== src/Driver.antt =====
-- drivers/main.cpp: the server's main. ENet is given by whether it starts and gives a host, and by
-- the events of each round of the loop until SIGINT comes. Nothing catches an exception here.
pub mod Rounds
mod Tests
use spraybus.Prelude.{ℕ, Bool, List}
use spraybus.Word.{Endian}
use spraybus.Exec.{Result, ok, Outcome, ◌>>=◌}
use spraybus.Text.{text}
use spraybus.Text.Stoi.{stoi}
use spraybus.Networking.Server as Base
use spraybus.Networking.Server.{Event, destroy_server}
use spraybus.Server.{Server, ClientData, new_server, process}
use spraybus.Common.{Environment, get_env_or, run_forever}
use spraybus.Cli.Run.{init}

-- Everything before the loop. What stoi has not read is not looked at.
unfoldable pub start : Environment → Bool → Bool → Result Server
unfolding init new_server
start getenv enet_ready host_created = do
  (port, _) ← stoi (get_env_or getenv (text "SPRAYBUS_PORT") (text "6767"))
  _ ← init enet_ready
  base ← Base.new_server port host_created
  ok (record new_server { base = base })

-- run_forever([&]() { server.process(); })
unfoldable pub serve : Endian → Server → List (List Event) → Outcome Server Unit
serve e server rounds = run_forever (process e) server rounds

-- main: 0 once the loop has ended, with the server as its destructor leaves it, or the exception
-- that nothing catches.
unfoldable pub main :
    Endian → Environment → Bool → Bool → List (List Event) → Result (ℕ × Base.Server ClientData)
unfolding start serve
main e getenv enet_ready host_created rounds = do
  server ← start getenv enet_ready host_created
  let (server', looped) = serve e server rounds
  _ ← looped
  ok (0, destroy_server server'.base)
