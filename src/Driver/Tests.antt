-- ===== src/Driver/Tests.antt =====
-- The server process at the session of Server/Session.antt, in two rounds.
use spraybus.Prelude.{◌≡◌, refl, true, List, [], ◌∷◌, none, some, arith}
use spraybus.Word.{big}
use spraybus.Exec.{ok}
use spraybus.Text.{text}
use spraybus.Text.Decimal.{value_from}
use spraybus.Text.Stoi.{stoi, stoi_digits, read_sign}
use spraybus.Networking.Server as Base
use spraybus.Networking.Server.{is_outside, Event, destroy_server}
use spraybus.Server.{Server, new_server}
use spraybus.Server.Bus.{bus_run, empty_bus}
use spraybus.Server.Refinement.{Refines}
use spraybus.Server.Session.{session, session-AllowsAll}
use spraybus.Common.{Environment, get_env_or}
use spraybus.Cli.{parse_port, checked_port, to_uint16}
use spraybus.Cli.Run.{init}
use spraybus.Driver.{start, serve, main}
use spraybus.Driver.Rounds.{all_events, server_runs}

abbrev no_environment : Environment
no_environment name = none

default_port : parse_port (get_env_or no_environment (text "SPRAYBUS_PORT") (text "6767")) ≡ ok 6767
unfolding parse_port stoi stoi_digits read_sign checked_port is_outside to_uint16 value_from
    get_env_or
default_port = refl

abbrev rounds : List (List Event)
rounds = [] ∷ session ∷ []

server_runs_example :
    (o : Server) × (start no_environment true true ≡ ok o)
    × Refines [] (serve big o rounds) (bus_run big empty_bus (all_events rounds))
    × (main big no_environment true true rounds
        ≡ ok (0, destroy_server (serve big o rounds).0.base))
server_runs_example =
    server_runs big no_environment 6767 rounds default_port session-AllowsAll (omega arith)

-- A text with a port and more is refused by the command line client, and taken here.
abbrev odd_environment : Environment
odd_environment name = some (text "8080abc")

trailing_text_starts : start odd_environment true true ≡ ok new_server
unfolding start stoi stoi_digits read_sign is_outside value_from get_env_or init Base.new_server
    new_server
trailing_text_starts = refl
