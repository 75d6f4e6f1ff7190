-- ===== src/Cli/Run.antt =====
-- run and main of drivers/cli.cpp: the commands, what they print, and the exit code. The call sees the
-- environment, the arguments, what ENet gives, and one service result for each round of the loop of
-- `sub` until SIGINT comes. The destructor of the client, which runs at the end, is in
-- Networking/Client.
use spraybus.Prelude.{
  ℕ, Bool, true, false, List, [], ◌∷◌, ◌++◌, Option, none, some, bytes_eq, if◌then◌else◌,
}
use spraybus.Word.{Endian}
use spraybus.Exec.{
  Error, Result, ok, throw, runtime_error, out_of_range, invalid_argument, undefined_behaviour,
  Outcome, ◌>>=◌,
}
use spraybus.Text.{text}
use spraybus.Protocol.Message.{payload_as_string}
use spraybus.Networking.Client as Net
use spraybus.Networking.Client.{Service}
use spraybus.Client as Bus
use spraybus.Client.{Client, Network, new_client}
use spraybus.Common.{Environment, run_forever}
use spraybus.Cli.{Options, parse_options, join_message}

pub record World : Type 0 where
  pub enet_ready : Bool
  pub host_created : Bool
  pub peer_found : Bool
  pub handshake : Service
  pub resolve : List ℕ → Option ℕ
  pub network : Network
  pub rounds : List Service

-- What run leaves: its client, the text on standard output, and its result.
pub record Ran : Type 0 where
  pub client : Option Client
  pub out : List ℕ
  pub result : Result ℕ

abbrev pub newline : List ℕ
newline = 10 ∷ []

-- print_usage
abbrev pub usage : List ℕ
usage =
    text "Usage:"
    ++ (newline
        ++ (text "  cli [--host HOST] [--port PORT] pub <topic> <message>"
            ++ (newline ++ (text "  cli [--host HOST] [--port PORT] sub <topic>" ++ newline))))

-- spraybus::networking::init
unfoldable pub init : Bool → Result (Unit {0})
init true = ok tt
init false = throw (runtime_error (text "Failed to initialize ENet"))

-- The connection of the client, with what ENet is asked.
unfoldable pub make_connection : World → List ℕ → ℕ → Outcome (List Net.Effect) Unit
make_connection w = Net.new_client w.resolve w.host_created w.peer_found w.handshake

-- networking::init() and client(options.host, options.port)
unfoldable pub connect : World → List ℕ → ℕ → Result Client
unfolding init make_connection
connect w host port = do
  _ ← init w.enet_ready
  _ ← (make_connection w host port).1
  ok (new_client host port)

abbrev failed : Option Client → List ℕ → Error → Ran
failed client out error = record { client = client; out = out; result = throw error }

module _ (e : Endian) where
  -- The lambda of the loop of `sub`; the state is what was printed.
  unfoldable pub show_message : Client → List ℕ → Service → Outcome (List ℕ) Unit
  show_message client out service = elim (Bus.process e client service) [
    | throw error ↦ (out, throw error)
    | ok none ↦ (out, ok tt)
    | ok (some msg) ↦ (out ++ (payload_as_string msg ++ newline), ok tt)
  ]

  unfoldable pub pub_command : World → Client → List (List ℕ) → Ran
  pub_command w client (topic ∷ word ∷ words) =
      let (client', r) =
        Bus.publish e client w.network topic (join_message (topic ∷ word ∷ words) 1) in
      elim r [
        | ok _ ↦ record { client = some client'; out = []; result = ok 0 }
        | throw error ↦ failed (some client') [] error
      ]
  pub_command w client args =
      failed (some client) [] (invalid_argument (text "pub requires <topic> and <message>"))

  unfoldable pub sub_command : World → Client → List (List ℕ) → Ran
  unfolding show_message
  sub_command w client (topic ∷ []) =
      let (client', r) = Bus.subscribe e client w.network topic in
      elim r [
        | throw error ↦ failed (some client') [] error
        | ok _ ↦
            let (out, looped) = run_forever (show_message client') [] w.rounds in
            record { client = some client'; out = out; result = looped >>= λ _. ok 0 }
      ]
  sub_command w client args =
      failed (some client) [] (invalid_argument (text "sub requires exactly one <topic>"))

  abbrev pub command_on : World → Options → Client → Ran
  command_on w options client =
      if bytes_eq options.command (text "pub")
      then pub_command w client options.args
      else if bytes_eq options.command (text "sub")
      then sub_command w client options.args
      else failed (some client) [] (invalid_argument (text "unknown command: " ++ options.command))

  abbrev pub on_connected : World → Options → Result Client → Ran
  on_connected w options (throw error) = failed none [] error
  on_connected w options (ok client) = command_on w options client

  unfoldable pub run_options : World → Options → Ran
  unfolding connect pub_command sub_command
  run_options w options =
      if bytes_eq options.command (text "help")
      then record { client = none; out = usage; result = ok 0 }
      else on_connected w options (connect w options.host options.port)

  abbrev pub on_parsed : World → Result Options → Ran
  on_parsed w (throw error) = failed none [] error
  on_parsed w (ok options) = run_options w options

  unfoldable pub run : Environment → List (List ℕ) → World → Ran
  unfolding run_options
  run getenv args w = on_parsed w (parse_options getenv args)

-- error.what(); undefined behaviour is no exception.
abbrev pub what : Error → Option (List ℕ)
what (runtime_error s) = some s
what (out_of_range s) = some s
what (invalid_argument s) = some s
what undefined_behaviour = none

pub record Exit : Type 0 where
  pub code : ℕ
  pub out : List ℕ
  pub err : List ℕ

abbrev pub caught : List ℕ → Option (List ℕ) → Option Exit
caught out none = none
caught out (some message) =
    some (record { code = 1; out = out; err = text "error: " ++ (message ++ (newline ++ usage)) })

-- main, with none for undefined behaviour.
unfoldable pub main : Endian → Environment → List (List ℕ) → World → Option Exit
unfolding run
main e getenv args w =
    let ran = run e getenv args w in
    elim ran.result [
      | ok code ↦ some (record { code = code; out = ran.out; err = [] })
      | throw error ↦ caught ran.out (what error)
    ]
