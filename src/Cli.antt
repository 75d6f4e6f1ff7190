-- ===== src/Cli.antt =====
-- drivers/cli.cpp: the command line client. The arguments are those after the program's name.
pub mod Port
pub mod Settings
pub mod Message
pub mod Run
pub mod Arrivals
pub mod Commands
pub mod Exceptions
pub mod Exit
mod Tests
use spraybus.Prelude.{
  ℕ, zero, suc, ◌+◌, ◌%◌, ◌-◌, ◌^◌, Bool, true, false, not, ◌||◌, List, [], ◌∷◌, ◌++◌, length, drop,
  ◌==◌, if◌then◌else◌, bytes_eq,
}
use spraybus.Prelude.Int.{ℤ, pos, negsuc}
use spraybus.Exec.{Error, Result, ok, throw, out_of_range, invalid_argument, ◌>>=◌}
use spraybus.Text.{text}
use spraybus.Text.Stoi.{stoi}
use spraybus.Networking.Server.{is_outside}
use spraybus.Common.{Environment, get_env_or}

pub record Options : Type 0 where
  pub host : List ℕ
  pub port : ℕ
  pub command : List ℕ
  pub args : List (List ℕ)

abbrev pub default_options : Options
default_options = record { host = text "localhost"; port = 6767; command = []; args = [] }

-- static_cast<uint16_t>(port)
unfoldable pub to_uint16 : ℤ → ℕ
to_uint16 (pos n) = n % 2 ^ 16
to_uint16 (negsuc n) = (2 ^ 16 - 1) - n % 2 ^ 16

unfoldable pub checked_port : ℕ → ℤ × ℕ → Result ℕ
unfolding is_outside to_uint16
checked_port size (port, parsed) =
    if not (parsed == size) || is_outside port
    then throw (out_of_range (text "Port must be between 0 and 65535"))
    else ok (to_uint16 port)

unfoldable pub parse_port : List ℕ → Result ℕ
unfolding checked_port
parse_port value = stoi value >>= checked_port (length value)

-- The loop of join_message, from the arguments that are left.
unfoldable pub join_from : List ℕ → List (List ℕ) → List ℕ
join_from message [] = message
join_from [] (arg ∷ args) = join_from ([] ++ arg) args
join_from (c ∷ message) (arg ∷ args) = join_from (((c ∷ message) ++ text " ") ++ arg) args

unfoldable pub join_message : List (List ℕ) → ℕ → List ℕ
unfolding join_from
join_message args first_arg = join_from [] (drop first_arg args)

-- arg.starts_with(prefix), and arg.substr(prefix.size()) if it does.
abbrev pub starts_with : List ℕ → List ℕ → Bool
starts_with [] arg = true
starts_with (c ∷ cs) [] = false
starts_with (c ∷ cs) (d ∷ ds) = if c == d then starts_with cs ds else false

-- The tests of the loop of parse_options on an argument, in their order.
pub data Flag : Type 0 where
  help host port command : Flag
  host_is port_is : List ℕ → Flag

unfoldable pub classify : List ℕ → Flag
classify arg =
    if bytes_eq arg (text "--help") || bytes_eq arg (text "-h")
    then help
    else if bytes_eq arg (text "--host") || bytes_eq arg (text "-H")
    then host
    else if starts_with (text "--host=") arg
    then host_is (drop 7 arg)
    else if bytes_eq arg (text "--port") || bytes_eq arg (text "-p")
    then port
    else if starts_with (text "--port=") arg
    then port_is (drop 7 arg)
    else command

-- options, host_from_args and port_from_args.
pub record Scan : Type 0 where
  pub options : Options
  pub host_from_args : Bool
  pub port_from_args : Bool

-- How the loop ends: the function returns, or goes on with what the loop has left.
pub data Stop : Type 0 where
  returned : Options → Stop
  left : Scan → List (List ℕ) → Stop

abbrev pub with_host : Scan → List ℕ → Scan
with_host s value = record s { options = record s.options { host = value }; host_from_args = true }

abbrev pub with_port : Scan → ℕ → Scan
with_port s value = record s { options = record s.options { port = value }; port_from_args = true }

abbrev pub with_command : Scan → List ℕ → Scan
with_command s value = record s { options = record s.options { command = value } }

-- What the loop does with its last argument, and with one that a value follows. The two ways to go
-- on are after the value and with it.
abbrev pub last_flag : Scan → List ℕ → Flag → Result Stop
last_flag s arg help = ok (returned (record s.options { command = text "help" }))
last_flag s arg host = throw (invalid_argument (text "--host requires a value"))
last_flag s arg (host_is value) = ok (left (with_host s value) [])
last_flag s arg port = throw (invalid_argument (text "--port requires a value"))
last_flag s arg (port_is value) = parse_port value >>= λ n. ok (left (with_port s n) [])
last_flag s arg command = ok (left (with_command s arg) [])

abbrev pub next_flag :
    Scan
    → List ℕ
    → List ℕ
    → List (List ℕ)
    → (Scan → Result Stop)
    → (Scan → Result Stop)
    → Flag
    → Result Stop
next_flag s arg value rest after with_value help =
    ok (returned (record s.options { command = text "help" }))
next_flag s arg value rest after with_value host = after (with_host s value)
next_flag s arg value rest after with_value (host_is value') = with_value (with_host s value')
next_flag s arg value rest after with_value port = parse_port value >>= λ n. after (with_port s n)
next_flag s arg value rest after with_value (port_is value') =
    parse_port value' >>= λ n. with_value (with_port s n)
next_flag s arg value rest after with_value command = ok (left (with_command s arg) (value ∷ rest))

unfoldable pub scan : Scan → List (List ℕ) → Result Stop
unfolding parse_port classify
scan s [] = ok (left s [])
scan s (arg ∷ []) = last_flag s arg (classify arg)
scan s (arg ∷ value ∷ rest) =
    next_flag s arg value rest (λ s'. scan s' rest) (λ s'. scan s' (value ∷ rest)) (classify arg)

-- What follows the loop: the arguments, the missing command, and the environment.
abbrev pub complete : Environment → Scan → Result Options
complete getenv s =
    let host =
      if s.host_from_args
      then s.options.host
      else get_env_or getenv (text "SPRAYBUS_HOST") s.options.host in
    let port : Result ℕ =
      if s.port_from_args
      then ok s.options.port
      else parse_port (get_env_or getenv (text "SPRAYBUS_PORT") (text "6767")) in
    port >>= λ n. ok (record s.options { host = host; port = n })

abbrev pub finish_scan : Environment → Stop → Result Options
finish_scan getenv (returned options) = ok options
finish_scan getenv (left s rest) =
    let s' = record s { options = record s.options { args = rest } } in
    elim s.options.command [
      | [] ↦ throw (invalid_argument (text "missing command"))
      | _ ∷ _ ↦ complete getenv s'
    ]

unfoldable pub parse_options : Environment → List (List ℕ) → Result Options
unfolding scan
parse_options getenv args =
    scan (record { options = default_options; host_from_args = false; port_from_args = false }) args
    >>= finish_scan getenv
