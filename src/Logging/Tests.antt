-- ===== src/Logging/Tests.antt =====
-- Loggers in a Quill that keeps its loggers in a list: a logger is its name and its sink.
use spraybus.Prelude.{ℕ, ◌≡◌, refl, List, [], ◌∷◌, Option, none, some, if◌then◌else◌, bytes_eq}
use spraybus.Text.{text}
use spraybus.Logging.{
  Quill, Process, init_logging, set_logfile, current_sink, create_logger, new_class_logger,
}

data Sink : Type 0 where
  console file : List ℕ → Sink

record Logger : Type 0 where
  name : List ℕ
  sink : Sink

abbrev lookup : List ℕ → List Logger → Option Logger
lookup name [] = none
lookup name (l ∷ ls) = if bytes_eq l.name name then some l else lookup name ls

abbrev simple : Quill
simple = record {
  State = List Logger;
  Sink = Sink;
  Logger = Logger;
  start = λ loggers. loggers;
  file_sink = λ filename loggers. (loggers, file filename);
  console_sink = λ name loggers. (loggers, console name);
  create_or_get_logger = λ name sink loggers. elim (lookup name loggers) [
    | some l ↦ (loggers, l)
    | none ↦ let l : Logger = record { name = name; sink = sink } in (l ∷ loggers, l)
  ];
}

abbrev at_start : Process simple
at_start = record { logfile = none; quill = [] }

abbrev with_server : Process simple
with_server = (create_logger simple (init_logging simple at_start) (text "server")).0

abbrev with_file : Process simple
with_file = set_logfile simple with_server (text "bus.log")

-- A logger that was created before set_logfile keeps the console; a later one has the file.
server_keeps_console :
    (new_class_logger simple with_file (text "server")).1.logger
    ≡ record { name = text "server"; sink = console (text "default") }
unfolding new_class_logger create_logger current_sink set_logfile init_logging bytes_eq
server_keeps_console = refl

later_has_file :
    (create_logger simple with_file (text "topics")).1
    ≡ record { name = text "topics"; sink = file (text "bus.log") }
unfolding create_logger current_sink set_logfile init_logging bytes_eq
later_has_file = refl
