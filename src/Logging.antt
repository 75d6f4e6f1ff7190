-- ===== src/Logging.antt =====
-- src/spraybus/server/logging.cpp and include/spraybus/server/logging.hpp: the loggers of the server.
-- Quill is outside the sources, and is the parameter of the section.
mod Tests
use spraybus.Prelude.{ℕ, List, Option, none, some}
use spraybus.Text.{text}

-- What the sources use of Quill: its state, and the two calls that look a name up first.
pub record Quill : Type 1 where
  pub State : Type 0
  pub Sink : Type 0
  pub Logger : Type 0
  -- Backend::start
  pub start : State → State
  -- create_or_get_sink<FileSink>, create_or_get_sink<ConsoleSink>
  pub file_sink : List ℕ → State → State × Sink
  pub console_sink : List ℕ → State → State × Sink
  pub create_or_get_logger : List ℕ → Sink → State → State × Logger

module _ (q : Quill) where
  -- The static variable logfile, and Quill.
  pub record Process : Type 0 where
    pub logfile : Option (List ℕ)
    pub quill : q.State

  unfoldable pub init_logging : Process → Process
  init_logging p = record p { quill = q.start p.quill }

  unfoldable pub set_logfile : Process → List ℕ → Process
  set_logfile p filename = record p { logfile = some filename }

  -- The sink of a logger that is created now.
  unfoldable pub current_sink : Process → q.State × q.Sink
  current_sink p = elim p.logfile [
    | some filename ↦ q.file_sink filename p.quill
    | none ↦ q.console_sink (text "default") p.quill
  ]

  unfoldable pub create_logger : Process → List ℕ → Process × q.Logger
  unfolding current_sink
  create_logger p name =
      let (quill', sink) = current_sink p in
      let (quill'', logger) = q.create_or_get_logger name sink quill' in
      (record p { quill = quill'' }, logger)

  pub record ClassLogger : Type 0 where
    pub logger : q.Logger

  -- ClassLogger(name)
  unfoldable pub new_class_logger : Process → List ℕ → Process × ClassLogger
  unfolding create_logger
  new_class_logger p name =
      let (p', logger) = create_logger p name in (p', record { logger = logger })
