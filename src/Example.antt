-- ===== src/Example.antt =====
-- examples/client/src/main.cpp: the example client. Its loop has no end; the model has the rounds of
-- it that are given.
mod Tests
use spraybus.Prelude.{ℕ, List, [], ◌++◌, none, some}
use spraybus.Word.{Endian}
use spraybus.Exec.{Result, ok, throw, Outcome}
use spraybus.Text.{text}
use spraybus.Protocol.Message.{payload_as_string}
use spraybus.Networking.Client.{Service}
use spraybus.Client.{Client, publish_text, subscribe, process}
use spraybus.Common.{run_forever}
use spraybus.Cli.Run.{World, connect, newline}

module _ (e : Endian) where
  -- One round: the lambda prints the payload of a message.
  unfoldable pub print_message : Client → List ℕ → Service → Outcome (List ℕ) Unit
  print_message client out service = elim (process e client service) [
    | throw error ↦ (out, throw error)
    | ok none ↦ (out, ok tt)
    | ok (some message) ↦ (out ++ (payload_as_string message ++ newline), ok tt)
  ]

  -- From the connected client on.
  unfoldable pub after_connect : World → Client → Outcome (List ℕ) Unit
  unfolding print_message
  after_connect w client =
      let (client', published) =
        publish_text e client w.network (text "test_topic")
          (text "hello from spraybus-client-example") in
      elim published [
        | throw error ↦ ([], throw error)
        | ok _ ↦
            let (client'', subscribed) = subscribe e client' w.network (text "test_topic") in
            elim subscribed [
              | throw error ↦ ([], throw error)
              | ok _ ↦ run_forever (print_message client'') [] w.rounds
            ]
      ]

  -- main, with what it has printed.
  unfoldable pub main : World → Outcome (List ℕ) Unit
  unfolding connect after_connect
  main w = elim (connect w (text "localhost") 6767) [
    | throw error ↦ ([], throw error)
    | ok client ↦ after_connect w client
  ]
