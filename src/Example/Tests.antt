-- ===== src/Example/Tests.antt =====
-- The example client where no server answers.
use spraybus.Prelude.{◌≡◌, refl, true, [], none, some}
use spraybus.Word.{little}
use spraybus.Exec.{throw, runtime_error}
use spraybus.Text.{text}
use spraybus.Networking.Client as Net
use spraybus.Client.{publish_text, publish, get_topic_key, ask}
use spraybus.Cli.Run.{World, init}
use spraybus.Containers.Dict
use spraybus.Example.{main}

abbrev unanswered : World
unanswered = record {
  enet_ready = true;
  resolve = λ host. some 1;
  host_created = true;
  peer_found = true;
  handshake = some Net.connected;
  network = record {
    resolve = λ host. some 1;
    host_created = true;
    peer_found = true;
    handshake = some Net.connected;
    reply = λ msg. none;
    closing = [];
  };
  rounds = [];
}

times_out :
    (main little unanswered).1 ≡ throw (runtime_error (text "Timeout while waiting for packet."))
unfolding main publish_text publish get_topic_key ask init Dict.get Dict.empty
times_out = refl
