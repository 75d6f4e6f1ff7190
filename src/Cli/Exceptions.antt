-- ===== src/Cli/Exceptions.antt =====
-- What the parts of the command line client (drivers/cli.cpp) may throw.
use spraybus.Prelude.{
  Option, text_key, ℕ, ◌≡◌, inl, inr, refl, Bool, true, false, List, [], ◌∷◌, none, some, arith,
  Option-cases, length,
}
use spraybus.Containers.Dict
use spraybus.Word.{Endian}
use spraybus.Exec.{
  Error, Result, ok, throw, runtime_error, out_of_range, invalid_argument, undefined_behaviour,
  ◌>>=◌,
}
use spraybus.Text.{text}
use spraybus.Text.Stoi.{stoi, stoi_digits, Sign}
use spraybus.Protocol.Enum.{MessageType}
use spraybus.Protocol.Message.{Message, new_message}
use spraybus.Networking.Client as Net
use spraybus.Networking.Client.{Service}
use spraybus.Client.{
  Client, Network, ask, ask_connected, received_answer, get_topic_key, learn, learn_parsed,
}
use spraybus.Client.Cache.{asked, cached, uncached}
use spraybus.Common.{get_env_or, Environment}
use spraybus.Cli.{
  Flag, last_flag, next_flag, Scan, Stop, scan, complete, finish_scan, parse_options, parse_port,
  checked_port, classify,
}
use spraybus.Cli.Run.{World, init, connect, make_connection, what}

abbrev pub IsException : Error → Type 0
IsException undefined_behaviour = ⊥
IsException _ = Unit {0}

pub what_says :
    (error : Error) → IsException error → (message : List ℕ) × (what error ≡ some message)
what_says (runtime_error m) h = (m, refl)
what_says (out_of_range m) h = (m, refl)
what_says (invalid_argument m) h = (m, refl)
what_says undefined_behaviour h = absurd h

-- The result is a value, or an exception that main can catch.
abbrev pub IsTame {ℓ} : {A : Type ℓ} → Result A → Type 0
IsTame (ok a) = Unit {0}
IsTame (throw error) = IsException error

module _ {A B : Type 0} where
  pub bind-IsTame :
      (m : Result A) (f : A → Result B) → IsTame m → ((a : A) → IsTame (f a)) → IsTame (m >>= f)
  bind-IsTame (ok a) f h g = g a
  bind-IsTame (throw error) f h g = h

pub stoi_digits-IsTame :
    (before : ℕ) (sign : Sign) (ds : List ℕ) → IsTame (stoi_digits before sign ds)
unfolding stoi_digits
stoi_digits-IsTame before sign [] = tt
stoi_digits-IsTame before sign (d ∷ ds) = ground arith

pub parse_port-IsTame : (v : List ℕ) → IsTame (parse_port v)
unfolding parse_port stoi checked_port
parse_port-IsTame v =
    bind-IsTame (stoi v) (checked_port (length v)) (stoi_digits-IsTame _ _ _) (λ port. ground arith)

pub scan-IsTame : (s : Scan) (args : List (List ℕ)) → IsTame (scan s args)
unfolding scan
scan-IsTame s [] = tt
scan-IsTame s (arg ∷ []) = last (classify arg)
  where
    last : (f : Flag) → IsTame (last_flag s arg f)
    last Flag.help = tt
    last Flag.host = tt
    last (Flag.host_is v) = tt
    last Flag.port = tt
    last (Flag.port_is v) = bind-IsTame (parse_port v) _ (parse_port-IsTame v) (λ n. tt)
    last Flag.command = tt
scan-IsTame s (arg ∷ value ∷ rest) =
    next (λ s'. scan-IsTame s' rest) (λ s'. scan-IsTame s' (value ∷ rest)) (classify arg)
  where
    next :
        ((s' : Scan) → IsTame (scan s' rest))
        → ((s' : Scan) → IsTame (scan s' (value ∷ rest)))
        → (f : Flag)
        → IsTame (next_flag s arg value rest (λ s'. scan s' rest) (λ s'. scan s' (value ∷ rest)) f)
    next after with_value Flag.help = tt
    next after with_value Flag.host = after _
    next after with_value (Flag.host_is v) = with_value _
    next after with_value Flag.port =
        bind-IsTame (parse_port value) _ (parse_port-IsTame value) (λ n. after _)
    next after with_value (Flag.port_is v) =
        bind-IsTame (parse_port v) _ (parse_port-IsTame v) (λ n. with_value _)
    next after with_value Flag.command = tt

pub complete-IsTame : (getenv : Environment) (s : Scan) → IsTame (complete getenv s)
complete-IsTame getenv s =
    ground (arith, parse_port-IsTame (get_env_or getenv (text "SPRAYBUS_PORT") (text "6767")))

pub parse_options-IsTame :
    (getenv : Environment) (args : List (List ℕ)) → IsTame (parse_options getenv args)
unfolding parse_options
parse_options-IsTame getenv args =
    bind-IsTame (scan _ args) (finish_scan getenv) (scan-IsTame _ args) finished
  where
    completed :
        (s s' : Scan) (command : List ℕ)
        → IsTame (elim command [
          | [] ↦ throw (invalid_argument (text "missing command"))
          | _ ∷ _ ↦ complete getenv s'
        ])
    completed s s' [] = tt
    completed s s' (c ∷ command) = complete-IsTame getenv s'

    finished : (stop : Stop) → IsTame (finish_scan getenv stop)
    finished (Stop.returned options) = tt
    finished (Stop.left s rest) =
        completed s (record s { options = record s.options { args = rest } }) s.options.command

-- The name of a host has an address.
abbrev pub IsResolved : (List ℕ → Option ℕ) → List ℕ → Type 0
IsResolved resolve host = (address : ℕ) × (resolve host ≡ some address)

connect_peer-IsTame :
    (address port : ℕ) (found : Bool) (first : Service)
    → IsTame (Net.connect_peer (some address) port found first).1
unfolding Net.connect_peer
connect_peer-IsTame address port false first = tt
connect_peer-IsTame address port true (some Net.connected) = tt
connect_peer-IsTame address port true _ = tt

new_client-IsTame :
    (resolve : List ℕ → Option ℕ) (created found : Bool) (first : Service) (host : List ℕ)
    (port : ℕ)
    → IsResolved resolve host
    → IsTame (Net.new_client resolve created found first host port).1
unfolding Net.new_client
new_client-IsTame resolve false found first host port known = tt
new_client-IsTame resolve true found first host port (address, known) =
    rw known (connect_peer-IsTame address port found first)

pub connect-IsTame :
    (w : World) (host : List ℕ) (port : ℕ)
    → IsResolved w.resolve host
    → IsTame (connect w host port)
unfolding connect make_connection init
connect-IsTame w host port known = bind-IsTame (init w.enet_ready) _ (ready w.enet_ready) (λ _.
    bind-IsTame _ _
      (new_client-IsTame w.resolve w.host_created w.peer_found w.handshake host port known)
      (λ _. tt))
  where
    ready : (b : Bool) → IsTame (init b)
    ready true = tt
    ready false = tt

-- A packet that recv() returns is not null.
answer-IsTame :
    (made : List Net.Effect) (closing : List Net.Event) (s : Service)
    → IsTame (received_answer made closing (Net.recv s)).1
unfolding received_answer Net.recv
answer-IsTame made closing none = tt
answer-IsTame made closing (some (Net.received p)) = tt
answer-IsTame made closing (some _) = tt

connected-IsTame :
    (made : List Net.Effect) (net : Network) (msg : List ℕ) (r : Result (Unit {0}))
    → IsTame r
    → IsTame (ask_connected made net msg r).1
unfolding ask_connected
connected-IsTame made net msg (throw error) h = h
connected-IsTame made net msg (ok _) h = answer-IsTame made net.closing (net.reply msg)

ask-IsTame :
    (c : Client) (net : Network) (msg : List ℕ)
    → IsResolved net.resolve c.host
    → IsTame (ask c net msg).1
unfolding ask
ask-IsTame c net msg known = connected-IsTame _ net msg _ (
    new_client-IsTame net.resolve net.host_created net.peer_found net.handshake c.host c.port known)

module _ (e : Endian) where
  pub new_message-IsTame : (bytes : List ℕ) → IsTame (new_message e bytes)
  unfolding new_message
  new_message-IsTame bytes = ground arith

  pub response-IsTame :
      (c : Client) (net : Network) (msg : List ℕ)
      → IsResolved net.resolve c.host
      → IsTame ((ask c net msg).1 >>= new_message e)
  response-IsTame c net msg known =
      bind-IsTame (ask c net msg).1 (new_message e) (ask-IsTame c net msg known) new_message-IsTame

  pub learn_parsed-IsTame :
      (c : Client) (r : Result Message) → IsTame r → IsTame (learn_parsed e c r).1
  unfolding learn_parsed
  learn_parsed-IsTame c (throw error) h = h
  learn_parsed-IsTame c (ok m) h = learned m.header.type
    where
      learned : (type : MessageType) → IsTame (learn e c m type).1
      learned MessageType.topic_response = tt
      learned _ = tt

  pub get_topic_key-IsTame :
      (c : Client) (net : Network) (topic : List ℕ)
      → IsResolved net.resolve c.host
      → IsTame (get_topic_key e c net topic).1
  get_topic_key-IsTame c net topic known = elim (Option-cases (Dict.get c.topic_map topic)) [
    | inl fresh ↦
        rw (uncached e c net topic fresh)
          (learn_parsed-IsTame (asked e c net topic) _ (response-IsTame c net _ known))
    | inr (k, hit) ↦ rw (cached e c net topic hit) tt
  ]
