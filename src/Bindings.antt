-- ===== src/Bindings.antt =====
-- python/src/spraybus/_bindings.cpp: the Python module _native, with its classes Message and Client.
-- pybind11 and Python are outside the sources: what they are asked to do is a list of steps, oldest
-- first. A call from Python begins and ends with the interpreter lock held by its thread.
pub mod Lock
pub mod Program
mod Tests
use spraybus.Prelude.{ℕ, Bool, true, false, List, [], ◌∷◌, ◌++◌, Option, none, some}
use spraybus.Word.{Endian}
use spraybus.Exec.{Result, ok, throw, Outcome}
use spraybus.TopicMap.{Topic}
use spraybus.Networking.Client as Net
use spraybus.Networking.Client.{Service}
use spraybus.Client.{
  Client, FanoutMessage, Network, new_client, get_topic_key, publish, subscribe, poll,
}
use spraybus.Cli.Run.{init}

-- gil_scoped_release and its end, an operation of the client, networking::init, and the making of a
-- Python object or the reading of one.
pub data Step : Type 0 where
  release_lock acquire_lock native initialize python_object : Step

-- The static once_flag, and the steps so far.
pub record Module : Type 0 where
  pub once : Bool
  pub steps : List Step

abbrev pub loaded : Module
loaded = record { once = false; steps = [] }

unfoldable pub step : Module → Step → Module
step m s = record m { steps = m.steps ++ s ∷ [] }

-- A value that Python gets.
pub data Value : Type 0 where
  none_object : Value
  number : ℕ → Value
  message : FanoutMessage → Value

-- gil_scoped_release release; and the rest of its scope. The lock is taken again when the scope is
-- left, by an exception too.
unfoldable pub released : {S A : Type 0} → Module → Outcome S A → Module × Outcome S A
unfolding step
released m operation = (step (step (step m release_lock) native) acquire_lock, operation)

-- std::call_once: after an exception, the next call tries again.
unfoldable pub init_networking_once : Module → Bool → Outcome Module Unit
unfolding step init
init_networking_once m enet_ready = elim m.once [
  | true ↦ (m, ok tt)
  | false ↦
      let m' = step m initialize in
      elim (init enet_ready) [ ok _ ↦ (record m' { once = true }, ok tt) | throw e ↦ (m', throw e) ]
]

-- What ENet gives a constructor, and the constructor's arguments.
pub record Arrival : Type 0 where
  pub enet_ready : Bool
  pub host_created : Bool
  pub peer_found : Bool
  pub handshake : Service
  pub resolve : List ℕ → Option ℕ
  pub host : List ℕ
  pub port : ℕ

-- The constructor spraybus::client::Client(host, port)
unfoldable pub make_client : Arrival → Outcome (Option Client) Unit
unfolding Net.new_client
make_client a =
    elim (Net.new_client a.resolve a.host_created a.peer_found a.handshake a.host a.port).1 [
      | ok _ ↦ (some (new_client a.host a.port), ok tt)
      | throw error ↦ (none, throw error)
    ]

-- py::init
unfoldable pub construct : Module → Arrival → Module × Outcome (Option Client) Unit
unfolding init_networking_once released make_client
construct m a =
    let (m', r) = init_networking_once m a.enet_ready in
    elim r [ throw error ↦ (m', (none, throw error)) | ok _ ↦ released m' (make_client a) ]

-- payload_bytes: a Python bytes object.
unfoldable pub payload_bytes : FanoutMessage → List ℕ
payload_bytes m = elim m.payload [ [] ↦ [] | b ∷ bs ↦ b ∷ bs ]

-- byte_span: the bytes of a std::string.
unfoldable pub byte_span : List ℕ → List ℕ
byte_span payload = payload

-- Message.payload_text; `decode` is the method of Python's bytes.
unfoldable pub payload_text :
    {Text : Type 0}
    → (List ℕ → List ℕ → List ℕ → Result Text)
    → FanoutMessage
    → List ℕ
    → List ℕ
    → Result Text
unfolding payload_bytes
payload_text decode m encoding errors = decode (payload_bytes m) encoding errors

-- A call of a method of Client, with what the network does meanwhile.
pub data Call : Type 0 where
  call_get_topic_key call_subscribe : Network → Topic → Call
  call_publish : Network → Topic → List ℕ → Call
  call_poll : Service → Call

abbrev pub returning : {S A : Type 0} → (A → Value) → Outcome S A → Outcome S Value
returning f (s, r) = (s, elim r [ ok a ↦ ok (f a) | throw error ↦ throw error ])

abbrev pub nothing_returned : Unit {0} → Value
nothing_returned _ = none_object

-- py::none() or py::cast(*message)
abbrev pub cast : Option FanoutMessage → Value
cast none = none_object
cast (some m) = message m

module _ (e : Endian) where
  -- The body of a method, on arguments that pybind11 has converted.
  pub body : Module → Client → Call → Module × Outcome Client Value
  unfolding released step byte_span
  body m c (call_get_topic_key net topic) =
      let (m', r) = released m (get_topic_key e c net topic) in (m', returning number r)
  body m c (call_publish net topic payload) =
      let bytes = payload in
      let (m', r) = released (step m python_object) (publish e c net topic (byte_span bytes)) in
      (m', returning nothing_returned r)
  body m c (call_subscribe net topic) =
      let (m', r) = released m (subscribe e c net topic) in (m', returning nothing_returned r)
  body m c (call_poll service) =
      let (m', r) = released m (c, poll e c service) in (m', returning cast r)

  -- One of the four methods: arguments, and the result or the exception, are Python objects.
  unfoldable pub bound : Module → Client → Call → Module × Outcome Client Value
  unfolding body
  bound m c call = let (m', r) = body (step m python_object) c call in (step m' python_object, r)
