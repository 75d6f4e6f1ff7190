-- ===== src/Cli/Exit.antt =====
-- How the command line client ends.
use spraybus.Prelude.{
  ℕ, ◌≡◌, ◌⊎◌, inl, inr, refl, ap, sym, subst, List, [], ◌∷◌, ◌++◌, none, some, arith,
}
use spraybus.Word.{Endian}
use spraybus.Exec.{Result, ok, throw, ◌>>=◌, >>=-eq-ok}
use spraybus.Text.{text}
use spraybus.Protocol.Message.{Message, new_message}
use spraybus.Networking.Client as Net
use spraybus.Networking.Client.{Service}
use spraybus.Client as Bus
use spraybus.Client.{Client, Network, get_topic_key}
use spraybus.Common.{Environment, run_forever}
use spraybus.Cli.{Options, parse_options}
use spraybus.Cli.Run.{
  World, Exit, usage, newline, init, connect, make_connection, show_message, pub_command,
  sub_command, command_on, run_options, on_connected, on_parsed, run, what, caught, main,
}
use spraybus.Cli.Exceptions.{
  IsTame, IsException, IsResolved, what_says, connect-IsTame, parse_options-IsTame,
  new_message-IsTame, get_topic_key-IsTame,
}

-- The name of the host has an address, for the client and for its temporary connections.
abbrev pub IsReachable : World → List ℕ → Type 0
IsReachable w host = IsResolved w.resolve host × IsResolved w.network.resolve host

connect-host :
    (w : World) (host : List ℕ) (port : ℕ) (c : Client) → connect w host port ≡ ok c → c.host ≡ host
unfolding connect
connect-host w host port c made =
    let (_, _, connected) = >>=-eq-ok (init w.enet_ready) _ made in
    let (_, _, same) =
      >>=-eq-ok (make_connection w host port).1 (λ _. ok (Bus.new_client host port)) connected in
    ap host_of (sym same)
  where
    host_of : Result Client → List ℕ
    host_of (ok x) = x.host
    host_of (throw error) = []

-- The exit code 0, or an exception.
abbrev IsDone : Result ℕ → Type 0
IsDone (ok code) = code ≡ 0
IsDone (throw error) = IsException error

module _ (e : Endian) where
  process-IsTame : (c : Client) (service : Service) → IsTame (Bus.process e c service)
  unfolding Bus.process Net.process Bus.deliver
  process-IsTame c none = tt
  process-IsTame c (some (Net.received r)) =
      delivered (new_message e r.bytes) (new_message-IsTame e r.bytes)
    where
      delivered : (m : Result Message) → IsTame m → IsTame (Bus.deliver e c m)
      delivered (ok m) h = tt
      delivered (throw error) h = h
  process-IsTame c (some Net.disconnected) = tt
  process-IsTame c (some Net.connected) = tt
  process-IsTame c (some Net.no_event) = tt

  show_message-IsTame :
      (c : Client) (out : List ℕ) (service : Service) → IsTame (show_message e c out service).1
  unfolding show_message
  show_message-IsTame c out service = ground (arith, process-IsTame c service)

  loop-IsTame :
      (c : Client) (out : List ℕ) (rounds : List Service)
      → IsTame (run_forever (show_message e c) out rounds).1
  unfolding run_forever
  loop-IsTame c out [] = tt
  loop-IsTame c out (service ∷ rounds) = ground (
    arith,
    show_message-IsTame c out service,
    loop-IsTame c (show_message e c out service).0 rounds,
  )

  pub_command-IsDone :
      (w : World) (c : Client) (args : List (List ℕ))
      → IsResolved w.network.resolve c.host
      → IsDone (pub_command e w c args).result
  unfolding pub_command Bus.publish
  pub_command-IsDone w c [] known = tt
  pub_command-IsDone w c (topic ∷ []) known = tt
  pub_command-IsDone w c (topic ∷ word ∷ words) known =
      ground (arith, get_topic_key-IsTame e c w.network topic known)

  subscribe-IsTame :
      (c : Client) (net : Network) (topic : List ℕ)
      → IsResolved net.resolve c.host
      → IsTame (Bus.subscribe e c net topic).1
  unfolding Bus.subscribe
  subscribe-IsTame c net topic known = ground (arith, get_topic_key-IsTame e c net topic known)

  after_loop : (r : Result (Unit {0})) → IsTame r → IsDone (r >>= λ _. ok 0)
  after_loop (ok _) h = refl
  after_loop (throw error) h = h

  sub_command-IsDone :
      (w : World) (c : Client) (args : List (List ℕ))
      → IsResolved w.network.resolve c.host
      → IsDone (sub_command e w c args).result
  unfolding sub_command
  sub_command-IsDone w c [] known = tt
  sub_command-IsDone w c (topic ∷ more ∷ args) known = tt
  sub_command-IsDone w c (topic ∷ []) known =
      let c' = (Bus.subscribe e c w.network topic).0 in
      ground (
        arith,
        subscribe-IsTame c w.network topic known,
        after_loop (run_forever (show_message e c') [] w.rounds).1 (loop-IsTame c' [] w.rounds),
      )

  command_on-IsDone :
      (w : World) (options : Options) (c : Client)
      → IsResolved w.network.resolve c.host
      → IsDone (command_on e w options c).result
  command_on-IsDone w options c known =
      ground (
        arith,
        pub_command-IsDone w c options.args known,
        sub_command-IsDone w c options.args known,
      )

  connected-IsDone :
      (w : World) (options : Options) (r : Result Client)
      → IsTame r
      → ((c : Client) → r ≡ ok c → IsResolved w.network.resolve c.host)
      → IsDone (on_connected e w options r).result
  connected-IsDone w options (ok client) h known =
      command_on-IsDone w options client (known client refl)
  connected-IsDone w options (throw error) h known = h

  run_options-IsDone :
      (w : World) (options : Options)
      → IsReachable w options.host
      → IsDone (run_options e w options).result
  unfolding run_options
  run_options-IsDone w options (here, again) =
      let to = connect w options.host options.port in
      let same_host : (c : Client) → to ≡ ok c → IsResolved w.network.resolve c.host = λ c made.
        subst (IsResolved w.network.resolve) (sym (connect-host w options.host options.port c made))
          again in
      ground (
        arith,
        connected-IsDone w options to (connect-IsTame w options.host options.port here) same_host,
      )

  parsed-IsDone :
      (w : World) (r : Result Options)
      → IsTame r
      → ((options : Options) → r ≡ ok options → IsReachable w options.host)
      → IsDone (on_parsed e w r).result
  parsed-IsDone w (ok options) h known = run_options-IsDone w options (known options refl)
  parsed-IsDone w (throw error) h known = h

  run-IsDone :
      (getenv : Environment) (args : List (List ℕ)) (w : World)
      → ((options : Options) → parse_options getenv args ≡ ok options → IsReachable w options.host)
      → IsDone (run e getenv args w).result
  unfolding run
  run-IsDone getenv args w known =
      parsed-IsDone w (parse_options getenv args) (parse_options-IsTame getenv args) known

finished :
    (out : List ℕ) (result : Result ℕ)
    → IsDone result
    → (x : Exit) × (elim result [
      | ok code ↦ some (record { code = code; out = out; err = [] })
      | throw error ↦ caught out (what error)
    ]
        ≡ some x)
      × (((x.code ≡ 0) × (x.err ≡ []))
          ⊎ ((x.code ≡ 1)
              × (message : List ℕ) × (x.err ≡ text "error: " ++ (message ++ (newline ++ usage)))))
finished out (ok code) h = (_, refl, inl (h, refl))
finished out (throw error) h =
    let (message, says) = what_says error h in (_, ap (caught out) says, inr (refl, message, refl))

-- However it is called and whatever the network does, if the name of the host that the options give
-- has an address, and SIGINT does not come before run_forever has installed its handler: main ends
-- by itself or by an exception that it catches, never in undefined behaviour. The exit code is 0
-- and nothing is on standard error, or it is 1 and standard error has the message of the exception
-- and the usage.
pub main_exits :
    (e : Endian) (getenv : Environment) (args : List (List ℕ)) (w : World)
    → ((options : Options) → parse_options getenv args ≡ ok options → IsReachable w options.host)
    → (x : Exit) × (main e getenv args w ≡ some x)
      × (((x.code ≡ 0) × (x.err ≡ []))
          ⊎ ((x.code ≡ 1)
              × (message : List ℕ) × (x.err ≡ text "error: " ++ (message ++ (newline ++ usage)))))
unfolding main
main_exits e getenv args w known =
    finished (run e getenv args w).out (run e getenv args w).result
      (run-IsDone e getenv args w known)
