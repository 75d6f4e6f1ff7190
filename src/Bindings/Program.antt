-- ===== src/Bindings/Program.antt =====
-- The whole life of a client in Python, from the loading of the module.
use spraybus.Prelude.{
  ℕ, suc, subst, ◌+◌, if◌then◌else◌, ◌≡◌, refl, ap, sym, ◌∙◌, Bool, true, false, List, [], ◌∷◌,
  some, arith, inl, inr, Bool-cases,
}
use spraybus.Word.{Endian}
use spraybus.Exec.{Result, Outcome}
use spraybus.Cli.Run.{init}
use spraybus.Client.{Client, get_topic_key, publish, subscribe, poll}
use spraybus.Bindings.{
  Step, initialize, python_object, Module, loaded, step, Value, released, init_networking_once,
  Arrival, make_client, construct, byte_span, Call, call_get_topic_key, call_publish,
  call_subscribe, call_poll, returning, nothing_returned, cast, number, bound,
}
use spraybus.Bindings.Lock.{lock, inits, Sound, quiet, released-Sound, initialize-Sound}

-- Clients that Python makes one after the other; it may go on after an exception.
unfoldable pub construct_all : Module → List Arrival → Module
construct_all m [] = m
construct_all m (a ∷ rest) = construct_all (construct m a).0 rest

-- How often networking::init must be called: until it has returned.
abbrev pub tries : List Arrival → ℕ
tries [] = 0
tries (a ∷ rest) = if a.enet_ready then 1 else suc (tries rest)

-- The calls of a program on one client, with their results.
unfoldable pub script : Endian → Module → Client → List Call → Module × Client × List (Result Value)
script e m c [] = (m, c, [])
script e m c (call ∷ calls) =
    let (m', done) = bound e m c call in
    let (m'', c', results) = script e m' done.0 calls in (m'', c', done.1 ∷ results)

-- The same calls in C++.
unfoldable pub native_call : Endian → Client → Call → Outcome Client Value
native_call e c (call_get_topic_key net topic) = returning number (get_topic_key e c net topic)
native_call e c (call_publish net topic payload) =
    returning nothing_returned (publish e c net topic payload)
native_call e c (call_subscribe net topic) = returning nothing_returned (subscribe e c net topic)
native_call e c (call_poll service) = returning cast (c, poll e c service)

unfoldable pub native_script : Endian → Client → List Call → Client × List (Result Value)
native_script e c [] = (c, [])
native_script e c (call ∷ calls) =
    let (c', r) = native_call e c call in let (c'', rs) = native_script e c' calls in (c'', r ∷ rs)

bound-Sound :
    (e : Endian) (n : ℕ) (m : Module) (c : Client) (call : Call)
    → Sound (some true) n m
    → Sound (some true) n (bound e m c call).0 × ((bound e m c call).1 ≡ native_call e c call)
unfolding bound native_call byte_span
bound-Sound e n m c (call_get_topic_key net topic) h = (
  quiet python_object refl
      (released-Sound n _ (get_topic_key e c net topic) (quiet python_object refl h)),
  refl,
)
bound-Sound e n m c (call_publish net topic payload) h = (
  quiet python_object refl (
      released-Sound n _ (publish e c net topic payload)
        (quiet python_object refl (quiet python_object refl h))),
  refl,
)
bound-Sound e n m c (call_subscribe net topic) h = (
  quiet python_object refl
      (released-Sound n _ (subscribe e c net topic) (quiet python_object refl h)),
  refl,
)
bound-Sound e n m c (call_poll service) h = (
  quiet python_object refl (released-Sound n _ (c, poll e c service) (quiet python_object refl h)),
  refl,
)

script-Sound :
    (e : Endian) (n : ℕ) (m : Module) (c : Client) (calls : List Call)
    → Sound (some true) n m
    → let (m', c', results) = script e m c calls in
      Sound (some true) n m' × ((c', results) ≡ native_script e c calls)
unfolding script native_script
script-Sound e n m c [] h = (h, refl)
script-Sound e n m c (call ∷ calls) h =
    let (h', same) = bound-Sound e n m c call h in
    let (m', done) = bound e m c call in
    let (h'', rest) = script-Sound e n m' done.0 calls h' in
    (
      h'',
      ap (λ r. (r.0, done.1 ∷ r.1)) rest
          ∙ ap (λ d. ((native_script e d.0 calls).0, d.1 ∷ (native_script e d.0 calls).1)) same,
    )

abbrev module_of : Bool → List Step → Module
module_of once steps = record { once = once; steps = steps }

construct_again :
    (n : ℕ) (m : Module) (a : Arrival)
    → m.once ≡ true
    → Sound (some true) n m
    → Sound (some true) n (construct m a).0 × ((construct m a).0.once ≡ true)
unfolding construct init_networking_once released step
construct_again n m a once =
    subst
      (λ o.
        Sound (some true) n (module_of o m.steps)
        → Sound (some true) n (construct (module_of o m.steps) a).0
          × ((construct (module_of o m.steps) a).0.once ≡ true))
      (sym once) (λ h. (released-Sound n (module_of true m.steps) (make_client a) h, refl))

first_time :
    (n : ℕ) (steps : List Step) (a : Arrival)
    → Sound (some true) n (module_of false steps)
    → let m' = (construct (module_of false steps) a).0 in
      Sound (some true) (n + 1) m' × (m'.once ≡ a.enet_ready)
unfolding construct init_networking_once init released step
first_time n steps a h = elim (Bool-cases a.enet_ready) [
  | inl ready ↦ rw ready (
      let begun = initialize-Sound h in
      let after : Sound (some true) (n + 1)
          (module_of true (step (module_of false steps) initialize).steps) =
        record { locked = begun.locked; counted = begun.counted } in
      (released-Sound (n + 1) _ (make_client a) after, refl))
  | inr failed ↦ rw failed (initialize-Sound h, refl)
]

construct_first :
    (n : ℕ) (m : Module) (a : Arrival)
    → m.once ≡ false
    → Sound (some true) n m
    → Sound (some true) (n + 1) (construct m a).0 × ((construct m a).0.once ≡ a.enet_ready)
construct_first n m a once =
    subst
      (λ o.
        Sound (some true) n (module_of o m.steps)
        → let m' = (construct (module_of o m.steps) a).0 in
          Sound (some true) (n + 1) m' × (m'.once ≡ a.enet_ready))
      (sym once) (first_time n m.steps a)

construct_all_again :
    (n : ℕ) (m : Module) (attempts : List Arrival)
    → m.once ≡ true
    → Sound (some true) n m
    → Sound (some true) n (construct_all m attempts)
unfolding construct_all
construct_all_again n m [] once h = h
construct_all_again n m (a ∷ rest) once h =
    let (h', once') = construct_again n m a once h in
    construct_all_again n (construct m a).0 rest once' h'

construct_all-Sound :
    (n : ℕ) (m : Module) (attempts : List Arrival)
    → m.once ≡ false
    → Sound (some true) n m
    → Sound (some true) (n + tries attempts) (construct_all m attempts)
unfolding construct_all
construct_all-Sound n m [] once h = subst (λ k. Sound (some true) k m) (omega arith) h
construct_all-Sound n m (a ∷ rest) once h =
    let (h', once') = construct_first n m a once h in
    let m' = (construct m a).0 in
    elim (Bool-cases a.enet_ready) [
      | inl ready ↦
          subst (λ k. Sound (some true) k (construct_all m' rest)) (ground arith)
            (construct_all_again (n + 1) m' rest (once' ∙ ready) h')
      | inr failed ↦
          subst (λ k. Sound (some true) k (construct_all m' rest)) (ground arith)
            (construct_all-Sound (n + 1) m' rest (once' ∙ failed) h')
    ]

-- Python makes clients one after the other, and then calls methods of one; it goes on after every
-- exception. The thread holds the interpreter lock at the end, has released it around each
-- operation of the client, constructors included, and held it whenever it used Python objects.
-- networking::init was called until it returned for the first time, and never again. The client
-- ends, and the methods return or throw, as those of C++ do.
pub lock_kept :
    (e : Endian) (attempts : List Arrival) (c : Client) (calls : List Call)
    → let (m, c', results) = script e (construct_all loaded attempts) c calls in
      (lock (some true) m.steps ≡ some true)
      × (inits m.steps ≡ tries attempts)
      × ((c', results) ≡ native_script e c calls)
lock_kept e attempts c calls =
    let start : Sound (some true) 0 loaded = record { locked = refl; counted = refl } in
    let made = construct_all-Sound 0 loaded attempts refl start in
    let (h, same) =
      script-Sound e (0 + tries attempts) (construct_all loaded attempts) c calls made in
    (h.locked, omega (arith, h.counted), same)
