-- ===== src/Common/Tests.antt =====
-- SIGINT in the second round of the server of Driver/Tests.antt's session, and before run_forever.
use spraybus.Prelude.{ℕ, zero, suc, ◌≡◌, refl, Bool, true, false, List, [], ◌∷◌, arith, none}
use spraybus.Word.{big}
use spraybus.Networking.Server.{Event}
use spraybus.Server.{new_server, process}
use spraybus.Server.Session.{session}
use spraybus.Common.{run_forever}
use spraybus.Common.Interrupts.{process_start, raise_sigint, left, run_until_sigint}
use spraybus.Common.Stopping.{flags, threw, inputs_before, run_forever_ends}

-- The session in every round.
abbrev inputs : ℕ → List Event
inputs k = session

-- SIGINT while the first round runs.
abbrev sigint : ℕ → Bool
sigint zero = false
sigint (suc zero) = true
sigint (suc (suc k)) = false

one_round : inputs_before inputs sigint 1 0 ≡ session ∷ []
unfolding inputs_before
one_round = refl

run_forever_ends_example :
    let end = run_forever (process big) new_server (inputs_before inputs sigint 1 0) in
    run_until_sigint (process big) inputs sigint 2 process_start new_server
    ≡ left (flags (threw end.1)) end
run_forever_ends_example =
    (run_forever_ends inputs sigint (process big) 1 2 process_start new_server refl refl
      (omega arith)).0

-- Before the first run_forever, SIGINT has its default action.
killed : raise_sigint process_start ≡ none
unfolding raise_sigint
killed = refl
