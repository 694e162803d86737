-- ===== src/Agent/Node/Ending.antt =====
-- What ends the node, in node-agent/src/main.rs: the service, or a signal.
use arcflame.Base.{ℕ, Bool, true, false, Option, none, some, ltb, if◌then◌else◌}
use arcflame.Agent.{Try, done, failed}

-- A future that is awaited: the second in which it is ready, and its output, unless it never is.
abbrev pub Future : Type 0 → Type 0
Future A = Option (ℕ × A)

-- `tokio::select!` of two futures: the first that is ready; of two that are ready at once any, by `pick`.
unfoldable pub select : {A : Type 0} → Bool → Future A → Future A → Future A
select pick none b = b
select pick (some a) none = some a
select pick (some (t, a)) (some (u, b)) =
    if ltb t u
    then some (t, a)
    else if ltb u t
    then some (u, b)
    else if pick
    then some (t, a)
    else some (u, b)

-- What happens while the node runs. The first two are of tokio's signals: each may fail, `sigterm`
-- already where it is set up.
pub record Events : Type 0 where
  pub unix : Bool
  pub ctrl_c : Future (Try (Unit {0}))
  pub sigterm : Try (Future (Unit {0}))
  pub served : Future (Try (Unit {0}))
  pub picks_ctrl_c : Bool
  pub picks_served : Bool

-- `let _ = …await`
abbrev pub ignore : {A : Type 0} → Future A → Future (Unit {0})
ignore none = none
ignore (some (t, a)) = some (t, tt)

-- `terminate`: pending for ever if the handler cannot be set up, or where there is no such signal.
abbrev pub terminate : Bool → Try (Future (Unit {0})) → Future (Unit {0})
terminate true (done received) = received
terminate true (failed e) = none
terminate false sigterm = none

unfoldable pub shutdown_signal : Events → Future (Unit {0})
unfolding select
shutdown_signal events =
    select events.picks_ctrl_c (ignore events.ctrl_c) (terminate events.unix events.sigterm)

-- A signal ends the node without an error.
abbrev pub stopped : Future (Unit {0}) → Future (Try (Unit {0}))
stopped none = none
stopped (some (t, u)) = some (t, done tt)

-- The `select!` of `main`, and its result.
unfoldable pub ending : Events → Future (Try (Unit {0}))
unfolding select shutdown_signal
ending events = select events.picks_served events.served (stopped (shutdown_signal events))
