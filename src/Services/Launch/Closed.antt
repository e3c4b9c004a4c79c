-- ===== src/Services/Launch/Closed.antt =====
-- What becomes of the connections that the device server hands over, up to the destructor of the
-- base station.
use iot_heater.Prelude.{ℕ, ◌+◌, List, [], ◌∷◌, ◌++◌, ◌≡◌, refl, arith, ◌==◌, if◌then◌else◌}
use iot_heater.BaseStation.State.{Station, DeviceConnection, Outcome}
use iot_heater.BaseStation.Connections.{handle_new_device, destroy}
use iot_heater.BaseStation.Connections.Balance.{closes, listed, closes-append, destroy-listed}
use iot_heater.BaseStation.Commands.Queue.{handle_sms_command}
use iot_heater.BaseStation.Process.{process}
use iot_heater.BaseStation.Process.Closed.{process-Balanced}
use iot_heater.Services.Launch.{Event, round, connection, message, handle, main_loop}

-- How often a descriptor is handed over.
abbrev pub handed_over : ℕ → List Event → ℕ
handed_over fd [] = 0
handed_over fd (round r ∷ es) = handed_over fd es
handed_over fd (connection k now ∷ es) = (if k == fd then 1 else 0) + handed_over fd es
handed_over fd (message from content ∷ es) = handed_over fd es

listed-snoc :
    (fd : ℕ) (cs : List DeviceConnection) (c : DeviceConnection)
    → listed fd (cs ++ c ∷ []) ≡ (if c.fd == fd then 1 else 0) + listed fd cs
listed-snoc fd [] c = refl
listed-snoc fd (d ∷ cs) c = omega (arith, listed-snoc fd cs c)

main_loop-closes :
    (fd : ℕ) (es : List Event) (st : Station)
    → closes fd (main_loop es st).1 + listed fd (main_loop es st).0.connections
      ≡ handed_over fd es + listed fd st.connections
unfolding main_loop handle handle_new_device handle_sms_command
main_loop-closes fd [] st = refl
main_loop-closes fd (round r ∷ es) st =
    let o : Outcome = process r st in
    omega (
      arith,
      process-Balanced fd r st,
      main_loop-closes fd es o.0,
      closes-append fd o.1 (main_loop es o.0).1,
    )
main_loop-closes fd (connection k now ∷ es) st =
    let c : DeviceConnection = record { fd = k; last_seen = now } in
    omega
      (arith, main_loop-closes fd es (handle_new_device k now st), listed-snoc fd st.connections c)
main_loop-closes fd (message from content ∷ es) st =
    main_loop-closes fd es (handle_sms_command from content st)

-- Whatever rounds, messages and connections follow: a descriptor is closed, in the rounds and by the
-- destructor behind them, as often as it was handed over or listed at the start.
pub main_loop-destroy :
    (fd : ℕ) (es : List Event) (st : Station)
    → let (st', e) = main_loop es st in
      closes fd (e ++ destroy st') ≡ handed_over fd es + listed fd st.connections
main_loop-destroy fd es st =
    let o : Outcome = main_loop es st in
    omega
      (arith, main_loop-closes fd es st, destroy-listed fd o.0, closes-append fd o.1 (destroy o.0))
