-- ===== src/BaseStation/Modem/Status.antt =====
-- What the status of the modem says about the dialogue.
use iot_heater.Prelude.{true, ◌≡◌, ◌≢◌, arith}
use iot_heater.Text.{Bytes, codes, occurs}
use iot_heater.BaseStation.Modem.{
  registered, sim_error, SerialPort, gather, registration, check_3g_connection,
}

registration-registered :
    (reply : Bytes) → registration reply ≡ registered → occurs (codes "+CREG: 0,1") reply ≡ true
unfolding registration
registration-registered reply e = ground arith

registration-sim_error : (reply : Bytes) → registration reply ≢ sim_error
unfolding registration
registration-sim_error reply e = ground arith

-- The status for a faulty SIM card is never given.
pub check_3g_connection-sim_error : (p : SerialPort) → check_3g_connection p ≢ sim_error
unfolding check_3g_connection
check_3g_connection-sim_error p e = ground (arith, registration-sim_error (gather p.creg_reply))

-- The modem is reported as registered only if its replies hold `OK`, `+CPIN: READY` and
-- `+CREG: 0,1`, in the order of the three commands.
pub check_3g_connection-registered :
    (p : SerialPort)
    → check_3g_connection p ≡ registered
    → (occurs (codes "OK") (gather p.at_reply) ≡ true)
      × (occurs (codes "+CPIN: READY") (gather p.cpin_reply) ≡ true)
      × (occurs (codes "+CREG: 0,1") (gather p.creg_reply) ≡ true)
unfolding check_3g_connection
check_3g_connection-registered p e = ground (arith, registration-registered (gather p.creg_reply))
