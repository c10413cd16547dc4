-- ===== src/Gateway/Serial/Tests.antt =====
-- The theorem at a concrete run.
use thermal_recovery_flow.Base.{true, false, List, [], ◌∷◌, ◌++◌, ◌≡◌, take, arith, refl}
use thermal_recovery_flow.Gateway.Serial.{
  SerialGateway, Event, context_done, timeout_refused, read_failed, received, read_loop,
}
use thermal_recovery_flow.Gateway.Serial.Bytes.{held, rounds, all_bytes, read_loop-held}
use thermal_recovery_flow.Gateway.Serial.Framing.{IsFramed, read_loop-IsFramed}

abbrev opened : SerialGateway
opened = record {
  frame_buffer = [];
  raw_data_chan = [];
  total_errors = 0;
  frames_sent = 0;
  bytes_sent = 0;
}

abbrev run : List Event
run =
    received (1 ∷ 3 ∷ 2 ∷ []) false true true true
    ∷ timeout_refused
    ∷ received (7 ∷ []) true true true true
    ∷ read_failed true false true
    ∷ received [] false true true true
    ∷ context_done true
    ∷ []

opened-IsFramed : IsFramed 255 opened
opened-IsFramed = record { buffer = omega arith; sized = omega arith; frames = refl; bytes = refl }

read_loop-IsFramed_example : IsFramed 255 (read_loop opened run)
read_loop-IsFramed_example = read_loop-IsFramed run opened (omega arith) opened-IsFramed

read_loop-held_example :
    held (read_loop opened run) ≡ [] ++ all_bytes (take (rounds opened run) run)
read_loop-held_example =
    read_loop-held run opened
      ((refl, refl, refl), (refl, ((refl, refl, refl), (refl, ((refl, refl, refl), (refl, tt))))))
