-- ===== src/Services/Task.antt =====
-- The calls that a service makes of its task (TaskScheduler, a library): SetNextRunASAP,
-- SetNextRunDelay and SetNextRunLong of src/Services/ILoLaService.h, Enable and Disable. They are
-- recorded, the last one first.
use lo_la.Prelude.{ℕ}

pub data TaskCall : Type 0 where
  run_asap enable disable : TaskCall
  run_delayed : ℕ → TaskCall

-- LOLA_SERVICE_HOUR_PERIOD_MILLIS
abbrev pub hour_period_millis : ℕ
hour_period_millis = 3600000

abbrev pub run_long : TaskCall
run_long = run_delayed hour_period_millis
