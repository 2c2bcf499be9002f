-- ===== src/EventLog/Tests.antt =====
-- An event whose fields try to set its severity.
use vpsops.Base.{◌≡◌, some, [], ◌∷◌, codes, Map, lookup, pos, if◌then◌else◌}
use vpsops.EventLog.{Value, text_value, time_value, event_severity, event_record, is_reserved}
use vpsops.EventLog.Fields.{event_record-lookup}

abbrev forged : Map Value
forged =
    (codes "severity", text_value (codes "info"))
    ∷ (codes "reason", text_value (codes "lock_busy"))
    ∷ []

event_record-lookup_example :
    let line = event_record (pos 1) (codes "run_rejected") forged in
    (lookup (codes "ts") line ≡ some (time_value (pos 1)))
    × (lookup (codes "event") line ≡ some (text_value (codes "run_rejected")))
    × (lookup (codes "severity") line ≡ some (text_value (event_severity (codes "run_rejected"))))
    × ((if is_reserved (codes "reason")
          then lookup (codes "reason") forged
          else lookup (codes "reason") line)
        ≡ lookup (codes "reason") forged)
event_record-lookup_example =
    event_record-lookup (pos 1) (codes "run_rejected") forged (codes "reason")
