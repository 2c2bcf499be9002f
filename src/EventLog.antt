-- ===== src/EventLog.antt =====
-- internal/execd/event_log.go: the lines of the event log. A map[string]any is a map of `Value`s, in
-- the order in which Go's `range` visits it; package encoding/json is a parameter.
pub mod Fields
mod Tests
use vpsops.Base.{
  ℕ, Bool, true, false, Option, none, some, List, [], ◌∷◌, ◌≡◌, refl, ◌∙◌, ◌||◌, is_empty,
  if◌then◌else◌, Text, codes, text_eq, text_eq_iff, text_eq_refl, ℤ, Map, lookup, insert,
  lookup-insert, Bool-cases, inl, inr, arith,
}
use vpsops.Types.{RunRequest, AuthInfo}
use vpsops.Job.{Job}
use vpsops.Http.{Request, Packages, client_address, peer_address}

pub data Value : Type 0 where
  text_value : Text → Value
  bool_value : Bool → Value
  int_value : ℤ → Value
  time_value : ℤ → Value

-- eventSeverity
unfoldable pub event_severity : Text → Text
event_severity event =
    if text_eq event (codes "run_rejected") || text_eq event (codes "auth_rejected")
    then codes "warn"
    else if text_eq event (codes "job_cleanup_failed")
        || (text_eq event (codes "job_release_failed")
            || (text_eq event (codes "job_result_save_failed")
                || text_eq event (codes "audit_write_failed")))
    then codes "error"
    else codes "info"

-- The keys that eventLogLine sets itself.
unfoldable pub is_reserved : Text → Bool
is_reserved k =
    text_eq k (codes "ts") || (text_eq k (codes "event") || text_eq k (codes "severity"))

-- The loop of eventLogLine. The keys of a Go map differ, so the order of their visits does not
-- matter; here the last entry is visited first.
unfoldable pub add_fields : Map Value → Map Value → Map Value
add_fields record_ [] = record_
add_fields record_ ((k, v) ∷ fields) =
    let rest = add_fields record_ fields in if is_reserved k then rest else insert k v rest

-- The map `record` of eventLogLine.
unfoldable pub event_record : ℤ → Text → Map Value → Map Value
event_record ts event fields =
    add_fields
      ((codes "ts", time_value ts)
        ∷ (codes "event", text_value event)
        ∷ (codes "severity", text_value (event_severity event))
        ∷ [])
      fields

-- eventLogLine; logEvent writes it with a newline, and nothing if it fails
unfoldable pub event_log_line : (Map Value → Option Text) → ℤ → Text → Map Value → Option Text
unfolding event_record
event_log_line marshal ts event fields = marshal (event_record ts event fields)

-- The loop of runRejectFields over its extras.
unfoldable pub add_extras : Map Value → List Value → Map Value
add_extras fields [] = fields
add_extras fields (key ∷ []) = fields
add_extras fields (text_value key ∷ (v ∷ extras)) =
    if is_empty key then add_extras fields extras else add_extras (insert key v fields) extras
add_extras fields (bool_value b ∷ (v ∷ extras)) = add_extras fields extras
add_extras fields (int_value n ∷ (v ∷ extras)) = add_extras fields extras
add_extras fields (time_value t ∷ (v ∷ extras)) = add_extras fields extras

-- runRejectFields
unfoldable pub run_reject_fields : Packages → AuthInfo → Request → Text → List Value → Map Value
run_reject_fields net auth r reason = add_extras (
    (codes "reason", text_value reason)
    ∷ (codes "remote_addr", text_value (client_address net r))
    ∷ (codes "peer_addr", text_value (peer_address net r))
    ∷ (codes "token_id", text_value auth.token_id)
    ∷ [])

-- jobEventFields
unfoldable pub job_event_fields : Job → RunRequest → Map Value
job_event_fields j req =
    let fields =
      (codes "job_id", text_value j.id)
      ∷ (codes "remote_addr", text_value j.remote)
      ∷ (codes "token_id", text_value j.token_id)
      ∷ (codes "privilege", text_value req.privilege)
      ∷ (codes "cwd", text_value req.cwd)
      ∷ [] in
    let with_lock =
      if is_empty req.lock_key
      then fields
      else insert (codes "lock_key") (text_value req.lock_key) fields in
    if is_empty req.idempotency_key
    then with_lock
    else insert (codes "has_idempotency_key") (bool_value true) with_lock
