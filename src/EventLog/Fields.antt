-- ===== src/EventLog/Fields.antt =====
-- What the record of an event holds.
use vpsops.Base.{
  false, Option, none, some, [], ◌∷◌, ◌≡◌, refl, if◌then◌else◌, Text, codes, text_eq, text_eq_iff,
  ℤ, Map, lookup, lookup-insert, Bool-cases, inl, inr, arith,
}
use vpsops.EventLog.{
  Value, text_value, time_value, event_severity, is_reserved, add_fields, event_record,
}

-- The field of a key.
add_fields-lookup :
    (base fields : Map Value) (k : Text)
    → lookup k (add_fields base fields) ≡ (
        if is_reserved k
        then lookup k base
        else elim (lookup k fields) [ some v ↦ some v | none ↦ lookup k base ])
unfolding add_fields lookup
add_fields-lookup base [] k = ground arith
add_fields-lookup base ((i, v) ∷ fields) k = elim (Bool-cases (text_eq i k)) [
  | inl same ↦
      let e : i ≡ k = (text_eq_iff i k).0 same in
      ground (
        arith,
        add_fields-lookup base fields k,
        e,
        same,
        lookup-insert i k v (add_fields base fields),
      )
  | inr other ↦
      ground (
        arith,
        add_fields-lookup base fields k,
        other,
        lookup-insert i k v (add_fields base fields),
      )
]

text_eq_comm : (s t : Text) → text_eq s t ≡ text_eq t s
text_eq_comm s t = ground (arith, text_eq_iff s t, text_eq_iff t s)

-- The fields that eventLogLine sets itself.
abbrev own_fields : ℤ → Text → Map Value
own_fields ts event =
    (codes "ts", time_value ts)
    ∷ (codes "event", text_value event)
    ∷ (codes "severity", text_value (event_severity event))
    ∷ []

own_fields-none :
    (ts : ℤ) (event k : Text) → is_reserved k ≡ false → lookup k (own_fields ts event) ≡ none
unfolding is_reserved lookup
own_fields-none ts event k h = ground (
  arith,
  h,
  text_eq_comm (codes "ts") k,
  text_eq_comm (codes "event") k,
  text_eq_comm (codes "severity") k,
)

field_given : (o base : Option Value) → base ≡ none → (elim o [ some v ↦ some v | none ↦ base ]) ≡ o
field_given none base h = h
field_given (some v) base h = refl

other_field :
    (ts : ℤ) (event : Text) (fields : Map Value) (k : Text)
    → (if is_reserved k then lookup k fields else lookup k (event_record ts event fields))
      ≡ lookup k fields
unfolding event_record
other_field ts event fields k = elim (Bool-cases (is_reserved k)) [
  | inl own ↦ rw own refl
  | inr other ↦
      rw (add_fields-lookup (own_fields ts event) fields k, other)
        (field_given (lookup k fields) (lookup k (own_fields ts event))
          (own_fields-none ts event k other))
]

-- The record of an event: its time, its name and its severity are those of the call, whatever fields
-- are given, and every other field is there as given.
pub event_record-lookup :
    (ts : ℤ) (event : Text) (fields : Map Value) (k : Text)
    → let line = event_record ts event fields in
      (lookup (codes "ts") line ≡ some (time_value ts))
      × (lookup (codes "event") line ≡ some (text_value event))
      × (lookup (codes "severity") line ≡ some (text_value (event_severity event)))
      × ((if is_reserved k then lookup k fields else lookup k line) ≡ lookup k fields)
unfolding event_record is_reserved lookup text_eq
event_record-lookup ts event fields k = (
  add_fields-lookup _ fields (codes "ts"),
  add_fields-lookup _ fields (codes "event"),
  add_fields-lookup _ fields (codes "severity"),
  other_field ts event fields k,
)
