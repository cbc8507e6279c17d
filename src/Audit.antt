-- ===== src/Audit.antt =====
-- src/collector/persistence/postgres/repositories/audit.py: the append-only log of control-plane
-- actions. A JSON snapshot is a list of members; `str(uuid)` is kept as the number of the UUID.
use ua_web_data_collector_sp.Base.{
  ℕ, String, Bool, true, false, ◌||◌, Option, none, some, List, [], ◌∷◌, ◌++◌, leb, is_blank,
  column_is, sort,
}
use ua_web_data_collector_sp.Errors.{Result, ok, err, invalid_value}
use ua_web_data_collector_sp.Sql.{rows_where, one_or_none}

pub data Scalar : Type 0 where
  null : Scalar
  number : ℕ → Scalar
  text : String → Scalar
  time : ℕ → Scalar

abbrev pub JsonObject : Type 0
JsonObject = List (String × Scalar)

abbrev pub text_or_null : Option String → Scalar
text_or_null none = null
text_or_null (some s) = text s

abbrev pub time_or_null : Option ℕ → Scalar
time_or_null none = null
time_or_null (some t) = time t

pub data Resource : Type 0 where
  uuid : ℕ → Resource
  name : String → Resource

pub record AuditEntry : Type 0 where
  pub audit_id : ℕ
  pub created_at : ℕ
  pub actor : String
  pub action : String
  pub resource_type : String
  pub resource_id : Resource
  pub before_state : Option JsonObject
  pub after_state : Option JsonObject
  pub request_id : Option String
  pub idempotency_key : Option String

-- `value is None or not value.strip()`
unfoldable pub is_missing : Option String → Bool
unfolding is_blank
is_missing none = true
is_missing (some s) = is_blank s

pair_up : Option String → Option String → Result (String × String)
pair_up (some actor) (some reason) = ok (actor, reason)
pair_up _ _ = err invalid_value

-- The actor and the reason, both given and neither blank.
unfoldable pub require_audit_context : Option String → Option String → Result (String × String)
unfolding is_missing pair_up
require_audit_context actor reason = elim (is_missing actor || is_missing reason) [
  | true ↦ err invalid_value
  | false ↦ pair_up actor reason
]

-- The entry with an idempotency key, the earliest first.
existing_entry : List AuditEntry → Option String → Option AuditEntry
existing_entry log none = none
existing_entry log (some key) = one_or_none (
    sort (λ a b. leb a.created_at b.created_at)
      (rows_where (λ e. column_is e.idempotency_key key) log))

or_insert : List AuditEntry → AuditEntry → Option AuditEntry → AuditEntry × List AuditEntry
or_insert log entry none = (entry, log ++ entry ∷ [])
or_insert log entry (some old) = (old, log)

-- Adds the entry, unless its idempotency key is in the log; the callers have resolved `now`.
unfoldable pub append_audit : List AuditEntry → AuditEntry → AuditEntry × List AuditEntry
unfolding existing_entry or_insert
append_audit log entry = or_insert log entry (existing_entry log entry.idempotency_key)
