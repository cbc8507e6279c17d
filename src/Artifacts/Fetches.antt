-- ===== src/Artifacts/Fetches.antt =====
-- `record_fetch`, `latest_validators`, `count_retries_since` and `record_raw_object` of
-- repositories/artifacts.py.
use ua_web_data_collector_sp.Base.{
  ℕ, ◌==◌, String, Bool, true, false, ◌&&◌, ◌||◌, Option, none, some, [], ◌∷◌, ◌++◌, leb, str_eq,
  sort,
}
use ua_web_data_collector_sp.Errors.{Result, ok, err, ◌>>=◌, integrity_error}
use ua_web_data_collector_sp.Clock.{Stamp, When, resolve_now, require_aware_utc}
use ua_web_data_collector_sp.Sql.{rows_where, one_or_none, count_where}
use ua_web_data_collector_sp.Artifacts.Rows.{
  FetchOutcome, ContentAccess, Fetch, RawObject, Db, success, retryable,
}

pub record FetchRecord : Type 0 where
  pub requested_url : String
  pub outcome : FetchOutcome
  pub fetched_at : ℕ
  pub job_id : Option ℕ
  pub source_id : Option ℕ
  pub final_url : Option String
  pub request_variant : Option String
  pub http_method : String
  pub http_status : Option ℕ
  pub content_access : ContentAccess
  pub content_type : Option String
  pub content_encoding : Option String
  pub etag : Option String
  pub last_modified_raw : Option String
  pub response_bytes : Option ℕ
  pub duration_ms : Option ℕ
  pub raw_sha256 : Option String
  pub error_code : Option String
  pub error_message : Option String

unfoldable pub fetch_values : FetchRecord → (now fetch_id : ℕ) → Fetch
fetch_values r now fetch_id = record {
  fetch_id = fetch_id;
  fetched_at = r.fetched_at;
  job_id = r.job_id;
  source_id = r.source_id;
  requested_url = r.requested_url;
  final_url = r.final_url;
  request_variant = r.request_variant;
  http_method = r.http_method;
  http_status = r.http_status;
  outcome = r.outcome;
  content_access = r.content_access;
  content_type = r.content_type;
  content_encoding = r.content_encoding;
  etag = r.etag;
  last_modified_raw = r.last_modified_raw;
  response_bytes = r.response_bytes;
  duration_ms = r.duration_ms;
  raw_sha256 = r.raw_sha256;
  error_code = r.error_code;
  error_message = r.error_message;
  created_at = now;
}

unfoldable pub record_fetch : Db → FetchRecord → When → (fetch_id : ℕ) → Result (Fetch × Db)
unfolding fetch_values
record_fetch db r w fetch_id = do
  current ← resolve_now w
  let fetch = fetch_values r current fetch_id
  ok (fetch, record db { fetches = db.fetches ++ fetch ∷ [] })

pub record Validators : Type 0 where
  pub etag : Option String
  pub last_modified : Option String
  pub fetched_at : ℕ

abbrev pub is_success : FetchOutcome → Bool
is_success success = true
is_success _ = false

abbrev pub is_retryable : FetchOutcome → Bool
is_retryable retryable = true
is_retryable _ = false

-- `VALIDATOR_HTTP_STATUSES`
unfoldable pub carries_body : Option ℕ → Bool
carries_body none = false
carries_body (some status) = status == 200 || status == 206

of_source : Option ℕ → (source_uuid : ℕ) → Bool
of_source none i = false
of_source (some j) i = j == i

-- The column `requested_url_md5` is generated from `requested_url`; `md5` is the database's.
unfoldable pub validators_predicate :
    (md5 : String → String) → (source_uuid : ℕ) → (normalized_url : String) → Fetch → Bool
unfolding of_source carries_body
validators_predicate md5 i url f =
    of_source f.source_id i
    && (str_eq (md5 f.requested_url) (md5 url)
        && (str_eq f.requested_url url && (is_success f.outcome && carries_body f.http_status)))

of_fetch : Option Fetch → Option Validators
of_fetch none = none
of_fetch (some f) =
    some (record { etag = f.etag; last_modified = f.last_modified_raw; fetched_at = f.fetched_at })

-- ORDER BY fetched_at DESC LIMIT 1
unfoldable pub latest_validators :
    (md5 : String → String) → Db → (source_uuid : ℕ) → (normalized_url : String) → Option Validators
unfolding validators_predicate of_fetch
latest_validators md5 db i url = of_fetch (
    one_or_none (
      sort (λ (a b : Fetch). leb b.fetched_at a.fetched_at)
        (rows_where (validators_predicate md5 i url) db.fetches)))

unfoldable pub count_retries_since : Db → (source_uuid : ℕ) → Stamp → Result ℕ
unfolding of_source
count_retries_since db i since = do
  lower_bound ← require_aware_utc since
  ok (
      count_where
        (λ f. of_source f.source_id i && (leb lower_bound f.fetched_at && is_retryable f.outcome))
        db.fetches)

-- INSERT … ON CONFLICT (sha256) DO NOTHING, with the row that is there. Another object under the same
-- key breaks UNIQUE (object_key).
unfoldable pub record_raw_object : Db → RawObject → When → Result (RawObject × Db)
record_raw_object db r w = do
  current ← resolve_now w
  elim (one_or_none (rows_where (λ (x : RawObject). str_eq x.sha256 r.sha256) db.raw_objects)) [
    | some existing ↦ ok (existing, db)
    | none ↦
        elim (one_or_none
          (rows_where (λ (x : RawObject). str_eq x.object_key r.object_key) db.raw_objects)) [
            | some other ↦ err integrity_error
            | none ↦
                let row = record r { first_seen_at = current; created_at = current } in
                ok (row, record db { raw_objects = db.raw_objects ++ row ∷ [] })
          ]
  ]
