-- ===== src/Artifacts/Rows.antt =====
-- The rows of `fetches`, `raw_objects`, `normalized_artifacts` and `artifact_upload_claims`
-- (models/artifacts.py), their enumerations (contracts/enums.py) and `normalized_artifact_values` of
-- repositories/artifacts.py. UUIDs are numbers; a digest is its text.
use ua_web_data_collector_sp.Base.{
  ℕ, ◌==◌, String, Bool, true, false, Option, none, some, List, str_eq,
}
use ua_web_data_collector_sp.Sql.{rows_where, update_where, one_or_none}

pub data FetchOutcome : Type 0 where
  success retryable permanent_failure : FetchOutcome

pub data ContentAccess : Type 0 where
  full partial metadata_only blocked challenge premium gone unknown : ContentAccess

pub data DataDomain : Type 0 where
  news vehicle catalog : DataDomain

pub data UploadClaimStatus : Type 0 where
  leased committed released expired : UploadClaimStatus

pub record Fetch : Type 0 where
  pub fetch_id : ℕ
  pub fetched_at : ℕ
  pub job_id : Option ℕ
  pub source_id : Option ℕ
  pub requested_url : String
  pub final_url : Option String
  pub request_variant : Option String
  pub http_method : String
  pub http_status : Option ℕ
  pub outcome : FetchOutcome
  pub content_access : ContentAccess
  pub content_type : Option String
  pub content_encoding : Option String
  pub etag : Option String
  pub last_modified_raw : Option String
  pub response_bytes : Option ℕ
  pub duration_ms : Option ℕ
  pub raw_sha256 : Option String
  pub error_code : Option String
  pub error_message : Option String
  pub created_at : ℕ

pub record RawObject : Type 0 where
  pub raw_object_id : ℕ
  pub sha256 : String
  pub object_key : String
  pub uri : String
  pub size_bytes : ℕ
  pub media_type : String
  pub content_encoding : Option String
  pub first_fetch_id : Option ℕ
  pub first_seen_at : ℕ
  pub created_at : ℕ

pub record ArtifactUploadClaim : Type 0 where
  pub claim_id : ℕ
  pub object_key : String
  pub owner : String
  pub status : UploadClaimStatus
  pub claim_generation : ℕ
  pub acquired_at : ℕ
  pub lease_expires_at : ℕ
  pub committed_at : Option ℕ
  pub released_at : Option ℕ
  pub sha256 : Option String
  pub size_bytes : Option ℕ
  pub uri : Option String
  pub media_type : Option String
  pub created_at : ℕ
  pub updated_at : ℕ

pub record NormalizedArtifact : Type 0 where
  pub artifact_id : ℕ
  pub object_key : String
  pub entity_uuid : ℕ
  pub domain : DataDomain
  pub uri : String
  pub sha256 : String
  pub size_bytes : ℕ
  pub media_type : String
  pub schema_version : String
  pub parser_version : String
  pub parse_attempt_id : Option ℕ
  pub fetch_id : Option ℕ
  pub raw_sha256 : String
  pub raw_uri : String
  pub produced_at : ℕ
  pub created_at : ℕ

-- `NormalizedArtifactRef` (contracts/artifacts.py).
pub record NormalizedArtifactRef : Type 0 where
  pub uri : String
  pub sha256 : String
  pub size_bytes : ℕ
  pub media_type : String
  pub schema_version : String
  pub entity_uuid : ℕ
  pub domain : DataDomain
  pub parser_version : String
  pub fetch_id : ℕ
  pub raw_sha256 : String
  pub raw_uri : String
  pub produced_at : ℕ

unfoldable pub normalized_artifact_values :
    NormalizedArtifactRef → (object_key : String) → (now artifact_id : ℕ) → NormalizedArtifact
normalized_artifact_values ref object_key now artifact_id = record {
  artifact_id = artifact_id;
  object_key = object_key;
  entity_uuid = ref.entity_uuid;
  domain = ref.domain;
  uri = ref.uri;
  sha256 = ref.sha256;
  size_bytes = ref.size_bytes;
  media_type = ref.media_type;
  schema_version = ref.schema_version;
  parser_version = ref.parser_version;
  parse_attempt_id = none;
  fetch_id = some ref.fetch_id;
  raw_sha256 = ref.raw_sha256;
  raw_uri = ref.raw_uri;
  produced_at = ref.produced_at;
  created_at = now;
}

pub record Db : Type 0 where
  pub fetches : List Fetch
  pub raw_objects : List RawObject
  pub normalized_artifacts : List NormalizedArtifact
  pub upload_claims : List ArtifactUploadClaim

abbrev pub claim_key : ArtifactUploadClaim → ℕ
claim_key c = c.claim_id

abbrev pub is_committed : UploadClaimStatus → Bool
is_committed committed = true
is_committed _ = false

abbrev pub is_held : UploadClaimStatus → Bool
is_held leased = true
is_held _ = false

-- `get_claim`
unfoldable pub get_claim : Db → (object_key : String) → Option ArtifactUploadClaim
get_claim db key = one_or_none (rows_where (λ c. str_eq c.object_key key) db.upload_claims)

-- What a flush writes: the attributes of one loaded claim.
unfoldable pub save_claim : ArtifactUploadClaim → Db → Db
save_claim claim db = record db {
  upload_claims = update_where (λ c. c.claim_id == claim.claim_id) (λ _. claim) db.upload_claims;
}
