-- ===== src/Artifacts/Examples.antt =====
-- Runs of the upload claims and of the sweeper on small tables.
use ua_web_data_collector_sp.Base.{
  inl, ℕ, ◌+◌, ◌≤◌, ◌≡◌, refl, Bool, true, false, none, some, List, [], ◌∷◌, pos, arith,
}
use ua_web_data_collector_sp.Errors.{ok, err, stale_claim}
use ua_web_data_collector_sp.Clock.{
  aware, at_instant, resolve_now, resolve, require_aware_utc, seconds,
}
use ua_web_data_collector_sp.Sql.{find, rows_where, one_or_none}
use ua_web_data_collector_sp.Artifacts.Rows.{
  ArtifactUploadClaim, Db, claim_key, leased, committed, get_claim,
}
use ua_web_data_collector_sp.Artifacts.Claims.{
  Reference, acquire_upload_claim, commit_reference, new_claim,
}
use ua_web_data_collector_sp.Artifacts.Claims.Grows.{
  Call, acquires, commits, releases, expires, run, run-generation, run-committed,
}
use ua_web_data_collector_sp.Artifacts.Claims.Fencing.{Exclusive, acquire-fences}
use ua_web_data_collector_sp.Artifacts.Sweeper.{Sweep, sweep_keys}
use ua_web_data_collector_sp.Artifacts.Sweeper.Guarded.{IsSpared, sweep_keys-spares}
use ua_web_data_collector_sp.Artifacts.Claims.{may_commit, is_holder}
use ua_web_data_collector_sp.Artifacts.Upload.{
  Upload, uploaded, upload, attempts_from, one_attempt, after_claim, put_object, commit_both,
  settled, deliver, now_at,
}
use ua_web_data_collector_sp.Artifacts.Upload.Committed.{Done, upload-Done}

abbrev uploading : ArtifactUploadClaim
uploading = record {
  claim_id = 1;
  object_key = "raw/1";
  owner = "fetcher";
  status = leased;
  claim_generation = 1;
  acquired_at = 0;
  lease_expires_at = 100;
  committed_at = none;
  released_at = none;
  sha256 = none;
  size_bytes = none;
  uri = none;
  media_type = none;
  created_at = 0;
  updated_at = 0;
}

abbrev kept : ArtifactUploadClaim
kept = record uploading {
  claim_id = 2;
  object_key = "raw/2";
  status = committed;
  committed_at = some 50;
  sha256 = some "aa";
  size_bytes = some 3;
  uri = some "s3://raw/2";
}

abbrev two_claims : Db
two_claims = record {
  fetches = [];
  raw_objects = [];
  normalized_artifacts = [];
  upload_claims = uploading ∷ kept ∷ [];
}

abbrev no_claims : Db
no_claims = record two_claims { upload_claims = [] }

abbrev object : Reference
object = record { sha256 = "bb"; size_bytes = 4; uri = "s3://raw/1"; media_type = none }

abbrev unlocked : ℕ → Bool
unlocked i = false

-- The lease of the first claim runs out, another worker takes the key over; the second key is refused.
abbrev calls : List Call
calls =
    expires 10 (at_instant 200) unlocked
    ∷ acquires "raw/1" "sweeper" 60 none (at_instant 300) 7
    ∷ acquires "raw/2" "sweeper" 60 none (at_instant 300) 8
    ∷ commits "raw/1" 1 "fetcher" object (at_instant 400)
    ∷ releases "raw/1" 2 "sweeper" (at_instant 500)
    ∷ []

run-generation_example :
    ((c' : ArtifactUploadClaim) × (find claim_key 1 (run two_claims calls).upload_claims ≡ some c')
      × (c'.object_key ≡ "raw/1")
      × (1 ≤ c'.claim_generation))
run-generation_example =
    run-generation two_claims calls 1 uploading (unfold find in (refl, (refl, tt)))
      (unfold find in refl)

run-committed_example : find claim_key 2 (run two_claims calls).upload_claims ≡ some kept
run-committed_example =
    run-committed two_claims calls 2 kept (unfold find in (refl, (refl, tt))) (unfold find in refl)
      refl

abbrev first_claim : ArtifactUploadClaim
first_claim = record uploading {
  claim_id = 7;
  acquired_at = 1000;
  lease_expires_at = 60001000;
  created_at = 1000;
  updated_at = 1000;
}

abbrev one_claim : Db
one_claim = record two_claims { upload_claims = first_claim ∷ [] }

acquire-fences_example :
    Exclusive one_claim "raw/1" "fetcher" (1000 + seconds 60) first_claim
    × (acquire_upload_claim one_claim "raw/1" "sweeper" 60 none (at_instant 2000) 8
        ≡ err stale_claim)
    × (commit_reference one_claim "raw/1" 2 "sweeper" object (at_instant 90000000)
        ≡ err stale_claim)
acquire-fences_example =
    acquire-fences no_claims one_claim "raw/1" "fetcher" "sweeper" "sweeper" 60 60 1000 2000
      90000000 7 8 2 none none (at_instant 1000) (at_instant 2000) (at_instant 90000000) first_claim
      object tt (unfold rows_where in omega arith)
      (unfold resolve_now resolve require_aware_utc in refl)
      (unfold resolve_now resolve require_aware_utc in refl)
      (unfold resolve_now resolve require_aware_utc in refl)
      (unfold acquire_upload_claim get_claim one_or_none rows_where find new_claim resolve_now
          resolve require_aware_utc in
        refl)
      refl (omega arith) (omega arith) refl

abbrev sweep : Sweep
sweep = record {
  grace = pos 50;
  minimum_grace = pos 20;
  owner = "sweeper";
  lease_seconds = 120;
  limit = 1000;
  clock = λ n. aware (500 + n);
  new_id = λ n. 100 + n;
  fails = λ key. false;
  key_le = λ a b. true;
}

sweep_keys-spares_example :
    IsSpared sweep "raw/2" kept (inl refl) (sweep_keys sweep 1 1 two_claims ("raw/2" ∷ []) [] []).0
    × (get_claim (sweep_keys sweep 1 1 two_claims ("raw/2" ∷ []) [] []).1 "raw/2" ≡ some kept)
sweep_keys-spares_example =
    sweep_keys-spares sweep 1 1 two_claims ("raw/2" ∷ []) "raw/2" kept
      (unfold find in (refl, (refl, tt))) (unfold get_claim rows_where one_or_none in refl)
      (inl refl)

abbrev producer : Upload ℕ
producer = record {
  owner = "fetcher";
  lease_seconds = 60;
  clock = λ attempt moment. aware (1000 + moment);
  new_id = λ n. 20 + n;
  bucket = "raw";
  key = "raw/1";
  sha256 = "bb";
  length_of_data = 4;
  media_type = "text/html";
  put = λ attempt.
      some (record { size = 4; sha256 = "bb"; media_type = none; bucket = "raw"; key = "raw/1" });
  head = λ attempt. none;
  others = λ attempt moment. [];
  commit = λ db o. ok (1, db);
}

upload-Done_example : Done "raw/1" (upload producer 3 no_claims).0 (upload producer 3 no_claims).1
upload-Done_example = upload-Done producer 3 no_claims (λ db o. refl) tt

-- The upload of the example returns its result at the first attempt.
uploads_at_once :
    (upload producer 3 no_claims).0
    ≡ uploaded (record {
      stored = record { size = 4; sha256 = "bb"; media_type = none; bucket = "raw"; key = "raw/1" };
      reference = 1;
      deduplicated = false;
      attempts = 1;
    })
unfolding upload attempts_from one_attempt after_claim put_object commit_both settled deliver run
    acquire_upload_claim get_claim one_or_none rows_where find new_claim commit_reference may_commit
    is_holder now_at resolve_now resolve require_aware_utc
uploads_at_once = refl
