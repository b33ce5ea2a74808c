-- ===== src/Ingestion/Repository.antt =====
-- `IngestionRepository` and the handlers, ingestion/repository.py and ingestion/handlers.py.
use sahabino.Common.{
  ℕ, Bool, true, false, ◌&&◌, ◌||◌, Option, none, some, List, [], ◌∷◌, ◌==◌, leb, if◌then◌else◌,
  length, min,
}
use sahabino.Common.Dict.{lookup}
use sahabino.Network.Capture.{NetworkCapture, same_scenario, first_where}
use sahabino.Ingestion.Tables.{
  AppStatsCollected, ReviewObserved, NetworkAnalysisCollected, Payload, app_stats, review_observed,
  network_analysis, SupportedEvent, IngestedEvent, CrawlTaskType, app_details, reviews, CrawlTask,
  Review, ReviewObservation, Database, ingestion_consistency, integrity, Result, done, failed,
}

-- A row of the event's identifier or position.
unfoldable pub is_ingested : SupportedEvent → List IngestedEvent → Bool
is_ingested e [] = false
is_ingested e (r ∷ rs) =
    (r.event_id == e.event_id
      || (r.topic == e.topic && r.partition == e.partition && r.offset == e.offset))
    || is_ingested e rs

-- `claim_event`
unfoldable pub claim_event : SupportedEvent → Database → Bool × Database
unfolding is_ingested
claim_event e d = if is_ingested e d.ingested_events then (false, d) else (
  true,
  record d {
    ingested_events =
        record {
          event_id = e.event_id;
          topic = e.topic;
          partition = e.partition;
          offset = e.offset;
        }
        ∷ d.ingested_events;
  },
)

abbrev pub same_type : CrawlTaskType → CrawlTaskType → Bool
same_type app_details app_details = true
same_type reviews reviews = true
same_type _ _ = false

unfoldable pub has_task : ℕ → ℕ → CrawlTaskType → List CrawlTask → Bool
has_task task_id application_id type [] = false
has_task task_id application_id type (t ∷ ts) =
    (t.id == task_id && t.application_id == application_id && same_type t.task_type type)
    || has_task task_id application_id type ts

-- `validate_crawl_task`
unfoldable pub validate_crawl_task : ℕ → ℕ → CrawlTaskType → Database → Result Database
unfolding has_task
validate_crawl_task task_id application_id type d =
    if has_task task_id application_id type d.crawl_tasks
    then done d
    else failed ingestion_consistency

unfoldable pub has_snapshot : ℕ → List AppStatsCollected → Bool
has_snapshot task_id [] = false
has_snapshot task_id (p ∷ ps) = p.crawl_task_id == task_id || has_snapshot task_id ps

-- `insert_app_snapshot`
unfoldable pub insert_app_snapshot : AppStatsCollected → Database → Database
unfolding has_snapshot
insert_app_snapshot p d =
    if has_snapshot p.crawl_task_id d.app_snapshots
    then d
    else record d { app_snapshots = p ∷ d.app_snapshots }

-- The row that an insertion proposes, `excluded`.
unfoldable pub proposed : ℕ → ReviewObserved → Review
proposed id p = record {
  id = id;
  application_id = p.application_id;
  external_review_id = p.external_review_id;
  source_at = p.source_at;
  author_name = p.author_name;
  thumbs_up_count = p.thumbs_up_count;
  score = p.score;
  content = p.content;
  source_adapter = p.source_adapter;
  first_observed_at = p.observed_at;
  last_observed_at = p.observed_at;
}

-- The columns of an observation that is not older than the row, and its first time.
unfoldable pub refreshed : ReviewObserved → ℕ → Review → Review
refreshed p first r = record r {
  source_at = p.source_at;
  author_name = p.author_name;
  thumbs_up_count = p.thumbs_up_count;
  score = p.score;
  content = p.content;
  source_adapter = p.source_adapter;
  first_observed_at = first;
  last_observed_at = p.observed_at;
}

-- `set_` of the conflict clause: an older observation changes only the first time of observation.
unfoldable pub merged : ReviewObserved → Review → Review
unfolding refreshed
merged p r =
    if leb r.last_observed_at p.observed_at
    then refreshed p (min r.first_observed_at p.observed_at) r
    else record r { first_observed_at = min r.first_observed_at p.observed_at }

abbrev pub is_review_of : ReviewObserved → Review → Bool
is_review_of p r =
    r.application_id == p.application_id && r.external_review_id == p.external_review_id

-- `upsert_review`: the identifier of the row and the table; a new row takes the next identifier.
unfoldable pub upsert_rows : ℕ → ReviewObserved → List Review → ℕ × List Review
unfolding proposed merged
upsert_rows next p [] = (next, proposed next p ∷ [])
upsert_rows next p (r ∷ rs) =
    let rest = upsert_rows next p rs in
    if is_review_of p r then (r.id, merged p r ∷ rs) else (rest.0, r ∷ rest.1)

unfoldable pub upsert_review : ReviewObserved → Database → ℕ × Database
unfolding upsert_rows
upsert_review p d =
    let (review_id, rows) = upsert_rows (length d.review_rows) p d.review_rows in
    (review_id, record d { review_rows = rows })

unfoldable pub has_observation : ℕ → ℕ → List ReviewObservation → Bool
has_observation task_id review_id [] = false
has_observation task_id review_id (o ∷ os) =
    (o.crawl_task_id == task_id && o.review_id == review_id) || has_observation task_id review_id os

-- `insert_review_observation`
unfoldable pub insert_review_observation : ReviewObserved → ℕ → Database → Database
unfolding has_observation
insert_review_observation p review_id d =
    if has_observation p.crawl_task_id review_id d.observations then d else record d {
      observations =
          record {
            crawl_task_id = p.crawl_task_id;
            review_id = review_id;
            observed_at = p.observed_at;
            position = p.position;
            score = p.score;
            thumbs_up_count = p.thumbs_up_count;
            source_adapter = p.source_adapter;
            content = p.content;
            source_at = p.source_at;
          }
          ∷ d.observations;
    }

abbrev pub is_verified : ℕ → Option ℕ → Bool
is_verified sha256 none = false
is_verified sha256 (some v) = v == sha256

abbrev pub matches_analysis : NetworkAnalysisCollected → NetworkCapture → ℕ → Bool
matches_analysis p c package_name =
    c.analysis_id == p.analysis_id
    && c.application_id == p.application_id
    && package_name == p.package_name
    && same_scenario c.scenario p.scenario
    && is_verified p.verified_sha256 c.verified_sha256

-- `validate_network_analysis`
unfoldable pub validate_network_analysis : NetworkAnalysisCollected → Database → Result Database
unfolding first_where
validate_network_analysis p d = elim (first_where (λ c. c.id == p.capture_id) d.captures) [
  | none ↦ failed ingestion_consistency
  | some c ↦ elim (lookup c.application_id d.applications) [
    | none ↦ failed ingestion_consistency
    | some package_name ↦
        if matches_analysis p c package_name then done d else failed ingestion_consistency
  ]
]

unfoldable pub has_result : NetworkAnalysisCollected → List NetworkAnalysisCollected → Bool
has_result p [] = false
has_result p (q ∷ qs) =
    (q.analysis_id == p.analysis_id || q.capture_id == p.capture_id) || has_result p qs

-- `insert_network_analysis`: a second result breaks a unique constraint.
unfoldable pub insert_network_analysis : NetworkAnalysisCollected → Database → Result Database
unfolding has_result
insert_network_analysis p d =
    if has_result p d.analysis_results
    then failed integrity
    else done (record d { analysis_results = p ∷ d.analysis_results })

unfoldable pub handle_app_stats : AppStatsCollected → Database → Result Database
unfolding validate_crawl_task insert_app_snapshot
handle_app_stats p d = elim (validate_crawl_task p.crawl_task_id p.application_id app_details d) [
  | failed e ↦ failed e
  | done d' ↦ done (insert_app_snapshot p d')
]

unfoldable pub handle_review_observed : ReviewObserved → Database → Result Database
unfolding validate_crawl_task upsert_review insert_review_observation
handle_review_observed p d = elim (validate_crawl_task p.crawl_task_id p.application_id reviews d) [
  | failed e ↦ failed e
  | done d' ↦
      let (review_id, d'') = upsert_review p d' in done (insert_review_observation p review_id d'')
]

unfoldable pub handle_network_analysis : NetworkAnalysisCollected → Database → Result Database
unfolding validate_network_analysis insert_network_analysis
handle_network_analysis p d = elim (validate_network_analysis p d) [
  | failed e ↦ failed e
  | done d' ↦ insert_network_analysis p d'
]

-- `handle_event`
unfoldable pub handle_event : Payload → Database → Result Database
unfolding handle_app_stats handle_review_observed handle_network_analysis
handle_event (app_stats p) d = handle_app_stats p d
handle_event (review_observed p) d = handle_review_observed p d
handle_event (network_analysis p) d = handle_network_analysis p d
