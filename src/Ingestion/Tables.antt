-- ===== src/Ingestion/Tables.antt =====
-- Payloads, events and tables, ingestion/models.py, messaging/playstore_events.py and
-- messaging/network_events.py. Identifiers and texts are numbers, times count ticks.
use sahabino.Common.{ℕ, Bool, Option, List}
use sahabino.Network.Aggregate.Records.{Scenario, AggregatedMetrics}
use sahabino.Network.Capture.{NetworkCapture}

pub record AppStatsCollected : Type 0 where
  pub crawl_task_id : ℕ
  pub application_id : ℕ
  pub package_name : ℕ
  pub collected_at : ℕ
  pub min_installs : ℕ
  pub score : ℕ
  pub ratings_count : ℕ
  pub reviews_count : ℕ
  pub store_updated_on : Option ℕ
  pub version : Option ℕ
  pub ad_supported : Bool
  pub source_adapter : ℕ

pub record ReviewObserved : Type 0 where
  pub crawl_task_id : ℕ
  pub application_id : ℕ
  pub package_name : ℕ
  pub observed_at : ℕ
  pub position : ℕ
  pub external_review_id : ℕ
  pub source_at : ℕ
  pub author_name : ℕ
  pub thumbs_up_count : ℕ
  pub score : ℕ
  pub content : ℕ
  pub source_adapter : ℕ

pub record NetworkAnalysisCollected : Type 0 where
  pub analysis_id : ℕ
  pub capture_id : ℕ
  pub application_id : ℕ
  pub package_name : ℕ
  pub scenario : Scenario
  pub analyzed_at : ℕ
  pub verified_sha256 : ℕ
  pub metrics : AggregatedMetrics

pub data Payload : Type 0 where
  app_stats : AppStatsCollected → Payload
  review_observed : ReviewObserved → Payload
  network_analysis : NetworkAnalysisCollected → Payload

-- A decoded message: the envelope's identifier and payload, and the message's position.
pub record SupportedEvent : Type 0 where
  pub event_id : ℕ
  pub payload : Payload
  pub topic : ℕ
  pub partition : ℕ
  pub offset : ℕ

-- The row's identifier and position, its unique columns; type, version and times are only stored.
pub record IngestedEvent : Type 0 where
  pub event_id : ℕ
  pub topic : ℕ
  pub partition : ℕ
  pub offset : ℕ

pub data CrawlTaskType : Type 0 where
  app_details reviews : CrawlTaskType

pub record CrawlTask : Type 0 where
  pub id : ℕ
  pub application_id : ℕ
  pub task_type : CrawlTaskType

-- The row of a review, without the times that the database sets.
pub record Review : Type 0 where
  pub id : ℕ
  pub application_id : ℕ
  pub external_review_id : ℕ
  pub source_at : ℕ
  pub author_name : ℕ
  pub thumbs_up_count : ℕ
  pub score : ℕ
  pub content : ℕ
  pub source_adapter : ℕ
  pub first_observed_at : ℕ
  pub last_observed_at : ℕ

-- The columns that ingestion writes, without those of the sentiment service.
pub record ReviewObservation : Type 0 where
  pub crawl_task_id : ℕ
  pub review_id : ℕ
  pub observed_at : ℕ
  pub position : ℕ
  pub score : ℕ
  pub thumbs_up_count : ℕ
  pub source_adapter : ℕ
  pub content : ℕ
  pub source_at : ℕ

-- The tables. A snapshot and an analysis result have the columns of their payload.
pub record Database : Type 0 where
  pub ingested_events : List IngestedEvent
  pub crawl_tasks : List CrawlTask
  pub captures : List NetworkCapture
  pub applications : List (ℕ × ℕ)
  pub app_snapshots : List AppStatsCollected
  pub review_rows : List Review
  pub observations : List ReviewObservation
  pub analysis_results : List NetworkAnalysisCollected

pub data IngestionError : Type 0 where
  ingestion_consistency integrity database_failure : IngestionError

-- What a statement leaves: the tables, or an error, with which the transaction is rolled back.
pub data Result {ℓ} (A : Type ℓ) : Type ℓ where
  done : A → Result A
  failed : IngestionError → Result A
