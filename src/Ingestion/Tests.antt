-- ===== src/Ingestion/Tests.antt =====
-- Runs of the ingestion on small tables, ingestion/worker.py and ingestion/repository.py.
use sahabino.Common.{true, false, ◌≡◌, refl, some, [], ◌∷◌, arith}
use sahabino.Ingestion.Tables.{
  ReviewObserved, review_observed, SupportedEvent, reviews, Database, IngestionError,
}
use sahabino.Ingestion.Repository.{is_ingested, upsert_review}
use sahabino.Ingestion.Worker.{
  Message, envelope, key, review_collected, event, decode_message, acknowledged,
  offset_commit_failed, processing_failed, commit_offset, process_next,
}
use sahabino.Ingestion.Reviews.{upsert_commutes}
use sahabino.Ingestion.Replay.{at_most_once}

abbrev observed : ReviewObserved
observed = record {
  crawl_task_id = 1;
  application_id = 2;
  package_name = 3;
  observed_at = 10;
  position = 1;
  external_review_id = 4;
  source_at = 5;
  author_name = 6;
  thumbs_up_count = 0;
  score = 5;
  content = 7;
  source_adapter = 8;
}

abbrev observed_later : ReviewObserved
observed_later = record observed { observed_at = 20; score = 1 }

abbrev tables : Database
tables = record {
  ingested_events = [];
  crawl_tasks = record { id = 1; application_id = 2; task_type = reviews } ∷ [];
  captures = [];
  applications = [];
  app_snapshots = [];
  review_rows = [];
  observations = [];
  analysis_results = [];
}

upsert_commutes_example :
    (upsert_review observed_later (upsert_review observed tables).1).1
    ≡ (upsert_review observed (upsert_review observed_later tables).1).1
upsert_commutes_example =
    upsert_commutes observed observed_later tables (record { application = refl; review = refl })
      (omega arith)

abbrev message : Message
message = record {
  value = envelope (record {
    has_envelope_fields = true;
    event_type = some review_collected;
    schema_version = some 1;
    event_id = 9;
    payload = some (review_observed observed);
  });
  message_key = key 2;
  topic = 1;
  partition = 0;
  offset = 0;
}

-- The commit of the offset fails after the transaction, and succeeds for the redelivery.
at_most_once_example :
    let out = process_next (some message) false tables in
    ((error : IngestionError) → out.0 ≡ processing_failed error → out.1 ≡ tables)
    × (out.0 ≡ offset_commit_failed
        → process_next (some message) true out.1 ≡ (acknowledged, out.1))
    × ((e e' : SupportedEvent) (m' : Message)
        → decode_message message ≡ event e
        → decode_message m' ≡ event e'
        → e'.event_id ≡ e.event_id
        → is_ingested e tables.ingested_events ≡ false
        → out.0 ≡ offset_commit_failed
        → process_next (some m') true out.1 ≡ (acknowledged, out.1))
unfolding commit_offset
at_most_once_example = at_most_once message false true tables

-- The transaction of the example is committed, without its offset.
example_commits : (process_next (some message) false tables).0 ≡ offset_commit_failed
unfolding process_next
example_commits = refl
