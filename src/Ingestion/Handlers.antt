-- ===== src/Ingestion/Handlers.antt =====
-- What the handlers of ingestion/handlers.py leave of the table of ingested events.
use sahabino.Common.{ℕ, ◌≡◌, refl, ◌∙◌, subst, inl, inr, List, ◌==◌, Bool-cases, Option-cases}
use sahabino.Common.Dict.{lookup}
use sahabino.Network.Capture.{first_where}
use sahabino.Ingestion.Tables.{
  AppStatsCollected, ReviewObserved, NetworkAnalysisCollected, Payload, app_stats, review_observed,
  network_analysis, IngestedEvent, CrawlTaskType, app_details, reviews, Database, Result, done,
  failed,
}
use sahabino.Ingestion.Repository.{
  handle_event, handle_app_stats, handle_review_observed, handle_network_analysis,
  validate_crawl_task, has_task, validate_network_analysis, matches_analysis, insert_app_snapshot,
  has_snapshot, insert_review_observation, has_observation, upsert_review, insert_network_analysis,
  has_result,
}

-- The events that are ingested are those of another table state, if the statement succeeds.
unfoldable pub Kept : List IngestedEvent → Result Database → Type 0
Kept events (done d) = d.ingested_events ≡ events
Kept events (failed e) = Unit

task-Kept :
    (task_id application_id : ℕ) (type : CrawlTaskType) (d : Database)
    → Kept d.ingested_events (validate_crawl_task task_id application_id type d)
unfolding validate_crawl_task Kept
task-Kept task_id application_id type d =
    elim (Bool-cases (has_task task_id application_id type d.crawl_tasks)) [
      | inl e ↦ rw e refl
      | inr e ↦ rw e tt
    ]

snapshot-kept :
    (p : AppStatsCollected) (d : Database)
    → (insert_app_snapshot p d).ingested_events ≡ d.ingested_events
unfolding insert_app_snapshot
snapshot-kept p d = elim (Bool-cases (has_snapshot p.crawl_task_id d.app_snapshots)) [
  | inl e ↦ rw e refl
  | inr e ↦ rw e refl
]

observation-kept :
    (p : ReviewObserved) (review_id : ℕ) (d : Database)
    → (insert_review_observation p review_id d).ingested_events ≡ d.ingested_events
unfolding insert_review_observation
observation-kept p review_id d =
    elim (Bool-cases (has_observation p.crawl_task_id review_id d.observations)) [
      | inl e ↦ rw e refl
      | inr e ↦ rw e refl
    ]

-- A statement that keeps the events goes on with one that keeps them.
then-Kept :
    (events : List IngestedEvent) (result : Result Database) (next : Database → Result Database)
    → Kept events result
    → ((d : Database) → d.ingested_events ≡ events → Kept events (next d))
    → Kept events (elim result [ failed e ↦ failed e | done d ↦ next d ])
unfolding Kept
then-Kept events (failed e) next h k = tt
then-Kept events (done d) next h k = k d h

analysis-Kept :
    (p : NetworkAnalysisCollected) (d : Database)
    → Kept d.ingested_events (validate_network_analysis p d)
unfolding validate_network_analysis Kept
analysis-Kept p d = elim (Option-cases (first_where (λ c. c.id == p.capture_id) d.captures)) [
  | inl e ↦ rw (e, validate_network_analysis) tt
  | inr (c, e) ↦ elim (Option-cases (lookup c.application_id d.applications)) [
    | inl f ↦ rw (e, f, validate_network_analysis) tt
    | inr (name, f) ↦ elim (Bool-cases (matches_analysis p c name)) [
      | inl g ↦ rw (e, f, g, validate_network_analysis) refl
      | inr g ↦ rw (e, f, g, validate_network_analysis) tt
    ]
  ]
]

result-Kept :
    (p : NetworkAnalysisCollected) (d : Database)
    → Kept d.ingested_events (insert_network_analysis p d)
unfolding insert_network_analysis Kept
result-Kept p d = elim (Bool-cases (has_result p d.analysis_results)) [
  | inl e ↦ rw e tt
  | inr e ↦ rw e refl
]

pub handle-Kept : (p : Payload) (d : Database) → Kept d.ingested_events (handle_event p d)
unfolding Kept handle_event handle_app_stats handle_review_observed handle_network_analysis
    upsert_review
handle-Kept (app_stats p) d =
    then-Kept d.ingested_events (validate_crawl_task p.crawl_task_id p.application_id app_details d)
      _ (task-Kept p.crawl_task_id p.application_id app_details d) (λ t h. snapshot-kept p t ∙ h)
handle-Kept (review_observed p) d =
    then-Kept d.ingested_events (validate_crawl_task p.crawl_task_id p.application_id reviews d) _
      (task-Kept p.crawl_task_id p.application_id reviews d) (λ t h. observation-kept p _ _ ∙ h)
handle-Kept (network_analysis p) d =
    then-Kept d.ingested_events (validate_network_analysis p d) _ (analysis-Kept p d)
      (λ t h. subst (λ events. Kept events (insert_network_analysis p t)) h (result-Kept p t))
