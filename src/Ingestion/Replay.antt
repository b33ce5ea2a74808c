-- ===== src/Ingestion/Replay.antt =====
-- Redelivered messages, `IngestionRepository.persist_event` and the tables that it checks first.
use sahabino.Common.{
  ℕ, Bool, true, false, ◌≡◌, refl, sym, ◌∙◌, ap, subst, inl, inr, ◌⊎◌, ◌||◌, some, List, ◌==◌,
  arith, Bool-cases,
}
use sahabino.Ingestion.Tables.{
  SupportedEvent, IngestedEvent, Database, IngestionError, Result, done, failed,
}
use sahabino.Ingestion.Repository.{is_ingested, claim_event, handle_event}
use sahabino.Ingestion.Worker.{
  Message, Decoded, event, invalid, decode_message, Ended, committed, left, run_event,
  end_transaction, process_next, Reason, Processed, processing_failed, commit_offset,
  after_transaction,
}
use sahabino.Ingestion.Handlers.{Kept, handle-Kept}

eq_refl : (a : ℕ) → (a == a) ≡ true
eq_refl a = ground arith

true_or : (a b : Bool) → a ≡ true → (a || b) ≡ true
true_or a b h = rw h refl

-- An event that is ingested is acknowledged.
known_event :
    (e : SupportedEvent) (d : Database)
    → is_ingested e d.ingested_events ≡ true
    → run_event e d ≡ (committed, d)
unfolding run_event claim_event
known_event e d h = rw h refl

left_committed : {error : IngestionError} → Path Ended (left error) committed → ⊥
left_committed k = cc

run_new :
    (e : SupportedEvent) (d : Database)
    → is_ingested e d.ingested_events ≡ false
    → run_event e d ≡ end_transaction (handle_event e.payload (claim_event e d).1) d
unfolding run_event claim_event
run_new e d h = rw h refl

-- A claimed event is found again by its identifier.
claimed_found :
    (e e' : SupportedEvent) (d : Database)
    → is_ingested e d.ingested_events ≡ false
    → e'.event_id ≡ e.event_id
    → is_ingested e' (claim_event e d).1.ingested_events ≡ true
unfolding claim_event is_ingested
claimed_found e e' d new same = rw (new, same, eq_refl e.event_id) refl

committed_events :
    (events : List IngestedEvent) (result : Result Database) (d : Database)
    → Kept events result
    → (end_transaction result d).0 ≡ committed
    → (end_transaction result d).1.ingested_events ≡ events
unfolding end_transaction Kept
committed_events events (done t) d h k = h
committed_events events (failed e) d h k = absurd (left_committed k)

-- What the transaction of a new event leaves, if it is committed.
new_ingested :
    (e e' : SupportedEvent) (d : Database)
    → is_ingested e d.ingested_events ≡ false
    → (run_event e d).0 ≡ committed
    → e'.event_id ≡ e.event_id
    → is_ingested e' (run_event e d).1.ingested_events ≡ true
new_ingested e e' d new h same =
    let run = run_new e d new in
    let t = (claim_event e d).1 in
    let rows =
      committed_events t.ingested_events (handle_event e.payload t) d (handle-Kept e.payload t)
        (ap (λ out. out.0) (sym run) ∙ h) in
    ap (λ out. is_ingested e' out.1.ingested_events) run
    ∙ ap (is_ingested e') rows
    ∙ claimed_found e e' d new same

rolled_back :
    (result : Result Database) (d : Database) (error : IngestionError)
    → (end_transaction result d).0 ≡ left error
    → (end_transaction result d).1 ≡ d
unfolding end_transaction
rolled_back (done t) d error k = absurd (left_committed (sym k))
rolled_back (failed e) d error k = refl

run_rolled_back :
    (e : SupportedEvent) (d : Database) (error : IngestionError)
    → (run_event e d).0 ≡ left error
    → (run_event e d).1 ≡ d
run_rolled_back e d error k = elim (Bool-cases (is_ingested e d.ingested_events)) [
  | inl h ↦ ap (λ out. out.1) (known_event e d h)
  | inr h ↦
      let run = run_new e d h in
      ap (λ out. out.1) run ∙ rolled_back _ d error (ap (λ out. out.0) (sym run) ∙ k)
]

-- An event that was committed is acknowledged when it comes again.
run_again :
    (e : SupportedEvent) (d : Database)
    → (run_event e d).0 ≡ committed
    → run_event e (run_event e d).1 ≡ (committed, (run_event e d).1)
run_again e d k = elim (Bool-cases (is_ingested e d.ingested_events)) [
  | inr h ↦ known_event e (run_event e d).1 (new_ingested e e d h k refl)
  | inl h ↦
      known_event e (run_event e d).1
        (ap (λ out. is_ingested e out.1.ingested_events) (known_event e d h) ∙ h)
]

run_repeated :
    (e e' : SupportedEvent) (d : Database)
    → is_ingested e d.ingested_events ≡ false
    → (run_event e d).0 ≡ committed
    → e'.event_id ≡ e.event_id
    → run_event e' (run_event e d).1 ≡ (committed, (run_event e d).1)
run_repeated e e' d new k same = known_event e' (run_event e d).1 (new_ingested e e' d new k same)

-- What follows a transaction keeps its tables, and fails exactly if the transaction does.
after_tables : (commits : Bool) (out : Ended × Database) → (after_transaction commits out).1 ≡ out.1
unfolding after_transaction
after_tables commits (committed, d) = refl
after_tables commits (left error, d) = refl

after_left :
    (commits : Bool) (out : Ended × Database) (error : IngestionError)
    → (after_transaction commits out).0 ≡ processing_failed error
    → out.0 ≡ left error
unfolding after_transaction commit_offset
after_left true (committed, d) error k = cc
after_left false (committed, d) error k = cc
after_left commits (left e, d) error k = ap ended_of k
  where
    ended_of : Processed → Ended
    ended_of (processing_failed e) = left e
    ended_of _ = committed

after_committed :
    (commits : Bool) (out : Ended × Database)
    → (after_transaction commits out).0 ≡ commit_offset commits
    → out.0 ≡ committed
unfolding after_transaction commit_offset
after_committed commits (committed, d) k = refl
after_committed true (left e, d) k = cc
after_committed false (left e, d) k = cc

module _ (m : Message) (e : SupportedEvent) (h : decode_message m ≡ event e) where
  decoded_run :
      (commits : Bool) (d : Database)
      → process_next (some m) commits d ≡ after_transaction commits (run_event e d)
  unfolding process_next
  decoded_run commits d = rw (h, process_next) refl

  decoded_tables :
      (commits : Bool) (d : Database) → (process_next (some m) commits d).1 ≡ (run_event e d).1
  decoded_tables commits d =
      ap (λ out. out.1) (decoded_run commits d) ∙ after_tables commits (run_event e d)

  decoded_committed :
      (commits : Bool) (d : Database)
      → (process_next (some m) commits d).0 ≡ commit_offset commits
      → (run_event e d).0 ≡ committed
  decoded_committed commits d k =
      after_committed commits (run_event e d) (ap (λ out. out.0) (sym (decoded_run commits d)) ∙ k)

  -- In tables on which its transaction commits and changes nothing, only the offset is committed.
  decoded_known :
      (commits : Bool) (d : Database)
      → run_event e d ≡ (committed, d)
      → process_next (some m) commits d ≡ (commit_offset commits, d)
  unfolding after_transaction
  decoded_known commits d k = decoded_run commits d ∙ ap (after_transaction commits) k

Decoded-cases :
    (x : Decoded)
    → ((reason : Reason) × (x ≡ invalid reason)) ⊎ ((e : SupportedEvent) × (x ≡ event e))
Decoded-cases (invalid reason) = inl (reason, refl)
Decoded-cases (event e) = inr (e, refl)

skipped :
    (m : Message) (reason : Reason) (commits : Bool) (d : Database)
    → decode_message m ≡ invalid reason
    → process_next (some m) commits d ≡ (commit_offset commits, d)
unfolding process_next
skipped m reason commits d h = rw (h, process_next) refl

failed_call :
    (m : Message) (commits : Bool) (d : Database) (error : IngestionError)
    → (process_next (some m) commits d).0 ≡ processing_failed error
    → (process_next (some m) commits d).1 ≡ d
failed_call m commits d error k = elim (Decoded-cases (decode_message m)) [
  | inl (reason, h) ↦ ap (λ out. out.1) (skipped m reason commits d h)
  | inr (e, h) ↦
      let ended = ap (λ out. out.0) (sym (decoded_run m e h commits d)) ∙ k in
      decoded_tables m e h commits d
      ∙ run_rolled_back e d error (after_left commits (run_event e d) error ended)
]

redelivered :
    (m : Message) (commits commits' : Bool) (d : Database)
    → (process_next (some m) commits d).0 ≡ commit_offset commits
    → process_next (some m) commits' (process_next (some m) commits d).1
      ≡ (commit_offset commits', (process_next (some m) commits d).1)
redelivered m commits commits' d k = elim (Decoded-cases (decode_message m)) [
  | inl (reason, h) ↦ skipped m reason commits' (process_next (some m) commits d).1 h
  | inr (e, h) ↦ decoded_known m e h commits' (process_next (some m) commits d).1 (
      subst (λ t. run_event e t ≡ (committed, t)) (sym (decoded_tables m e h commits d))
        (run_again e d (decoded_committed m e h commits d k)))
]

repeated :
    (m m' : Message) (commits commits' : Bool) (d : Database) (e e' : SupportedEvent)
    → decode_message m ≡ event e
    → decode_message m' ≡ event e'
    → e'.event_id ≡ e.event_id
    → is_ingested e d.ingested_events ≡ false
    → (process_next (some m) commits d).0 ≡ commit_offset commits
    → process_next (some m') commits' (process_next (some m) commits d).1
      ≡ (commit_offset commits', (process_next (some m) commits d).1)
repeated m m' commits commits' d e e' f g same new k =
    decoded_known m' e' g commits' (process_next (some m) commits d).1 (
      subst (λ t. run_event e' t ≡ (committed, t)) (sym (decoded_tables m e f commits d))
        (run_repeated e e' d new (decoded_committed m e f commits d k) same))

-- A message takes effect at most once. If its processing fails before the commit of the offset, the
-- tables are as before. If it gets there, a redelivery of the message changes nothing and goes straight to the
-- commit of the offset, also where the first commit of the offset failed; and if its event was new,
-- so does any other message whose event has its identifier.
pub at_most_once :
    (m : Message) (commits commits' : Bool) (d : Database)
    → let out = process_next (some m) commits d in
      ((error : IngestionError) → out.0 ≡ processing_failed error → out.1 ≡ d)
      × (out.0 ≡ commit_offset commits
          → process_next (some m) commits' out.1 ≡ (commit_offset commits', out.1))
      × ((e e' : SupportedEvent) (m' : Message)
          → decode_message m ≡ event e
          → decode_message m' ≡ event e'
          → e'.event_id ≡ e.event_id
          → is_ingested e d.ingested_events ≡ false
          → out.0 ≡ commit_offset commits
          → process_next (some m') commits' out.1 ≡ (commit_offset commits', out.1))
at_most_once m commits commits' d = (
  λ error. failed_call m commits d error,
  redelivered m commits commits' d,
  λ e e' m' f g same new. repeated m m' commits commits' d e e' f g same new,
)
