-- ===== src/Ingestion/Worker.antt =====
-- `decode_message` and `IngestionWorker.process_next`, ingestion/worker.py. JSON, the payload's model
-- and the topics' names are seen through the parts of a message that the code tests.
use sahabino.Common.{ℕ, Bool, true, false, not, Option, none, some, ◌==◌, if◌then◌else◌}
use sahabino.Ingestion.Tables.{
  Payload, app_stats, review_observed, network_analysis, SupportedEvent, Database, IngestionError,
  Result, done, failed,
}
use sahabino.Ingestion.Repository.{claim_event, handle_event}

-- The reasons of `InvalidIngestionMessage`.
pub data Reason : Type 0 where
  missing_value invalid_json invalid_envelope unsupported_event_type : Reason
  unsupported_schema_version topic_event_mismatch invalid_envelope_or_payload : Reason
  missing_key invalid_utf8_key application_key_mismatch : Reason

-- The event types of the code, and the text of another one.
pub data EventType : Type 0 where
  app_stats_collected review_collected analysis_collected unknown : EventType

-- The parts of a decoded JSON object: whether its fields are those of an envelope, the type if it is a
-- text, the version if it is an integer, and the payload if the model accepts it.
pub record RawEnvelope : Type 0 where
  pub has_envelope_fields : Bool
  pub event_type : Option EventType
  pub schema_version : Option ℕ
  pub event_id : ℕ
  pub payload : Option Payload

pub data RawValue : Type 0 where
  no_value no_bytes no_json no_object : RawValue
  envelope : RawEnvelope → RawValue

pub data RawKey : Type 0 where
  no_key no_text : RawKey
  key : ℕ → RawKey

pub record Message : Type 0 where
  pub value : RawValue
  pub message_key : RawKey
  pub topic : ℕ
  pub partition : ℕ
  pub offset : ℕ

pub data Decoded : Type 0 where
  event : SupportedEvent → Decoded
  invalid : Reason → Decoded

abbrev pub application_of : Payload → ℕ
application_of (app_stats p) = p.application_id
application_of (review_observed p) = p.application_id
application_of (network_analysis p) = p.application_id

-- The version and the topic of an event type.
abbrev pub expected_version : ℕ
expected_version = 1

abbrev pub expected_topic : EventType → Option ℕ
expected_topic app_stats_collected = some 0
expected_topic review_collected = some 1
expected_topic analysis_collected = some 2
expected_topic unknown = none

-- The payload's model is the one that the event type asks for.
abbrev pub has_type : EventType → Payload → Bool
has_type app_stats_collected (app_stats p) = true
has_type review_collected (review_observed p) = true
has_type analysis_collected (network_analysis p) = true
has_type _ _ = false

-- The last tests: those of the key.
unfoldable pub decode_key : Message → ℕ → Payload → Decoded
decode_key m event_id p = elim m.message_key [
  | no_key ↦ invalid missing_key
  | no_text ↦ invalid invalid_utf8_key
  | key application ↦
      if application == application_of p
      then event (record {
        event_id = event_id;
        payload = p;
        topic = m.topic;
        partition = m.partition;
        offset = m.offset;
      })
      else invalid application_key_mismatch
]

-- The tests of version, topic and payload for an event type.
unfoldable pub decode_typed : Message → RawEnvelope → EventType → Decoded
unfolding decode_key
decode_typed m raw type = elim (expected_topic type) [
  | none ↦ invalid unsupported_event_type
  | some topic ↦ elim raw.schema_version [
    | none ↦ invalid unsupported_schema_version
    | some version ↦
        if not (version == expected_version)
        then invalid unsupported_schema_version
        else if not (m.topic == topic)
        then invalid topic_event_mismatch
        else elim raw.payload [
          | none ↦ invalid invalid_envelope_or_payload
          | some p ↦
              if has_type type p
              then decode_key m raw.event_id p
              else invalid invalid_envelope_or_payload
        ]
  ]
]

-- The tests of the envelope.
unfoldable pub decode_envelope : Message → RawEnvelope → Decoded
unfolding decode_typed
decode_envelope m raw =
    if raw.has_envelope_fields
    then elim raw.event_type [
      | none ↦ invalid invalid_envelope
      | some type ↦ decode_typed m raw type
    ]
    else invalid invalid_envelope

-- `decode_message`
unfoldable pub decode_message : Message → Decoded
unfolding decode_envelope
decode_message m = elim m.value [
  | no_value ↦ invalid missing_value
  | no_bytes ↦ invalid invalid_json
  | no_json ↦ invalid invalid_json
  | no_object ↦ invalid invalid_envelope
  | envelope raw ↦ decode_envelope m raw
]

-- How the transaction of an event ends.
pub data Ended : Type 0 where
  committed : Ended
  left : IngestionError → Ended

-- How a call ends: without a message, with the offset committed, or with an error, which the
-- transaction or, after it, the commit of the offset raises.
pub data Processed : Type 0 where
  no_message acknowledged offset_commit_failed : Processed
  processing_failed : IngestionError → Processed

-- The end of a transaction: it commits, or is rolled back to the tables before it.
unfoldable pub end_transaction : Result Database → Database → Ended × Database
end_transaction (done d') d = (committed, d')
end_transaction (failed error) d = (left error, d)

-- The transaction of an event: it is claimed, and handled if it was not claimed before.
unfoldable pub run_event : SupportedEvent → Database → Ended × Database
unfolding claim_event handle_event end_transaction
run_event e d =
    let (claimed, d') = claim_event e d in
    if claimed then end_transaction (handle_event e.payload d') d else (committed, d')

-- `_commit_offset`, with a consumer whose commit succeeds or raises
unfoldable pub commit_offset : Bool → Processed
commit_offset true = acknowledged
commit_offset false = offset_commit_failed

-- The rest of the call, after the transaction.
unfoldable pub after_transaction : Bool → Ended × Database → Processed × Database
unfolding commit_offset
after_transaction commits (committed, d) = (commit_offset commits, d)
after_transaction commits (left error, d) = (processing_failed error, d)

-- `process_next`, on what the consumer polled, and whether the commit of its offset succeeds
unfoldable pub process_next : Option Message → Bool → Database → Processed × Database
unfolding decode_message run_event commit_offset after_transaction
process_next none commits d = (no_message, d)
process_next (some m) commits d = elim (decode_message m) [
  | invalid reason ↦ (commit_offset commits, d)
  | event e ↦ after_transaction commits (run_event e d)
]
