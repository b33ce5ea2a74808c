-- ===== src/Crawler/Lifecycle/Tasks.antt =====
-- The task state machine: what every row keeps, and which rows never change again.
use Prim.Native.String.{String}
use sahabino.Common.{
  ℕ, zero, suc, ◌≤◌, ◌<◌, ◌≡◌, ◌⊎◌, inl, inr, true, Option, none, some, List, [], ◌∷◌, arith, ◌||◌,
  Option-cases, is_some, length, take, ℕ_discrete, ◌≢◌,
}
use sahabino.Common.Dict.{lookup, lookup-insert}
use sahabino.Crawler.Exceptions.{Result, ok, raised, Result-cases}
use sahabino.Crawler.Lifecycle.{
  CrawlTask, CrawlTaskStatus, pending, running, retrying, succeeded, failed, Database,
  ApplicationRef, CrawlTaskType, create_task, effective_locale, begin_row, retry_row, succeed_row,
  fail_row, on_task, is_succeeded, is_failed,
}

-- What the status of a row says of its other fields.
abbrev pub RowFits : CrawlTaskStatus → CrawlTask → Type 0
RowFits pending t =
    (t.attempt_count ≡ 0) × (t.started_at ≡ none) × (t.finished_at ≡ none) × (t.error_code ≡ none)
RowFits running t =
    (0 < t.attempt_count)
    × (is_some t.started_at ≡ true)
    × (t.finished_at ≡ none)
    × (t.error_code ≡ none)
RowFits retrying t =
    (0 < t.attempt_count)
    × (is_some t.started_at ≡ true)
    × (t.finished_at ≡ none)
    × (t.error_code ≡ none)
RowFits succeeded t =
    (0 < t.attempt_count)
    × (is_some t.started_at ≡ true)
    × (is_some t.finished_at ≡ true)
    × (t.error_code ≡ none)
RowFits failed t = (is_some t.finished_at ≡ true) × (is_some t.error_code ≡ true)

abbrev pub message_length : Option (List ℕ) → ℕ
message_length none = 0
message_length (some m) = length m

pub record RowIsValid (t : CrawlTask) : Type 0 where
  pub fits : RowFits t.status t
  pub short : message_length t.error_message ≤ 500

length-take-le : (n : ℕ) (xs : List ℕ) → length (take n xs) ≤ n
length-take-le zero xs = omega arith
length-take-le (suc n) [] = omega arith
length-take-le (suc n) (x ∷ xs) = omega (arith, length-take-le n xs)

begin_row-RowIsValid :
    (now : ℕ) (t t' : CrawlTask) → begin_row now t ≡ ok t' → RowIsValid t → RowIsValid t'
unfolding begin_row
begin_row-RowIsValid now t t' e v = ground arith

retry_row-RowIsValid : (t t' : CrawlTask) → retry_row t ≡ ok t' → RowIsValid t → RowIsValid t'
unfolding retry_row
retry_row-RowIsValid t t' e v = ground arith

succeed_row-RowIsValid :
    (now : ℕ) (t t' : CrawlTask) → succeed_row now t ≡ ok t' → RowIsValid t → RowIsValid t'
unfolding succeed_row
succeed_row-RowIsValid now t t' e v = ground arith

fail_row-RowIsValid :
    (now : ℕ) (code : String) (m : List ℕ) (t t' : CrawlTask)
    → fail_row now code m t ≡ ok t'
    → RowIsValid t
    → RowIsValid t'
unfolding fail_row
fail_row-RowIsValid now code m t t' e v = ground (arith, length-take-le 500 m)

-- The row that `create_task` inserts.
abbrev new_row : ℕ → ApplicationRef → String → String → CrawlTaskType → CrawlTask
new_row run a language country type = record {
  crawl_run_id = run;
  application_id = a.application_id;
  task_type = type;
  status = pending;
  language_code = (effective_locale a language country).0;
  country_code = (effective_locale a language country).1;
  attempt_count = 0;
  started_at = none;
  finished_at = none;
  error_code = none;
  error_message = none;
}

-- Every row of the table.
abbrev pub TasksAreValid : Database → Type 0
TasksAreValid d = (id : ℕ) (t : CrawlTask) → lookup id d.tasks ≡ some t → RowIsValid t

pub data Operation : Type 0 where
  begins : ℕ → ℕ → Operation
  retries : ℕ → Operation
  succeeds : ℕ → ℕ → Operation
  fails : ℕ → ℕ → String → List ℕ → Operation
  creates : ℕ → ApplicationRef → String → String → CrawlTaskType → Operation

-- A transaction that raises is rolled back.
abbrev committed : Database → Result Database → Database
committed d (ok d') = d'
committed d (raised e) = d

unfoldable pub after : Database → Operation → Database
after d (begins now id) = committed d (on_task id (begin_row now) d)
after d (retries id) = committed d (on_task id retry_row d)
after d (succeeds now id) = committed d (on_task id (succeed_row now) d)
after d (fails now id code m) = committed d (on_task id (fail_row now code m) d)
after d (creates run a language country type) = (create_task run a language country type d).1

unfoldable pub after_all : Database → List Operation → Database
unfolding after
after_all d [] = d
after_all d (o ∷ os) = after_all (after d o) os

module _ (id : ℕ) (change : CrawlTask → Result CrawlTask) where
  -- What `on_task` leaves at any id.
  lookup-on_task :
      (d : Database) (j : ℕ) (t : CrawlTask)
      → lookup j (committed d (on_task id change d)).tasks ≡ some t
      → (lookup j d.tasks ≡ some t)
        ⊎ ((old : CrawlTask) × (id ≡ j) × (lookup id d.tasks ≡ some old) × (change old ≡ ok t))
  unfolding on_task
  lookup-on_task d j t e = elim (Option-cases (lookup id d.tasks)) [
    | inl missing ↦ ground arith
    | inr (old, found) ↦ elim (Result-cases (change old)) [
      | inl (new, changed) ↦ ground (arith, lookup-insert id j new d.tasks)
      | inr (x, kept) ↦ ground arith
    ]
  ]

  on_task-valid :
      ((t t' : CrawlTask) → change t ≡ ok t' → RowIsValid t → RowIsValid t')
      → (d : Database) → TasksAreValid d
      → TasksAreValid (committed d (on_task id change d))
  on_task-valid keeps d v j t e = elim (lookup-on_task d j t e) [
    | inl same ↦ v j t same
    | inr (old, at, found, changed) ↦ keeps old t changed (v id old found)
  ]

create_task-valid :
    (run : ℕ) (a : ApplicationRef) (language country : String) (type : CrawlTaskType) (d : Database)
    → TasksAreValid d
    → TasksAreValid (create_task run a language country type d).1
unfolding create_task
create_task-valid run a language country type d v id t e = elim (ℕ_discrete d.next_id id) [
  | yes new ↦
      ground (arith, lookup-insert d.next_id id (new_row run a language country type) d.tasks)
  | no old ↦
      v id t
        (ground (arith, lookup-insert d.next_id id (new_row run a language country type) d.tasks))
]

after-valid : (d : Database) (o : Operation) → TasksAreValid d → TasksAreValid (after d o)
unfolding after
after-valid d (begins now id) v = on_task-valid id (begin_row now) (begin_row-RowIsValid now) d v
after-valid d (retries id) v = on_task-valid id retry_row retry_row-RowIsValid d v
after-valid d (succeeds now id) v =
    on_task-valid id (succeed_row now) (succeed_row-RowIsValid now) d v
after-valid d (fails now id code m) v =
    on_task-valid id (fail_row now code m) (fail_row-RowIsValid now code m) d v
after-valid d (creates run a language country type) v =
    create_task-valid run a language country type d v

-- From a table of valid rows, whatever operations are asked for, in whatever order and whether
-- they raise or not, every row keeps to what its status says of its attempts, its times and its
-- error, and no stored message is longer than 500 characters.
pub rows_stay_valid :
    (d : Database) (os : List Operation) → TasksAreValid d → TasksAreValid (after_all d os)
unfolding after_all
rows_stay_valid d [] v = v
rows_stay_valid d (o ∷ os) v = rows_stay_valid (after d o) os (after-valid d o v)

abbrev pub IsTerminal : CrawlTaskStatus → Type 0
IsTerminal s = (is_succeeded s || is_failed s) ≡ true

-- A terminal row under any id: no change of it succeeds.
module _ (t : CrawlTask) (done : IsTerminal t.status) where
  pub begin_row-terminal : (now : ℕ) (t' : CrawlTask) → begin_row now t ≢ ok t'
  unfolding begin_row
  begin_row-terminal now t' e = ground arith

  pub retry_row-terminal : (t' : CrawlTask) → retry_row t ≢ ok t'
  unfolding retry_row
  retry_row-terminal t' e = ground arith

  pub succeed_row-terminal : (now : ℕ) (t' : CrawlTask) → succeed_row now t ≢ ok t'
  unfolding succeed_row
  succeed_row-terminal now t' e = ground arith

  pub fail_row-terminal :
      (now : ℕ) (code : String) (m : List ℕ) (t' : CrawlTask) → fail_row now code m t ≢ ok t'
  unfolding fail_row
  fail_row-terminal now code m t' e = ground arith

on_task-keeps :
    (id j : ℕ) (change : CrawlTask → Result CrawlTask) (d : Database) (t : CrawlTask)
    → lookup j d.tasks ≡ some t
    → ((t' : CrawlTask) → change t ≢ ok t')
    → lookup j (committed d (on_task id change d)).tasks ≡ some t
unfolding on_task
on_task-keeps id j change d t found stuck = elim (ℕ_discrete id j) [
  | yes e ↦ elim (Result-cases (change t)) [
    | inl (new, changed) ↦ absurd (stuck new changed)
    | inr (x, kept) ↦
        let at : lookup id d.tasks ≡ some t = rw e found in rw (on_task, at) (rw kept found)
  ]
  | no ne ↦ elim (Option-cases (lookup id d.tasks)) [
    | inl missing ↦ ground arith
    | inr (old, at) ↦ elim (Result-cases (change old)) [
      | inl (new, changed) ↦ ground (arith, lookup-insert id j new d.tasks)
      | inr (x, kept) ↦ ground arith
    ]
  ]
]

module _ (d : Database) (j : ℕ) (t : CrawlTask) (found : lookup j d.tasks ≡ some t)
    (done : IsTerminal t.status) where
  after-keeps : (o : Operation) → j < d.next_id → lookup j (after d o).tasks ≡ some t
  unfolding after
  after-keeps (begins now id) h =
      on_task-keeps id j (begin_row now) d t found (begin_row-terminal t done now)
  after-keeps (retries id) h = on_task-keeps id j retry_row d t found (retry_row-terminal t done)
  after-keeps (succeeds now id) h =
      on_task-keeps id j (succeed_row now) d t found (succeed_row-terminal t done now)
  after-keeps (fails now id code m) h =
      on_task-keeps id j (fail_row now code m) d t found (fail_row-terminal t done now code m)
  after-keeps (creates run a language country type) h =
      unfold create_task in
      ground (arith, lookup-insert d.next_id j (new_row run a language country type) d.tasks)

after-next_id : (d : Database) (o : Operation) → d.next_id ≤ (after d o).next_id
unfolding after on_task create_task
after-next_id d (begins now id) = ground arith
after-next_id d (retries id) = ground arith
after-next_id d (succeeds now id) = ground arith
after-next_id d (fails now id code m) = ground arith
after-next_id d (creates run a language country type) = omega arith

-- A row under an id that was given out, which has succeeded or failed, is never changed again,
-- whatever operations are asked for.
pub terminal_is_final :
    (d : Database) (os : List Operation) (j : ℕ) (t : CrawlTask)
    → lookup j d.tasks ≡ some t
    → j < d.next_id
    → IsTerminal t.status
    → lookup j (after_all d os).tasks ≡ some t
unfolding after_all
terminal_is_final d [] j t found h done = found
terminal_is_final d (o ∷ os) j t found h done =
    terminal_is_final (after d o) os j t (after-keeps d j t found done o h)
      (omega (arith, after-next_id d o)) done
