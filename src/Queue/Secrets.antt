-- ===== src/Queue/Secrets.antt =====
-- What `enqueue` and `_durable_payload` of src/build_engine/queue/store.py write to the database.
use build_engine.Prelude.{ℕ, String, ◌≡◌, refl, false, none, some, List, All, arith, if◌then◌else◌}
use build_engine.Result.{ok}
use build_engine.Json.{Fields, get}
use build_engine.Json.Laws.{get-without}
use build_engine.Table.Laws.{In-find}
use build_engine.Table.Changes.{All-snoc, All-update, any_of_find}
use build_engine.Queue.Rows.{JobRow, Store, has_id}
use build_engine.Queue.Keys.{row_of, IsKeyed, find-has_ids}
use build_engine.Queue.Store.{
  Outcome, EnqueueResult, assignment_ids, enqueue, enqueue_checked, enqueue_ids, durable_payload,
  is_transient_key, insert_job, new_row, with_transient_payload,
}
use build_engine.Queue.Life.{Evolves, start, step, add, RowStep-Follows}

-- The payload has no key of `_TRANSIENT_PAYLOAD_KEYS`.
unfoldable pub HasNoSecrets : JobRow → Type 0
HasNoSecrets r =
    (k : String) → get k r.payload ≡ (if is_transient_key k then none else get k r.payload)

-- `_durable_payload` drops the transient keys and keeps every other item.
pub get-durable_payload :
    (k : String) (payload : Fields)
    → get k (durable_payload payload) ≡ (if is_transient_key k then none else get k payload)
unfolding durable_payload
get-durable_payload k payload = get-without is_transient_key k payload

durable-HasNoSecrets :
    (now : ℕ) (b a : String) (payload : Fields)
    → HasNoSecrets (new_row now b a (durable_payload payload))
unfolding HasNoSecrets
durable-HasNoSecrets now b a payload k = ground (arith, get-durable_payload k payload)

same_payload-HasNoSecrets :
    (r r' : JobRow) → r'.payload ≡ r.payload → HasNoSecrets r → HasNoSecrets r'
unfolding HasNoSecrets
same_payload-HasNoSecrets r r' e h = rw e h

pub Evolves-HasNoSecrets :
    {jobs after : List JobRow} → All HasNoSecrets jobs → Evolves jobs after → All HasNoSecrets after
Evolves-HasNoSecrets h start = h
Evolves-HasNoSecrets h (step {mid} p f e keeps steps) =
    All-update HasNoSecrets p f mid
      (λ r i before_ hit.
        same_payload-HasNoSecrets r (f r) (RowStep-Follows r (f r) (steps r i hit)).same_payload
          before_)
      (Evolves-HasNoSecrets h e)
Evolves-HasNoSecrets h (add {mid} now b a payload e fresh) =
    All-snoc HasNoSecrets mid (new_row now b a (durable_payload payload)) (Evolves-HasNoSecrets h e)
      (durable-HasNoSecrets now b a payload)

-- The table and the result of a call of `enqueue` that finds the attempt stored already.
abbrev pub IsRepeated : Outcome EnqueueResult → JobRow → Store → Type 0
IsRepeated o r s =
    (o.1.jobs ≡ s.jobs)
    × (o.0 ≡ ok (record { job = with_transient_payload o.1 r; inserted = false }))

enqueue_ids-IsRepeated :
    (now : ℕ) (payload : Fields) (r : JobRow) (s : Store)
    → IsKeyed s.jobs
    → row_of r.attempt_id s.jobs ≡ some r
    → IsRepeated (enqueue_ids now payload r.build_job_id r.attempt_id s) r s
unfolding enqueue_ids insert_job
enqueue_ids-IsRepeated now payload r s keyed at =
    let there = any_of_find (has_id r.attempt_id) s.jobs r at in
    let both = find-has_ids s.jobs r keyed (In-find (has_id r.attempt_id) s.jobs r at) in
    rw there (rw both (refl, refl))

-- An assignment that is stored already is accepted and changes no row, however its payload differs:
-- the call returns the stored attempt and says that it inserted nothing. The payload's ids are
-- valid and those of a row, and the table is keyed.
pub enqueue-IsRepeated :
    (now : ℕ) (payload : Fields) (r : JobRow) (s : Store)
    → IsKeyed s.jobs
    → assignment_ids payload ≡ ok (r.build_job_id, r.attempt_id)
    → row_of r.attempt_id s.jobs ≡ some r
    → IsRepeated (enqueue now payload s) r s
unfolding enqueue enqueue_checked
enqueue-IsRepeated now payload r s keyed ids at =
    rw ids (enqueue_ids-IsRepeated now payload r s keyed at)
