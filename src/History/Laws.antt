-- ===== src/History/Laws.antt =====
-- What holds of the store after any history, from any valid store.
use build_engine.Prelude.{String, ◌≡◌, true, some, List, [], ◌∷◌, All, ◌⊎◌, inl, inr}
use build_engine.Table.Changes.{All-delete}
use build_engine.Protocol.Codec.{Codec}
use build_engine.Queue.Rows.{JobRow, Store, is_terminal}
use build_engine.Queue.Keys.{row_of}
use build_engine.Queue.Store.{is_retired, prune_terminal}
use build_engine.Queue.Life.{Follows, IsFinal}
use build_engine.Queue.Life.Table.{IsValid, RowSteps-Follows, RowSteps-IsFinal}
use build_engine.Queue.Secrets.{HasNoSecrets, Evolves-HasNoSecrets}
use build_engine.Outbox.{SpoolLimits}
use build_engine.History.{Operation, perform, perform_all}
use build_engine.History.Deleted.{IsDeleted, perform-Evolves, perform-IsValid, perform_all-Fate}

-- From a valid store, any history leaves a valid one: every attempt has one row at most, and a
-- finished attempt holds no lease and no cancellation request.
pub perform_all-IsValid :
    (codec : Codec) (limits : SpoolLimits) (os : List Operation) (s : Store)
    → IsValid s.jobs
    → IsValid (perform_all codec limits os s).jobs
unfolding perform_all
perform_all-IsValid codec limits [] s v = v
perform_all-IsValid codec limits (o ∷ os) s v =
    perform_all-IsValid codec limits os (perform codec limits o s)
      (perform-IsValid codec limits o s v)

-- An attempt of a valid store is there after any history, with its keys, its payload and its time
-- of creation, and with no fewer leases and no lower cursor, unless a call of `prune_terminal` in the
-- history deleted it: then that holds up to this call, before which the attempt was finished and
-- last changed longer ago than the retention.
pub perform_all-Follows :
    (codec : Codec) (limits : SpoolLimits) (os : List Operation) (s : Store) (a : String)
    (r : JobRow)
    → IsValid s.jobs
    → row_of a s.jobs ≡ some r
    → ((r' : JobRow) × (row_of a (perform_all codec limits os s).jobs ≡ some r') × Follows r r')
      ⊎ ((d : IsDeleted codec limits os s a r) × Follows r d.row)
perform_all-Follows codec limits os s a r v at =
    elim (perform_all-Fate codec limits os s a r v at) [
      | inl (r', after, path) ↦ inl (r', after, RowSteps-Follows path)
      | inr d ↦ inr (d, RowSteps-Follows d.path)
    ]

-- Once an attempt of a valid store is finished, no history changes its state, its error or its
-- number of leases, or leases it again, as long as no call of `prune_terminal` in the history has
-- deleted it, for having last changed longer ago than the retention.
pub perform_all-IsFinal :
    (codec : Codec) (limits : SpoolLimits) (os : List Operation) (s : Store) (a : String)
    (r : JobRow)
    → IsValid s.jobs
    → row_of a s.jobs ≡ some r
    → is_terminal r.state ≡ true
    → ((r' : JobRow) × (row_of a (perform_all codec limits os s).jobs ≡ some r') × IsFinal r r')
      ⊎ ((d : IsDeleted codec limits os s a r) × IsFinal r d.row)
perform_all-IsFinal codec limits os s a r v at done =
    elim (perform_all-Fate codec limits os s a r v at) [
      | inl (r', after, path) ↦ inl (r', after, RowSteps-IsFinal done path)
      | inr d ↦ inr (d, RowSteps-IsFinal done d.path)
    ]

perform-HasNoSecrets :
    (codec : Codec) (limits : SpoolLimits) (o : Operation) (s : Store)
    → IsValid s.jobs
    → All HasNoSecrets s.jobs
    → All HasNoSecrets (perform codec limits o s).jobs
unfolding perform prune_terminal
perform-HasNoSecrets codec limits o s v h = elim (perform-Evolves codec limits o s v) [
  | inl steps ↦ Evolves-HasNoSecrets h steps
  | inr (now, days, e) ↦ rw e (All-delete HasNoSecrets (is_retired now days) s.jobs h)
]

-- No history writes a key of `_TRANSIENT_PAYLOAD_KEYS` (the secrets and the signed source URL) to
-- the table `jobs`, whatever the assignments hold, from a store whose rows have none.
pub perform_all-HasNoSecrets :
    (codec : Codec) (limits : SpoolLimits) (os : List Operation) (s : Store)
    → IsValid s.jobs
    → All HasNoSecrets s.jobs
    → All HasNoSecrets (perform_all codec limits os s).jobs
unfolding perform_all
perform_all-HasNoSecrets codec limits [] s v h = h
perform_all-HasNoSecrets codec limits (o ∷ os) s v h =
    perform_all-HasNoSecrets codec limits os (perform codec limits o s)
      (perform-IsValid codec limits o s v) (perform-HasNoSecrets codec limits o s v h)
