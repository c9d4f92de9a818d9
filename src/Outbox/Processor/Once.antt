-- ===== src/Outbox/Processor/Once.antt =====
-- While one processor holds an entry, no other sends it.
use mujeeb24_backend_go.Common.{
  String, ◌==◌, ◌≡◌, refl, ◌⊎◌, inl, inr, Bool, false, [], some, Result, ok, err, Map, lookup,
  if-cases,
}
use mujeeb24_backend_go.Common.Text.{trim_space}
use mujeeb24_backend_go.Outbox.{OutboxEntry, OutboxError, invalid_input, claim}
use mujeeb24_backend_go.Outbox.Fenced.{IsLeased, claim-fenced}
use mujeeb24_backend_go.Outbox.Processor.{
  OutboxProcessor, Moment, Processed, entry_id_required, after_claim, processor_lease, process,
}

module _ {Delivery : Type 0} (p : OutboxProcessor Delivery) (m : Moment) (id : String)
    (table : Map OutboxEntry) where
  -- Nothing is sent and nothing is written.
  abbrev pub Idle : Processed Delivery → Type 0
  Idle r = (r.2 ≡ []) × (r.1 ≡ table)

  after_claim-Idle :
      (e : OutboxEntry) (r : Result OutboxError (Bool × OutboxEntry) × Map OutboxEntry)
      → (r ≡ (ok (false, e), table)) ⊎ (r ≡ (err invalid_input, table))
      → Idle (after_claim p m id r)
  unfolding after_claim
  after_claim-Idle e r (inl h) = rw h (refl, refl)
  after_claim-Idle e r (inr h) = rw h (refl, refl)

  -- While a lease on an entry has not expired, a call of Process for it, by whatever processor, sends
  -- nothing and leaves the table as it is.
  pub process-leased :
      (owner token : String) (e : OutboxEntry)
      → lookup id table ≡ some e
      → IsLeased m.db_claim owner token e
      → ((process p m id table).2 ≡ []) × ((process p m id table).1 ≡ table)
  unfolding process
  process-leased owner token e found leased =
      if-cases {A = Processed Delivery} (trim_space id == "") (err entry_id_required, table, [])
        (after_claim p m id (claim m.app_claim m.db_claim id (processor_lease p m id) table)) Idle
        (λ blank. (refl, refl))
        (λ given. after_claim-Idle e _ (
          claim-fenced m.app_claim m.db_claim id owner token (processor_lease p m id) table e found
            leased))
