-- ===== src/Outbox/Final.antt =====
-- A completed entry is never written again.
use mujeeb24_backend_go.Common.{
  ℕ, String, ◌==◌, ==_iff, ◌≡◌, refl, sym, ap, ◌∙◌, Bool, true, false, List, [], ◌∷◌, Option, none,
  some, Result, err, Map, lookup, assign, lookup-assign, if-cases, if◌then◌else◌,
}
use mujeeb24_backend_go.Outbox.{
  completed, OutboxEntry, OutboxError, invalid_input, OutboxLease, is_claimable, set_lease,
  is_invalid_lease, write_row, update_row, claim_result, claim, mutation_result, holds_lease,
  update_with_lease, mark_completed, mark_retryable_failure, move_to_dead_letter, is_dead, requeue,
}

-- The calls of the store that write.
pub data Write : Type 0 where
  claim_entry : ℕ → ℕ → String → OutboxLease → Write
  complete_entry : ℕ → String → String → String → String → ℕ → ℕ → Write
  retry_entry : ℕ → String → String → String → String → Option ℕ → ℕ → Write
  bury_entry : ℕ → String → String → String → String → ℕ → Write
  requeue_entry : String → ℕ → ℕ → Write

pub apply : Write → Map OutboxEntry → Map OutboxEntry
apply (claim_entry app_now db_now id lease) table = (claim app_now db_now id lease table).1
apply (complete_entry db_now id owner token code completed_at updated_at) table =
    (mark_completed db_now id owner token code completed_at updated_at table).1
apply (retry_entry db_now id owner token code next updated_at) table =
    (mark_retryable_failure db_now id owner token code next updated_at table).1
apply (bury_entry db_now id owner token code updated_at) table =
    (move_to_dead_letter db_now id owner token code updated_at table).1
apply (requeue_entry id next updated_at) table = (requeue id next updated_at table).1

-- The table after some calls, in their order.
unfoldable pub run : List Write → Map OutboxEntry → Map OutboxEntry
unfolding apply
run [] table = table
run (w ∷ ws) table = run ws (apply w table)

module _ (id : String) (e : OutboxEntry) (done : e.status ≡ completed) where
  abbrev Kept : Map OutboxEntry → Type 0
  Kept table = lookup id table ≡ some e

  -- A write to a row that cannot be a completed one.
  write_row-Kept :
      (matches : OutboxEntry → Bool) (set : OutboxEntry → OutboxEntry) (other : String)
      (table : Map OutboxEntry) (o : Option OutboxEntry)
      → matches e ≡ false
      → lookup other table ≡ o
      → Kept table
      → Kept (write_row matches set other table o).1
  unfolding write_row
  write_row-Kept matches set other table none no_match found kept = kept
  write_row-Kept matches set other table (some f) no_match found kept =
      if-cases {A = Option OutboxEntry × Map OutboxEntry} (matches f)
        (some (set f), assign other (set f) table) (none, table) (λ r. Kept r.1)
        (λ matched.
          lookup-assign id other (set f) table
          ∙ if-cases (other == id) (some (set f)) (lookup id table) (λ l. l ≡ some e)
              (λ same_id. absurd (
                clash f matched
                  (sym found ∙ ap (λ k. lookup k table) ((==_iff other id).0 same_id) ∙ kept)))
              (λ t. kept))
        (λ t. kept)
    where
      same_entry : (f : OutboxEntry) → ◌≡◌ {A = Option OutboxEntry} (some f) (some e) → f ≡ e
      same_entry f p = cc

      clash :
          (f : OutboxEntry) → matches f ≡ true → ◌≡◌ {A = Option OutboxEntry} (some f) (some e) → ⊥
      clash f matched p = cc (matched, no_match, ap matches (same_entry f p))

  mutation_result-Kept :
      (other : String) (r : Option OutboxEntry × Map OutboxEntry)
      → Kept r.1
      → Kept (mutation_result other r).1
  unfolding mutation_result
  mutation_result-Kept other (some f, table) kept = kept
  mutation_result-Kept other (none, table) kept = kept

  claim_result-Kept :
      (other : String) (r : Option OutboxEntry × Map OutboxEntry)
      → Kept r.1
      → Kept (claim_result other r).1
  unfolding claim_result
  claim_result-Kept other (some f, table) kept = kept
  claim_result-Kept other (none, table) kept = kept

  update_with_lease-Kept :
      (db_now : ℕ) (other owner token : String) (set : OutboxEntry → OutboxEntry)
      (table : Map OutboxEntry)
      → Kept table
      → Kept (update_with_lease db_now other owner token set table).1
  unfolding update_with_lease update_row
  update_with_lease-Kept db_now other owner token set table kept =
      if-cases (other == "") (err invalid_input, table)
        (mutation_result other (update_row (holds_lease db_now owner token) set other table))
        (λ r. Kept r.1) (λ t. kept)
        (λ t. mutation_result-Kept other _ (
          write_row-Kept (holds_lease db_now owner token) set other table (lookup other table)
            (rw done refl) refl kept))

  guarded-Kept :
      (b : Bool) (table : Map OutboxEntry) (r : Result OutboxError OutboxEntry × Map OutboxEntry)
      → Kept table
      → Kept r.1
      → Kept (if b then (err invalid_input, table) else r).1
  guarded-Kept true table r kept kept' = kept
  guarded-Kept false table r kept kept' = kept'

  apply-Kept : (w : Write) (table : Map OutboxEntry) → Kept table → Kept (apply w table)
  unfolding apply claim mark_completed mark_retryable_failure move_to_dead_letter requeue update_row
  apply-Kept (claim_entry app_now db_now other lease) table kept =
      if-cases {A = Result OutboxError (Bool × OutboxEntry) × Map OutboxEntry}
        (is_invalid_lease app_now other lease) (err invalid_input, table)
        (claim_result other (update_row (is_claimable db_now) (set_lease db_now lease) other table))
        (λ r. Kept r.1) (λ t. kept)
        (λ t. claim_result-Kept other _ (
          write_row-Kept (is_claimable db_now) (set_lease db_now lease) other table
            (lookup other table) (rw done refl) refl kept))
  apply-Kept (complete_entry db_now other owner token code completed_at updated_at) table kept =
      guarded-Kept _ table _ kept (update_with_lease-Kept db_now other owner token _ table kept)
  apply-Kept (retry_entry db_now other owner token code none updated_at) table kept = kept
  apply-Kept (retry_entry db_now other owner token code (some next) updated_at) table kept =
      guarded-Kept _ table _ kept (update_with_lease-Kept db_now other owner token _ table kept)
  apply-Kept (bury_entry db_now other owner token code updated_at) table kept =
      guarded-Kept _ table _ kept (update_with_lease-Kept db_now other owner token _ table kept)
  apply-Kept (requeue_entry other next updated_at) table kept = guarded-Kept _ table _ kept (
      mutation_result-Kept other _
        (write_row-Kept is_dead _ other table (lookup other table) (rw done refl) refl kept))

  -- Whatever calls the store gets, with whatever clocks, a completed entry stays as it is.
  pub completed-Kept :
      (ws : List Write) (table : Map OutboxEntry)
      → lookup id table ≡ some e
      → lookup id (run ws table) ≡ some e
  unfolding run
  completed-Kept [] table kept = kept
  completed-Kept (w ∷ ws) table kept = completed-Kept ws (apply w table) (apply-Kept w table kept)
