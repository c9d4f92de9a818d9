-- ===== src/Outbox.antt =====
-- The writes of adapters/secondary/persistence/postgres/outbox_store.go: each is one conditional
-- UPDATE of a row, with the reads that follow when no row matched.
-- The table is a list of rows keyed by their identifier. `db_now` is the database's now() and
-- `app_now` the clock of the program; times are numbers, of which 0 is the zero time. The statements
-- themselves succeed.
pub mod Final
pub mod Fenced
pub mod Processor
mod Tests
use mujeeb24_backend_go.Common.{
  ℕ, ◌+◌, String, ◌==◌, Bool, true, false, ◌&&◌, ◌||◌, not, List, [], ◌∷◌, Option, none, some,
  Result, ok, err, Map, lookup, assign, ltb, leb, eqb, if◌then◌else◌,
}
use mujeeb24_backend_go.Common.Text.{trim_space}

pub data Status : Type 0 where
  pending processing retryable_failed completed dead_letter : Status

-- The columns that the writes change, and those that the processor reads. A lease is an owner, a token and an expiry.
pub record OutboxEntry : Type 0 where
  pub business_id : String
  pub outbound_message_id : String
  pub command_type : String
  pub status : Status
  pub attempt_count : ℕ
  pub available_at : ℕ
  pub lease_owner : Option String
  pub lease_token : Option String
  pub lease_expires_at : Option ℕ
  pub last_error_code : Option String
  pub result_code : Option String
  pub completed_at : Option ℕ
  pub updated_at : ℕ

pub data OutboxError : Type 0 where
  invalid_input not_found not_an_active_lease invalid_owner_or_token : OutboxError

pub record OutboxLease : Type 0 where
  pub owner : String
  pub token : String
  pub expires_at : ℕ

abbrev pub is_waiting : Status → Bool
is_waiting pending = true
is_waiting retryable_failed = true
is_waiting _ = false

abbrev pub is_processing : Status → Bool
is_processing processing = true
is_processing _ = false

abbrev pub is_dead_letter : Status → Bool
is_dead_letter dead_letter = true
is_dead_letter _ = false

-- Comparisons with a column that may be NULL are not true then.
abbrev pub equals : Option String → String → Bool
equals none s = false
equals (some t) s = t == s

abbrev pub is_past : Option ℕ → ℕ → Bool
is_past none now = false
is_past (some t) now = leb t now

abbrev pub is_future : Option ℕ → ℕ → Bool
is_future none now = false
is_future (some t) now = ltb now t

unfoldable pub write_row :
    (OutboxEntry → Bool)
    → (OutboxEntry → OutboxEntry)
    → String
    → Map OutboxEntry
    → Option OutboxEntry
    → Option OutboxEntry × Map OutboxEntry
write_row matches set id table none = (none, table)
write_row matches set id table (some e) =
    if matches e then (some (set e), assign id (set e) table) else (none, table)

-- UPDATE … WHERE id = $1 AND `matches` RETURNING …
unfoldable pub update_row :
    (OutboxEntry → Bool)
    → (OutboxEntry → OutboxEntry)
    → String
    → Map OutboxEntry
    → Option OutboxEntry × Map OutboxEntry
update_row matches set id table = write_row matches set id table (lookup id table)

-- The WHERE clause of Claim.
abbrev pub is_claimable : ℕ → OutboxEntry → Bool
is_claimable db_now e =
    (is_waiting e.status && leb e.available_at db_now)
    || (is_processing e.status && is_past e.lease_expires_at db_now)

abbrev pub set_lease : ℕ → OutboxLease → OutboxEntry → OutboxEntry
set_lease db_now lease e = record e {
  status = processing;
  lease_owner = some lease.owner;
  lease_token = some lease.token;
  lease_expires_at = some lease.expires_at;
  attempt_count = e.attempt_count + 1;
  updated_at = db_now;
}

abbrev pub is_invalid_lease : ℕ → String → OutboxLease → Bool
is_invalid_lease app_now id lease =
    (trim_space id == "")
    || (trim_space lease.owner == "")
    || (trim_space lease.token == "")
    || eqb lease.expires_at 0
    || leb lease.expires_at app_now

-- The read that follows when no row matched.
pub unclaimed : Option OutboxEntry → Result OutboxError (Bool × OutboxEntry)
unclaimed none = err not_found
unclaimed (some e) = ok (false, e)

-- The result of Claim: whether the entry was claimed, and the entry.
unfoldable pub claim_result :
    String
    → Option OutboxEntry × Map OutboxEntry
    → Result OutboxError (Bool × OutboxEntry) × Map OutboxEntry
claim_result id (some e, table) = (ok (true, e), table)
claim_result id (none, table) = (unclaimed (lookup id table), table)

unfoldable pub claim :
    ℕ
    → ℕ
    → String
    → OutboxLease
    → Map OutboxEntry
    → Result OutboxError (Bool × OutboxEntry) × Map OutboxEntry
claim app_now db_now id lease table =
    if is_invalid_lease app_now id lease
    then (err invalid_input, table)
    else claim_result id (update_row (is_claimable db_now) (set_lease db_now lease) id table)

abbrev pub named_lease : Option String → Option String → OutboxError
named_lease none token = not_an_active_lease
named_lease (some owner) none = not_an_active_lease
named_lease (some owner) (some token) = invalid_owner_or_token

-- `classifyOutboxMutationMiss`
pub mutation_miss : Option OutboxEntry → OutboxError
mutation_miss none = not_found
mutation_miss (some e) =
    if is_processing e.status then named_lease e.lease_owner e.lease_token else not_an_active_lease

unfoldable pub mutation_result :
    String → Option OutboxEntry × Map OutboxEntry → Result OutboxError OutboxEntry × Map OutboxEntry
mutation_result id (some e, table) = (ok e, table)
mutation_result id (none, table) = (err (mutation_miss (lookup id table)), table)

-- The WHERE clause of `updateWithLease`.
abbrev pub holds_lease : ℕ → String → String → OutboxEntry → Bool
holds_lease db_now owner token e =
    is_processing e.status
    && equals e.lease_owner owner
    && equals e.lease_token token
    && is_future e.lease_expires_at db_now

unfoldable pub update_with_lease :
    ℕ
    → String
    → String
    → String
    → (OutboxEntry → OutboxEntry)
    → Map OutboxEntry
    → Result OutboxError OutboxEntry × Map OutboxEntry
update_with_lease db_now id owner token set table =
    if id == ""
    then (err invalid_input, table)
    else mutation_result id (update_row (holds_lease db_now owner token) set id table)

abbrev pub release : Status → ℕ → OutboxEntry → OutboxEntry
release status updated_at e = record e {
  status = status;
  lease_owner = none;
  lease_token = none;
  lease_expires_at = none;
  result_code = none;
  completed_at = none;
  updated_at = updated_at;
}

unfoldable pub mark_completed :
    ℕ
    → String
    → String
    → String
    → String
    → ℕ
    → ℕ
    → Map OutboxEntry
    → Result OutboxError OutboxEntry × Map OutboxEntry
mark_completed db_now id owner token result_code completed_at updated_at table =
    if (owner == "")
      || (token == "")
      || (result_code == "")
      || eqb completed_at 0
      || eqb updated_at 0
    then (err invalid_input, table)
    else update_with_lease db_now id owner token
        (λ e. record (release completed updated_at e) {
          result_code = some result_code;
          completed_at = some completed_at;
        })
        table

-- `NextAttempt` may be missing.
unfoldable pub mark_retryable_failure :
    ℕ
    → String
    → String
    → String
    → String
    → Option ℕ
    → ℕ
    → Map OutboxEntry
    → Result OutboxError OutboxEntry × Map OutboxEntry
mark_retryable_failure db_now id owner token error_code none updated_at table =
    (err invalid_input, table)
mark_retryable_failure db_now id owner token error_code (some next_attempt) updated_at table =
    if (owner == "") || (token == "") || (error_code == "") || eqb updated_at 0
    then (err invalid_input, table)
    else update_with_lease db_now id owner token
        (λ e. record (release retryable_failed updated_at e) {
          last_error_code = some error_code;
          available_at = next_attempt;
        })
        table

unfoldable pub move_to_dead_letter :
    ℕ
    → String
    → String
    → String
    → String
    → ℕ
    → Map OutboxEntry
    → Result OutboxError OutboxEntry × Map OutboxEntry
move_to_dead_letter db_now id owner token error_code updated_at table =
    if (owner == "") || (token == "") || (error_code == "") || eqb updated_at 0
    then (err invalid_input, table)
    else update_with_lease db_now id owner token
        (λ e. record (release dead_letter updated_at e) { last_error_code = some error_code }) table

abbrev pub is_dead : OutboxEntry → Bool
is_dead e = is_dead_letter e.status

unfoldable pub requeue :
    String → ℕ → ℕ → Map OutboxEntry → Result OutboxError OutboxEntry × Map OutboxEntry
requeue id next_attempt_at updated_at table =
    if (id == "") || eqb next_attempt_at 0 || eqb updated_at 0
    then (err invalid_input, table)
    else mutation_result id (
        update_row is_dead
          (λ e. record (release pending updated_at e) { available_at = next_attempt_at }) id table)

-- What a run unfolds.
unfoldable pub outbox_code : Unit {0}
unfolding write_row update_row unclaimed claim_result claim mutation_miss mutation_result
    update_with_lease mark_completed mark_retryable_failure move_to_dead_letter requeue trim_space
outbox_code = tt
