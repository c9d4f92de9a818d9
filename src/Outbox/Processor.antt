-- ===== src/Outbox/Processor.antt =====
-- services/outbox_processor.go: one entry of the outbox is claimed, resolved and sent. The resolver, the
-- provider and the recorder of acceptances are functions; a missing recorder is `none`. The result has
-- the deliveries that were handed to the provider. Log lines are left out.
pub mod Ends
pub mod Once
mod Tests
use mujeeb24_backend_go.Common.{
  ℕ, zero, suc, ◌+◌, String, ◌==◌, Bool, true, false, List, [], ◌∷◌, ◌++◌, Option, none, some,
  Result, ok, err, Map, if◌then◌else◌,
}
use Prim.Native.String.{◌++◌ as append}
use mujeeb24_backend_go.Common.Int.{ℤ, pos, negsuc}
use mujeeb24_backend_go.Common.Text.{trim_space}
use mujeeb24_backend_go.Outbox.{
  OutboxEntry, OutboxError, OutboxLease, claim, mark_completed, move_to_dead_letter,
}

pub data ResolveError : Type 0 where
  mapping_missing required_catalog_media_unavailable : ResolveError

pub data ProcessError : Type 0 where
  entry_id_required : ProcessError
  store : OutboxError → ProcessError

pub record OutboxProcessor (Delivery : Type 0) : Type 0 where
  -- `Resolve`
  pub resolve : String → String → Result ResolveError Delivery
  -- `SendMessage`, with the identifier of the provider's message
  pub send_message : Delivery → Result (Unit {0}) String
  -- `MarkProviderAccepted`: whether it succeeds
  pub mark_provider_accepted : Option (String → String → String → Bool)
  pub owner : String
  -- in nanoseconds
  pub lease_for : ℤ

-- What the clocks answer during one call, and the token that it makes for its lease.
pub record Moment : Type 0 where
  pub token : String
  pub started : ℕ
  pub app_claim : ℕ
  pub db_claim : ℕ
  pub finished : ℕ
  pub updated : ℕ
  pub db_finish : ℕ

abbrev pub Processed : Type 0 → Type 0
Processed Delivery = Result ProcessError (Unit {0}) × Map OutboxEntry × List Delivery

abbrev pub owner_or_worker : String → String
owner_or_worker owner = if owner == "" then "worker" else owner

-- `now.Add(LeaseFor)`, where a duration that is not positive stands for two minutes.
abbrev pub lease_end : ℕ → ℤ → ℕ
lease_end now (pos zero) = now + 120000000000
lease_end now (pos (suc n)) = now + suc n
lease_end now (negsuc n) = now + 120000000000

-- `owner` and `token` of a record
abbrev pub lease_owner_or : String → Option String → String
lease_owner_or fallback none = fallback
lease_owner_or fallback (some owner) = if owner == "" then fallback else owner

abbrev pub lease_token_or_empty : Option String → String
lease_token_or_empty none = ""
lease_token_or_empty (some token) = token

abbrev pub resolve_code : ResolveError → String
resolve_code mapping_missing = "outbound_mapping_missing"
resolve_code required_catalog_media_unavailable = "required_catalog_media_unavailable"

abbrev pub store_result : Result OutboxError OutboxEntry → Result ProcessError (Unit {0})
store_result (ok e) = ok tt
store_result (err e) = err (store e)

abbrev pub accepted_code : String → String
accepted_code id = if id == "" then "provider_accepted" else append "provider_accepted:" id

module _ {Delivery : Type 0} (p : OutboxProcessor Delivery) (m : Moment) (entry_id : String) where
  unfoldable pub ended :
      List Delivery → Result OutboxError OutboxEntry × Map OutboxEntry → Processed Delivery
  ended sent (r, table) = (store_result r, table, sent)

  -- `deadLetter`
  unfoldable pub dead_letter :
      OutboxEntry → String → Map OutboxEntry → List Delivery → Processed Delivery
  unfolding ended
  dead_letter record_read code table sent = ended sent (
      move_to_dead_letter m.db_finish entry_id
        (lease_owner_or (owner_or_worker p.owner) record_read.lease_owner)
        (lease_token_or_empty record_read.lease_token) code m.updated table)

  unfoldable pub complete :
      OutboxEntry → String → Map OutboxEntry → List Delivery → Processed Delivery
  unfolding ended
  complete record_read id table sent = ended sent (
      mark_completed m.db_finish entry_id
        (lease_owner_or (owner_or_worker p.owner) record_read.lease_owner)
        (lease_token_or_empty record_read.lease_token) (accepted_code id) m.finished m.updated
        table)

  -- What follows a send that the provider accepted.
  unfoldable pub accepted :
      Option (String → String → String → Bool)
      → OutboxEntry
      → String
      → Map OutboxEntry
      → List Delivery
      → Processed Delivery
  unfolding dead_letter complete
  accepted none record_read id table sent = complete record_read id table sent
  accepted (some mark) record_read id table sent =
      if id == ""
      then dead_letter record_read "provider_acceptance_missing_message_id" table sent
      else if mark record_read.business_id record_read.outbound_message_id id
      then complete record_read id table sent
      else dead_letter record_read "provider_acceptance_persistence_failed" table sent

  unfoldable pub after_send :
      OutboxEntry → Delivery → Result (Unit {0}) String → Map OutboxEntry → Processed Delivery
  unfolding accepted
  after_send record_read d (err _) table =
      dead_letter record_read "provider_send_outcome_unknown" table (d ∷ [])
  after_send record_read d (ok id) table =
      accepted p.mark_provider_accepted record_read id table (d ∷ [])

  unfoldable pub after_resolve :
      OutboxEntry → Result ResolveError Delivery → Map OutboxEntry → Processed Delivery
  unfolding after_send
  after_resolve record_read (err e) table = dead_letter record_read (resolve_code e) table []
  after_resolve record_read (ok d) table = after_send record_read d (p.send_message d) table

  unfoldable pub deliver : OutboxEntry → Map OutboxEntry → Processed Delivery
  unfolding after_resolve
  deliver record_read table =
      if record_read.command_type == "channel.send_message"
      then after_resolve record_read
          (p.resolve record_read.business_id record_read.outbound_message_id) table
      else dead_letter record_read "unsupported_outbox_command" table []

  unfoldable pub after_claim :
      Result OutboxError (Bool × OutboxEntry) × Map OutboxEntry → Processed Delivery
  unfolding deliver
  after_claim (err e, table) = (err (store e), table, [])
  after_claim (ok (false, e), table) = (ok tt, table, [])
  after_claim (ok (true, e), table) = deliver e table

  abbrev pub processor_lease : OutboxLease
  processor_lease = record {
    owner = owner_or_worker p.owner;
    token = m.token;
    expires_at = lease_end m.started p.lease_for;
  }

  -- `Process`
  unfoldable pub process : Map OutboxEntry → Processed Delivery
  unfolding after_claim
  process table =
      if trim_space entry_id == ""
      then (err entry_id_required, table, [])
      else after_claim (claim m.app_claim m.db_claim entry_id processor_lease table)
