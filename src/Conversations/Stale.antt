-- ===== src/Conversations/Stale.antt =====
-- How the commands answer when the conversation has changed since it was read.
use mujeeb24_backend_go.Common.{ℕ, String, ==_iff, ◌≡◌, refl, true, false, List, ok, err, eqb}
use mujeeb24_backend_go.Authorization.Conversations.{ConversationRecord, can_claim_conversation}
use mujeeb24_backend_go.Conversations.{
  of_business, find_row, write_row, lacks_fields, changes_nothing, update, advance_version,
}
use mujeeb24_backend_go.Conversations.Commands.{
  map_application_error, TeamMember, CommandMeta, TextFunctions, Store, Answer,
  parse_business_expected_version, read_inbox_conversation, within, after_update, after_advance,
  on_conversation,
}
use mujeeb24_backend_go.Conversations.Handlers.{
  update_conversation, claim_conversation, update_labels, UpdateFields, may_assign, actor_update,
  update_body, claim_body, labels_body, lacks_labels, transact, handle,
}
use mujeeb24_backend_go.Conversations.Writes.{read-found}

-- The command fails with that status, and nothing is changed.
unfoldable pub FailsWith : ℕ → Store → Answer → Type 0
FailsWith status s (ok view, after) = ⊥
FailsWith status s (err e, after) = (map_application_error e ≡ status) × (after ≡ s)

module _ (texts : TextFunctions) (members : List TeamMember) (m : CommandMeta) (id : String)
    (s : Store) (r : ConversationRecord) (v : ℕ) where
  -- Where an actor who reads the conversation names another version than it has, and names the fields that
  -- the statements need: an update that he may make and that has a field, and a claim that the rules allow,
  -- fail with status 409; a change of labels with at least one label fails with status 500 instead. None
  -- changes anything.
  pub handle-FailsWith :
      read_inbox_conversation m.actor id s.conversations ≡ ok r
      → parse_business_expected_version m.expected_version ≡ ok v
      → eqb r.resource_version v ≡ false
      → lacks_fields m.actor.business_id id v ≡ false
      → (f : UpdateFields) → may_assign m.actor ≡ true
      → changes_nothing (actor_update texts members m id f v) ≡ false
      → can_claim_conversation m.actor r ≡ true
      → (add remove : List String) → lacks_labels texts members m id add remove ≡ false
      → FailsWith 409 s (handle texts members m id (update_conversation f) s)
        × FailsWith 409 s (handle texts members m id claim_conversation s)
        × FailsWith 500 s (handle texts members m id (update_labels add remove) s)
  unfolding handle transact on_conversation within update_body claim_body labels_body update
      advance_version find_row of_business write_row after_update after_advance FailsWith
      map_application_error
  handle-FailsWith read named other given f may has_field claims add remove has_labels =
      let row = read-found m.actor id s.conversations r read in
      let same = (==_iff r.business_id m.actor.business_id).1 row.1 in
      (
        rw (may, named, read, given, has_field, row.0, same, other) (refl, refl),
        rw (named, read, claims, row.1, given, row.0, same, other) (refl, refl),
        rw (has_labels, named, read, given, row.0, same, other) (refl, refl),
      )
