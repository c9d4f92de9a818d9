-- ===== src/Conversations/Writes.antt =====
-- The parts of the commands on a conversation write one row, and only after their checks.
use mujeeb24_backend_go.Common.{
  ℕ, ◌+◌, String, ◌==◌, ==_iff, ◌≡◌, refl, sym, ap, ◌∙◌, Bool, true, false, ◌||◌, ◌&&◌, not, Option,
  none, some, Result, ok, err, Map, lookup, assign, eqb, arith, if-cases, if◌then◌else◌, Bool-cases,
  inl, inr, List,
}
use mujeeb24_backend_go.Authorization.Permissions.{ActorContext}
use mujeeb24_backend_go.Authorization.Conversations.{
  ConversationRecord, conversation_access, can_read_conversation,
}
use mujeeb24_backend_go.Conversations.{
  RepositoryError, invalid, stale, ConversationUpdate, satisfies_checks, of_business, find_row,
  write_row, set_update, set_version, is_nil, lacks_fields, changes_nothing, update,
  advance_version, visible_row, is_visible, get_inbox_conversation,
}
use mujeeb24_backend_go.Conversations.Commands.{
  TeamMember, Store, CommandMeta, TextFunctions, Answer, parse_business_expected_version, readable,
  read_inbox_conversation, settled, shown, view_after_change, after_update, after_advance,
  resolve_active_member, eligible_conversation_assignee,
}
use mujeeb24_backend_go.Conversations.Handlers.{
  UpdateFields, actor_update, takeover, update_body, assign_resolved, assign_body, claim_body,
  labels_body,
}
use mujeeb24_backend_go.Authorization.Conversations.{can_claim_conversation}
use mujeeb24_backend_go.Conversations.Labels.{LabelRow, has_label, apply_labels}
use mujeeb24_backend_go.Conversations.Labels.Exact.{has_label-apply_labels}

-- A conversation that no human owns is assigned to nobody.
abbrev pub is_owned : ConversationRecord → Bool
is_owned r = (r.ownership == "human") || is_nil r.assignment_reference

-- Every other conversation has the labels that it had.
abbrev pub KeepsOthers : String → String → List LabelRow → List LabelRow → Type 0
KeepsOthers business_id id rows after =
    (b i label : String)
    → has_label b i label after ≡ (
        if (business_id == b) && (id == i)
        then has_label b i label after
        else has_label b i label rows)

-- The write of one conversation by an actor who may read it and names its version.
pub record IsWritten (m : CommandMeta) (id : String) (s after : Store) : Type 0 where
  pub before : ConversationRecord
  pub written : ConversationRecord
  pub found : lookup id s.conversations ≡ some before
  pub own : before.business_id ≡ m.actor.business_id
  pub read : can_read_conversation m.actor before ≡ true
  pub named : parse_business_expected_version m.expected_version ≡ ok before.resource_version
  pub stored : after.conversations ≡ assign id written s.conversations
  pub kept : written.business_id ≡ before.business_id
  pub advanced : written.resource_version ≡ before.resource_version + 1
  pub checked : satisfies_checks written ≡ true
  pub owned : (not (is_owned before) || is_owned written) ≡ true
  pub others : KeepsOthers m.actor.business_id id s.labels after.labels

-- What holds of the store of a transaction that is to be committed.
unfoldable pub Committed : (Store → Type 0) → Answer → Type 0
Committed Q (err e, after) = Unit
Committed Q (ok view, after) = Q after

-- The conversation was written.
abbrev pub Written : CommandMeta → String → Store → Answer → Type 0
Written m id s = Committed (IsWritten m id s)

-- Nothing has changed, or the one conversation was written.
unfoldable pub Guarded : CommandMeta → String → Store → Answer → Type 0
Guarded m id s (err e, after) = after ≡ s
Guarded m id s (ok view, after) = IsWritten m id s after

KeepsOthers-self : (b i : String) (rows : List LabelRow) → KeepsOthers b i rows rows
KeepsOthers-self b i rows =
    λ b' i' label. by_test ((b == b') && (i == i')) (has_label b' i' label rows)
  where
    by_test : (t x : Bool) → x ≡ (if t then x else x)
    by_test true x = refl
    by_test false x = refl

KeepsOthers-apply_labels :
    (b i : String) (to_lower : String → String) (add remove : List String) (rows : List LabelRow)
    → KeepsOthers b i rows (apply_labels b i to_lower add remove rows)
KeepsOthers-apply_labels b i to_lower add remove rows =
    λ b' i' label. ground (arith, has_label-apply_labels to_lower b i add remove rows b' i' label)

pub settled-Guarded :
    (m : CommandMeta) (id : String) (s : Store) (a : Answer)
    → Written m id s a
    → Guarded m id s (settled s a)
unfolding Committed Guarded
settled-Guarded m id s (err e, after) w = refl
settled-Guarded m id s (ok view, after) w = w

pub view-Committed :
    (Q : Store → Type 0) (actor : ActorContext) (id : String) (r : ConversationRecord) (s : Store)
    → Q s
    → Committed Q (view_after_change actor id r s)
unfolding Committed view_after_change
view-Committed Q actor id r s q = by_row (get_inbox_conversation r.business_id id _ s.conversations)
  where
    by_row : (o : Result RepositoryError ConversationRecord) → Committed Q (shown actor id s o)
    by_row (err e) = tt
    by_row (ok v) = q

module _ (m : CommandMeta) (id : String) (s : Store) (r : ConversationRecord)
    (found : lookup id s.conversations ≡ some r) (version : ℕ) where
  -- The write of the row that was read, for the rest of a transaction that only passes errors on.
  write-Committed :
      (Q : Store → Type 0) (set : ConversationRecord → ConversationRecord) (b : String)
      → r.business_id ≡ b
      → (rest : Result RepositoryError ConversationRecord × Map ConversationRecord → Answer)
      → ((e : RepositoryError) → Committed Q (rest (err e, s.conversations)))
      → (r.resource_version ≡ version
          → satisfies_checks (set r) ≡ true
          → Committed Q (rest (ok (set r), assign id (set r) s.conversations)))
      → Committed Q
          (rest (write_row set id version s.conversations (find_row b id s.conversations)))
  unfolding write_row find_row of_business
  write-Committed Q set b own rest failed wrote =
      rw (found, (==_iff r.business_id b).1 own)
        (if-cases (eqb r.resource_version version) _ _ (λ w. Committed Q (rest w))
          (λ current.
            if-cases (satisfies_checks (set r)) _ _ (λ w. Committed Q (rest w))
              (wrote (eqb_lem r.resource_version version current)) (λ _. failed invalid))
          (λ _. failed stale))
    where
      eqb_lem : (a b : ℕ) → eqb a b ≡ true → a ≡ b
      eqb_lem a b h = ground arith

  pub update-Committed :
      (Q : Store → Type 0) (u : ConversationUpdate)
      → r.business_id ≡ u.business_id
      → (r.resource_version ≡ version
          → satisfies_checks (set_update u r) ≡ true
          → Q (record {
            conversations = assign id (set_update u r) s.conversations;
            labels = s.labels;
          }))
      → Committed Q (
          after_update m.actor id s (
            update (record u { conversation_id = id; expected_version = version }) s.conversations))
  unfolding update Committed after_update
  update-Committed Q u own wrote =
      if-cases (lacks_fields u.business_id id version || changes_nothing u)
        (err invalid, s.conversations) _ (λ w. Committed Q (after_update m.actor id s w)) (λ _. tt)
        (λ _.
          write-Committed Q
            (set_update (record u { conversation_id = id; expected_version = version }))
            u.business_id own (after_update m.actor id s) (λ e. tt)
            (λ current checked.
              view-Committed Q m.actor id (set_update u r) _ (wrote current checked)))

  advance-Committed :
      (Q : Store → Type 0) (to_lower : String → String) (add remove : List String)
      → r.business_id ≡ m.actor.business_id
      → (r.resource_version ≡ version
          → satisfies_checks (set_version r) ≡ true
          → Q (record {
            conversations = assign id (set_version r) s.conversations;
            labels = apply_labels m.actor.business_id id to_lower add remove s.labels;
          }))
      → Committed Q (
          after_advance m.actor id to_lower add remove s
            (advance_version m.actor.business_id id version s.conversations))
  unfolding advance_version Committed after_advance
  advance-Committed Q to_lower add remove own wrote =
      if-cases (lacks_fields m.actor.business_id id version) (err invalid, s.conversations) _
        (λ w. Committed Q (after_advance m.actor id to_lower add remove s w)) (λ _. tt)
        (λ _.
          write-Committed Q set_version m.actor.business_id own
            (after_advance m.actor id to_lower add remove s) (λ e. tt)
            (λ current checked.
              view-Committed Q m.actor id (set_version r) _ (wrote current checked)))

module _ (m : CommandMeta) (id : String) (s : Store) (r : ConversationRecord)
    (found : lookup id s.conversations ≡ some r) (own : r.business_id ≡ m.actor.business_id)
    (read : can_read_conversation m.actor r ≡ true) (version : ℕ)
    (named : parse_business_expected_version m.expected_version ≡ ok version) where
  row-IsWritten :
      (set : ConversationRecord → ConversationRecord) (labels : List LabelRow)
      → (set r).business_id ≡ r.business_id
      → (set r).resource_version ≡ r.resource_version + 1
      → (not (is_owned r) || is_owned (set r)) ≡ true
      → KeepsOthers m.actor.business_id id s.labels labels
      → r.resource_version ≡ version
      → satisfies_checks (set r) ≡ true
      → IsWritten m id s
          (record { conversations = assign id (set r) s.conversations; labels = labels })
  row-IsWritten set labels kept advanced owned others current checked = record {
    before = r;
    written = set r;
    found = found;
    own = own;
    read = read;
    named = named ∙ ap ok (sym current);
    stored = refl;
    kept = kept;
    advanced = advanced;
    checked = checked;
    owned = owned;
    others = others;
  }

  owned_lem : (u : ConversationUpdate) → (not (is_owned r) || is_owned (set_update u r)) ≡ true
  owned_lem u = ground arith

  update-Written :
      (u : ConversationUpdate)
      → u.business_id ≡ m.actor.business_id
      → Written m id s (
          after_update m.actor id s (
            update (record u { conversation_id = id; expected_version = version }) s.conversations))
  update-Written u same =
      update-Committed m id s r found version (IsWritten m id s) u (own ∙ sym same) (
        row-IsWritten (set_update u) s.labels refl refl (owned_lem u)
          (KeepsOthers-self m.actor.business_id id s.labels))

  advance-Written :
      (to_lower : String → String) (add remove : List String)
      → Written m id s (
          after_advance m.actor id to_lower add remove s
            (advance_version m.actor.business_id id version s.conversations))
  advance-Written to_lower add remove =
      advance-Committed m id s r found version (IsWritten m id s) to_lower add remove own (
        row-IsWritten set_version (apply_labels m.actor.business_id id to_lower add remove s.labels)
          refl refl (ground arith)
          (KeepsOthers-apply_labels m.actor.business_id id to_lower add remove s.labels))

  module _ (texts : TextFunctions) (members : List TeamMember) where
    pub update_body-Written :
        (f : UpdateFields) → Written m id s (update_body texts members m id f version r s)
    unfolding update_body
    update_body-Written f = update-Written (actor_update texts members m id f version) refl

    pub labels_body-Written :
        (add remove : List String)
        → Written m id s (labels_body texts members m id add remove version r s)
    unfolding labels_body
    labels_body-Written add remove = advance-Written texts.to_lower add remove

    pub claim_body-Written : Written m id s (claim_body texts members m id version r s)
    unfolding claim_body Committed
    claim_body-Written =
        if-cases (can_claim_conversation m.actor r) _ _ (Written m id s)
          (λ _.
            update-Written (takeover texts members m id r.business_id m.actor.principal_id version)
              own)
          (λ _. tt)

    pub assign_body-Written :
        (assignment : String)
        → Written m id s (assign_body texts members m id assignment version r s)
    unfolding assign_body assign_resolved Committed
    assign_body-Written assignment =
        by_member (resolve_active_member texts m.actor.business_id assignment members)
      where
        by_member :
            (o : Result RepositoryError TeamMember)
            → Written m id s (assign_resolved texts members m id assignment version s o)
        by_member (err e) = tt
        by_member (ok member) =
            if-cases (eligible_conversation_assignee member) _ _ (Written m id s)
              (λ _.
                update-Written (takeover texts members m id m.actor.business_id assignment version)
                  refl)
              (λ _. tt)

-- The row that is read is the one of the identifier, of the actor's business, and he may read it.
pub read-found :
    (actor : ActorContext) (id : String) (table : Map ConversationRecord) (r : ConversationRecord)
    → read_inbox_conversation actor id table ≡ ok r
    → (lookup id table ≡ some r)
      × (r.business_id ≡ actor.business_id)
      × (can_read_conversation actor r ≡ true)
unfolding read_inbox_conversation get_inbox_conversation find_row of_business
read-found actor id table r h = by_row (lookup id table) h
  where
    b : String
    b = actor.business_id

    by_row :
        (o : Option ConversationRecord)
        → readable actor (visible_row (conversation_access actor) (of_business b o)) ≡ ok r
        → (o ≡ some r) × (r.business_id ≡ b) × (can_read_conversation actor r ≡ true)
    by_row none e = cc
    by_row (some a) e = elim (Bool-cases (a.business_id == b)) [
      | inr n ↦ cc (rw n at e)
      | inl y ↦ elim (Bool-cases (is_visible (conversation_access actor) a)) [
        | inr n ↦ cc (rw (y, n) at e)
        | inl v ↦ elim (Bool-cases (can_read_conversation actor a)) [
          | inr n ↦ cc (rw (y, v, n) at e)
          | inl c ↦
              let same : a ≡ r = cc (rw (y, v, c) at e) in
              (
                ap some same,
                ap (λ x. x.business_id) (sym same) ∙ (==_iff a.business_id b).0 y,
                ap (can_read_conversation actor) (sym same) ∙ c,
              )
        ]
      ]
    ]
