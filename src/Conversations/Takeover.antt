-- ===== src/Conversations/Takeover.antt =====
-- The write with which a person takes a conversation over, and transactions that commit.
use mujeeb24_backend_go.Common.{
  ℕ, ◌+◌, String, ◌==◌, ==_iff, ◌≡◌, refl, ◌∙◌, sym, subst, true, false, ◌||◌, List, lookup, assign,
  some, ok, err, Result, arith, lookup-assign, Map,
}
use mujeeb24_backend_go.Common.Text.{trim_space}
use mujeeb24_backend_go.Authorization.Permissions.{
  ActorContext, has_permission, permission_conversations_read, permission_conversations_reply,
}
use mujeeb24_backend_go.Authorization.Conversations.{
  ConversationRecord, conversation_access, conversation_assigned, can_read_conversation,
  can_reply_to_conversation,
}
use mujeeb24_backend_go.Conversations.{set_update}
use mujeeb24_backend_go.Conversations.Commands.{
  CommandError, ConversationView, TeamMember, CommandMeta, TextFunctions, Store, Answer,
  read_inbox_conversation, settled, within, on_read, on_conversation,
}
use mujeeb24_backend_go.Conversations.Handlers.{with_version, takeover}
use mujeeb24_backend_go.Conversations.Writes.{Committed, read-found}

-- The conversation is handled by the person: it is not left to the AI, and he can answer it.
pub record IsAnswerable (actor : ActorContext) (id : String) (table : Map ConversationRecord)
    : Type 0 where
  pub held : ConversationRecord
  pub found : lookup id table ≡ some held
  pub handled : held.state ≡ "human_handling"
  pub disabled : held.ai_mode_override ≡ some "disabled"
  pub assigned : held.assignment_reference ≡ some actor.principal_id
  pub answers : can_reply_to_conversation actor held ≡ true

pub settled-Committed :
    (Q : Store → Type 0) (s : Store) (a : Answer) → Committed Q a → Committed Q (settled s a)
unfolding Committed
settled-Committed Q s (err e, after) w = tt
settled-Committed Q s (ok view, after) w = w

module _ (Q : Store → Type 0) (m : CommandMeta) (id : String) (s : Store) where
  pub on_conversation-Committed :
      (body : ConversationRecord → Store → Answer)
      → ((r : ConversationRecord)
          → lookup id s.conversations ≡ some r
          → r.business_id ≡ m.actor.business_id
          → Committed Q (body r s))
      → Committed Q (on_conversation m.actor id body s)
  unfolding on_conversation within Committed
  on_conversation-Committed body ends =
      settled-Committed Q s _ (by_read (read_inbox_conversation m.actor id s.conversations) refl)
    where
      by_read :
          (o : Result CommandError ConversationRecord)
          → read_inbox_conversation m.actor id s.conversations ≡ o
          → Committed Q (on_read m.actor id body s o)
      by_read (err e) h = tt
      by_read (ok r) h = let f = read-found m.actor id s.conversations r h in ends r f.0 f.1

  pub with_version-Committed :
      (body : ℕ → Store → Answer) (o : Result CommandError ℕ)
      → ((version : ℕ) → Committed Q (body version s))
      → Committed Q (with_version body s o)
  unfolding Committed
  with_version-Committed body (err e) ends = tt
  with_version-Committed body (ok version) ends = ends version

  pub committed_lem :
      (a : Answer) (view : ConversationView) (after : Store)
      → a ≡ (ok view, after)
      → Committed Q a
      → Q after
  unfolding Committed
  committed_lem a view after e c = subst (Committed Q) e c

-- The row once the person has it.
abbrev pub taken : String → ConversationRecord → ConversationRecord
taken principal_id r = record r {
  state = "human_handling";
  ownership = "human";
  ai_mode_override = some "disabled";
  assignment_reference = some principal_id;
  resource_version = r.resource_version + 1;
}

human_lem : trim_space "human" ≡ "human"
unfolding trim_space
human_lem = refl

human_handling_lem : trim_space "human_handling" ≡ "human_handling"
unfolding trim_space
human_handling_lem = refl

disabled_lem : trim_space "disabled" ≡ "disabled"
unfolding trim_space
disabled_lem = refl

pub set_takeover-taken :
    (texts : TextFunctions) (members : List TeamMember) (m : CommandMeta)
    (id b principal_id : String) (r : ConversationRecord) (version : ℕ)
    → trim_space principal_id ≡ principal_id
    → (principal_id == "") ≡ false
    → set_update (takeover texts members m id b principal_id version) r ≡ taken principal_id r
set_takeover-taken texts members m id b principal_id r version trimmed given =
    rw (human_lem, human_handling_lem, disabled_lem, trimmed, given) refl

taken-reply :
    (actor : ActorContext) (r : ConversationRecord)
    → trim_space actor.principal_id ≡ actor.principal_id
    → actor.business_id ≡ r.business_id
    → (actor.principal_id == "") ≡ false
    → has_permission actor permission_conversations_read ≡ true
    → has_permission actor permission_conversations_reply ≡ true
    → can_reply_to_conversation actor (taken actor.principal_id r) ≡ true
unfolding can_reply_to_conversation can_read_conversation conversation_assigned
taken-reply actor r trimmed own given reads replies = rw trimmed (
    ground (
      arith,
      (==_iff actor.principal_id actor.principal_id).1 refl,
      (==_iff actor.business_id r.business_id).1 own,
    ))

-- To a person who may read conversations and answer them, the conversation is open to answer exactly if he
-- supervises or it is assigned to the text of his identifier.
pub taken-answers :
    (actor : ActorContext) (assignment : String) (r : ConversationRecord)
    → trim_space assignment ≡ assignment
    → (assignment == "") ≡ false
    → actor.business_id ≡ r.business_id
    → (actor.principal_id == "") ≡ false
    → has_permission actor permission_conversations_read ≡ true
    → has_permission actor permission_conversations_reply ≡ true
    → can_reply_to_conversation actor (taken assignment r)
      ≡ ((conversation_access actor).supervisor || (assignment == actor.principal_id))
unfolding can_reply_to_conversation can_read_conversation conversation_assigned
taken-answers actor assignment r trimmed filled own given reads replies =
    rw trimmed (ground (arith, (==_iff actor.business_id r.business_id).1 own))

pub lookup-taken :
    (id assignment : String) (r : ConversationRecord) (table : Map ConversationRecord)
    → lookup id (assign id (taken assignment r) table) ≡ some (taken assignment r)
lookup-taken id assignment r table =
    lookup-assign id id (taken assignment r) table ∙ rw ((==_iff id id).1 refl) refl

taken-IsAnswerable :
    (actor : ActorContext) (id : String) (r : ConversationRecord) (table : Map ConversationRecord)
    → can_reply_to_conversation actor (taken actor.principal_id r) ≡ true
    → IsAnswerable actor id (assign id (taken actor.principal_id r) table)
taken-IsAnswerable actor id r table answers = record {
  held = taken actor.principal_id r;
  found = lookup-taken id actor.principal_id r table;
  handled = refl;
  disabled = refl;
  assigned = refl;
  answers = answers;
}

module _ (texts : TextFunctions) (members : List TeamMember) (m : CommandMeta) (id : String) where
  -- The takeover by a person who may read conversations and answer them.
  pub takeover-IsAnswerable :
      (actor : ActorContext) (s : Store) (r : ConversationRecord) (version : ℕ)
      → lookup id s.conversations ≡ some r
      → trim_space actor.principal_id ≡ actor.principal_id
      → actor.business_id ≡ r.business_id
      → (actor.principal_id == "") ≡ false
      → has_permission actor permission_conversations_read ≡ true
      → has_permission actor permission_conversations_reply ≡ true
      → IsAnswerable actor id (
          assign id
            (set_update
              (takeover texts members m id actor.business_id actor.principal_id version)
              r)
            s.conversations)
  takeover-IsAnswerable actor s r version found trimmed own given reads replies =
      subst (λ x. IsAnswerable actor id (assign id x s.conversations))
        (sym (
          set_takeover-taken texts members m id actor.business_id actor.principal_id r version
            trimmed given))
        (taken-IsAnswerable actor id r s.conversations
          (taken-reply actor r trimmed own given reads replies))
