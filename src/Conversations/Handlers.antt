-- ===== src/Conversations/Handlers.antt =====
-- The four handlers of services/conversation_services.go and services/conversation_inbox.go, and the
-- commands that they handle one after another.
use mujeeb24_backend_go.Common.{
  ℕ, String, Bool, true, false, ◌&&◌, List, [], ◌∷◌, Option, none, some, Result, ok, err,
  if◌then◌else◌,
}
use mujeeb24_backend_go.Common.Text.{trim_space}
use mujeeb24_backend_go.Authorization.Permissions.{
  ActorContext, has_permission, permission_conversations_assign,
}
use mujeeb24_backend_go.Authorization.TeamRoles.{can_assign_conversations}
use mujeeb24_backend_go.Authorization.Conversations.{ConversationRecord, can_claim_conversation}
use mujeeb24_backend_go.Conversations.{RepositoryError, ConversationUpdate, update, advance_version}
use mujeeb24_backend_go.Conversations.Commands.{
  CommandError, forbidden, validation, conflicting, TeamMember, Store, CommandMeta, TextFunctions,
  Answer, map_team_repository_error, parse_business_expected_version, resolve_active_member,
  eligible_conversation_assignee, on_conversation, after_update, after_advance,
}

pub record UpdateFields : Type 0 where
  pub state : Option String
  pub ownership : Option String
  pub ai_mode_override : Option String
  pub priority : Option String

pub data Command : Type 0 where
  update_conversation : UpdateFields → Command
  assign_conversation : String → Command
  claim_conversation : Command
  update_labels : List String → List String → Command

abbrev pub may_assign : ActorContext → Bool
may_assign actor =
    can_assign_conversations actor.role && has_permission actor permission_conversations_assign

-- What follows the parsing of the version.
abbrev pub with_version : (ℕ → Store → Answer) → Store → Result CommandError ℕ → Answer
with_version body s (err e) = (err e, s)
with_version body s (ok expected) = body expected s

module _ (texts : TextFunctions) (members : List TeamMember) (m : CommandMeta) (id : String) where
  abbrev pub actor_update : UpdateFields → ℕ → ConversationUpdate
  actor_update f expected = record {
    business_id = m.actor.business_id;
    conversation_id = id;
    expected_version = expected;
    state = f.state;
    ownership = f.ownership;
    ai_mode_override = f.ai_mode_override;
    priority = f.priority;
    assignment_reference = none;
  }

  -- The update with which a person takes the conversation over.
  abbrev pub takeover : String → String → ℕ → ConversationUpdate
  takeover business_id assignee expected = record {
    business_id = business_id;
    conversation_id = id;
    expected_version = expected;
    state = some "human_handling";
    ownership = some "human";
    ai_mode_override = some "disabled";
    priority = none;
    assignment_reference = some assignee;
  }

  -- The body of UpdateConversation's transaction
  unfoldable pub update_body : UpdateFields → ℕ → ConversationRecord → Store → Answer
  update_body f expected r s =
      after_update m.actor id s (update (actor_update f expected) s.conversations)

  -- AssignConversation: what follows the resolution of the member.
  unfoldable pub assign_resolved : String → ℕ → Store → Result RepositoryError TeamMember → Answer
  assign_resolved assignment expected s (err e) = (err (map_team_repository_error e), s)
  assign_resolved assignment expected s (ok member) =
      if eligible_conversation_assignee member
      then after_update m.actor id s
          (update (takeover m.actor.business_id assignment expected) s.conversations)
      else (err forbidden, s)

  unfoldable pub assign_body : String → ℕ → ConversationRecord → Store → Answer
  unfolding assign_resolved
  assign_body assignment expected r s =
      assign_resolved assignment expected s
        (resolve_active_member texts m.actor.business_id assignment members)

  unfoldable pub claim_body : ℕ → ConversationRecord → Store → Answer
  claim_body expected r s =
      if can_claim_conversation m.actor r
      then after_update m.actor id s
          (update (takeover r.business_id m.actor.principal_id expected) s.conversations)
      else (err conflicting, s)

  unfoldable pub labels_body : List String → List String → ℕ → ConversationRecord → Store → Answer
  labels_body add remove expected r s =
      after_advance m.actor id texts.to_lower add remove s
        (advance_version m.actor.business_id id expected s.conversations)

  -- The transaction of a command, once its version is parsed.
  unfoldable pub transact : (ℕ → ConversationRecord → Store → Answer) → Store → Answer
  transact body s =
      with_version (λ expected. on_conversation m.actor id (body expected)) s
        (parse_business_expected_version m.expected_version)

  -- `Handle` of AssignConversation: the version is parsed before the identifier is tested.
  abbrev pub assign_tested : String → ℕ → Store → Answer
  assign_tested assignment expected s =
      if texts.validate_uuid assignment
      then on_conversation m.actor id (assign_body assignment expected) s
      else (err validation, s)

  abbrev pub lacks_labels : List String → List String → Bool
  lacks_labels [] [] = true
  lacks_labels _ _ = false

  -- `Handle` of each service
  unfoldable pub handle : Command → Store → Answer
  unfolding transact
  handle (update_conversation f) s =
      if may_assign m.actor then transact (update_body f) s else (err forbidden, s)
  handle (assign_conversation assignee) s =
      if may_assign m.actor
      then with_version (assign_tested (trim_space assignee)) s
          (parse_business_expected_version m.expected_version)
      else (err forbidden, s)
  handle claim_conversation s = transact claim_body s
  handle (update_labels add remove) s =
      if lacks_labels add remove then (err validation, s) else transact (labels_body add remove) s

-- A command with the actor and the version it comes with, for one conversation.
pub record Request : Type 0 where
  pub members : List TeamMember
  pub about : CommandMeta
  pub conversation_id : String
  pub command : Command

module _ (texts : TextFunctions) where
  -- The answer to a request.
  unfoldable pub respond : Request → Store → Answer
  respond q s = handle texts q.members q.about q.conversation_id q.command s

  -- The store after requests that follow one another.
  unfoldable pub respond_all : List Request → Store → Store
  unfolding respond
  respond_all [] s = s
  respond_all (q ∷ requests) s = respond_all requests (respond q s).1
