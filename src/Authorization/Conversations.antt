-- ===== src/Authorization/Conversations.antt =====
-- Who may read, answer and claim a conversation: authorization/conversations.go.
pub mod Claim
use mujeeb24_backend_go.Common.{
  ℕ, String, ◌==◌, Bool, true, false, ◌&&◌, ◌||◌, not, Option, none, some,
}
use mujeeb24_backend_go.Common.Text.{trim_space, to_lower}
use mujeeb24_backend_go.Authorization.Permissions.{
  ActorContext, has_permission, permission_conversations_read, permission_conversations_reply,
  permission_conversations_assign,
}

-- The columns of `ports.ConversationRecord` that the rules read and the commands write.
pub record ConversationRecord : Type 0 where
  pub business_id : String
  pub ownership : String
  pub state : String
  pub ai_mode_override : Option String
  pub priority : String
  pub assignment_reference : Option String
  pub resource_version : ℕ

pub record ConversationAccess : Type 0 where
  pub principal_id : String
  pub supervisor : Bool

-- `ConversationAccess`
unfoldable pub conversation_access : ActorContext → ConversationAccess
conversation_access actor =
    let role = to_lower (trim_space actor.role) in
    record {
      principal_id = actor.principal_id;
      supervisor = (role == "owner") || (role == "admin") || (role == "manager");
    }

abbrev pub names_someone : Option String → Bool
names_someone none = false
names_someone (some reference) = not (trim_space reference == "")

-- `ConversationAssigned`
unfoldable pub conversation_assigned : ConversationRecord → Bool
conversation_assigned r = (r.ownership == "human") && names_someone r.assignment_reference

-- `*record.AssignmentReference == principal`, which is read only where the pointer is set.
abbrev pub is_assignee : Option String → String → Bool
is_assignee none principal = false
is_assignee (some reference) principal = reference == principal

-- `CanReadConversation`
unfoldable pub can_read_conversation : ActorContext → ConversationRecord → Bool
can_read_conversation actor r =
    (actor.business_id == r.business_id)
    && not (actor.principal_id == "")
    && has_permission actor permission_conversations_read
    && ((conversation_access actor).supervisor
        || not (conversation_assigned r)
        || is_assignee r.assignment_reference actor.principal_id)

-- `CanReplyToConversation`
unfoldable pub can_reply_to_conversation : ActorContext → ConversationRecord → Bool
can_reply_to_conversation actor r =
    can_read_conversation actor r
    && has_permission actor permission_conversations_reply
    && not (r.state == "closed")
    && conversation_assigned r
    && ((conversation_access actor).supervisor
        || is_assignee r.assignment_reference actor.principal_id)

abbrev pub is_eligible : String → Bool
is_eligible role =
    (role == "owner") || (role == "admin") || (role == "manager") || (role == "agent")

-- `CanClaimConversation`
unfoldable pub can_claim_conversation : ActorContext → ConversationRecord → Bool
can_claim_conversation actor r =
    is_eligible (to_lower (trim_space actor.role))
    && can_read_conversation actor r
    && has_permission actor permission_conversations_reply
    && not (r.state == "closed")
    && (not (conversation_assigned r)
        || ((conversation_access actor).supervisor
            && has_permission actor permission_conversations_assign
            && not (is_assignee r.assignment_reference actor.principal_id)))
