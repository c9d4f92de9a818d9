-- ===== src/Authorization/Tests.antt =====
-- Permissions and rules on small cases, and the theorems about them.
use mujeeb24_backend_go.Common.{◌==◌, ◌≡◌, refl, true, false, [], ◌∷◌, none, some}
use mujeeb24_backend_go.Common.Text.{trim_space, to_lower}
use mujeeb24_backend_go.Authorization.Permissions.{
  ActorContext, required_for_operation, normalize_permissions, has_permission, can_grant,
  permission_conversations_reply,
}
use mujeeb24_backend_go.Authorization.Permissions.Grant.{can_grant-has_permission}
use mujeeb24_backend_go.Authorization.Permissions.Normal.{Normal, normalize_permissions-Normal}
use mujeeb24_backend_go.Authorization.TeamRoles.{valid_team_role, normalize_team_role}
use mujeeb24_backend_go.Authorization.Conversations.{
  ConversationRecord, conversation_access, conversation_assigned, can_read_conversation,
  can_reply_to_conversation, can_claim_conversation,
}
use mujeeb24_backend_go.Authorization.Conversations.Claim.{claimed, claim-reply}

abbrev agent : ActorContext
agent = record {
  principal_id = "ali";
  business_id = "b1";
  role = " Agent";
  permissions = "conversations:read" ∷ "conversations:reply" ∷ [];
}

abbrev waiting : ConversationRecord
waiting = record {
  business_id = "b1";
  ownership = "ai";
  state = "open";
  ai_mode_override = none;
  priority = "normal";
  assignment_reference = none;
  resource_version = 1;
}

normalizes :
    normalize_permissions (" Team:Read" ∷ "catalog:read" ∷ "team:read" ∷ [])
    ≡ some ("catalog:read" ∷ "team:read" ∷ [])
unfolding normalize_permissions to_lower trim_space
normalizes = refl

refuses_all : normalize_permissions ("*" ∷ []) ≡ none
unfolding normalize_permissions to_lower trim_space
refuses_all = refl

normalize_permissions-Normal_example :
    Normal
      (" Team:Read" ∷ "catalog:read" ∷ [])
      (normalize_permissions (" Team:Read" ∷ "catalog:read" ∷ []))
normalize_permissions-Normal_example =
    normalize_permissions-Normal (" Team:Read" ∷ "catalog:read" ∷ [])

claim_needs_reply : required_for_operation "claimConversation" ≡ some permission_conversations_reply
unfolding required_for_operation
claim_needs_reply = refl

agent_claims : can_claim_conversation agent waiting ≡ true
unfolding can_claim_conversation can_read_conversation conversation_access conversation_assigned
    has_permission trim_space to_lower
agent_claims = refl

agent_waits : can_reply_to_conversation agent waiting ≡ false
unfolding can_reply_to_conversation can_read_conversation conversation_access conversation_assigned
    has_permission trim_space to_lower
agent_waits = refl

knows_role : valid_team_role " OWNER " ≡ true
unfolding valid_team_role normalize_team_role trim_space to_lower
knows_role = refl

is_named : (trim_space agent.principal_id == "") ≡ false
unfolding trim_space
is_named = refl

claim-reply_example : can_reply_to_conversation agent (claimed agent waiting) ≡ true
claim-reply_example = claim-reply agent waiting is_named agent_claims

agent_grants : can_grant agent ("conversations:read" ∷ []) ≡ true
unfolding can_grant has_permission
agent_grants = refl

reads :
    has_permission (record agent { permissions = "conversations:read" ∷ [] }) "conversations:read"
    ≡ true
unfolding has_permission
reads = refl

can_grant-has_permission_example : has_permission agent "conversations:read" ≡ true
can_grant-has_permission_example =
    can_grant-has_permission agent agent ("conversations:read" ∷ []) "conversations:read"
      agent_grants reads
