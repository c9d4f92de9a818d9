-- ===== src/Authorization/TeamRoles.antt =====
-- The roles of services/team_roles.go.
use mujeeb24_backend_go.Common.{String, ◌==◌, Bool, ◌||◌}
use mujeeb24_backend_go.Common.Text.{trim_space, to_lower}

-- `normalizeTeamRole`
unfoldable pub normalize_team_role : String → String
normalize_team_role role = to_lower (trim_space role)

-- `validTeamRole`
unfoldable pub valid_team_role : String → Bool
valid_team_role role =
    let r = normalize_team_role role in
    (r == "owner")
    || (r == "admin")
    || (r == "manager")
    || (r == "agent")
    || (r == "analyst")
    || (r == "viewer")

-- `canManageTeam`
unfoldable pub can_manage_team : String → Bool
can_manage_team role = let r = normalize_team_role role in (r == "owner") || (r == "admin")

-- `canReceiveConversationAssignment`
unfoldable pub can_receive_conversation_assignment : String → Bool
can_receive_conversation_assignment role =
    let r = normalize_team_role role in
    (r == "owner") || (r == "admin") || (r == "manager") || (r == "agent")

-- `canAssignConversations`
unfoldable pub can_assign_conversations : String → Bool
can_assign_conversations role = can_receive_conversation_assignment role
