-- ===== src/Authorization/Permissions.antt =====
-- The permissions of authorization/permissions.go.
pub mod Grant
pub mod Normal
use Prim.Native.String.{compare}
use Prim.Native.Nat.{Ordering}
use mujeeb24_backend_go.Common.{
  String, ◌==◌, Bool, true, false, ◌&&◌, ◌||◌, List, [], ◌∷◌, ◌++◌, Option, none, some, Map, lookup,
  put, has, if◌then◌else◌,
}
use mujeeb24_backend_go.Common.Text.{trim_space, to_lower}

abbrev pub permission_all : String
permission_all = "*"

abbrev pub permission_business_read : String
permission_business_read = "business:read"

abbrev pub permission_dashboard_read : String
permission_dashboard_read = "dashboard:read"

abbrev pub permission_team_read : String
permission_team_read = "team:read"

abbrev pub permission_team_manage : String
permission_team_manage = "team:manage"

abbrev pub permission_conversations_read : String
permission_conversations_read = "conversations:read"

abbrev pub permission_conversations_reply : String
permission_conversations_reply = "conversations:reply"

abbrev pub permission_conversations_assign : String
permission_conversations_assign = "conversations:assign"

abbrev pub permission_customers_read : String
permission_customers_read = "customers:read"

abbrev pub permission_customers_write : String
permission_customers_write = "customers:write"

abbrev pub permission_catalog_read : String
permission_catalog_read = "catalog:read"

abbrev pub permission_catalog_write : String
permission_catalog_write = "catalog:write"

abbrev pub permission_sales_read : String
permission_sales_read = "sales:read"

abbrev pub permission_sales_write : String
permission_sales_write = "sales:write"

abbrev pub permission_sales_approve : String
permission_sales_approve = "sales:approve"

abbrev pub permission_channels_manage : String
permission_channels_manage = "channels:manage"

abbrev pub permission_channels_read : String
permission_channels_read = "channels:read"

abbrev pub permission_automation_read : String
permission_automation_read = "automation:read"

abbrev pub permission_business_settings : String
permission_business_settings = "business:settings"

abbrev pub permission_automation_manage : String
permission_automation_manage = "automation:manage"

abbrev pub permission_audit_read : String
permission_audit_read = "audit:read"

abbrev pub permission_merchant_ai_use : String
permission_merchant_ai_use = "merchant_ai:use"

-- `knownPermissions`, a set.
abbrev pub known_permissions : List String
known_permissions =
    permission_business_read ∷ permission_dashboard_read ∷ permission_team_read
    ∷ permission_team_manage ∷ permission_conversations_read ∷ permission_conversations_reply
    ∷ permission_conversations_assign ∷ permission_customers_read ∷ permission_customers_write
    ∷ permission_catalog_read ∷ permission_catalog_write ∷ permission_sales_read
    ∷ permission_sales_write ∷ permission_sales_approve ∷ permission_channels_read
    ∷ permission_channels_manage ∷ permission_business_settings ∷ permission_automation_read
    ∷ permission_automation_manage ∷ permission_audit_read ∷ permission_merchant_ai_use ∷ []

-- `register`: every operation of the list needs the permission.
abbrev pub register : String → List String → Map String → Map String
register permission [] m = m
register permission (operation ∷ operations) m =
    register permission operations (put operation permission m)

-- `buildOperationPermissions`, one entry for each call of `register`.
abbrev pub registrations : List (String × List String)
registrations =
    (permission_business_read, "getBusiness" ∷ "getBusinessPolicy" ∷ "getBusinessSubscription" ∷ [])
    ∷ (
      permission_business_settings,
      "createSalesRequirement" ∷ "updateBusinessProfile" ∷ "updateBusinessPolicy" ∷ [],
    )
    ∷ (permission_dashboard_read, "getDashboardOverview" ∷ "getDashboardFollowUps" ∷ [])
    ∷ (permission_team_read, "listTeamMembers" ∷ "listTeamInvitations" ∷ [])
    ∷ (
      permission_team_manage,
      "createTeamInvitation" ∷ "revokeTeamInvitation" ∷ "resendTeamInvitation"
          ∷ "updateTeamMemberRole" ∷ "updateTeamMemberAccess" ∷ "revokeTeamMember" ∷ [],
    )
    ∷ (
      permission_conversations_read,
      "getCatalogMediaPreview" ∷ "listConversations" ∷ "getConversation"
          ∷ "listConversationMessages" ∷ "getConversationSummary" ∷ "getConversationInboxOverview"
          ∷ "listCustomerConversations" ∷ "markConversationRead" ∷ [],
    )
    ∷ (
      permission_conversations_reply,
      "createOutboundMessage" ∷ "claimConversation" ∷ "addPrivateNote" ∷ "updateConversationLabels"
          ∷ "sendCannedReply" ∷ "listCannedReplies" ∷ "createCannedReply" ∷ "updateCannedReply"
          ∷ [],
    )
    ∷ (
      permission_conversations_assign,
      "assignConversation" ∷ "updateConversation" ∷ "listConversationAssignees" ∷ [],
    )
    ∷ (permission_customers_read, "listCustomers" ∷ "getCustomer" ∷ [])
    ∷ (permission_customers_write, "createCustomer" ∷ "updateCustomer" ∷ "mergeCustomer" ∷ [])
    ∷ (
      permission_catalog_read,
      "getCatalogMediaReadURL" ∷ "listCatalogMedia" ∷ "listCatalogs" ∷ "getCatalog"
          ∷ "getCatalogEntityContract" ∷ "listCatalogItems" ∷ "getCatalogItem" ∷ "listOffers"
          ∷ "listVariants" ∷ "listAttributeSchemas" ∷ "getAttributeSchema" ∷ [],
    )
    ∷ (
      permission_catalog_write,
      "uploadCatalogImage" ∷ "attachCatalogMedia" ∷ "setCatalogMediaPrimary" ∷ "removeCatalogMedia"
          ∷ "createCatalog" ∷ "updateCatalog" ∷ "createCatalogItem" ∷ "updateCatalogItem"
          ∷ "createOffer" ∷ "updateOffer" ∷ "createVariant" ∷ "updateVariant"
          ∷ "createAttributeSchemaVersion" ∷ [],
    )
    ∷ (
      permission_sales_read,
      "listSalesWorkflows" ∷ "getSalesWorkflow" ∷ "listSalesRequirements" ∷ "listLeads" ∷ "getLead"
          ∷ "listLeadAttributions" ∷ "listLeadScores" ∷ "listTransactions"
          ∷ "listCustomerTransactions" ∷ "getTransaction" ∷ "getTransactionReview" ∷ [],
    )
    ∷ (
      permission_sales_write,
      "createLead" ∷ "updateLead" ∷ "qualifyLead" ∷ "markLeadLost" ∷ "createTransactionDraft"
          ∷ "updateTransactionDraft" ∷ "confirmTransaction" ∷ "cancelTransaction"
          ∷ "submitTransactionReview" ∷ [],
    )
    ∷ (
      permission_sales_approve,
      "reviewSalesWorkflow" ∷ "approveTransactionReview" ∷ "rejectTransactionReview" ∷ [],
    )
    ∷ (
      permission_channels_read,
      "listChannelConnections" ∷ "getChannelConnection" ∷ "getConnectionCapabilities"
          ∷ "previewChannelHistoryPurge" ∷ [],
    )
    ∷ (
      permission_channels_manage,
      "beginChannelConnection" ∷ "reconnectChannel" ∷ "disconnectChannel" ∷ "purgeChannelHistory"
          ∷ "removeChannel" ∷ [],
    )
    ∷ (permission_automation_read, "listAutomationRules" ∷ [])
    ∷ (permission_automation_manage, "createAutomationRule" ∷ "updateAutomationRule" ∷ [])
    ∷ (
      permission_audit_read,
      "listAuditEvents" ∷ "getAuditEvent" ∷ "listAIDecisions" ∷ "getAIDecision" ∷ [],
    )
    ∷ (
      permission_merchant_ai_use,
      "merchantAIChat" ∷ "merchantAIExecute" ∷ "merchantAIAssist" ∷ "requestHumanReview" ∷ [],
    )
    ∷ []

abbrev pub register_all : List (String × List String) → Map String → Map String
register_all [] m = m
register_all ((permission, operations) ∷ rest) m =
    register_all rest (register permission operations m)

pub operation_permissions : Map String
operation_permissions = register_all registrations []

-- `RequiredForOperation`
unfoldable pub required_for_operation : String → Option String
unfolding operation_permissions
required_for_operation operation_id = lookup operation_id operation_permissions

-- The loop of `NormalizePermissions`: the keys of `seen`.
pub collect_permissions : List String → List String → Option (List String)
collect_permissions [] seen = some seen
collect_permissions (value ∷ values) seen =
    let permission = to_lower (trim_space value) in
    if permission == permission_all
    then none
    else if has permission known_permissions
    then collect_permissions values (if has permission seen then seen else permission ∷ seen)
    else none

abbrev pub is_before : String → String → Bool
is_before a b = elim (compare a b) [ Ordering.gt ↦ false | _ ↦ true ]

-- `sort.Strings`, as an insertion sort.
unfoldable pub insert_sorted : String → List String → List String
insert_sorted p [] = p ∷ []
insert_sorted p (q ∷ qs) = if is_before p q then p ∷ q ∷ qs else q ∷ insert_sorted p qs

unfoldable pub sort_strings : List String → List String
unfolding insert_sorted
sort_strings [] = []
sort_strings (p ∷ ps) = insert_sorted p (sort_strings ps)

pub sorted : Option (List String) → Option (List String)
sorted none = none
sorted (some seen) = some (sort_strings seen)

-- `NormalizePermissions`: none for a refusal. Sorting forgets the order of the map.
unfoldable pub normalize_permissions : List String → Option (List String)
unfolding collect_permissions insert_sorted sort_strings sorted
normalize_permissions values = sorted (collect_permissions values [])

pub record ActorContext : Type 0 where
  pub principal_id : String
  pub business_id : String
  pub role : String
  pub permissions : List String

pub granted : List String → String → Bool
granted [] permission = false
granted (g ∷ gs) permission =
    if (g == permission_all) || (g == permission) then true else granted gs permission

-- `Has`
unfoldable pub has_permission : ActorContext → String → Bool
unfolding granted
has_permission actor permission = granted actor.permissions permission

-- `CanGrant`
unfoldable pub can_grant : ActorContext → List String → Bool
can_grant actor [] = true
can_grant actor (permission ∷ requested) =
    if has_permission actor permission then can_grant actor requested else false

-- `KnownPermissions`
unfoldable pub sorted_known_permissions : List String
unfolding insert_sorted sort_strings
sorted_known_permissions = sort_strings known_permissions
