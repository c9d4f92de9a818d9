-- ===== src/Conversations/Commands.antt =====
-- The commands that change a conversation: services/conversation_services.go and
-- services/conversation_inbox.go, which update it, assign it, claim it and change its labels.
-- A command is one transaction, of which nothing is left when it fails. The members of the team are a
-- table that the commands only read, and the test of UUIDs is a function. Their dependencies are taken as
-- configured; the events that are published afterwards are left out.
use mujeeb24_backend_go.Common.{
  ℕ, zero, suc, ◌^◌, String, ◌==◌, Bool, true, false, ◌&&◌, List, [], ◌∷◌, Option, none, some,
  Result, ok, err, Map, ltb, eqb, if◌then◌else◌,
}
use mujeeb24_backend_go.Common.Int.{ℤ, pos, negsuc}
use mujeeb24_backend_go.Authorization.Permissions.{
  ActorContext, has_permission, permission_conversations_read, permission_conversations_reply,
  permission_conversations_assign,
}
use mujeeb24_backend_go.Authorization.TeamRoles.{
  can_receive_conversation_assignment, can_assign_conversations,
}
use mujeeb24_backend_go.Authorization.Conversations.{
  ConversationRecord, conversation_access, conversation_assigned, can_read_conversation,
  can_reply_to_conversation, can_claim_conversation,
}
use mujeeb24_backend_go.Validation.Quantity.{codes, all_digits, digits_onto}
use mujeeb24_backend_go.Conversations.{
  RepositoryError, not_found, stale, conflict, invalid, get_inbox_conversation,
}
use mujeeb24_backend_go.Conversations.Labels.{LabelRow, apply_labels, list_labels}

-- The codes of application errors, and the errors of a repository that are passed on.
pub data CommandError : Type 0 where
  forbidden validation missing stale_resource conflicting invalid_state : CommandError
  passed_on : RepositoryError → CommandError

-- `mapConversationRepositoryError`
abbrev pub map_conversation_repository_error : RepositoryError → CommandError
map_conversation_repository_error not_found = missing
map_conversation_repository_error stale = stale_resource
map_conversation_repository_error conflict = conflicting
map_conversation_repository_error invalid = passed_on invalid

-- `mapTeamRepositoryError`
abbrev pub map_team_repository_error : RepositoryError → CommandError
map_team_repository_error not_found = missing
map_team_repository_error conflict = invalid_state
map_team_repository_error invalid = validation
map_team_repository_error stale = passed_on stale

-- `mapApplicationError`: the status of the response. An error of a repository is no application error.
unfoldable pub map_application_error : CommandError → ℕ
map_application_error validation = 422
map_application_error invalid_state = 422
map_application_error missing = 404
map_application_error forbidden = 403
map_application_error conflicting = 409
map_application_error stale_resource = 409
map_application_error (passed_on e) = 500

-- Digits of which there is at least one.
abbrev pub unsigned : List ℕ → Option ℕ
unsigned [] = none
unsigned (c ∷ s) = if all_digits (c ∷ s) then some (digits_onto 0 (c ∷ s)) else none

abbrev pub negative : ℕ → Option ℤ
negative zero = some (pos zero)
negative (suc n) = if ltb n (2 ^ 63) then some (negsuc n) else none

abbrev pub signed : Bool → Option ℕ → Option ℤ
signed below none = none
signed true (some n) = negative n
signed false (some n) = if ltb n (2 ^ 63) then some (pos n) else none

abbrev pub after_sign : List ℕ → Option ℤ
after_sign [] = none
after_sign (c ∷ s) =
    if eqb c b'+'
    then signed false (unsigned s)
    else if eqb c b'-'
    then signed true (unsigned s)
    else signed false (unsigned (c ∷ s))

-- `strconv.ParseInt(text, 10, 64)`
unfoldable pub parse_int : String → Option ℤ
unfolding codes all_digits digits_onto
parse_int text = after_sign (codes text)

abbrev pub positive_version : Option ℤ → Result CommandError ℕ
positive_version (some (pos (suc n))) = ok (suc n)
positive_version _ = err validation

-- `parseBusinessExpectedVersion`
unfoldable pub parse_business_expected_version : Option String → Result CommandError ℕ
unfolding parse_int
parse_business_expected_version none = err validation
parse_business_expected_version (some text) =
    if text == "" then err validation else positive_version (parse_int text)

-- What code outside the repository makes of a text: whether google/uuid takes it for a UUID, the UUID that
-- the database's cast reads of it, in the form in which the database prints it, and `strings.ToLower`
-- by Unicode's tables.
pub record TextFunctions : Type 0 where
  pub validate_uuid : String → Bool
  pub cast_uuid : String → Option String
  pub to_lower : String → String

-- The identifiers of a stored row have the form in which the database prints them.
pub record TeamMember : Type 0 where
  pub business_id : String
  pub principal_id : String
  pub role : String
  pub permissions : List String
  pub status : String
  pub principal_status : String

abbrev pub is_active_member : String → String → TeamMember → Bool
is_active_member business_id principal_id m =
    (m.business_id == business_id)
    && (m.principal_id == principal_id)
    && (m.status == "active")
    && (m.principal_status == "active")

unfoldable pub find_member : String → String → List TeamMember → Result RepositoryError TeamMember
find_member business_id principal_id [] = err not_found
find_member business_id principal_id (m ∷ members) =
    if is_active_member business_id principal_id m
    then ok m
    else find_member business_id principal_id members

-- The statement fails on a text that the cast does not read.
unfoldable pub find_cast :
    String → List TeamMember → Option String → Result RepositoryError TeamMember
unfolding find_member
find_cast business_id members none = err invalid
find_cast business_id members (some principal_id) = find_member business_id principal_id members

-- `ResolveActiveMember`, of the member whose UUID the text `$2::uuid` is read as.
unfoldable pub resolve_active_member :
    TextFunctions → String → String → List TeamMember → Result RepositoryError TeamMember
unfolding find_cast
resolve_active_member texts business_id principal_id members =
    find_cast business_id members (texts.cast_uuid principal_id)

-- `eligibleConversationAssignee`
unfoldable pub eligible_conversation_assignee : TeamMember → Bool
eligible_conversation_assignee m =
    let actor : ActorContext = record {
      principal_id = "";
      business_id = "";
      role = "";
      permissions = m.permissions;
    } in
    (m.status == "active")
    && can_receive_conversation_assignment m.role
    && has_permission actor permission_conversations_read
    && has_permission actor permission_conversations_reply

pub record Store : Type 0 where
  pub conversations : Map ConversationRecord
  pub labels : List LabelRow

pub record ConversationView : Type 0 where
  pub state : String
  pub ownership : String
  pub ai_mode : String
  pub priority : String
  pub assignment_reference : Option String
  pub resource_version : ℕ
  pub labels : List String
  pub can_reply : Bool
  pub can_claim : Bool
  pub can_assign : Bool
  pub can_add_note : Bool

abbrev pub string_or_empty : Option String → String
string_or_empty none = ""
string_or_empty (some text) = text

-- `conversationViewForActor`, with the labels that `viewWithLabels` adds.
unfoldable pub conversation_view_for_actor :
    ActorContext → ConversationRecord → List String → ConversationView
conversation_view_for_actor actor r labels = record {
  state = r.state;
  ownership = r.ownership;
  ai_mode = string_or_empty r.ai_mode_override;
  priority = r.priority;
  assignment_reference = if conversation_assigned r then r.assignment_reference else none;
  resource_version = r.resource_version;
  labels = labels;
  can_reply = can_reply_to_conversation actor r;
  can_claim = can_claim_conversation actor r;
  can_assign =
      can_assign_conversations actor.role
      && has_permission actor permission_conversations_assign
      && can_read_conversation actor r;
  can_add_note =
      has_permission actor permission_conversations_reply && can_read_conversation actor r;
}

pub record CommandMeta : Type 0 where
  pub actor : ActorContext
  pub expected_version : Option String

abbrev pub Answer : Type 0
Answer = Result CommandError ConversationView × Store

abbrev pub readable :
    ActorContext
    → Result RepositoryError ConversationRecord
    → Result CommandError ConversationRecord
readable actor (err e) = err (map_conversation_repository_error e)
readable actor (ok r) = if can_read_conversation actor r then ok r else err missing

-- `readInboxConversation`
unfoldable pub read_inbox_conversation :
    ActorContext → String → Map ConversationRecord → Result CommandError ConversationRecord
read_inbox_conversation actor id table =
    readable actor (get_inbox_conversation actor.business_id id (conversation_access actor) table)

-- A transaction that is rolled back when it fails.
abbrev pub settled : Store → Answer → Answer
settled before (ok view, after) = (ok view, after)
settled before (err e, after) = (err e, before)

unfoldable pub within : (Store → Answer) → Store → Answer
within body before = settled before (body before)

module _ (actor : ActorContext) (id : String) where
  -- `viewAfterChange`: the row as a supervisor reads it.
  abbrev pub shown : Store → Result RepositoryError ConversationRecord → Answer
  shown s (err e) = (err (passed_on e), s)
  shown s (ok r) =
      (ok (conversation_view_for_actor actor r (list_labels r.business_id id s.labels)), s)

  unfoldable pub view_after_change : ConversationRecord → Store → Answer
  view_after_change r s = shown s (
      get_inbox_conversation r.business_id id
        (record { principal_id = (conversation_access actor).principal_id; supervisor = true })
        s.conversations)

  -- What follows a write of the row.
  unfoldable pub after_update :
      Store → Result RepositoryError ConversationRecord × Map ConversationRecord → Answer
  unfolding view_after_change
  after_update s (err e, table) = (err (map_conversation_repository_error e), s)
  after_update s (ok r, table) =
      view_after_change r (record { conversations = table; labels = s.labels })

  unfoldable pub after_advance :
      (String → String)
      → List String
      → List String
      → Store
      → Result RepositoryError ConversationRecord × Map ConversationRecord
      → Answer
  unfolding view_after_change
  after_advance to_lower add remove s (err e, table) = (err (passed_on e), s)
  after_advance to_lower add remove s (ok r, table) = view_after_change r (record {
    conversations = table;
    labels = apply_labels actor.business_id id to_lower add remove s.labels;
  })

  -- What follows the read of the row, if that fails already.
  abbrev pub on_read :
      (ConversationRecord → Store → Answer)
      → Store
      → Result CommandError ConversationRecord
      → Answer
  on_read body s (err e) = (err e, s)
  on_read body s (ok r) = body r s

  -- The transaction of a command: it reads the row, and `body` writes it.
  unfoldable pub on_conversation : (ConversationRecord → Store → Answer) → Store → Answer
  unfolding within read_inbox_conversation
  on_conversation body =
      within λ s. on_read body s (read_inbox_conversation actor id s.conversations)
