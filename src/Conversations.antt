-- ===== src/Conversations.antt =====
-- The table of conversations: the statements of adapters/secondary/persistence/postgres/
-- conversation_runtime_repository.go and conversation_inbox_repository.go that the commands on a
-- conversation use, with the checks of migrations/000008 and 000043.
-- The table is keyed by the identifier, its primary key. Identifiers of rows are UUIDs as the database
-- prints them and are compared as texts; the assignee is a column of text, which the rules compare.
-- The statements themselves succeed. A row that is locked is written by one command at a time, so
-- the commands follow one another. Columns that are only shown are left out.
pub mod Labels
pub mod Commands
pub mod Handlers
mod Writes
pub mod Guarded
pub mod Sound
pub mod Fresh
pub mod Stale
pub mod Takeover
pub mod Answer
mod Tests
use mujeeb24_backend_go.Common.{
  ℕ, ◌+◌, String, ◌==◌, Bool, true, false, ◌&&◌, ◌||◌, not, List, [], ◌∷◌, Option, none, some,
  Result, ok, err, Map, lookup, assign, ltb, eqb, has, if◌then◌else◌,
}
use mujeeb24_backend_go.Common.Text.{trim_space}
use mujeeb24_backend_go.Authorization.Conversations.{
  ConversationRecord, ConversationAccess, is_assignee,
}
use mujeeb24_backend_go.Validation.Quantity.{codes}

-- The kinds of `RepositoryError`.
pub data RepositoryError : Type 0 where
  not_found stale conflict invalid : RepositoryError

pub record ConversationUpdate : Type 0 where
  pub business_id : String
  pub conversation_id : String
  pub expected_version : ℕ
  pub state : Option String
  pub ownership : Option String
  pub ai_mode_override : Option String
  pub priority : Option String
  pub assignment_reference : Option String

-- `nilIfBlank`
abbrev pub nil_if_blank : Option String → Option String
nil_if_blank none = none
nil_if_blank (some value) = if trim_space value == "" then none else some (trim_space value)

abbrev pub coalesce : Option String → String → String
coalesce none column = column
coalesce (some value) column = value

abbrev pub coalesce_null : Option String → Option String → Option String
coalesce_null none column = column
coalesce_null (some value) column = some value

-- `btrim(value) = ''`: nothing but spaces.
abbrev pub only_spaces : List ℕ → Bool
only_spaces [] = true
only_spaces (c ∷ s) = eqb c b' ' && only_spaces s

unfoldable pub is_blank : String → Bool
unfolding codes
is_blank s = only_spaces (codes s)

abbrev pub is_null_or : (String → Bool) → Option String → Bool
is_null_or test none = true
is_null_or test (some value) = test value

abbrev pub states : List String
states =
    "open" ∷ "ai_handling" ∷ "waiting_customer" ∷ "waiting_human" ∷ "human_handling" ∷ "closed" ∷ []

-- The CHECK constraints of the table.
unfoldable pub satisfies_checks : ConversationRecord → Bool
unfolding is_blank
satisfies_checks r =
    has r.state states
    && has r.ownership ("none" ∷ "ai" ∷ "human" ∷ [])
    && is_null_or (λ mode. has mode ("allowed" ∷ "draft_only" ∷ "disabled" ∷ [])) r.ai_mode_override
    && has r.priority ("low" ∷ "normal" ∷ "high" ∷ "urgent" ∷ [])
    && is_null_or (λ reference. not (is_blank reference)) r.assignment_reference
    && ltb 0 r.resource_version

-- `WHERE business_id = $1 AND id = $2`
unfoldable pub of_business : String → Option ConversationRecord → Option ConversationRecord
of_business business_id none = none
of_business business_id (some r) = if r.business_id == business_id then some r else none

unfoldable pub find_row : String → String → Map ConversationRecord → Option ConversationRecord
unfolding of_business
find_row business_id id table = of_business business_id (lookup id table)

-- UPDATE … WHERE … AND resource_version = $3 RETURNING …, and the read that classifies the failure.
unfoldable pub write_row :
    (ConversationRecord → ConversationRecord)
    → String
    → ℕ
    → Map ConversationRecord
    → Option ConversationRecord
    → Result RepositoryError ConversationRecord × Map ConversationRecord
write_row set id expected table none = (err not_found, table)
write_row set id expected table (some r) =
    if eqb r.resource_version expected
    then (if satisfies_checks (set r)
        then (ok (set r), assign id (set r) table)
        else (err invalid, table))
    else (err stale, table)

-- The SET clause of Update.
abbrev pub set_update : ConversationUpdate → ConversationRecord → ConversationRecord
set_update u r = record r {
  state = coalesce (nil_if_blank u.state) r.state;
  ownership = coalesce (nil_if_blank u.ownership) r.ownership;
  ai_mode_override = coalesce_null (nil_if_blank u.ai_mode_override) r.ai_mode_override;
  priority = coalesce (nil_if_blank u.priority) r.priority;
  assignment_reference =
      if coalesce (nil_if_blank u.ownership) r.ownership == "human"
      then coalesce_null (nil_if_blank u.assignment_reference) r.assignment_reference
      else none;
  resource_version = r.resource_version + 1;
}

-- The SET clause of AdvanceVersion.
abbrev pub set_version : ConversationRecord → ConversationRecord
set_version r = record r { resource_version = r.resource_version + 1 }

abbrev pub is_nil : Option String → Bool
is_nil none = true
is_nil (some _) = false

abbrev pub lacks_fields : String → String → ℕ → Bool
lacks_fields business_id id expected =
    (trim_space business_id == "") || (trim_space id == "") || eqb expected 0

abbrev pub changes_nothing : ConversationUpdate → Bool
changes_nothing u =
    is_nil u.state
    && is_nil u.ownership
    && is_nil u.ai_mode_override
    && is_nil u.priority
    && is_nil u.assignment_reference

-- `Update`
unfoldable pub update :
    ConversationUpdate
    → Map ConversationRecord
    → Result RepositoryError ConversationRecord × Map ConversationRecord
unfolding write_row find_row
update u table =
    if lacks_fields u.business_id u.conversation_id u.expected_version || changes_nothing u
    then (err invalid, table)
    else write_row (set_update u) u.conversation_id u.expected_version table
        (find_row u.business_id u.conversation_id table)

-- `AdvanceVersion`
unfoldable pub advance_version :
    String
    → String
    → ℕ
    → Map ConversationRecord
    → Result RepositoryError ConversationRecord × Map ConversationRecord
unfolding write_row find_row
advance_version business_id id expected table =
    if lacks_fields business_id id expected
    then (err invalid, table)
    else write_row set_version id expected table (find_row business_id id table)

-- `activeConversationAssignment`
abbrev pub is_active_assignment : ConversationRecord → Bool
is_active_assignment r =
    (r.ownership == "human")
    && not (is_null_or (λ reference. is_blank reference) r.assignment_reference)

-- `inboxVisibility`
unfoldable pub is_visible : ConversationAccess → ConversationRecord → Bool
is_visible access r =
    access.supervisor
    || not (is_active_assignment r)
    || is_assignee r.assignment_reference access.principal_id

abbrev pub visible_row :
    ConversationAccess → Option ConversationRecord → Result RepositoryError ConversationRecord
visible_row access none = err not_found
visible_row access (some r) = if is_visible access r then ok r else err not_found

-- `GetInboxConversation`
unfoldable pub get_inbox_conversation :
    String
    → String
    → ConversationAccess
    → Map ConversationRecord
    → Result RepositoryError ConversationRecord
unfolding find_row is_visible
get_inbox_conversation business_id id access table =
    visible_row access (find_row business_id id table)
