-- ===== src/Conversations/Tests.antt =====
-- Runs of the commands on one conversation, and instances of what is proved of them.
use mujeeb24_backend_go.Common.{
  String, ◌==◌, ◌≡◌, refl, sym, if◌then◌else◌, Bool, true, false, List, [], ◌∷◌, Option, none, some,
  ok, ==_iff, Bool-cases, inl, inr, ◌||◌, ◌&&◌, not,
}
use mujeeb24_backend_go.Common.Text.{trim_space, to_lower}
use mujeeb24_backend_go.Authorization.Permissions.{has_permission, sort_strings, insert_sorted}
use mujeeb24_backend_go.Authorization.TeamRoles.{
  can_receive_conversation_assignment, can_assign_conversations, normalize_team_role,
}
use mujeeb24_backend_go.Authorization.Conversations.{
  ConversationRecord, conversation_access, conversation_assigned, can_read_conversation,
  can_reply_to_conversation, can_claim_conversation,
}
use mujeeb24_backend_go.Validation.Quantity.{codes, all_digits, digits_onto}
use mujeeb24_backend_go.Conversations.{
  lacks_fields, is_blank, satisfies_checks, of_business, find_row, write_row, update, is_visible,
  get_inbox_conversation,
}
use mujeeb24_backend_go.Conversations.Labels.{has_label, apply_labels, label_column, list_labels}
use mujeeb24_backend_go.Conversations.Labels.Exact.{names_label, has_label-apply_labels}
use mujeeb24_backend_go.Conversations.Commands.{
  TeamMember, TextFunctions, find_member, find_cast, Store, CommandMeta, ConversationView,
  parse_int, parse_business_expected_version, resolve_active_member, eligible_conversation_assignee,
  conversation_view_for_actor, read_inbox_conversation, within, view_after_change, after_update,
  on_conversation,
}
use mujeeb24_backend_go.Conversations.Handlers.{
  UpdateFields, may_assign, update_conversation, claim_conversation, assign_conversation,
  update_labels, Request, claim_body, assign_body, assign_resolved, transact, handle, respond,
  respond_all,
}
use mujeeb24_backend_go.Conversations.Stale.{FailsWith, handle-FailsWith}
use mujeeb24_backend_go.Conversations.Writes.{Guarded}
use mujeeb24_backend_go.Conversations.Guarded.{handle-Guarded}
use mujeeb24_backend_go.Conversations.Sound.{is_sound, IsSound, respond_all-IsSound}
use mujeeb24_backend_go.Conversations.Fresh.{Refused, respond-once}
use mujeeb24_backend_go.Conversations.Takeover.{IsAnswerable}
use mujeeb24_backend_go.Conversations.Answer.{
  IsAssigned, member_actor, claim-IsAnswerable, assign-IsAssigned,
}

abbrev rights : List String
rights = "conversations:read" ∷ "conversations:reply" ∷ "conversations:assign" ∷ []

abbrev ali : CommandMeta
ali = record {
  actor = record { principal_id = "ali"; business_id = "b1"; role = "agent"; permissions = rights };
  expected_version = some "7";
}

abbrev sara : TeamMember
sara = record {
  business_id = "b1";
  principal_id = "sara";
  role = "Agent";
  permissions = rights;
  status = "active";
  principal_status = "active";
}

abbrev open_row : ConversationRecord
open_row = record {
  business_id = "b1";
  ownership = "ai";
  state = "open";
  ai_mode_override = none;
  priority = "normal";
  assignment_reference = none;
  resource_version = 7;
}

abbrev inbox : Store
inbox = record {
  conversations = ("c1", open_row) ∷ [];
  labels = record { business_id = "b1"; conversation_id = "c1"; label = "old" } ∷ [];
}

abbrev taken_row : String → ConversationRecord
taken_row person = record open_row {
  state = "human_handling";
  ownership = "human";
  ai_mode_override = some "disabled";
  assignment_reference = some person;
  resource_version = 8;
}

abbrev taken_inbox : String → Store
taken_inbox person = record inbox { conversations = ("c1", taken_row person) ∷ [] }

-- A function that accepts the identifiers of the samples only, in small letters or in capitals.
abbrev is_sample : String → Bool
is_sample text = (text == "ali") || (text == "sara") || (text == "SARA")

abbrev cast_sample : String → Option String
cast_sample text = if text == "SARA" then some "sara" else if text == "" then none else some text

abbrev samples : TextFunctions
samples = record { validate_uuid = is_sample; cast_uuid = cast_sample; to_lower = to_lower }

abbrev claimed_view : ConversationView
claimed_view = record {
  state = "human_handling";
  ownership = "human";
  ai_mode = "disabled";
  priority = "normal";
  assignment_reference = some "ali";
  resource_version = 8;
  labels = "old" ∷ [];
  can_reply = true;
  can_claim = false;
  can_assign = true;
  can_add_note = true;
}

abbrev team : List TeamMember
team = sara ∷ []

claim_test :
    handle samples team ali "c1" claim_conversation inbox ≡ (ok claimed_view, taken_inbox "ali")
unfolding handle transact parse_business_expected_version parse_int codes all_digits digits_onto
    on_conversation within read_inbox_conversation get_inbox_conversation find_row of_business
    is_visible is_blank can_read_conversation conversation_access conversation_assigned
    has_permission claim_body can_claim_conversation update write_row satisfies_checks after_update
    view_after_change conversation_view_for_actor can_reply_to_conversation can_assign_conversations
    can_receive_conversation_assignment normalize_team_role trim_space to_lower list_labels
    label_column sort_strings insert_sorted
claim_test = refl

abbrev assigned_view : ConversationView
assigned_view = record claimed_view {
  assignment_reference = some "sara";
  can_reply = false;
  can_assign = false;
  can_add_note = false;
}

-- Who assigns a conversation to somebody else may no longer read it.
assign_test :
    handle samples team ali "c1" (assign_conversation " sara ") inbox
    ≡ (ok assigned_view, taken_inbox "sara")
unfolding handle transact parse_business_expected_version parse_int codes all_digits digits_onto
    on_conversation within read_inbox_conversation get_inbox_conversation find_row of_business
    is_visible is_blank can_read_conversation conversation_access conversation_assigned
    has_permission assign_body assign_resolved resolve_active_member find_cast find_member
    eligible_conversation_assignee can_claim_conversation update write_row satisfies_checks
    after_update view_after_change conversation_view_for_actor can_reply_to_conversation
    can_assign_conversations can_receive_conversation_assignment normalize_team_role trim_space
    to_lower list_labels label_column sort_strings insert_sorted
assign_test = refl

abbrev capital_view : ConversationView
capital_view = record assigned_view { assignment_reference = some "SARA" }

-- The text of a UUID is stored as it was sent, so whom it names cannot answer when it is sent in capitals.
capital_test :
    handle samples team ali "c1" (assign_conversation " SARA ") inbox
    ≡ (ok capital_view, taken_inbox "SARA")
unfolding handle transact parse_business_expected_version parse_int codes all_digits digits_onto
    on_conversation within read_inbox_conversation get_inbox_conversation find_row of_business
    is_visible is_blank can_read_conversation conversation_access conversation_assigned
    has_permission assign_body assign_resolved resolve_active_member find_cast find_member
    eligible_conversation_assignee can_claim_conversation update write_row satisfies_checks
    after_update view_after_change conversation_view_for_actor can_reply_to_conversation
    can_assign_conversations can_receive_conversation_assignment normalize_team_role trim_space
    to_lower list_labels label_column sort_strings insert_sorted
capital_test = refl

capital_reply_test :
    can_reply_to_conversation (member_actor samples team ali "c1" sara) (taken_row "SARA") ≡ false
unfolding can_reply_to_conversation can_read_conversation conversation_access conversation_assigned
    has_permission trim_space to_lower
capital_reply_test = refl

abbrev claim_request : Request
claim_request = record {
  members = team;
  about = ali;
  conversation_id = "c1";
  command = claim_conversation;
}

abbrev label_request : Request
label_request = record claim_request {
  about = record ali { expected_version = some "8" };
  command = update_labels (" New" ∷ []) ("OLD" ∷ []);
}

handle-Guarded_example :
    Guarded ali "c1" inbox (handle samples team ali "c1" (assign_conversation " sara ") inbox)
handle-Guarded_example = handle-Guarded ali "c1" samples team (assign_conversation " sara ") inbox

inbox-IsSound : IsSound inbox.conversations
unfolding IsSound is_sound satisfies_checks is_blank codes
inbox-IsSound = (refl, tt)

respond_all-IsSound_example :
    IsSound (respond_all samples (claim_request ∷ label_request ∷ []) inbox).conversations
respond_all-IsSound_example =
    respond_all-IsSound samples (claim_request ∷ label_request ∷ []) inbox inbox-IsSound

respond-once_example :
    Refused
      (respond_all samples (label_request ∷ []) (taken_inbox "ali"))
      (respond samples claim_request (respond_all samples (label_request ∷ []) (taken_inbox "ali")))
unfolding respond
respond-once_example =
    respond-once samples claim_request inbox claimed_view (taken_inbox "ali") (label_request ∷ [])
      claim_request claim_test refl refl

ali_trimmed : trim_space "ali" ≡ "ali"
unfolding trim_space
ali_trimmed = refl

claim-IsAnswerable_example : IsAnswerable ali.actor "c1" (taken_inbox "ali").conversations
claim-IsAnswerable_example =
    claim-IsAnswerable samples team ali "c1" inbox claimed_view (taken_inbox "ali") ali_trimmed
      claim_test

sample-trimmed : (t : String) → is_sample t ≡ true → (trim_space t ≡ t) × ((t == "") ≡ false)
unfolding trim_space
sample-trimmed t h = elim (Bool-cases (t == "ali")) [
  | inl y ↦ rw ((==_iff t "ali").0 y) (refl, refl)
  | inr n ↦ elim (Bool-cases (t == "sara")) [
    | inl y ↦ rw ((==_iff t "sara").0 y) (refl, refl)
    | inr n' ↦ rw ((==_iff t "SARA").0 (rw (n, n') at h)) (refl, refl)
  ]
]

cast-given : (t u : String) → cast_sample t ≡ some u → (u == "") ≡ false
cast-given t u h = elim (Bool-cases (t == "SARA")) [
  | inl y ↦ let e : "sara" ≡ u = some_injective (rw y at h) in rw (sym e) refl
  | inr n ↦ elim (Bool-cases (t == "")) [
    | inl y ↦ cc (rw (n, y) at h)
    | inr given ↦ let e : t ≡ u = some_injective (rw (n, given) at h) in rw (sym e) given
  ]
]
  where
    some_injective : {a b : String} → ◌≡◌ {A = Option String} (some a) (some b) → a ≡ b
    some_injective e = cc

assign-IsAssigned_example :
    IsAssigned samples team ali "c1" (trim_space " SARA ") (taken_inbox "SARA")
assign-IsAssigned_example =
    assign-IsAssigned samples team ali "c1" sample-trimmed cast-given " SARA " inbox capital_view
      (taken_inbox "SARA") capital_test

has_label-apply_labels_example :
    has_label "b1" "c1" "new"
      (apply_labels "b1" "c1" to_lower (" New" ∷ "new" ∷ []) ("OLD" ∷ []) inbox.labels)
    ≡ ((("b1" == "b1")
          && ("c1" == "c1")
          && not ("new" == "")
          && names_label to_lower "new" (" New" ∷ "new" ∷ []))
        || (has_label "b1" "c1" "new" inbox.labels
            && not (
                ("b1" == "b1")
                && ("c1" == "c1")
                && not ("new" == "")
                && names_label to_lower "new" ("OLD" ∷ []))))
has_label-apply_labels_example =
    has_label-apply_labels to_lower "b1" "c1" (" New" ∷ "new" ∷ []) ("OLD" ∷ []) inbox.labels "b1"
      "c1" "new"

abbrev late : CommandMeta
late = record ali { expected_version = some "6" }

late-reads :
    (read_inbox_conversation late.actor "c1" inbox.conversations ≡ ok open_row)
    × (parse_business_expected_version late.expected_version ≡ ok 6)
    × (may_assign late.actor ≡ true)
    × (can_claim_conversation late.actor open_row ≡ true)
    × (lacks_fields late.actor.business_id "c1" 6 ≡ false)
unfolding parse_business_expected_version parse_int codes all_digits digits_onto
    read_inbox_conversation get_inbox_conversation find_row of_business is_visible is_blank
    can_read_conversation conversation_access conversation_assigned has_permission
    can_claim_conversation can_assign_conversations can_receive_conversation_assignment
    normalize_team_role trim_space to_lower
late-reads = (refl, refl, refl, refl, refl)

abbrev closing : UpdateFields
closing = record {
  state = some "closed";
  ownership = none;
  ai_mode_override = none;
  priority = none;
}

handle-FailsWith_example :
    FailsWith 409 inbox (handle samples team late "c1" (update_conversation closing) inbox)
    × FailsWith 409 inbox (handle samples team late "c1" claim_conversation inbox)
    × FailsWith 500 inbox (handle samples team late "c1" (update_labels ("new" ∷ []) []) inbox)
handle-FailsWith_example =
    handle-FailsWith samples team late "c1" inbox open_row 6 late-reads.0 late-reads.1 refl
      late-reads.4 closing late-reads.2 refl late-reads.3 ("new" ∷ []) [] refl
