-- ===== src/Authorization/Conversations/Claim.antt =====
-- What the rules on conversations promise to one another.
use mujeeb24_backend_go.Common.{◌==◌, ==_iff, ◌≡◌, refl, true, false, some, arith}
use mujeeb24_backend_go.Common.Text.{trim_space}
use mujeeb24_backend_go.Authorization.Permissions.{ActorContext}
use mujeeb24_backend_go.Authorization.Conversations.{
  ConversationRecord, conversation_assigned, can_read_conversation, can_reply_to_conversation,
  can_claim_conversation,
}

-- The conversation once the actor has claimed it.
abbrev pub claimed : ActorContext → ConversationRecord → ConversationRecord
claimed actor r = record r { ownership = "human"; assignment_reference = some actor.principal_id }

-- Who may claim a conversation may answer it afterwards, if his identifier is not blank.
pub claim-reply :
    (actor : ActorContext) (r : ConversationRecord)
    → (trim_space actor.principal_id == "") ≡ false
    → can_claim_conversation actor r ≡ true
    → can_reply_to_conversation actor (claimed actor r) ≡ true
unfolding can_claim_conversation can_reply_to_conversation can_read_conversation
    conversation_assigned
claim-reply actor r named h = ground (arith, (==_iff actor.principal_id actor.principal_id).1 refl)
