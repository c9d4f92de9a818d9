-- ===== src/Conversations/Answer.antt =====
-- A person who takes a conversation over, or to whom it is assigned, can answer it.
use mujeeb24_backend_go.Common.{
  ℕ, String, ◌==◌, ==_iff, ◌≡◌, refl, sym, ap, ◌∙◌, subst, true, false, ◌||◌, List, [], ◌∷◌, lookup,
  assign, Option, none, some, ok, err, Result, arith, if-cases, Bool-cases, inl, inr, In,
}
use mujeeb24_backend_go.Validation.Evidence.Sound.{&&-both}
use mujeeb24_backend_go.Common.Text.{trim_space}
use mujeeb24_backend_go.Authorization.Permissions.{
  ActorContext, has_permission, permission_conversations_read, permission_conversations_reply,
}
use mujeeb24_backend_go.Authorization.Conversations.{
  ConversationRecord, conversation_access, can_read_conversation, can_reply_to_conversation,
  can_claim_conversation,
}
use mujeeb24_backend_go.Conversations.{RepositoryError, set_update}
use mujeeb24_backend_go.Conversations.Commands.{
  ConversationView, TeamMember, TextFunctions, is_active_member, find_member, find_cast,
  CommandMeta, Store, parse_business_expected_version, resolve_active_member,
  eligible_conversation_assignee, on_conversation,
}
use mujeeb24_backend_go.Conversations.Handlers.{
  assign_conversation, claim_conversation, may_assign, takeover, claim_body, assign_body,
  assign_resolved, assign_tested, transact, handle,
}
use mujeeb24_backend_go.Conversations.Writes.{Committed, update-Committed}
use mujeeb24_backend_go.Conversations.Takeover.{
  IsAnswerable, on_conversation-Committed, with_version-Committed, committed_lem,
  takeover-IsAnswerable, taken, set_takeover-taken, taken-answers, lookup-taken,
}

module _ (texts : TextFunctions) (members : List TeamMember) (m : CommandMeta) (id : String) where
  claim-rights :
      (actor : ActorContext) (r : ConversationRecord)
      → can_claim_conversation actor r ≡ true
      → ((actor.principal_id == "") ≡ false)
        × (has_permission actor permission_conversations_read ≡ true)
        × (has_permission actor permission_conversations_reply ≡ true)
  unfolding can_claim_conversation can_read_conversation
  claim-rights actor r h = (ground arith, ground arith, ground arith)

  -- After a claim that succeeds, of a person whose identifier has no space around it, the conversation is
  -- handled by him, the AI is turned off in it, and he may answer it.
  pub claim-IsAnswerable :
      (s : Store) (view : ConversationView) (after : Store)
      → trim_space m.actor.principal_id ≡ m.actor.principal_id
      → handle texts members m id claim_conversation s ≡ (ok view, after)
      → IsAnswerable m.actor id after.conversations
  unfolding handle transact claim_body Committed
  claim-IsAnswerable s view after trimmed done =
      committed_lem Q m id s (handle texts members m id claim_conversation s) view after done (
        with_version-Committed Q m id s
          (λ version. on_conversation m.actor id (claim_body texts members m id version))
          (parse_business_expected_version m.expected_version)
          (λ version.
            on_conversation-Committed Q m id s (claim_body texts members m id version)
              (λ r found own.
                if-cases (can_claim_conversation m.actor r) _ _ (Committed Q)
                  (λ claims.
                    let rights = claim-rights m.actor r claims in
                    update-Committed m id s r found version Q
                      (takeover texts members m id r.business_id m.actor.principal_id version) refl
                      (λ _ _.
                        takeover-IsAnswerable texts members m id m.actor s r version found trimmed
                          (sym own) rights.0 rights.1 rights.2))
                  (λ _. tt))))
    where
      Q : Store → Type 0
      Q = λ after. IsAnswerable m.actor id after.conversations

  -- The member as the rules see him once he has signed in.
  abbrev pub member_actor : TeamMember → ActorContext
  member_actor member = record {
    principal_id = member.principal_id;
    business_id = member.business_id;
    role = member.role;
    permissions = member.permissions;
  }

  -- The active member of the team whose UUID the text is read as.
  pub record IsResolved (assignment : String) (member : TeamMember) : Type 0 where
    pub listed : In member members
    pub own : member.business_id ≡ m.actor.business_id
    pub named : texts.cast_uuid assignment ≡ some member.principal_id
    pub active : member.status ≡ "active"
    pub principal_active : member.principal_status ≡ "active"

  -- The team has the member, and the conversation is handled under the text of his identifier.
  pub record IsAssigned (assignment : String) (after : Store) : Type 0 where
    pub member : TeamMember
    pub resolved : IsResolved assignment member
    pub held : ConversationRecord
    pub found : lookup id after.conversations ≡ some held
    pub handled : held.state ≡ "human_handling"
    pub disabled : held.ai_mode_override ≡ some "disabled"
    pub assigned : held.assignment_reference ≡ some assignment
    pub answers : can_reply_to_conversation (member_actor member) held ≡ (
        (conversation_access (member_actor member)).supervisor
        || (assignment == member.principal_id))

  find_member-IsResolved :
      (b assignment u : String) (ms : List TeamMember) (member : TeamMember)
      → find_member b u ms ≡ ok member
      → In member ms
        × (member.business_id ≡ b)
        × (member.principal_id ≡ u)
        × (member.status ≡ "active")
        × (member.principal_status ≡ "active")
  unfolding find_member
  find_member-IsResolved b assignment u [] member h = cc
  find_member-IsResolved b assignment u (x ∷ ms) member h =
      elim (Bool-cases (is_active_member b u x)) [
        | inr n ↦
            let f = find_member-IsResolved b assignment u ms member (rw n at h) in
            (inr f.0, f.1, f.2, f.3, f.4)
        | inl y ↦
            let same : x ≡ member = first (rw y at h) in
            let z = &&-both _ (x.principal_status == "active") y in
            let w = &&-both _ (x.status == "active") z.0 in
            let v = &&-both (x.business_id == b) (x.principal_id == u) w.0 in
            subst
              (λ (r : TeamMember).
                In r (x ∷ ms)
                × (r.business_id ≡ b)
                × (r.principal_id ≡ u)
                × (r.status ≡ "active")
                × (r.principal_status ≡ "active"))
              same
              (
                inl refl,
                (==_iff x.business_id b).0 v.0,
                (==_iff x.principal_id u).0 v.1,
                (==_iff x.status "active").0 w.1,
                (==_iff x.principal_status "active").0 z.1,
              )
      ]
    where
      first : ◌≡◌ {A = Result RepositoryError TeamMember} (ok x) (ok member) → x ≡ member
      first e = cc

  resolve-IsResolved :
      (assignment : String) (member : TeamMember)
      → resolve_active_member texts m.actor.business_id assignment members ≡ ok member
      → IsResolved assignment member
  unfolding resolve_active_member find_cast
  resolve-IsResolved assignment member h = by_cast (texts.cast_uuid assignment) refl h
    where
      by_cast :
          (o : Option String)
          → texts.cast_uuid assignment ≡ o
          → find_cast m.actor.business_id members o ≡ ok member
          → IsResolved assignment member
      by_cast none e f = cc
      by_cast (some u) e f =
          let x = find_member-IsResolved m.actor.business_id assignment u members member f in
          record {
            listed = x.0;
            own = x.1;
            named = e ∙ ap some (sym x.2);
            active = x.3;
            principal_active = x.4;
          }

  eligible-rights :
      (member : TeamMember)
      → eligible_conversation_assignee member ≡ true
      → (has_permission (member_actor member) permission_conversations_read ≡ true)
        × (has_permission (member_actor member) permission_conversations_reply ≡ true)
  unfolding eligible_conversation_assignee has_permission
  eligible-rights member h = (ground arith, ground arith)

  taken-IsAssigned :
      (assignment : String) (s : Store) (r : ConversationRecord) (member : TeamMember) (version : ℕ)
      → r.business_id ≡ m.actor.business_id
      → trim_space assignment ≡ assignment
      → (assignment == "") ≡ false
      → (member.principal_id == "") ≡ false
      → eligible_conversation_assignee member ≡ true
      → IsResolved assignment member
      → IsAssigned assignment (record {
        conversations =
            assign id
              (set_update (takeover texts members m id m.actor.business_id assignment version) r)
              s.conversations;
        labels = s.labels;
      })
  taken-IsAssigned assignment s r member version own trimmed filled given eligible resolved =
      let rights = eligible-rights member eligible in
      rw
        (set_takeover-taken texts members m id m.actor.business_id assignment r version trimmed
          filled)
        (record {
          member = member;
          resolved = resolved;
          held = taken assignment r;
          found = lookup-taken id assignment r s.conversations;
          handled = refl;
          disabled = refl;
          assigned = refl;
          answers =
              taken-answers (member_actor member) assignment r trimmed filled
                (resolved.own ∙ sym own) given rights.0 rights.1;
        })

  assign_body-IsAssigned :
      ((t u : String) → texts.cast_uuid t ≡ some u → (u == "") ≡ false)
      → (assignment : String) (s : Store) (r : ConversationRecord) (version : ℕ)
      → lookup id s.conversations ≡ some r
      → r.business_id ≡ m.actor.business_id
      → trim_space assignment ≡ assignment
      → (assignment == "") ≡ false
      → Committed (IsAssigned assignment) (assign_body texts members m id assignment version r s)
  unfolding assign_body assign_resolved Committed
  assign_body-IsAssigned cast assignment s r version found own trimmed filled =
      by_member (resolve_active_member texts m.actor.business_id assignment members) refl
    where
      by_member :
          (o : Result RepositoryError TeamMember)
          → resolve_active_member texts m.actor.business_id assignment members ≡ o
          → Committed
              (IsAssigned assignment)
              (assign_resolved texts members m id assignment version s o)
      by_member (err e) h = tt
      by_member (ok member) h =
          if-cases (eligible_conversation_assignee member) _ _ (Committed (IsAssigned assignment))
            (λ eligible.
              let resolved = resolve-IsResolved assignment member h in
              update-Committed m id s r found version (IsAssigned assignment)
                (takeover texts members m id m.actor.business_id assignment version) own
                (λ _ _.
                  taken-IsAssigned assignment s r member version own trimmed filled
                    (cast assignment member.principal_id resolved.named) eligible resolved))
            (λ _. tt)

  -- After an assignment that succeeds, the text of the assignee, without the space around it, is read as the
  -- UUID of an active member of the team; the conversation is handled under that text, and the AI is turned
  -- off in it; and once the member signs in, he may answer it exactly if he supervises or the text is his
  -- identifier as the database prints it. A text that is accepted as a UUID is not empty and has no space
  -- around it, and no UUID is printed as an empty text.
  pub assign-IsAssigned :
      ((t : String) → texts.validate_uuid t ≡ true → (trim_space t ≡ t) × ((t == "") ≡ false))
      → ((t u : String) → texts.cast_uuid t ≡ some u → (u == "") ≡ false)
      → (assignee : String) (s : Store) (view : ConversationView) (after : Store)
      → handle texts members m id (assign_conversation assignee) s ≡ (ok view, after)
      → IsAssigned (trim_space assignee) after
  unfolding handle Committed
  assign-IsAssigned uuid cast assignee s view after done =
      committed_lem Q m id s (handle texts members m id (assign_conversation assignee) s) view after
        done
        (if-cases (may_assign m.actor) _ _ (Committed Q)
          (λ _.
            with_version-Committed Q m id s (assign_tested texts members m id (trim_space assignee))
              (parse_business_expected_version m.expected_version) (tested (trim_space assignee)))
          (λ _. tt))
    where
      Q : Store → Type 0
      Q = IsAssigned (trim_space assignee)

      tested :
          (assignment : String) (version : ℕ)
          → Committed
              (IsAssigned assignment)
              (assign_tested texts members m id assignment version s)
      tested assignment version =
          if-cases (texts.validate_uuid assignment) _ _ (Committed (IsAssigned assignment))
            (λ valid.
              let text = uuid assignment valid in
              on_conversation-Committed (IsAssigned assignment) m id s
                (assign_body texts members m id assignment version)
                (λ r found own.
                  assign_body-IsAssigned cast assignment s r version found own text.0 text.1))
            (λ _. tt)
