-- ===== src/Conversations/Guarded.antt =====
-- What a command that succeeds has checked, and what it leaves alone.
use mujeeb24_backend_go.Common.{
  ℕ, String, ◌≡◌, refl, true, some, Result, ok, err, lookup, if-cases, List,
}
use mujeeb24_backend_go.Authorization.Conversations.{ConversationRecord, can_read_conversation}
use mujeeb24_backend_go.Conversations.Commands.{
  CommandError, TeamMember, Store, CommandMeta, TextFunctions, Answer,
  parse_business_expected_version, read_inbox_conversation, within, on_read, on_conversation,
}
use mujeeb24_backend_go.Conversations.Handlers.{
  Command, update_conversation, assign_conversation, claim_conversation, update_labels, may_assign,
  with_version, update_body, assign_body, claim_body, labels_body, transact, assign_tested,
  lacks_labels, handle,
}
use mujeeb24_backend_go.Common.Text.{trim_space}
use mujeeb24_backend_go.Conversations.Writes.{
  Written, Committed, Guarded, settled-Guarded, read-found, update_body-Written,
  labels_body-Written, claim_body-Written, assign_body-Written,
}

module _ (m : CommandMeta) (id : String) where
  -- The transaction of a body that writes what it read.
  on_conversation-Guarded :
      (body : ConversationRecord → Store → Answer) (s : Store)
      → ((r : ConversationRecord)
          → lookup id s.conversations ≡ some r
          → r.business_id ≡ m.actor.business_id
          → can_read_conversation m.actor r ≡ true
          → Written m id s (body r s))
      → Guarded m id s (on_conversation m.actor id body s)
  unfolding on_conversation within Committed
  on_conversation-Guarded body s ends =
      settled-Guarded m id s _ (by_read (read_inbox_conversation m.actor id s.conversations) refl)
    where
      by_read :
          (o : Result CommandError ConversationRecord)
          → read_inbox_conversation m.actor id s.conversations ≡ o
          → Written m id s (on_read m.actor id body s o)
      by_read (err e) h = tt
      by_read (ok r) h = let f = read-found m.actor id s.conversations r h in ends r f.0 f.1 f.2

  with_version-Guarded :
      (body : ℕ → Store → Answer) (s : Store)
      → ((version : ℕ)
          → parse_business_expected_version m.expected_version ≡ ok version
          → Guarded m id s (body version s))
      → Guarded m id s (with_version body s (parse_business_expected_version m.expected_version))
  unfolding Guarded
  with_version-Guarded body s ends =
      by_version (parse_business_expected_version m.expected_version) refl
    where
      by_version :
          (o : Result CommandError ℕ)
          → parse_business_expected_version m.expected_version ≡ o
          → Guarded m id s (with_version body s o)
      by_version (err e) h = refl
      by_version (ok version) h = ends version h

  module _ (texts : TextFunctions) (members : List TeamMember) where
    transact-Guarded :
        (body : ℕ → ConversationRecord → Store → Answer) (s : Store)
        → ((r : ConversationRecord)
            → lookup id s.conversations ≡ some r
            → r.business_id ≡ m.actor.business_id
            → can_read_conversation m.actor r ≡ true
            → (version : ℕ) → parse_business_expected_version m.expected_version ≡ ok version
            → Written m id s (body version r s))
        → Guarded m id s (transact texts members m id body s)
    unfolding transact
    transact-Guarded body s ends =
        with_version-Guarded (λ version. on_conversation m.actor id (body version)) s
          (λ version named.
            on_conversation-Guarded (body version) s
              (λ r found own read. ends r found own read version named))

    -- A command changes nothing if it fails. If it succeeds, it has changed one conversation only: that of
    -- its identifier, which belongs to the actor's business, which he may read, and whose version he named;
    -- its business is still the same, its version is the next one, the constraints of the table hold of it,
    -- and it is assigned to nobody unless a human owns it, if that was so before; and every other conversation
    -- has the labels that it had.
    pub handle-Guarded : (c : Command) (s : Store) → Guarded m id s (handle texts members m id c s)
    unfolding handle Guarded
    handle-Guarded (update_conversation f) s =
        if-cases (may_assign m.actor) _ _ (Guarded m id s)
          (λ _.
            transact-Guarded (update_body texts members m id f) s (λ r found own read version named.
              update_body-Written m id s r found own read version named texts members f))
          (λ _. refl)
    handle-Guarded (assign_conversation assignee) s =
        if-cases (may_assign m.actor) _ _ (Guarded m id s)
          (λ _.
            with_version-Guarded (assign_tested texts members m id (trim_space assignee)) s
              (tested (trim_space assignee)))
          (λ _. refl)
      where
        tested :
            (assignment : String) (version : ℕ)
            → parse_business_expected_version m.expected_version ≡ ok version
            → Guarded m id s (assign_tested texts members m id assignment version s)
        tested assignment version named =
            if-cases (texts.validate_uuid assignment) _ _ (Guarded m id s)
              (λ _.
                on_conversation-Guarded (assign_body texts members m id assignment version) s
                  (λ r found own read.
                    assign_body-Written m id s r found own read version named texts members
                      assignment))
              (λ _. refl)
    handle-Guarded claim_conversation s =
        transact-Guarded (claim_body texts members m id) s (λ r found own read version named.
          claim_body-Written m id s r found own read version named texts members)
    handle-Guarded (update_labels add remove) s =
        if-cases (lacks_labels texts members m id add remove) _ _ (Guarded m id s) (λ _. refl)
          (λ _.
            transact-Guarded (labels_body texts members m id add remove) s
              (λ r found own read version named.
                labels_body-Written m id s r found own read version named texts members add remove))
