-- ===== src/Outbox/Processor/Ends.antt =====
-- An entry that is processed in time ends.
use mujeeb24_backend_go.Common.{
  ℕ, ◌≤◌, ◌<◌, String, ◌==◌, ==_iff, ◌≡◌, ◌≢◌, refl, ap, ◌∙◌, subst, Bool, true, false, List, [],
  ◌∷◌, Option, none, some, Result, ok, err, Map, lookup, assign, lookup-assign, arith, if-cases,
  if◌then◌else◌, Bool-cases, ◌⊎◌, inl, inr, length, eqb,
}
use Prim.Native.String.{◌++◌ as append}
use text.Mathlib.TextLemmas.{append-ne-nil_of_right_ne-nil}
use mujeeb24_backend_go.Common.Text.{trim_space}
use mujeeb24_backend_go.Outbox.{
  completed, dead_letter, OutboxEntry, OutboxLease, invalid_input, is_claimable, set_lease,
  is_invalid_lease, write_row, update_row, claim_result, claim, mutation_result, holds_lease,
  update_with_lease, mark_completed, move_to_dead_letter,
}
use mujeeb24_backend_go.Outbox.Processor.{
  ResolveError, mapping_missing, required_catalog_media_unavailable, ProcessError, OutboxProcessor,
  Moment, Processed, owner_or_worker, lease_end, lease_owner_or, lease_token_or_empty, resolve_code,
  ended, accepted_code, complete, accepted, after_send, after_resolve, deliver, after_claim,
  processor_lease, process,
}
use mujeeb24_backend_go.Outbox.Processor as Processor

-- A write to a row that matches succeeds.
update_row-hit :
    (matches : OutboxEntry → Bool) (set : OutboxEntry → OutboxEntry) (id : String)
    (table : Map OutboxEntry) (e : OutboxEntry)
    → lookup id table ≡ some e
    → matches e ≡ true
    → update_row matches set id table ≡ (some (set e), assign id (set e) table)
unfolding update_row write_row
update_row-hit matches set id table e found hit =
    ap (write_row matches set id table) found
    ∙ ap (λ b. if b then (some (set e), assign id (set e) table) else (none, table)) hit

lookup-assign_self :
    (id : String) (e : OutboxEntry) (table : Map OutboxEntry)
    → lookup id (assign id e table) ≡ some e
lookup-assign_self id e table =
    lookup-assign id id e table
    ∙ ap (λ (b : Bool). if b then some e else lookup id table) ((==_iff id id).1 refl)

update_with_lease-hit :
    (db_now : ℕ) (id owner token : String) (set : OutboxEntry → OutboxEntry)
    (table : Map OutboxEntry) (e : OutboxEntry)
    → (id == "") ≡ false
    → lookup id table ≡ some e
    → holds_lease db_now owner token e ≡ true
    → update_with_lease db_now id owner token set table ≡ (ok (set e), assign id (set e) table)
unfolding update_with_lease mutation_result
update_with_lease-hit db_now id owner token set table e named found held =
    ap
      (λ b.
        if b
        then (err invalid_input, table)
        else mutation_result id (update_row (holds_lease db_now owner token) set id table))
      named
    ∙ ap (mutation_result id)
        (update_row-hit (holds_lease db_now owner token) set id table e found held)

not_blank : (s : String) → (trim_space s == "") ≡ false → (s == "") ≡ false
unfolding trim_space
not_blank s h = elim (Bool-cases (s == "")) [
  | inl e ↦ cc (subst (λ (t : String). (trim_space t == "") ≡ false) ((==_iff s "").0 e) h)
  | inr n ↦ n
]

accepted_code-given : (id : String) → (accepted_code id == "") ≡ false
accepted_code-given id = elim (Bool-cases (id == "")) [
  | inl e ↦ rw e
  | inr n ↦ rw n (
      not_empty (append "provider_accepted:" id)
        (append-ne-nil_of_right_ne-nil "provider_accepted:" (λ e. cc (n, (==_iff id "").1 e))))
]
  where
    not_empty : (s : String) → s ≢ "" → (s == "") ≡ false
    not_empty s h = elim (Bool-cases (s == "")) [
      | inl e ↦ absurd (h ((==_iff s "").0 e))
      | inr n ↦ n
    ]

module _ {Delivery : Type 0} (p : OutboxProcessor Delivery) (m : Moment) (id : String)
    (e : OutboxEntry) (table : Map OutboxEntry) where
  abbrev lease : OutboxLease
  lease = processor_lease p m id

  abbrev held : OutboxEntry
  held = set_lease m.db_claim lease e

  -- The lease is valid, it lasts until the entry is written again, and the clocks are set.
  pub record IsTimely : Type 0 where
    pub valid : is_invalid_lease m.app_claim id lease ≡ false
    pub in_time : m.db_finish < lease.expires_at
    pub finished : eqb m.finished 0 ≡ false
    pub updated : eqb m.updated 0 ≡ false

  abbrev pub Delivered : Map OutboxEntry → List Delivery → Type 0
  Delivered t sent =
      (d : Delivery) × (message : String) × (final : OutboxEntry) × (p.resolve e.business_id
          e.outbound_message_id
        ≡ ok d)
      × (p.send_message d ≡ ok message)
      × (sent ≡ d ∷ [])
      × (lookup id t ≡ some final)
      × (final.status ≡ completed)
      × (final.result_code ≡ some (accepted_code message))

  abbrev pub Buried : Map OutboxEntry → List Delivery → Type 0
  Buried t sent =
      (final : OutboxEntry) × (lookup id t ≡ some final)
      × (final.status ≡ dead_letter)
      × (length sent ≤ 1)

  abbrev pub Ended : Processed Delivery → Type 0
  Ended r = (r.0 ≡ ok tt) × (Delivered r.1 r.2 ⊎ Buried r.1 r.2)

  owner_held : lease_owner_or (owner_or_worker p.owner) held.lease_owner ≡ owner_or_worker p.owner
  owner_held =
      if-cases (owner_or_worker p.owner == "") (owner_or_worker p.owner) (owner_or_worker p.owner)
        (λ o. o ≡ owner_or_worker p.owner) (λ _. refl) (λ _. refl)

  holds : IsTimely → holds_lease m.db_finish (owner_or_worker p.owner) m.token held ≡ true
  holds t = ground (
    arith,
    t.in_time,
    ==_iff (owner_or_worker p.owner) (owner_or_worker p.owner),
    ==_iff m.token m.token,
  )

  parts :
      IsTimely
      → ((id == "") ≡ false) × ((owner_or_worker p.owner == "") ≡ false) × ((m.token == "") ≡ false)
  parts t = (
    not_blank id (ground (arith, t.valid)),
    not_blank (owner_or_worker p.owner) (ground (arith, t.valid)),
    not_blank m.token (ground (arith, t.valid)),
  )

  -- A write under the lease to the claimed entry.
  written :
      IsTimely
      → (set : OutboxEntry → OutboxEntry)
      → update_with_lease m.db_finish id
          (owner_or_worker p.owner)
          m.token
          set
          (assign id held table)
        ≡ (ok (set held), assign id (set held) (assign id held table))
  written t set =
      update_with_lease-hit m.db_finish id (owner_or_worker p.owner) m.token set
        (assign id held table) held (parts t).0 (lookup-assign_self id held table) (holds t)

  dead_letter-Ended :
      (code : String) (sent : List Delivery)
      → IsTimely
      → (code == "") ≡ false
      → length sent ≤ 1
      → Ended (Processor.dead_letter p m id held code (assign id held table) sent)
  unfolding Processor.dead_letter ended move_to_dead_letter
  dead_letter-Ended code sent t coded one =
      rw (owner_held, (parts t).1, (parts t).2, coded, t.updated, written t _)
        (refl, inr (_, lookup-assign_self id _ (assign id held table), refl, one))

  complete-Ended :
      (d : Delivery) (message : String)
      → IsTimely
      → p.resolve e.business_id e.outbound_message_id ≡ ok d
      → p.send_message d ≡ ok message
      → Ended (complete p m id held message (assign id held table) (d ∷ []))
  unfolding complete ended mark_completed
  complete-Ended d message t resolved was_sent =
      rw
        (
          owner_held,
          (parts t).1,
          (parts t).2,
          accepted_code-given message,
          t.finished,
          t.updated,
          written t _,
        )
        (
          refl,
          inl (
            d,
            message,
            _,
            resolved,
            was_sent,
            refl,
            lookup-assign_self id _ (assign id held table),
            refl,
            refl,
          ),
        )

  accepted-Ended :
      (mark : Option (String → String → String → Bool)) (d : Delivery) (message : String)
      → IsTimely
      → p.resolve e.business_id e.outbound_message_id ≡ ok d
      → p.send_message d ≡ ok message
      → Ended (accepted p m id mark held message (assign id held table) (d ∷ []))
  unfolding accepted
  accepted-Ended none d message t resolved was_sent = complete-Ended d message t resolved was_sent
  accepted-Ended (some mark) d message t resolved was_sent =
      if-cases {A = Processed Delivery} (message == "") _ _ Ended
        (λ missing.
          dead_letter-Ended "provider_acceptance_missing_message_id" (d ∷ []) t refl (omega arith))
        (λ given.
          if-cases {A = Processed Delivery} (mark held.business_id held.outbound_message_id message)
            _ _ Ended (λ recorded. complete-Ended d message t resolved was_sent)
            (λ lost.
              dead_letter-Ended "provider_acceptance_persistence_failed" (d ∷ []) t refl
                (omega arith)))

  after_send-Ended :
      (d : Delivery) (answer : Result (Unit {0}) String)
      → IsTimely
      → p.resolve e.business_id e.outbound_message_id ≡ ok d
      → p.send_message d ≡ answer
      → Ended (after_send p m id held d answer (assign id held table))
  unfolding after_send
  after_send-Ended d (err u) t resolved was_sent =
      dead_letter-Ended "provider_send_outcome_unknown" (d ∷ []) t refl (omega arith)
  after_send-Ended d (ok message) t resolved was_sent =
      accepted-Ended p.mark_provider_accepted d message t resolved was_sent

  after_resolve-Ended :
      (answer : Result ResolveError Delivery)
      → IsTimely
      → p.resolve e.business_id e.outbound_message_id ≡ answer
      → Ended (after_resolve p m id held answer (assign id held table))
  unfolding after_resolve
  after_resolve-Ended (err mapping_missing) t resolved =
      dead_letter-Ended "outbound_mapping_missing" [] t refl (omega arith)
  after_resolve-Ended (err required_catalog_media_unavailable) t resolved =
      dead_letter-Ended "required_catalog_media_unavailable" [] t refl (omega arith)
  after_resolve-Ended (ok d) t resolved = after_send-Ended d (p.send_message d) t resolved refl

  deliver-Ended : IsTimely → Ended (deliver p m id held (assign id held table))
  unfolding deliver
  deliver-Ended t =
      if-cases {A = Processed Delivery} (held.command_type == "channel.send_message") _ _ Ended
        (λ sends. after_resolve-Ended (p.resolve e.business_id e.outbound_message_id) t refl)
        (λ other. dead_letter-Ended "unsupported_outbox_command" [] t refl (omega arith))

  -- An entry that may be claimed is ended by one call of Process whose lease lasts until the entry is
  -- written again, whatever the resolver, the provider and the recorder answer: the call returns no
  -- error, and the entry is completed with the code of the message that the provider accepted, and
  -- exactly that delivery was sent; or it is a dead letter, and at most one delivery was sent.
  pub process-Ended :
      lookup id table ≡ some e
      → is_claimable m.db_claim e ≡ true
      → IsTimely
      → Ended (process p m id table)
  unfolding process claim claim_result after_claim
  process-Ended found claimable t =
      rw
        (
          t.valid,
          update_row-hit (is_claimable m.db_claim) (set_lease m.db_claim lease) id table e found
              claimable,
          id_given t,
        )
        (deliver-Ended t)
    where
      id_given : IsTimely → (trim_space id == "") ≡ false
      id_given t = ground (arith, t.valid)
