-- ===== src/Outbox/Fenced.antt =====
-- A lease that has not expired keeps others away.
use mujeeb24_backend_go.Common.{
  ℕ, ◌<◌, String, ◌==◌, ◌≡◌, refl, ap, ◌∙◌, ◌⊎◌, inl, inr, Bool, true, false, ◌&&◌, ◌||◌, none,
  some, ok, err, arith, Map, lookup, assign, ltb, leb, if-cases, if◌then◌else◌,
}
use mujeeb24_backend_go.Outbox.{
  processing, is_waiting, is_processing as status_is_processing, is_past, is_future, equals,
  write_row, unclaimed, mutation_miss, mutation_result, update_with_lease, named_lease,
  invalid_owner_or_token, not_an_active_lease, OutboxEntry, invalid_input, OutboxLease,
  is_claimable, set_lease, is_invalid_lease, update_row, claim_result, claim, holds_lease,
}

update_row_miss :
    (matches : OutboxEntry → Bool) (set : OutboxEntry → OutboxEntry) (id : String)
    (table : Map OutboxEntry) (e : OutboxEntry)
    → lookup id table ≡ some e
    → matches e ≡ false
    → update_row matches set id table ≡ (none, table)
unfolding update_row write_row
update_row_miss matches set id table e found no_match =
    ap (write_row matches set id table) found
    ∙ ap (λ b. if b then (some (set e), assign id (set e) table) else (none, table)) no_match

-- The row is leased with this token, and the lease has not expired.
pub record IsLeased (db_now : ℕ) (owner token : String) (e : OutboxEntry) : Type 0 where
  pub expiry : ℕ
  pub is_processing : e.status ≡ processing
  pub has_owner : e.lease_owner ≡ some owner
  pub has_token : e.lease_token ≡ some token
  pub expires : e.lease_expires_at ≡ some expiry
  pub before : db_now < expiry

leased_unclaimable :
    (db_now : ℕ) (owner token : String) (e : OutboxEntry)
    → IsLeased db_now owner token e
    → is_claimable db_now e ≡ false
leased_unclaimable db_now owner token e l =
    ap
      (λ s.
        (is_waiting s && leb e.available_at db_now)
        || (status_is_processing s && is_past e.lease_expires_at db_now))
      l.is_processing
    ∙ ap (λ x. is_past x db_now) l.expires
    ∙ unexpired l.expiry db_now l.before
  where
    unexpired : (expiry now : ℕ) → now < expiry → leb expiry now ≡ false
    unexpired expiry now h = ground arith

holds_iff_same :
    (db_now : ℕ) (owner token owner' token' : String) (e : OutboxEntry)
    → IsLeased db_now owner token e
    → holds_lease db_now owner' token' e ≡ ((owner == owner') && (token == token'))
holds_iff_same db_now owner token owner' token' e l =
    ap
      (λ s.
        status_is_processing s
        && equals e.lease_owner owner'
        && equals e.lease_token token'
        && is_future e.lease_expires_at db_now)
      l.is_processing
    ∙ ap
        (λ o. equals o owner' && equals e.lease_token token' && is_future e.lease_expires_at db_now)
        l.has_owner
    ∙ ap (λ t. (owner == owner') && equals t token' && is_future e.lease_expires_at db_now)
        l.has_token
    ∙ ap (λ x. (owner == owner') && (token == token') && is_future x db_now) l.expires
    ∙ unexpired (owner == owner') (token == token') l.expiry db_now l.before
  where
    unexpired : (a b : Bool) (expiry now : ℕ) → now < expiry → (a && b && ltb now expiry) ≡ (a && b)
    unexpired a b expiry now h = ground arith

miss_of_lease :
    (db_now : ℕ) (owner token : String) (e : OutboxEntry)
    → IsLeased db_now owner token e
    → mutation_miss (some e) ≡ invalid_owner_or_token
unfolding mutation_miss
miss_of_lease db_now owner token e l =
    ap
      (λ s.
        if status_is_processing s
        then named_lease e.lease_owner e.lease_token
        else not_an_active_lease)
      l.is_processing
    ∙ ap (λ o. named_lease o e.lease_token) l.has_owner
    ∙ ap (named_lease (some owner)) l.has_token

-- While a lease has not expired, a write to the entry succeeds exactly with its owner and its token;
-- any other is told so and writes nothing.
pub update_with_lease-fenced :
    (db_now : ℕ) (id owner token owner' token' : String) (set : OutboxEntry → OutboxEntry)
    (table : Map OutboxEntry) (e : OutboxEntry)
    → (id == "") ≡ false
    → lookup id table ≡ some e
    → IsLeased db_now owner token e
    → update_with_lease db_now id owner' token' set table ≡ (
        if (owner == owner') && (token == token')
        then (ok (set e), assign id (set e) table)
        else (err invalid_owner_or_token, table))
unfolding update_with_lease update_row write_row mutation_result
update_with_lease-fenced db_now id owner token owner' token' set table e named found l =
    ap
      (λ b.
        if b
        then (err invalid_input, table)
        else mutation_result id (update_row (holds_lease db_now owner' token') set id table))
      named
    ∙ ap (mutation_result id) (
        ap (write_row (holds_lease db_now owner' token') set id table) found
        ∙ ap (λ b. if b then (some (set e), assign id (set e) table) else (none, table))
            (holds_iff_same db_now owner token owner' token' e l))
    ∙ by_test ((owner == owner') && (token == token'))
  where
    by_test :
        (b : Bool)
        → mutation_result id (if b then (some (set e), assign id (set e) table) else (none, table))
          ≡ (if b
              then (ok (set e), assign id (set e) table)
              else (err invalid_owner_or_token, table))
    by_test true = refl
    by_test false =
        ap (λ o. (err (mutation_miss o), table)) found
        ∙ ap (λ x. (err x, table)) (miss_of_lease db_now owner token e l)

-- While a lease has not expired, no other worker can claim the entry, whatever lease he asks for:
-- he is told so, or his request is refused, and nothing is written.
pub claim-fenced :
    (app_now db_now : ℕ) (id owner token : String) (lease : OutboxLease) (table : Map OutboxEntry)
    (e : OutboxEntry)
    → lookup id table ≡ some e
    → IsLeased db_now owner token e
    → (claim app_now db_now id lease table ≡ (ok (false, e), table))
      ⊎ (claim app_now db_now id lease table ≡ (err invalid_input, table))
unfolding claim claim_result unclaimed
claim-fenced app_now db_now id owner token lease table e found l =
    if-cases (is_invalid_lease app_now id lease) (err invalid_input, table)
      (claim_result id (update_row (is_claimable db_now) (set_lease db_now lease) id table))
      (λ r. (r ≡ (ok (false, e), table)) ⊎ (r ≡ (err invalid_input, table))) (λ t. inr refl)
      (λ t. inl (
        ap (claim_result id) (
          update_row_miss (is_claimable db_now) (set_lease db_now lease) id table e found
            (leased_unclaimable db_now owner token e l))
        ∙ ap (λ o. (unclaimed o, table)) found))
