-- ===== src/Outbox/Tests.antt =====
-- The life of one entry, and the theorems at it.
use mujeeb24_backend_go.Common.{
  ◌==◌, ◌≡◌, refl, ◌⊎◌, true, false, ◌&&◌, List, [], ◌∷◌, none, some, ok, err, lookup, assign,
  arith, if◌then◌else◌,
}
use mujeeb24_backend_go.Outbox.{
  pending, processing, completed, OutboxEntry, OutboxLease, invalid_input, invalid_owner_or_token,
  claim, update_with_lease, mark_completed, outbox_code,
}
use mujeeb24_backend_go.Outbox.Final.{
  Write, claim_entry, requeue_entry, complete_entry, run, completed-Kept,
}
use mujeeb24_backend_go.Outbox.Fenced.{IsLeased, update_with_lease-fenced, claim-fenced}

abbrev queued : OutboxEntry
queued = record {
  business_id = "b";
  outbound_message_id = "o";
  command_type = "channel.send_message";
  status = pending;
  attempt_count = 0;
  available_at = 5;
  lease_owner = none;
  lease_token = none;
  lease_expires_at = none;
  last_error_code = none;
  result_code = none;
  completed_at = none;
  updated_at = 1;
}

abbrev first_lease : OutboxLease
first_lease = record { owner = "w1"; token = "t1"; expires_at = 20 }

abbrev second_lease : OutboxLease
second_lease = record { owner = "w2"; token = "t2"; expires_at = 30 }

abbrev leased : OutboxEntry
leased = record queued {
  status = processing;
  attempt_count = 1;
  lease_owner = some "w1";
  lease_token = some "t1";
  lease_expires_at = some 20;
  updated_at = 10;
}

abbrev sent : OutboxEntry
sent = record queued {
  status = completed;
  attempt_count = 1;
  result_code = some "provider_accepted";
  completed_at = some 12;
  updated_at = 12;
}

claims : claim 9 10 "e" first_lease (("e", queued) ∷ []) ≡ (ok (true, leased), ("e", leased) ∷ [])
unfolding outbox_code
claims = refl

takes_over_late :
    (claim 20 20 "e" second_lease (("e", leased) ∷ [])).0
    ≡ ok (
      true,
      record leased {
        attempt_count = 2;
        lease_owner = some "w2";
        lease_token = some "t2";
        lease_expires_at = some 30;
        updated_at = 20;
      },
    )
unfolding outbox_code
takes_over_late = refl

completes :
    mark_completed 12 "e" "w1" "t1" "provider_accepted" 12 12 (("e", leased) ∷ [])
    ≡ (ok sent, ("e", sent) ∷ [])
unfolding outbox_code
completes = refl

leased-IsLeased : IsLeased 15 "w1" "t1" leased
leased-IsLeased = record {
  expiry = 20;
  is_processing = refl;
  has_owner = refl;
  has_token = refl;
  expires = refl;
  before = omega arith;
}

claim-fenced_example :
    (claim 14 15 "e" second_lease (("e", leased) ∷ []) ≡ (ok (false, leased), ("e", leased) ∷ []))
    ⊎ (claim 14 15 "e" second_lease (("e", leased) ∷ []) ≡ (err invalid_input, ("e", leased) ∷ []))
claim-fenced_example =
    claim-fenced 14 15 "e" "w1" "t1" second_lease (("e", leased) ∷ []) leased refl leased-IsLeased

abbrev touch : OutboxEntry → OutboxEntry
touch entry = record entry { updated_at = 15 }

update_with_lease-fenced_example : update_with_lease 15 "e" "w1" "t2" touch (("e", leased) ∷ []) ≡ (
    if ("w1" == "w1") && ("t1" == "t2")
    then (ok (touch leased), assign "e" (touch leased) (("e", leased) ∷ []))
    else (err invalid_owner_or_token, ("e", leased) ∷ []))
update_with_lease-fenced_example =
    update_with_lease-fenced 15 "e" "w1" "t1" "w1" "t2" touch (("e", leased) ∷ []) leased refl refl
      leased-IsLeased

abbrev attempts : List Write
attempts =
    claim_entry 40 40 "e" second_lease
    ∷ requeue_entry "e" 50 50
    ∷ complete_entry 51 "e" "w2" "t2" "again" 51 51
    ∷ []

completed-Kept_example : lookup "e" (run attempts (("e", sent) ∷ [])) ≡ some sent
completed-Kept_example = completed-Kept "e" sent refl attempts (("e", sent) ∷ []) refl
