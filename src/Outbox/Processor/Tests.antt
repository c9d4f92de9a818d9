-- ===== src/Outbox/Processor/Tests.antt =====
-- One entry in the hands of two processors.
use mujeeb24_backend_go.Common.{String, ◌≡◌, refl, true, [], ◌∷◌, none, some, ok, arith}
use mujeeb24_backend_go.Common.Int.{pos}
use mujeeb24_backend_go.Common.Text.{trim_space}
use mujeeb24_backend_go.Outbox.{OutboxEntry, pending, processing, outbox_code}
use mujeeb24_backend_go.Outbox.Fenced.{IsLeased}
use mujeeb24_backend_go.Outbox.Processor.{OutboxProcessor, Moment, process}
use mujeeb24_backend_go.Outbox.Processor.Ends.{Ended, process-Ended}
use mujeeb24_backend_go.Outbox.Processor.Once.{process-leased}

abbrev waiting : OutboxEntry
waiting = record {
  business_id = "b";
  outbound_message_id = "o";
  command_type = "channel.send_message";
  status = pending;
  attempt_count = 0;
  available_at = 5;
  lease_owner = none;
  lease_token = none;
  lease_expires_at = none;
  last_error_code = none;
  result_code = none;
  completed_at = none;
  updated_at = 1;
}

abbrev courier : OutboxProcessor String
courier = record {
  resolve = λ business message. ok "hello";
  send_message = λ d. ok "p1";
  mark_provider_accepted = some (λ business outbound message. true);
  owner = "w1";
  lease_for = pos 10;
}

abbrev noon : Moment
noon = record {
  token = "t1";
  started = 10;
  app_claim = 10;
  db_claim = 10;
  finished = 15;
  updated = 15;
  db_finish = 15;
}

courier_delivers : (process courier noon "e" (("e", waiting) ∷ [])).2 ≡ "hello" ∷ []
unfolding process outbox_code
courier_delivers = refl

process-Ended_example :
    Ended courier noon "e" waiting
      (("e", waiting) ∷ [])
      (process courier noon "e" (("e", waiting) ∷ []))
unfolding trim_space
process-Ended_example =
    process-Ended courier noon "e" waiting (("e", waiting) ∷ []) refl refl
      (record { valid = refl; in_time = omega arith; finished = refl; updated = refl })

abbrev taken : OutboxEntry
taken = record waiting {
  status = processing;
  lease_owner = some "w2";
  lease_token = some "t2";
  lease_expires_at = some 20;
}

taken-IsLeased : IsLeased 10 "w2" "t2" taken
taken-IsLeased = record {
  expiry = 20;
  is_processing = refl;
  has_owner = refl;
  has_token = refl;
  expires = refl;
  before = omega arith;
}

process-leased_example :
    ((process courier noon "e" (("e", taken) ∷ [])).2 ≡ [])
    × ((process courier noon "e" (("e", taken) ∷ [])).1 ≡ ("e", taken) ∷ [])
process-leased_example =
    process-leased courier noon "e" (("e", taken) ∷ []) "w2" "t2" taken refl taken-IsLeased
