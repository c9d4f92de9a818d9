-- ===== src/AiRuns/Moves.antt =====
-- The transitions of a run leave the times that its status tells.
use mujeeb24_backend_go.Common.{
  ℕ, String, ◌≡◌, refl, Bool, true, false, ◌||◌, List, [], ◌∷◌, Option, none, some, Result, ok, err,
  arith, if-cases,
}
use mujeeb24_backend_go.AiRuns.{
  Status, received, context_built, running, waiting_tool, validating, authorized, executing,
  completed, failed, cancelled, AiRunRecord, AiRunStatusPatch, AiRunError, illegal_transition,
  AiRuns, is_terminal_run_status, is_run, get_run, violates, set_status, set_rows,
  update_run_status,
}
use mujeeb24_backend_go.AiRuns.Lifecycle.{
  StartRunInput, received_run, status_eq, is_allowed, transition_of, transition, status_patch,
  is_valid_failure_stage, is_valid_failure_category, failed_patch,
}

abbrev pub Given {ℓ} : {A : Type ℓ} → Option A → Type 0
Given none = ⊥
Given (some a) = Unit

-- No final time is set.
abbrev pub Open : AiRunRecord → Type 0
Open r = (r.completed_at ≡ none) × (r.failed_at ≡ none) × (r.cancelled_at ≡ none)

-- The model was not called and nothing was executed.
abbrev pub Untouched : AiRunRecord → Type 0
Untouched r = (r.running_started_at ≡ none) × (r.executing_at ≡ none)

-- The times that a run with this status has been given.
abbrev pub TracedAs : Status → AiRunRecord → Type 0
TracedAs received r = Open r × Untouched r
TracedAs context_built r = Open r × Untouched r × Given r.context_built_at
TracedAs running r = Open r × Given r.context_built_at × Given r.running_started_at
TracedAs waiting_tool r = Open r × Given r.context_built_at × Given r.running_started_at
TracedAs validating r =
    Open r × Given r.context_built_at × Given r.running_started_at × Given r.validating_at
TracedAs authorized r =
    Open r
    × Given r.context_built_at
    × Given r.running_started_at
    × Given r.validating_at
    × Given r.authorized_at
TracedAs executing r =
    Open r
    × Given r.context_built_at
    × Given r.running_started_at
    × Given r.validating_at
    × Given r.authorized_at
    × Given r.executing_at
TracedAs completed r =
    Given r.completed_at
    × (r.failed_at ≡ none)
    × (r.cancelled_at ≡ none)
    × Given r.context_built_at
    × Given r.running_started_at
    × Given r.validating_at
TracedAs failed r =
    Given r.failed_at
    × (r.completed_at ≡ none)
    × (r.cancelled_at ≡ none)
    × (is_valid_failure_stage r.failure_stage ≡ true)
    × (is_valid_failure_category r.failure_category ≡ true)
TracedAs cancelled r =
    Given r.cancelled_at × (r.completed_at ≡ none) × (r.failed_at ≡ none) × Untouched r

-- One statement of ai_runs, with the checks that the service makes before it.
pub data Change : AiRuns → AiRuns → Type 0 where
  kept : {t : AiRuns} → Change t t
  created :
      {t : AiRuns} (now : ℕ) (input : StartRunInput)
      → violates (received_run now input) t ≡ false
      → Change t (received_run now input ∷ t)
  moved :
      {t : AiRuns} (business_id run_id : String) (run : AiRunRecord) (db_now : ℕ)
      (patch : AiRunStatusPatch)
      → get_run business_id run_id t ≡ ok run
      → is_terminal_run_status run.status ≡ false
      → (TracedAs run.status run → TracedAs patch.status (set_status db_now patch run))
      → Change t (set_rows (is_run business_id run_id) (set_status db_now patch) t)

unfoldable pub any_terminal : List Status → Bool
any_terminal [] = false
any_terminal (s ∷ ss) = is_terminal_run_status s || any_terminal ss

status_eq-open :
    (s a : Status)
    → status_eq s a ≡ true
    → is_terminal_run_status a ≡ false
    → is_terminal_run_status s ≡ false
unfolding status_eq
status_eq-open received a e h = refl
status_eq-open context_built a e h = refl
status_eq-open running a e h = refl
status_eq-open waiting_tool a e h = refl
status_eq-open validating a e h = refl
status_eq-open authorized a e h = refl
status_eq-open executing a e h = refl
status_eq-open completed completed e h = h
status_eq-open completed _ e h = cc
status_eq-open failed failed e h = h
status_eq-open failed _ e h = cc
status_eq-open cancelled cancelled e h = h
status_eq-open cancelled _ e h = cc

pub is_allowed-open :
    (s : Status) (allowed_from : List Status)
    → is_allowed s allowed_from ≡ true
    → any_terminal allowed_from ≡ false
    → is_terminal_run_status s ≡ false
unfolding is_allowed any_terminal
is_allowed-open s [] e h = cc
is_allowed-open s (a ∷ rest) e h = ground (arith, status_eq-open s a, is_allowed-open s rest)

pub transition-Change :
    (db_now : ℕ) (business_id run_id : String) (patch : AiRunStatusPatch)
    (allowed_from : List Status) (table : AiRuns)
    → any_terminal allowed_from ≡ false
    → ((s : Status) (r : AiRunRecord)
        → is_allowed s allowed_from ≡ true
        → TracedAs s r
        → TracedAs patch.status (set_status db_now patch r))
    → Change table (transition db_now business_id run_id patch allowed_from table).1
unfolding transition update_run_status
transition-Change db_now business_id run_id patch allowed_from table live trace =
    by_read (get_run business_id run_id table) refl
  where
    by_read :
        (read : Result AiRunError AiRunRecord)
        → get_run business_id run_id table ≡ read
        → Change table (transition_of db_now business_id run_id patch allowed_from table read).1
    by_read (err e) found = kept
    by_read (ok run) found =
        if-cases {A = Result AiRunError AiRunRecord × AiRuns} (is_allowed run.status allowed_from)
          (update_run_status db_now business_id run_id patch table)
          (err (illegal_transition run.status patch.status), table) (λ r. Change table r.1)
          (λ allowed.
            moved business_id run_id run db_now patch found
              (is_allowed-open run.status allowed_from allowed live) (trace run.status run allowed))
          (λ refused. kept)

-- Each transition gives the run the time that its new status asks for.
pub context_built_trace :
    (t db_now : ℕ) (s : Status) (r : AiRunRecord)
    → is_allowed s (received ∷ []) ≡ true
    → TracedAs s r
    → TracedAs context_built
        (set_status db_now (record (status_patch context_built) { context_built_at = some t }) r)
unfolding is_allowed
context_built_trace t db_now received r a h = (h.0, h.1, tt)
context_built_trace t db_now _ r a h = cc

pub running_trace :
    (t db_now : ℕ) (s : Status) (r : AiRunRecord)
    → is_allowed s (context_built ∷ waiting_tool ∷ []) ≡ true
    → TracedAs s r
    → TracedAs running
        (set_status db_now (record (status_patch running) { running_started_at = some t }) r)
unfolding is_allowed
running_trace t db_now context_built r a h = (h.0, h.2, tt)
running_trace t db_now waiting_tool r a h = (h.0, h.1, tt)
running_trace t db_now _ r a h = cc

pub validating_trace :
    (t db_now : ℕ) (s : Status) (r : AiRunRecord)
    → is_allowed s (running ∷ []) ≡ true
    → TracedAs s r
    → TracedAs validating
        (set_status db_now (record (status_patch validating) { validating_at = some t }) r)
unfolding is_allowed
validating_trace t db_now running r a h = (h.0, h.1, h.2, tt)
validating_trace t db_now received r a h = cc
validating_trace t db_now _ r a h = cc

pub authorized_trace :
    (t db_now : ℕ) (s : Status) (r : AiRunRecord)
    → is_allowed s (validating ∷ []) ≡ true
    → TracedAs s r
    → TracedAs authorized
        (set_status db_now (record (status_patch authorized) { authorized_at = some t }) r)
unfolding is_allowed
authorized_trace t db_now validating r a h = (h.0, h.1, h.2, h.3, tt)
authorized_trace t db_now _ r a h = cc

pub executing_trace :
    (t db_now : ℕ) (s : Status) (r : AiRunRecord)
    → is_allowed s (authorized ∷ []) ≡ true
    → TracedAs s r
    → TracedAs executing
        (set_status db_now (record (status_patch executing) { executing_at = some t }) r)
unfolding is_allowed
executing_trace t db_now authorized r a h = (h.0, h.1, h.2, h.3, h.4, tt)
executing_trace t db_now _ r a h = cc

pub completed_trace :
    (t db_now : ℕ) (s : Status) (r : AiRunRecord)
    → is_allowed s (executing ∷ validating ∷ authorized ∷ []) ≡ true
    → TracedAs s r
    → TracedAs completed
        (set_status db_now (record (status_patch completed) { completed_at = some t }) r)
unfolding is_allowed
completed_trace t db_now validating r a h = (tt, h.0.1, h.0.2, h.1, h.2, h.3)
completed_trace t db_now authorized r a h = (tt, h.0.1, h.0.2, h.1, h.2, h.3)
completed_trace t db_now executing r a h = (tt, h.0.1, h.0.2, h.1, h.2, h.3)
completed_trace t db_now _ r a h = cc

pub cancelled_trace :
    (t db_now : ℕ) (s : Status) (r : AiRunRecord)
    → is_allowed s (received ∷ context_built ∷ []) ≡ true
    → TracedAs s r
    → TracedAs cancelled
        (set_status db_now (record (status_patch cancelled) { cancelled_at = some t }) r)
unfolding is_allowed
cancelled_trace t db_now received r a h = (tt, h.0.0, h.0.1, h.1)
cancelled_trace t db_now context_built r a h = (tt, h.0.0, h.0.1, h.1)
cancelled_trace t db_now _ r a h = cc

-- A run that has not ended has no final time.
Open-of_TracedAs :
    (s : Status) (r : AiRunRecord) → is_terminal_run_status s ≡ false → TracedAs s r → Open r
Open-of_TracedAs completed r a h = cc
Open-of_TracedAs failed r a h = cc
Open-of_TracedAs cancelled r a h = cc
Open-of_TracedAs _ r a h = h.0

pub failed_trace :
    (t db_now : ℕ) (stage category reason : String) (s : Status) (r : AiRunRecord)
    → is_valid_failure_stage stage ≡ true
    → is_valid_failure_category category ≡ true
    → is_terminal_run_status s ≡ false
    → TracedAs s r
    → TracedAs failed (set_status db_now (failed_patch t stage category reason) r)
failed_trace t db_now stage category reason s r valid_stage valid_category a h =
    let o : Open r = Open-of_TracedAs s r a h in (tt, o.0, o.2, valid_stage, valid_category)
