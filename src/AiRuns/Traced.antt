-- ===== src/AiRuns/Traced.antt =====
-- The table of the runs stays consistent: each run has the times that its status asks for, identifiers
-- are unique, and a key has one run that has not ended at most.
use mujeeb24_backend_go.Common.{
  ℕ, String, ◌==◌, ==_iff, ◌≡◌, refl, sym, subst, Bool, true, false, not, ◌&&◌, ◌||◌, List, [], ◌∷◌,
  Option, some, arith, if◌then◌else◌, Bool-cases, inl, inr, All, if-cases,
}
use mujeeb24_backend_go.AiRuns.{
  AiRunRecord, AiRunStatusPatch, AiRuns, is_terminal_run_status, is_run, has_key, query_row,
  violates, set_status, set_rows,
}
use mujeeb24_backend_go.AiRuns.Lifecycle.{StartRunInput, received_run, Call, answer, run_calls}
use mujeeb24_backend_go.AiRuns.Rows.{get_run-some}
use mujeeb24_backend_go.AiRuns.Changes.{answer-Change}
use mujeeb24_backend_go.AiRuns.Moves.{Change, kept, created, moved, TracedAs}

-- Two rows that the primary key or the index of the keys excludes.
abbrev pub rivals : AiRunRecord → AiRunRecord → Bool
rivals x y =
    (x.id == y.id)
    || (has_key x.business_id x.idempotency_key y
        && not (is_terminal_run_status x.status)
        && not (is_terminal_run_status y.status))

abbrev pub Unrivalled : AiRuns → Type 0
Unrivalled [] = Unit
Unrivalled (x ∷ rows) = All (λ y. rivals x y ≡ false) rows × Unrivalled rows

abbrev pub Traced : AiRunRecord → Type 0
Traced r = TracedAs r.status r

pub record IsConsistent (t : AiRuns) : Type 0 where
  pub traced : All Traced t
  pub unrivalled : Unrivalled t

violates-rivals :
    (now : ℕ) (input : StartRunInput) (t : AiRuns)
    → violates (received_run now input) t ≡ false
    → All (λ y. rivals (received_run now input) y ≡ false) t
unfolding violates
violates-rivals now input [] v = tt
violates-rivals now input (y ∷ t) v = (
  ground (arith, ==_iff y.id input.new_run_id, ==_iff input.new_run_id y.id),
  violates-rivals now input t (ground arith),
)

module _ (b i : String) where
  -- Only one row has the identifier.
  OnlyRun : AiRunRecord → AiRunRecord → Type 0
  OnlyRun a r = is_run b i r ≡ true → r ≡ a

  others_differ :
      (a : AiRunRecord) (t : AiRuns)
      → is_run b i a ≡ true
      → All (λ y. rivals a y ≡ false) t
      → All (λ y. is_run b i y ≡ false) t
  others_differ a [] m h = tt
  others_differ a (y ∷ t) m h =
      (ground (arith, ==_iff a.id i, ==_iff y.id i, ==_iff a.id y.id), others_differ a t m h.1)

  never_OnlyRun :
      (a : AiRunRecord) (t : AiRuns) → All (λ y. is_run b i y ≡ false) t → All (OnlyRun a) t
  unfolding OnlyRun
  never_OnlyRun a [] h = tt
  never_OnlyRun a (y ∷ t) h = (λ m. cc (m, h.0), never_OnlyRun a t h.1)

  found_OnlyRun :
      (a : AiRunRecord) (t : AiRuns)
      → Unrivalled t
      → query_row (is_run b i) t ≡ some a
      → All (OnlyRun a) t
  unfolding query_row OnlyRun
  found_OnlyRun a [] u h = tt
  found_OnlyRun a (x ∷ t) u h = elim (Bool-cases (is_run b i x)) [
    | inl m ↦ (λ _. first (rw m at h), never_OnlyRun a t (others_differ x t m u.0))
    | inr n ↦ (λ m. cc (m, n), found_OnlyRun a t u.1 (rw n at h))
  ]
    where
      first : ◌≡◌ {A = Option AiRunRecord} (some x) (some a) → x ≡ a
      first e = cc

  module _ (db_now : ℕ) (patch : AiRunStatusPatch) (a : AiRunRecord) where
    abbrev written : AiRunRecord → AiRunRecord
    written r = if is_run b i r then set_status db_now patch r else r

    written-Traced :
        (TracedAs a.status a → TracedAs patch.status (set_status db_now patch a))
        → (t : AiRuns) → All (OnlyRun a) t
        → All Traced t
        → All Traced (set_rows (is_run b i) (set_status db_now patch) t)
    unfolding set_rows OnlyRun
    written-Traced trace [] o h = tt
    written-Traced trace (r ∷ t) o h = (
      if-cases (is_run b i r) (set_status db_now patch r) r Traced
          (λ m.
            let e : r ≡ a = o.0 m in
            subst (λ (x : AiRunRecord). TracedAs patch.status (set_status db_now patch x)) (sym e)
              (trace (subst Traced e h.0)))
          (λ n. h.0),
      written-Traced trace t o.1 h.1,
    )

    rivals-written :
        (x y : AiRunRecord)
        → is_terminal_run_status a.status ≡ false
        → OnlyRun a x
        → OnlyRun a y
        → rivals x y ≡ false
        → rivals (written x) (written y) ≡ false
    unfolding OnlyRun
    rivals-written x y live ox oy h =
        by_tests (is_run b i x) (is_run b i y) (λ m. open_as_a x (ox m)) (λ m. open_as_a y (oy m))
      where
        open_as_a : (r : AiRunRecord) → r ≡ a → is_terminal_run_status r.status ≡ false
        open_as_a r e =
            subst (λ (z : AiRunRecord). is_terminal_run_status z.status ≡ false) (sym e) live

        by_tests :
            (p q : Bool)
            → (p ≡ true → is_terminal_run_status x.status ≡ false)
            → (q ≡ true → is_terminal_run_status y.status ≡ false)
            → rivals
                (if p then set_status db_now patch x else x)
                (if q then set_status db_now patch y else y)
              ≡ false
        by_tests true true lx ly = ground (arith, lx refl, ly refl)
        by_tests true false lx ly = ground (arith, lx refl)
        by_tests false true lx ly = ground (arith, ly refl)
        by_tests false false lx ly = h

    rivals-set_rows :
        (x : AiRunRecord) (t : AiRuns)
        → is_terminal_run_status a.status ≡ false
        → OnlyRun a x
        → All (OnlyRun a) t
        → All (λ y. rivals x y ≡ false) t
        → All
            (λ y. rivals (written x) y ≡ false)
            (set_rows (is_run b i) (set_status db_now patch) t)
    unfolding set_rows
    rivals-set_rows x [] live ox o h = tt
    rivals-set_rows x (y ∷ t) live ox o h =
        (rivals-written x y live ox o.0 h.0, rivals-set_rows x t live ox o.1 h.1)

    written-Unrivalled :
        (t : AiRuns)
        → is_terminal_run_status a.status ≡ false
        → All (OnlyRun a) t
        → Unrivalled t
        → Unrivalled (set_rows (is_run b i) (set_status db_now patch) t)
    unfolding set_rows
    written-Unrivalled [] live o u = tt
    written-Unrivalled (x ∷ t) live o u =
        (rivals-set_rows x t live o.0 o.1 u.0, written-Unrivalled t live o.1 u.1)

Change-IsConsistent : {t t' : AiRuns} → Change t t' → IsConsistent t → IsConsistent t'
Change-IsConsistent kept c = c
Change-IsConsistent (created {t} now input fresh) c = record {
  traced = (((refl, refl, refl), (refl, refl)), c.traced);
  unrivalled = (violates-rivals now input t fresh, c.unrivalled);
}
Change-IsConsistent (moved {t} b i run db_now patch read live trace) c =
    let o : All (OnlyRun b i run) t =
      found_OnlyRun b i run t c.unrivalled (get_run-some b i t run read) in
    record {
      traced = written-Traced b i db_now patch run trace t o c.traced;
      unrivalled = written-Unrivalled b i db_now patch run t live o c.unrivalled;
    }

-- Whatever calls the service gets, from a consistent table they lead to one: no two rows share an
-- identifier, a key has at most one run that has not ended, a run that executes was validated and
-- authorized, one that is completed was validated, one that is cancelled never ran, a failed one has a
-- known stage and category, and exactly the run that has ended has a final time, that of its end.
pub run_calls-IsConsistent :
    (calls : List Call) (t : AiRuns) → IsConsistent t → IsConsistent (run_calls calls t)
unfolding run_calls
run_calls-IsConsistent [] t c = c
run_calls-IsConsistent (k ∷ calls) t c =
    run_calls-IsConsistent calls (answer k t).1 (Change-IsConsistent (answer-Change k t) c)
