-- ===== src/Conversations/Fresh.antt =====
-- The versions of a conversation.
use mujeeb24_backend_go.Common.{
  ℕ, ◌<◌, String, ◌==◌, ==_iff, ◌≡◌, ◌⊎◌, refl, ap, ◌∙◌, sym, subst, true, false, List, [], ◌∷◌,
  lookup, some, none, ok, err, Result, Option, arith, if◌then◌else◌, lookup-assign, Bool-cases, inl,
  inr,
}
use mujeeb24_backend_go.Authorization.Conversations.{ConversationRecord}
use mujeeb24_backend_go.Conversations.Commands.{
  TextFunctions, CommandError, ConversationView, Store, Answer, parse_business_expected_version,
}
use mujeeb24_backend_go.Conversations.Handlers.{Request, respond, respond_all}
use mujeeb24_backend_go.Conversations.Writes.{Guarded}
use mujeeb24_backend_go.Conversations.Guarded.{handle-Guarded}

-- The conversation is in the table, in a version that is later than `v`.
unfoldable pub IsLater : String → ℕ → Option ConversationRecord → Type 0
IsLater id v none = ⊥
IsLater id v (some r) = v < r.resource_version

-- The answer is an error, and the store is as before.
unfoldable pub Refused : Store → Answer → Type 0
Refused s (err e, after) = after ≡ s
Refused s (ok view, after) = ⊥

Guarded-IsLater :
    (q : Request) (id : String) (v : ℕ) (s : Store) (a : Answer)
    → Guarded q.about q.conversation_id s a
    → IsLater id v (lookup id s.conversations)
    → IsLater id v (lookup id a.1.conversations)
unfolding Guarded IsLater
Guarded-IsLater q id v s (err e, after) g later =
    subst (λ x. IsLater id v (lookup id x.conversations)) (sym g) later
Guarded-IsLater q id v s (ok view, after) g later =
    subst (λ t. IsLater id v (lookup id t)) (sym g.stored)
      (subst (IsLater id v) (sym (lookup-assign id q.conversation_id g.written s.conversations))
        (by_key (Bool-cases (q.conversation_id == id))))
  where
    past : q.conversation_id ≡ id → v < g.written.resource_version
    past e =
        let held : v < g.before.resource_version =
          subst (IsLater id v) (ap (λ i. lookup i s.conversations) (sym e) ∙ g.found) later in
        rw g.advanced (omega (arith, held))

    by_key :
        (((q.conversation_id == id) ≡ true) ⊎ ((q.conversation_id == id) ≡ false))
        → IsLater id v
            (if q.conversation_id == id then some g.written else lookup id s.conversations)
    by_key (inr n) = rw n later
    by_key (inl y) = rw y (past ((==_iff q.conversation_id id).0 y))

respond_all-IsLater :
    (texts : TextFunctions) (requests : List Request) (id : String) (v : ℕ) (s : Store)
    → IsLater id v (lookup id s.conversations)
    → IsLater id v (lookup id (respond_all texts requests s).conversations)
unfolding respond_all respond
respond_all-IsLater texts [] id v s later = later
respond_all-IsLater texts (q ∷ requests) id v s later =
    respond_all-IsLater texts requests id v (respond texts q s).1 (
      Guarded-IsLater q id v s (respond texts q s)
        (handle-Guarded q.about q.conversation_id texts q.members q.command s) later)

-- A command that names an older version than the conversation has is refused.
Guarded-Refused :
    (q : Request) (v : ℕ) (s : Store) (a : Answer)
    → parse_business_expected_version q.about.expected_version ≡ ok v
    → Guarded q.about q.conversation_id s a
    → IsLater q.conversation_id v (lookup q.conversation_id s.conversations)
    → Refused s a
unfolding Guarded IsLater Refused
Guarded-Refused q v s (err e, after) named g later = g
Guarded-Refused q v s (ok view, after) named g later =
    let held : v < g.before.resource_version = subst (IsLater q.conversation_id v) g.found later in
    let same : v ≡ g.before.resource_version = ok_injective (sym named ∙ g.named) in
    absurd (later_lem held same)
  where
    ok_injective : {a b : ℕ} → ◌≡◌ {A = Result CommandError ℕ} (ok a) (ok b) → a ≡ b
    ok_injective e = cc

    later_lem : {a b : ℕ} → a < b → a ≡ b → ⊥
    later_lem h e = omega arith

succeeded-IsLater :
    (q : Request) (s : Store) (view : ConversationView) (after : Store)
    → Guarded q.about q.conversation_id s (ok view, after)
    → (v : ℕ) × (parse_business_expected_version q.about.expected_version ≡ ok v)
      × IsLater q.conversation_id v (lookup q.conversation_id after.conversations)
unfolding Guarded IsLater
succeeded-IsLater q s view after g = (g.before.resource_version, g.named, later)
  where
    id : String
    id = q.conversation_id

    later : IsLater id g.before.resource_version (lookup id after.conversations)
    later =
        subst (λ t. IsLater id g.before.resource_version (lookup id t)) (sym g.stored)
          (subst (IsLater id g.before.resource_version)
            (sym (lookup-assign id id g.written s.conversations))
            (rw ((==_iff id id).1 refl, g.advanced) (omega arith)))

-- Once a command on a conversation has succeeded, every later command on it that names the same version
-- is refused with nothing changed, whoever sends it and whatever commands come in between.
pub respond-once :
    (texts : TextFunctions) (q : Request) (s : Store) (view : ConversationView) (after : Store)
    (between : List Request) (again : Request)
    → respond texts q s ≡ (ok view, after)
    → again.conversation_id ≡ q.conversation_id
    → again.about.expected_version ≡ q.about.expected_version
    → Refused
        (respond_all texts between after)
        (respond texts again (respond_all texts between after))
unfolding respond
respond-once texts q s view after between again done same_id same_version =
    let l = succeeded-IsLater q s view after (
      subst (Guarded q.about q.conversation_id s) done
        (handle-Guarded q.about q.conversation_id texts q.members q.command s)) in
    let now = respond_all texts between after in
    Guarded-Refused again l.0 now (respond texts again now)
      (ap parse_business_expected_version same_version ∙ l.1)
      (handle-Guarded again.about again.conversation_id texts again.members again.command now)
      (subst (λ i. IsLater i l.0 (lookup i now.conversations)) (sym same_id)
        (respond_all-IsLater texts between q.conversation_id l.0 after l.2))
