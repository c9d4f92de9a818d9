-- ===== src/Conversations/Sound.antt =====
-- The table that the commands leave.
use mujeeb24_backend_go.Common.{
  String, ◌≡◌, ap, ◌∙◌, sym, subst, Bool, true, ◌&&◌, List, [], ◌∷◌, Map, lookup, assign, All, some,
  ok, err, ◌==◌, Bool-cases, inl, inr, arith, if-cases,
}
use mujeeb24_backend_go.Authorization.Conversations.{ConversationRecord}
use mujeeb24_backend_go.Conversations.{satisfies_checks}
use mujeeb24_backend_go.Conversations.Commands.{TextFunctions, Store, Answer}
use mujeeb24_backend_go.Conversations.Handlers.{Request, respond, respond_all}
use mujeeb24_backend_go.Conversations.Writes.{IsWritten, is_owned, Guarded}
use mujeeb24_backend_go.Conversations.Guarded.{handle-Guarded}

-- The checks hold of a row, and it is assigned to nobody unless a human owns it.
unfoldable pub is_sound : ConversationRecord → Bool
is_sound r = satisfies_checks r && is_owned r

unfoldable pub IsSound : Map ConversationRecord → Type 0
IsSound table = All (λ entry. is_sound entry.1 ≡ true) table

lookup-is_sound :
    (id : String) (table : Map ConversationRecord) (r : ConversationRecord)
    → IsSound table
    → lookup id table ≡ some r
    → is_sound r ≡ true
unfolding IsSound
lookup-is_sound id [] r sound found = cc
lookup-is_sound id ((key, a) ∷ table) r sound found = elim (Bool-cases (key == id)) [
  | inl y ↦ let same : a ≡ r = cc (rw y at found) in ap is_sound (sym same) ∙ sound.0
  | inr n ↦ lookup-is_sound id table r sound.1 (rw n at found)
]

assign-IsSound :
    (id : String) (r : ConversationRecord) (table : Map ConversationRecord)
    → is_sound r ≡ true
    → IsSound table
    → IsSound (assign id r table)
unfolding IsSound
assign-IsSound id r [] good sound = (good, tt)
assign-IsSound id r ((key, a) ∷ table) good sound =
    if-cases (key == id) _ _ IsSound (λ _. (good, sound.1))
      (λ _. (sound.0, assign-IsSound id r table good sound.1))

Guarded-IsSound :
    (q : Request) (s : Store) (a : Answer)
    → Guarded q.about q.conversation_id s a
    → IsSound s.conversations
    → IsSound a.1.conversations
unfolding Guarded is_sound
Guarded-IsSound q s (err e, after) g sound = subst (λ x. IsSound x.conversations) (sym g) sound
Guarded-IsSound q s (ok view, after) g sound = subst IsSound (sym g.stored) (
    assign-IsSound q.conversation_id g.written s.conversations
      (written_sound g (lookup-is_sound q.conversation_id s.conversations g.before sound g.found))
      sound)
  where
    written_sound :
        (w : IsWritten q.about q.conversation_id s after)
        → is_sound w.before ≡ true
        → is_sound w.written ≡ true
    written_sound w h = ground (arith, w.checked, w.owned)

-- Whatever commands follow one another, from a table whose rows satisfy the checks and are assigned to
-- nobody unless a human owns them, they lead to such a table.
pub respond_all-IsSound :
    (texts : TextFunctions) (requests : List Request) (s : Store)
    → IsSound s.conversations
    → IsSound (respond_all texts requests s).conversations
unfolding respond_all respond
respond_all-IsSound texts [] s sound = sound
respond_all-IsSound texts (q ∷ requests) s sound =
    respond_all-IsSound texts requests (respond texts q s).1 (
      Guarded-IsSound q s (respond texts q s)
        (handle-Guarded q.about q.conversation_id texts q.members q.command s) sound)
