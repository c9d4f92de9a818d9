-- ===== src/Conversations/Labels/Exact.antt =====
-- What Apply makes of the labels.
use mujeeb24_backend_go.Common.{
  String, ◌==◌, ==_iff, ◌≡◌, refl, ◌∙◌, Bool, true, false, not, ◌&&◌, ◌||◌, List, [], ◌∷◌, ◌++◌,
  has, arith, if◌then◌else◌, Bool-cases, inl, inr,
}
use mujeeb24_backend_go.Common.Text.{trim_space}
use mujeeb24_backend_go.Conversations.Labels.{
  LabelRow, normalize_onto, normalize_labels, is_label, has_label, delete_label, insert_label,
  delete_labels, insert_labels, apply_labels,
}

-- Whether one of the values stands for the label.
unfoldable pub names_label : (String → String) → String → List String → Bool
names_label to_lower label [] = false
names_label to_lower label (value ∷ values) =
    (to_lower (trim_space value) == label) || names_label to_lower label values

normalize_onto-names :
    (to_lower : String → String) (label : String) (seen values : List String)
    → (has label seen || has label (normalize_onto to_lower seen values))
      ≡ (has label seen || (not (label == "") && names_label to_lower label values))
unfolding normalize_onto names_label
normalize_onto-names to_lower label seen [] = ground arith
normalize_onto-names to_lower label seen (value ∷ values) = ground (
  arith,
  normalize_onto-names to_lower label seen values,
  normalize_onto-names to_lower label (to_lower (trim_space value) ∷ seen) values,
  ==_iff (to_lower (trim_space value)) label,
  ==_iff (to_lower (trim_space value)) "",
  ==_iff label "",
)

==_comm : (a b : String) → (a == b) ≡ (b == a)
==_comm a b = ground (arith, ==_iff a b, ==_iff b a)

-- Of the label of a row, any other label is tested as of the row.
is_label-same :
    (b i label b' i' label' : String) (row : LabelRow)
    → is_label b i label row ≡ true
    → is_label b' i' label' row ≡ ((b == b') && (i == i') && (label == label'))
is_label-same b i label b' i' label' row h =
    rw
      (
        (==_iff row.business_id b).0 (ground arith),
        (==_iff row.conversation_id i).0 (ground arith),
        (==_iff row.label label).0 (ground arith),
      )
      refl

module _ (b i b' i' label' : String) where
  -- Whether a label of the conversation that is changed is the one that is looked for.
  abbrev is_same : String → Bool
  is_same label = (b == b') && (i == i') && (label == label')

  has_label-delete :
      (label : String) (rows : List LabelRow)
      → has_label b' i' label' (delete_label b i label rows)
        ≡ (has_label b' i' label' rows && not (is_same label))
  unfolding has_label delete_label
  has_label-delete label [] = refl
  has_label-delete label (row ∷ rows) =
      by_row (is_label b i label row)
      ∙ by_tests (is_label b i label row) (is_label b' i' label' row) (is_same label)
          (has_label b' i' label' rows) _ (has_label-delete label rows)
          (is_label-same b i label b' i' label' row)
          (λ h.
            is_label-same b' i' label' b i label row h
            ∙ rw (==_comm b' b, ==_comm i' i, ==_comm label' label) refl)
    where
      by_row :
          (p : Bool)
          → has_label b' i' label'
              (if p then delete_label b i label rows else row ∷ delete_label b i label rows)
            ≡ (if p
                then has_label b' i' label' (delete_label b i label rows)
                else if is_label b' i' label' row
                then true
                else has_label b' i' label' (delete_label b i label rows))
      by_row true = refl
      by_row false = refl

      by_tests :
          (p q same old left : Bool)
          → left ≡ (old && not same)
          → (p ≡ true → q ≡ same)
          → (q ≡ true → p ≡ same)
          → (if p then left else if q then true else left) ≡ ((if q then true else old) && not same)
      by_tests true true same old left e f g = ground (arith, f refl, g refl)
      by_tests true false same old left e f g = ground (arith, f refl)
      by_tests false true same old left e f g = ground (arith, g refl)
      by_tests false false same old left e f g = e

  has_label-insert :
      (label : String) (rows : List LabelRow)
      → has_label b' i' label' (insert_label b i label rows)
        ≡ (has_label b' i' label' rows || is_same label)
  unfolding has_label insert_label
  has_label-insert label rows = elim (Bool-cases (has_label b i label rows)) [
    | inl h ↦ rw h (present rows h)
    | inr n ↦ rw n (appended rows)
  ]
    where
      same_held :
          (row : LabelRow)
          → is_label b i label row ≡ true
          → is_label b' i' label' row ≡ is_same label
      same_held row h = is_label-same b i label b' i' label' row h

      present :
          (rows : List LabelRow)
          → has_label b i label rows ≡ true
          → has_label b' i' label' rows ≡ (has_label b' i' label' rows || is_same label)
      present [] h = cc
      present (row ∷ rows) h = elim (Bool-cases (is_label b i label row)) [
        | inl y ↦ ground (arith, same_held row y)
        | inr n ↦ ground (arith, present rows (rw n at h))
      ]

      appended :
          (rows : List LabelRow)
          → has_label b' i' label'
              (rows ++ record { business_id = b; conversation_id = i; label = label } ∷ [])
            ≡ (has_label b' i' label' rows || is_same label)
      appended [] = ground arith
      appended (row ∷ rows) = ground (arith, appended rows)

  has_label-delete_labels :
      (labels : List String) (rows : List LabelRow)
      → has_label b' i' label' (delete_labels b i labels rows)
        ≡ (has_label b' i' label' rows && not ((b == b') && (i == i') && has label' labels))
  unfolding delete_labels
  has_label-delete_labels [] rows = ground arith
  has_label-delete_labels (label ∷ labels) rows = ground (
    arith,
    has_label-delete_labels labels (delete_label b i label rows),
    has_label-delete label rows,
  )

  has_label-insert_labels :
      (labels : List String) (rows : List LabelRow)
      → has_label b' i' label' (insert_labels b i labels rows)
        ≡ (has_label b' i' label' rows || ((b == b') && (i == i') && has label' labels))
  unfolding insert_labels
  has_label-insert_labels [] rows = ground arith
  has_label-insert_labels (label ∷ labels) rows = ground (
    arith,
    has_label-insert_labels labels (insert_label b i label rows),
    has_label-insert label rows,
  )

has-normalize_labels :
    (to_lower : String → String) (label : String) (values : List String)
    → has label (normalize_labels to_lower values)
      ≡ (not (label == "") && names_label to_lower label values)
unfolding normalize_labels
has-normalize_labels to_lower label values =
    ground (arith, normalize_onto-names to_lower label [] values)

-- After Apply a conversation has a label exactly if it is the one that was changed and one of the values to
-- add stands for the label, which is not blank, or if it had the label and is not the one that was changed
-- or none of the values to remove stands for the label: a value stands for its text without the space
-- around it in small letters, whatever small letters are.
pub has_label-apply_labels :
    (to_lower : String → String) (b i : String) (add remove : List String) (rows : List LabelRow)
    (b' i' label : String)
    → has_label b' i' label (apply_labels b i to_lower add remove rows) ≡ (
        ((b == b') && (i == i') && not (label == "") && names_label to_lower label add)
        || (has_label b' i' label rows
            && not
                ((b == b') && (i == i') && not (label == "") && names_label to_lower label remove)))
unfolding apply_labels
has_label-apply_labels to_lower b i add remove rows b' i' label = ground (
  arith,
  has_label-insert_labels b i b' i' label (normalize_labels to_lower add)
      (delete_labels b i (normalize_labels to_lower remove) rows),
  has_label-delete_labels b i b' i' label (normalize_labels to_lower remove) rows,
  has-normalize_labels to_lower label add,
  has-normalize_labels to_lower label remove,
)
