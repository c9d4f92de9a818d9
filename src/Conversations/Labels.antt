-- ===== src/Conversations/Labels.antt =====
-- The labels of conversations: adapters/secondary/persistence/postgres/conversation_label_repository.go.
pub mod Exact
use mujeeb24_backend_go.Common.{
  String, ◌==◌, Bool, true, false, ◌&&◌, List, [], ◌∷◌, ◌++◌, has, if◌then◌else◌,
}
use mujeeb24_backend_go.Common.Text.{trim_space}
use mujeeb24_backend_go.Authorization.Permissions.{sort_strings}

-- A row of conversation_labels.
pub record LabelRow : Type 0 where
  pub business_id : String
  pub conversation_id : String
  pub label : String

-- `strings.ToLower` of any text, by Unicode's tables, is the parameter `to_lower`.
module _ (to_lower : String → String) where
  -- The loop of `normalizeLabels`: the labels behind those that are `seen`.
  unfoldable pub normalize_onto : List String → List String → List String
  normalize_onto seen [] = []
  normalize_onto seen (value ∷ values) =
      let label = to_lower (trim_space value) in
      let skipped = normalize_onto seen values in
      let kept = label ∷ normalize_onto (label ∷ seen) values in
      if label == "" then skipped else if has label seen then skipped else kept

  -- `normalizeLabels`
  unfoldable pub normalize_labels : List String → List String
  unfolding normalize_onto
  normalize_labels values = normalize_onto [] values

abbrev pub is_label : String → String → String → LabelRow → Bool
is_label business_id id label row =
    (row.business_id == business_id) && (row.conversation_id == id) && (row.label == label)

-- Whether the conversation has the label.
unfoldable pub has_label : String → String → String → List LabelRow → Bool
has_label business_id id label [] = false
has_label business_id id label (row ∷ rows) =
    if is_label business_id id label row then true else has_label business_id id label rows

module _ (business_id id : String) where
  -- DELETE … WHERE business_id = $1 AND conversation_id = $2 AND label = $3
  unfoldable pub delete_label : String → List LabelRow → List LabelRow
  delete_label label [] = []
  delete_label label (row ∷ rows) =
      if is_label business_id id label row
      then delete_label label rows
      else row ∷ delete_label label rows

  -- INSERT … ON CONFLICT DO NOTHING
  unfoldable pub insert_label : String → List LabelRow → List LabelRow
  unfolding has_label
  insert_label label rows =
      if has_label business_id id label rows
      then rows
      else rows ++ record { business_id = business_id; conversation_id = id; label = label } ∷ []

  unfoldable pub delete_labels : List String → List LabelRow → List LabelRow
  unfolding delete_label
  delete_labels [] rows = rows
  delete_labels (label ∷ labels) rows = delete_labels labels (delete_label label rows)

  unfoldable pub insert_labels : List String → List LabelRow → List LabelRow
  unfolding insert_label
  insert_labels [] rows = rows
  insert_labels (label ∷ labels) rows = insert_labels labels (insert_label label rows)

  -- `Apply`, for a conversation that is there.
  unfoldable pub apply_labels :
      (String → String) → List String → List String → List LabelRow → List LabelRow
  unfolding delete_labels insert_labels normalize_labels
  apply_labels to_lower add remove rows =
      insert_labels (normalize_labels to_lower add)
        (delete_labels (normalize_labels to_lower remove) rows)

  unfoldable pub label_column : List LabelRow → List String
  label_column [] = []
  label_column (row ∷ rows) =
      if (row.business_id == business_id) && (row.conversation_id == id)
      then row.label ∷ label_column rows
      else label_column rows

  -- `List`, in the order of the texts' characters.
  unfoldable pub list_labels : List LabelRow → List String
  unfolding label_column
  list_labels rows = sort_strings (label_column rows)
