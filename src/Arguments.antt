-- ===== src/Arguments.antt =====
-- reorderNamedArgs of stmt.go: the arguments of a statement with named parameters, in the order of its
-- placeholders.
use i.Prelude.{ℕ, ◌+◌, Bytes, List, [], ◌∷◌, Bool, true, false, ◌&&◌, not, ◌==◌, Option, none, some}
use i.Errors.{Result, ok, err, ◌>>=◌, named_parameter_missing}
use i.Text.{is_empty}

pub record NamedValue (Value : Type 0) : Type 0 where
  pub name : Bytes
  pub ordinal : ℕ
  pub value : Value

abbrev pub has_no_elements : {A : Type 0} → List A → Bool
has_no_elements [] = true
has_no_elements (x ∷ xs) = false

abbrev pub same_text : Bytes → Bytes → Bool
same_text [] [] = true
same_text [] (b ∷ bs) = false
same_text (a ∷ ta) [] = false
same_text (a ∷ ta) (b ∷ bs) = (a == b) && same_text ta bs

module _ {Value : Type 0} where
  -- `byName[name]` once every named argument is stored under its name: the last one stays.
  unfoldable pub by_name : Bytes → List (NamedValue Value) → Option (NamedValue Value)
  by_name name [] = none
  by_name name (a ∷ args) = elim (by_name name args) [
    | some later ↦ some later
    | none ↦ elim (not (is_empty a.name) && same_text a.name name) [ true ↦ some a | false ↦ none ]
  ]

  -- The loop over the names from index `i` on.
  unfoldable pub order_args :
      ℕ → List Bytes → List (NamedValue Value) → Result (List (NamedValue Value))
  order_args i [] args = ok []
  order_args i (name ∷ names) args = elim (by_name name args) [
    | none ↦ err (named_parameter_missing name)
    | some arg ↦ do
      rest ← order_args (i + 1) names args
      ok (record { name = []; ordinal = i + 1; value = arg.value } ∷ rest)
  ]

  unfoldable pub reorder_named_args :
      List Bytes → List (NamedValue Value) → Result (List (NamedValue Value))
  reorder_named_args [] args = ok args
  reorder_named_args (name ∷ names) args = order_args 0 (name ∷ names) args
