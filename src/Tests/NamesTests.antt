-- ===== src/Tests/NamesTests.antt =====
-- Statement ids and descriptor handles of a connection in use.
use i.Prelude.{ℕ, ◌≡◌, refl, List, [], ◌∷◌}
use i.Errors.{ok}
use i.Names.{Names, statement_name, next_statement_name}
use i.Names.Handles.{Takes, next_statement_name-Takes}

abbrev using : List ℕ → Names
using ids = record {
  used_statement_handles = ids;
  descriptor_seq = 65535;
  default_cursor_busy = [];
  cursor_seq = 0;
}

-- The ids 1, 2 and 4 are in use.
taken :
    next_statement_name (using (2 ∷ 1 ∷ 4 ∷ []))
    ≡ ok (statement_name 3, 3, using (3 ∷ 2 ∷ 1 ∷ 4 ∷ []))
unfolding next_statement_name
taken = refl

next_statement_name-Takes_example :
    Takes (using (2 ∷ 1 ∷ 4 ∷ [])) (next_statement_name (using (2 ∷ 1 ∷ 4 ∷ [])))
next_statement_name-Takes_example = next_statement_name-Takes (using (2 ∷ 1 ∷ 4 ∷ []))
