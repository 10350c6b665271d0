-- ===== src/Names.antt =====
-- The names that a connection hands out (sql.go): statement ids with their names, descriptor handles,
-- and cursor names. The maps of the source are lists of their keys.
pub mod Handles
use i.Prelude.{
  ℕ, zero, suc, ◌+◌, ◌%◌, ◌^◌, Bytes, List, [], ◌∷◌, ◌++◌, Bool, true, false, ◌==◌, ◌||◌, not,
  if◌then◌else◌,
}
use i.Errors.{Result, ok, err, max_statements_exceeded}
use i.Text.{codes, hex}
use i.Request.Statements.{cursor_name_for_statement}

-- The fields of Conn that `nameMu` guards.
pub record Names : Type 0 where
  pub used_statement_handles : List ℕ
  pub descriptor_seq : ℕ
  pub default_cursor_busy : List ℕ
  pub cursor_seq : ℕ

abbrev pub max_statements : ℕ
max_statements = 9999

-- Whether a key is in a map, and a map without a key.
abbrev pub has_key : ℕ → List ℕ → Bool
has_key id [] = false
has_key id (k ∷ ks) = (id == k) || has_key id ks

unfoldable pub delete_key : ℕ → List ℕ → List ℕ
delete_key id [] = []
delete_key id (k ∷ ks) = let rest = delete_key id ks in if id == k then rest else k ∷ rest

-- `for id := first; id < maxStatements; id++` with a round for each of the `rounds` ids left.
abbrev pub first_unused : (rounds first : ℕ) → List ℕ → Result ℕ
first_unused zero id used = err max_statements_exceeded
first_unused (suc rounds) id used =
    let later = first_unused rounds (suc id) used in if has_key id used then later else ok id

abbrev pub statement_name : ℕ → Bytes
statement_name id = codes "STMT" ++ hex 8 id

abbrev pub take_handle : Names → Result ℕ → Result (Bytes × ℕ × Names)
take_handle c (err e) = err e
take_handle c (ok id) = ok (
  statement_name id,
  id,
  record {
    used_statement_handles = id ∷ c.used_statement_handles;
    descriptor_seq = c.descriptor_seq;
    default_cursor_busy = c.default_cursor_busy;
    cursor_seq = c.cursor_seq;
  },
)

-- The ids 1 to `maxStatements - 1` are tried.
unfoldable pub next_statement_name : Names → Result (Bytes × ℕ × Names)
next_statement_name c = take_handle c (first_unused 9998 1 c.used_statement_handles)

unfoldable pub release_statement_handle : ℕ → Names → Names
release_statement_handle handle c = if handle == 0 then c else record {
  used_statement_handles = delete_key handle c.used_statement_handles;
  descriptor_seq = c.descriptor_seq;
  default_cursor_busy = c.default_cursor_busy;
  cursor_seq = c.cursor_seq;
}

-- `c.descriptorSeq++` twice where the low 16 bits come out as 0. The counter is a uint32.
unfoldable pub next_descriptor_seq : ℕ → ℕ
next_descriptor_seq seq =
    let once = (seq + 1) % 2 ^ 32 in if once % 2 ^ 16 == 0 then (once + 1) % 2 ^ 32 else once

unfoldable pub next_descriptor_handle : Names → ℕ × Names
next_descriptor_handle c =
    let seq = next_descriptor_seq c.descriptor_seq in
    (
      seq % 2 ^ 16,
      record {
        used_statement_handles = c.used_statement_handles;
        descriptor_seq = seq;
        default_cursor_busy = c.default_cursor_busy;
        cursor_seq = c.cursor_seq;
      },
    )

-- `c.cursorSeq++`, with 0 passed over.
unfoldable pub next_cursor_seq : ℕ → ℕ
next_cursor_seq seq = let once = (seq + 1) % 2 ^ 32 in if once == 0 then 1 else once

abbrev pub extra_cursor_name : ℕ → Bytes
extra_cursor_name seq = codes "XCRSR" ++ hex 8 seq

abbrev pub with_cursors : List ℕ → ℕ → Names → Names
with_cursors busy seq c = record {
  used_statement_handles = c.used_statement_handles;
  descriptor_seq = c.descriptor_seq;
  default_cursor_busy = busy;
  cursor_seq = seq;
}

-- The name, and whether it is the default one.
unfoldable pub open_cursor_name : ℕ → Names → (Bytes × Bool) × Names
open_cursor_name handle c =
    if not (has_key handle c.default_cursor_busy)
    then (
      (cursor_name_for_statement handle, true),
      with_cursors (handle ∷ c.default_cursor_busy) c.cursor_seq c,
    )
    else (
      (extra_cursor_name (next_cursor_seq c.cursor_seq), false),
      with_cursors c.default_cursor_busy (next_cursor_seq c.cursor_seq) c,
    )

unfoldable pub release_default_cursor : ℕ → Names → Names
release_default_cursor handle c =
    with_cursors (delete_key handle c.default_cursor_busy) c.cursor_seq c

unfoldable pub release_open_cursor_name : ℕ → Bool → Names → Names
release_open_cursor_name handle default_cursor c =
    if default_cursor then release_default_cursor handle c else c
