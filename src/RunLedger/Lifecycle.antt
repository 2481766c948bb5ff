-- ===== src/RunLedger/Lifecycle.antt =====
-- The run ledger never moves an issue back (retinue/run_ledger.py).
use the_retinue.Base.{
  ℕ, max, ◌≡◌, refl, ◌∙◌, inl, inr, true, ◌&&◌, Option, none, some, List, [], ◌∷◌, arith,
  if◌then◌else◌, Bool-cases, ◌==◌, nat_eq, eq_refl, list_beq_iff, list_eq, Text,
}
use mathlib.Core.Path.{ap₂}
use the_retinue.RunLedger.{
  RunState, queued, building, escalated, pr_opened, failed, merged, state_value, lifecycle_rank,
  existing_rank, RunLedgerRow, has_key, update_row, record_state,
}

-- The row of an issue: `SELECT … WHERE repo = ? AND issue = ?`.
pub find_row : Text → ℕ → List RunLedgerRow → Option RunLedgerRow
find_row repo issue [] = none
find_row repo issue (row ∷ table) =
    if has_key repo issue row then some row else find_row repo issue table

existing_rank-state_value : (s : RunState) → existing_rank (state_value s) ≡ lifecycle_rank s
unfolding existing_rank
existing_rank-state_value queued = refl
existing_rank-state_value building = refl
existing_rank-state_value escalated = refl
existing_rank-state_value pr_opened = refl
existing_rank-state_value failed = refl
existing_rank-state_value merged = refl

-- The rank that a reader sees for an issue: that of its row, 0 with no row.
abbrev pub rank_of_row : Option RunLedgerRow → ℕ
rank_of_row none = 0
rank_of_row (some row) = existing_rank row.state

pub rank_of : Text → ℕ → List RunLedgerRow → ℕ
rank_of repo issue table = rank_of_row (find_row repo issue table)

module _ (now : ℕ) (repo : Text) (issue : ℕ) (state : RunState) (url : Option Text) where
  abbrev new_row : RunLedgerRow
  new_row = record {
    repo = repo;
    issue = issue;
    state = state_value state;
    url = url;
    updated_at = now;
  }

  has_key-new_row : has_key repo issue new_row ≡ true
  unfolding has_key
  has_key-new_row = ground (arith, eq_refl repo)

  has_key-update_row :
      (r : Text) (i : ℕ) (row : RunLedgerRow)
      → has_key r i (update_row state url now row) ≡ has_key r i row
  unfolding has_key update_row
  has_key-update_row r i row = ground arith

  -- After a record, the row of its issue is the new one if there was none or if the new state's rank
  -- is at least the old one's, and is otherwise unchanged; the row of any other issue is unchanged.
  pub find_row-record_state :
      (r : Text) (i : ℕ) (table : List RunLedgerRow)
      → find_row r i (record_state now repo issue state url table) ≡ (
          if repo == r && issue == i
          then elim (find_row repo issue table) [
            | none ↦ some new_row
            | some row ↦ some (update_row state url now row)
          ]
          else find_row r i table)
  unfolding find_row record_state has_key
  find_row-record_state r i [] = ground arith
  find_row-record_state r i (row ∷ table) = ground (
    arith,
    find_row-record_state r i table,
    has_key-update_row r i row,
    list_beq_iff row.repo repo,
    list_beq_iff row.repo r,
    list_beq_iff repo r,
  )

  rank-update_row :
      (row : RunLedgerRow)
      → existing_rank (update_row state url now row).state
        ≡ max (existing_rank row.state) (lifecycle_rank state)
  unfolding update_row
  rank-update_row row = ground (arith, existing_rank-state_value state)

  abbrev updated : Option RunLedgerRow → Option RunLedgerRow
  updated o = elim o [ none ↦ some new_row | some row ↦ some (update_row state url now row) ]

  rank-updated :
      (o : Option RunLedgerRow)
      → rank_of_row (updated o) ≡ max (rank_of_row o) (lifecycle_rank state)
  rank-updated none = ground (arith, existing_rank-state_value state)
  rank-updated (some row) = rank-update_row row

  same_key : (r : Text) (i : ℕ) → (repo == r && issue == i) ≡ true → (repo ≡ r) × (issue ≡ i)
  same_key r i h = (ground (arith, list_beq_iff repo r), ground arith)

  -- A record never lowers the rank that a reader sees, of its own issue or of another, and its own
  -- issue's rank is then the larger of the old one and the recorded one.
  pub rank_of-record_state :
      (r : Text) (i : ℕ) (table : List RunLedgerRow)
      → rank_of r i (record_state now repo issue state url table) ≡ (
          if repo == r && issue == i
          then max (rank_of r i table) (lifecycle_rank state)
          else rank_of r i table)
  unfolding rank_of
  rank_of-record_state r i table = elim (Bool-cases (repo == r && issue == i)) [
    | inl same ↦
        let (p, q) = same_key r i same in
        rw (find_row-record_state r i table, same)
          (rank-updated (find_row repo issue table)
            ∙ ap₂ (λ a b. max (rank_of_row (find_row a b table)) (lifecycle_rank state)) p q)
    | inr other ↦ rw (find_row-record_state r i table, other)
  ]
