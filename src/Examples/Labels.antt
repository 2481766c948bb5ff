-- ===== src/Examples/Labels.antt =====
-- Labels, markers and run states (retinue/vocab.py, retinue/adhoc_build.py, retinue/run_ledger.py) at concrete inputs.
use the_retinue.Base.{
  ℕ, ◌-◌, max, ◌≡◌, refl, ◌&&◌, ◌||◌, none, some, List, [], ◌∷◌, ◌++◌, arith, leb, if◌then◌else◌,
  ◌==◌, nat_eq, list_beq, list_eq, Text, text, Unicode, HasAsciiDigits,
}
use the_retinue.Vocab.{high, priority_label, parse_priority, severity_of_label}
use the_retinue.Vocab.Labels.{parse_priority-priority_label}
use the_retinue.AdhocIssue.{render_chain_depth, parse_chain_depth}
use the_retinue.AdhocIssue.Depth.{parse_chain_depth-render}
use the_retinue.RunLedger.{building, RunLedgerRow, record_state, lifecycle_rank}
use the_retinue.RunLedger.Lifecycle.{rank_of, rank_of-record_state}

parse_priority-priority_label_example :
    parse_priority ((text "hitl" ∷ []) ++ priority_label high ∷ text "priority:low" ∷ [])
    ≡ some high
unfolding severity_of_label list_beq
parse_priority-priority_label_example =
    parse_priority-priority_label high (text "hitl" ∷ []) (text "priority:low" ∷ []) (refl, tt)

-- Tables that know the ASCII characters.
abbrev pub ascii : Unicode
ascii = record {
  is_word = λ c. leb b'0' c && leb c b'9' || leb b'a' c && leb c b'z';
  decimal = λ c. if leb b'0' c && leb c b'9' then some (c - 48) else none;
}

pub ascii-HasAsciiDigits : HasAsciiDigits ascii
ascii-HasAsciiDigits d h = ground arith

parse_chain_depth-render_example :
    parse_chain_depth ascii (text "Chain-depth: 9" ++ 10 ∷ render_chain_depth 2) ≡ 2
parse_chain_depth-render_example =
    parse_chain_depth-render ascii (text "Chain-depth: 9") 2 ascii-HasAsciiDigits

abbrev table : List RunLedgerRow
table =
    record { repo = text "o/r"; issue = 7; state = text "failed"; url = none; updated_at = 3 } ∷ []

abbrev repo : Text
repo = text "o/r"

abbrev issue : ℕ
issue = 7

rank_of-record_state_example :
    rank_of repo issue (record_state 5 repo issue building none table) ≡ (
      if repo == repo && issue == issue
      then max (rank_of repo issue table) (lifecycle_rank building)
      else rank_of repo issue table)
rank_of-record_state_example = rank_of-record_state 5 repo issue building none repo issue table
