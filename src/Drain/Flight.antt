-- ===== src/Drain/Flight.antt =====
-- retinue/adhoc_drain.py: the two ways in which `GhCli` reads an issue's flight state from GitHub.
use the_retinue.Base.{
  ℕ, ◌≤◌, ◌≡◌, refl, sym, ap, ◌∙◌, inl, inr, Bool, true, false, not, ◌||◌, none, some, List, [],
  ◌∷◌, ◌++◌, map, arith, ltb, if◌then◌else◌, Bool-cases, ◌==◌, nat_eq, contains, list_beq,
  list_beq_iff, list_eq, length, take, filter, count, take_all, Text, text, strip_prefix,
  strip_prefix-append, Result, ok, ◌>>=◌,
}
use the_retinue.Vocab.{issue_branch}
use the_retinue.Drain.Types.{FlightState, absent, stranded, in_flight, FlightSnapshot, state_for}

abbrev pub ref_heads_prefix : Text
ref_heads_prefix = text "refs/heads/"

abbrev pub issue_branch_prefix : Text
issue_branch_prefix = text "issue-"

-- What gh answers: whether a branch's ref is found, how many open pull requests a branch heads, the
-- head branches of the open pull requests up to a limit, and the refs that match the prefix.
pub record FlightQueries : Type 0 where
  pub branch_ref : Text → Bool
  pub open_prs_of : Text → Result ℕ
  pub open_pr_heads : ℕ → Result (List Text)
  pub issue_refs : Result (List Text)

-- `_DEFAULT_LIST_LIMIT`
abbrev pub list_limit : ℕ
list_limit = 200

-- `GhCli.flight_state`
unfoldable pub flight_state : FlightQueries → ℕ → Result FlightState
unfolding issue_branch
flight_state gh issue_number =
    let branch = issue_branch issue_number in
    let with_branch : Result FlightState =
      gh.open_prs_of branch >>= λ n. ok (if ltb 0 n then in_flight else stranded) in
    if not (gh.branch_ref branch) then ok absent else with_branch

-- `_parse_issue_branches`, of the entries' refs.
unfoldable pub issue_branches_of : List Text → List Text
issue_branches_of [] = []
issue_branches_of (ref ∷ refs) =
    let rest = issue_branches_of refs in
    elim (strip_prefix ref_heads_prefix ref) [ none ↦ rest | some branch ↦ branch ∷ rest ]

-- `GhCli.flight_snapshot`
unfoldable pub flight_snapshot : FlightQueries → Result FlightSnapshot
unfolding issue_branches_of
flight_snapshot gh = do
  heads ← gh.open_pr_heads list_limit
  refs ← gh.issue_refs
  ok (record { open_pr_heads = heads; issue_branches = issue_branches_of refs })

abbrev pub is_issue_branch : Text → Bool
is_issue_branch branch = elim (strip_prefix issue_branch_prefix branch) [
  | none ↦ false
  | some _ ↦ true
]

-- GitHub with these branches, and with open pull requests with these head branches, as gh's manual
-- describes the four queries.
pub record Answers (gh : FlightQueries) (branches heads : List Text) : Type 0 where
  pub ref_found : (b : Text) → gh.branch_ref b ≡ contains branches b
  pub prs_counted : (b : Text) → gh.open_prs_of b ≡ ok (count (λ h. h == b) heads)
  pub heads_listed : (n : ℕ) → gh.open_pr_heads n ≡ ok (take n heads)
  pub refs_matched :
      gh.issue_refs ≡ ok (map (λ b. ref_heads_prefix ++ b) (filter is_issue_branch branches))

count-contains : (b : Text) (xs : List Text) → ltb 0 (count (λ h. h == b) xs) ≡ contains xs b
unfolding count contains
count-contains b [] = refl
count-contains b (x ∷ xs) = ground (arith, count-contains b xs)

issue_branches_of-map :
    (bs : List Text) → issue_branches_of (map (λ b. ref_heads_prefix ++ b) bs) ≡ bs
unfolding issue_branches_of
issue_branches_of-map [] = refl
issue_branches_of-map (b ∷ bs) =
    rw (strip_prefix-append ref_heads_prefix b, issue_branches_of)
      (ap (λ xs. b ∷ xs) (issue_branches_of-map bs))

different : {x y : Bool} → x ≡ y → x ≡ false → ¬ (y ≡ true)
different e f g = cc

contains-filter :
    (b : Text) (xs : List Text)
    → is_issue_branch b ≡ true
    → contains (filter is_issue_branch xs) b ≡ contains xs b
unfolding contains filter
contains-filter b [] h = refl
contains-filter b (x ∷ xs) h = elim (Bool-cases (is_issue_branch x)) [
  | inl kept ↦ rw (kept) (ap (λ r. (x == b) || r) (contains-filter b xs h))
  | inr dropped ↦ rw (dropped) (elim (Bool-cases (list_beq x b)) [
    | inl same ↦ absurd (different (ap is_issue_branch ((list_beq_iff x b).0 same)) dropped h)
    | inr other ↦ rw (other) (contains-filter b xs h)
  ])
]

issue_branch-is_issue_branch : (n : ℕ) → is_issue_branch (issue_branch n) ≡ true
unfolding issue_branch strip_prefix
issue_branch-is_issue_branch n = refl

flight_snapshot_parts :
    (gh : FlightQueries) (branches heads : List Text)
    → Answers gh branches heads
    → length heads ≤ list_limit
    → flight_snapshot gh
      ≡ ok (record { open_pr_heads = heads; issue_branches = filter is_issue_branch branches })
unfolding flight_snapshot
flight_snapshot_parts gh branches heads a few =
    ap
      (λ r. r >>= λ hs. gh.issue_refs >>= λ refs.
        ok (record { open_pr_heads = hs; issue_branches = issue_branches_of refs }))
      (a.heads_listed list_limit ∙ ap ok (take_all list_limit heads few))
    ∙ ap
        (λ r. r >>= λ refs.
          ok (record { open_pr_heads = heads; issue_branches = issue_branches_of refs }))
        a.refs_matched
    ∙ ap (λ bs. ok (record { open_pr_heads = heads; issue_branches = bs }))
        (issue_branches_of-map (filter is_issue_branch branches))

same_verdict :
    (c c' h h' : Bool)
    → c ≡ c'
    → h ≡ h'
    → (if not c then ok absent else ok (if h then in_flight else stranded))
      ≡ ok (if not c' then absent else if h' then in_flight else stranded)
same_verdict c c' h h' e f = ground (arith, e, f)

-- With no more open pull requests than the list limit, the snapshot is fetched, and its verdict on
-- every issue is the one of the query for that issue alone.
pub flight_snapshot_lem :
    (gh : FlightQueries) (branches heads : List Text)
    → Answers gh branches heads
    → length heads ≤ list_limit
    → (snapshot : FlightSnapshot) × (flight_snapshot gh ≡ ok snapshot)
      × ((n : ℕ) → flight_state gh n ≡ ok (state_for snapshot n))
unfolding flight_state state_for
flight_snapshot_lem gh branches heads a few = (
  _,
  flight_snapshot_parts gh branches heads a few,
  λ n.
      let b = issue_branch n in
      let answer = λ (m : ℕ). if ltb 0 m then in_flight else stranded in
      ap (λ r. if not r then ok absent else (gh.open_prs_of b >>= λ m. ok (answer m)))
        (a.ref_found b)
      ∙ ap (λ r. if not (contains branches b) then ok absent else (r >>= λ m. ok (answer m)))
          (a.prs_counted b)
      ∙ same_verdict (contains branches b) _ (ltb 0 (count (λ h. h == b) heads)) _
          (sym (contains-filter b branches (issue_branch-is_issue_branch n)))
          (count-contains b heads),
)
