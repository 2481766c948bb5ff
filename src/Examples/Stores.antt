-- ===== src/Examples/Stores.antt =====
-- The stores of retinue/reconcile.py and retinue/impl_retry.py at concrete inputs.
use the_retinue.Base.{◌≡◌, refl, inr, false, some, [], ◌∷◌, nat_eq, list_eq, text, read_onto}
use the_retinue.Github.{RunStateRow}
use the_retinue.RunStateStore.{
  run_state_key, encode_slices, decode_slices, slices_of, record_pr, is_round, round_for_pr,
}
use the_retinue.RunStateStore.Rounds.{decode_slices-encode_slices, round_for_pr-record_pr}
use the_retinue.ImplRetry.Counter.{count_of, record_one, answers, spec_answers, answers_lem}

decode_slices-encode_slices_example : decode_slices (encode_slices (7 ∷ 12 ∷ [])) ≡ 7 ∷ 12 ∷ []
decode_slices-encode_slices_example = decode_slices-encode_slices (7 ∷ 12 ∷ [])

-- Another build of the repository, with another pull request.
abbrev other : RunStateRow
other = record { prd_key = text "o/r#4"; slices = []; pr_number = some 11 }

other-differs : is_round (text "o/r") 12 other ≡ false
unfolding is_round
other-differs = refl

round_for_pr-record_pr_example :
    round_for_pr (text "o/r") 12 (record_pr (text "o/r") 5 12 (other ∷ []))
    ≡ some (5, slices_of (text "o/r") 5 (other ∷ []))
round_for_pr-record_pr_example =
    round_for_pr-record_pr (text "o/r") 5 12 (refl, (refl, (refl, tt))) (other ∷ [])
      (inr other-differs, tt)

answers_lem_example :
    answers
      (record_one (text "o/r#5") ∷ count_of (text "o/r#6") ∷ record_one (text "o/r#5") ∷ [])
      []
    ≡ spec_answers
        (record_one (text "o/r#5") ∷ count_of (text "o/r#6") ∷ record_one (text "o/r#5") ∷ [])
        []
answers_lem_example =
    answers_lem
      (record_one (text "o/r#5") ∷ count_of (text "o/r#6") ∷ record_one (text "o/r#5") ∷ [])

-- In a `LIKE` pattern the `_` of a repository's name matches any character, so that a row of another
-- repository passes for one of this.
like_underscore :
    round_for_pr
      (text "o/a_b")
      12
      (record { prd_key = text "o/axb#9"; slices = []; pr_number = some 12 } ∷ [])
    ≡ some (9, [])
unfolding round_for_pr the_retinue.RunStateStore.find_round is_round the_retinue.RunStateStore.like
    the_retinue.RunStateStore.fold_ascii the_retinue.RunStateStore.key_number
    the_retinue.RunStateStore.behind_hash decode_slices the_retinue.RunStateStore.split_commas
    the_retinue.RunStateStore.read_parts read_onto
like_underscore = refl
