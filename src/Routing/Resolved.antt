-- ===== src/Routing/Resolved.antt =====
-- The level that retinue/level.py and retinue/classifier.py resolve for an issue.
use the_retinue.Base.{
  Bool, false, not, ◌&&◌, ◌⊎◌, Exn, ◌+◌, ◌≤◌, ◌<◌, ◌≡◌, refl, sym, ◌∙◌, ◌↔◌, inl, inr, true, List,
  [], ◌∷◌, arith, nat_beq, Bool-cases, Option-cases, nat_eq, contains, list_eq, length, All, Text,
  strip_prefix, keys, Result, ok, err, Result-cases,
}
use the_retinue.RepoConfig.{RoutingConfig}
use the_retinue.RepoConfig.Validate.{valid_routing}
use the_retinue.Level.{
  level_label_prefix, level_label, known_level_labels, LevelResolution, RoutingSeams, RoutingState,
  is_retried, parse_level, classify, apply_label, finish_level, resolve_level_known,
}

module _ (routing : RoutingConfig) (seams : RoutingSeams) where
  abbrev pub Declared : Text → Type 0
  Declared name = contains (keys routing.levels) name ≡ true

  pub known_level_labels-All :
      (labels : List Text) → All Declared (known_level_labels routing labels)
  unfolding known_level_labels
  known_level_labels-All [] = tt
  known_level_labels-All (label ∷ labels) =
      elim (Option-cases (strip_prefix level_label_prefix label)) [
        | inl e ↦ rw (e, known_level_labels) (known_level_labels-All labels)
        | inr (name, e) ↦ elim (Bool-cases (contains (keys routing.levels) name)) [
          | inl known ↦ rw (e, known, known_level_labels) (known, known_level_labels-All labels)
          | inr unknown ↦ rw (e, unknown, known_level_labels) (known_level_labels-All labels)
        ]
      ]

  parse_level-Declared :
      (answer : Result Text) {name : Text} → parse_level routing answer ≡ ok name → Declared name
  unfolding parse_level
  parse_level-Declared (err e) h = cc
  parse_level-Declared (ok name) h = ground (arith, h)

  valid_routing-default : valid_routing routing ≡ true → Declared routing.default
  unfolding valid_routing
  valid_routing-default h = ground arith

  -- A resolution of a routing table that is valid: the level is declared, a failure is a classifier
  -- call, the budget is as before, and the classifier was called if and only if no known label
  -- decides.
  pub record Resolved (known : List Text) (s s' : RoutingState) (r : LevelResolution) : Type 0 where
    pub declared : Declared r.level
    pub same_budget : s'.budget ≡ s.budget
    pub asked : r.classified ≡ (nat_beq (length known) 0)
    pub called : (s.attempts < s'.attempts) ↔ (length known ≡ 0)
    pub at_most : s'.attempts ≤ s.attempts + 2

  apply_label-budget :
      (level : Text) (s : RoutingState)
      → ((apply_label seams level s).budget ≡ s.budget)
        × ((apply_label seams level s).attempts ≡ s.attempts)
  unfolding apply_label
  apply_label-budget level s = elim (Result-cases (seams.label_sink (level_label level))) [
    | inl (u, e) ↦ rw (e, apply_label) (refl, refl)
    | inr (x, e) ↦ rw (e, apply_label) (refl, refl)
  ]

  -- Whether the classifier returns: what an attempt raises, the retry catches.
  abbrev pub retried : Result Text → Bool
  retried (ok name) = true
  retried (err e) = is_retried e

  abbrev pub answered : Bool
  answered = elim (parse_level routing seams.first_attempt) [
    | ok name ↦ true
    | err e ↦ is_retried e && retried (parse_level routing seams.second_attempt)
  ]

  -- Without a known label: a resolution, or the exception of an attempt.
  Classified : RoutingState → Result LevelResolution × RoutingState → Type 0
  Classified s out =
      ((answered ≡ true) × (r : LevelResolution) × (out.0 ≡ ok r) × Resolved [] s out.1 r)
      ⊎ ((answered ≡ false)
          × (e : Exn) × (out.0 ≡ err e)
          × (out.1.budget ≡ s.budget)
          × (s.attempts < out.1.attempts)
          × (out.1.attempts ≤ s.attempts + 2))

  named :
      (name : Text) (s t : RoutingState)
      → Declared name
      → t.budget ≡ s.budget
      → s.attempts < t.attempts
      → t.attempts ≤ s.attempts + 2
      → Resolved [] s
          (apply_label seams name t)
          (record { level = name; classified = true; failed = false })
  named name s t known same more few =
      let (b, a) = apply_label-budget name t in
      record {
        declared = known;
        same_budget = b ∙ same;
        asked = refl;
        called = (λ _. refl, λ _. omega (arith, a, more));
        at_most = omega (arith, a, few);
      }

  defaulted :
      valid_routing routing ≡ true
      → (s : RoutingState)
      → Resolved [] s
          (record s { attempts = s.attempts + 2 })
          (record { level = routing.default; classified = true; failed = true })
  defaulted valid s = record {
    declared = valid_routing-default valid;
    same_budget = refl;
    asked = refl;
    called = (λ _. refl, λ _. omega arith);
    at_most = omega arith;
  }

  resolve_level_known-empty :
      valid_routing routing ≡ true
      → (s : RoutingState) → Classified s (resolve_level_known routing seams [] s)
  unfolding resolve_level_known classify finish_level Classified
  resolve_level_known-empty valid s =
      let once : RoutingState = record s { attempts = s.attempts + 1 } in
      let twice : RoutingState = record s { attempts = s.attempts + 2 } in
      elim (Result-cases (parse_level routing seams.first_attempt)) [
        | inl (name, e) ↦
            rw (e, classify, answered)
              (inl (
                refl,
                _,
                refl,
                named name s once (parse_level-Declared seams.first_attempt e) refl (omega arith)
                    (omega arith),
              ))
        | inr (x, e) ↦ elim (Bool-cases (is_retried x)) [
          | inr out ↦
              rw (e, out, classify, answered) (inr (refl, x, refl, refl, omega arith, omega arith))
          | inl again ↦ elim (Result-cases (parse_level routing seams.second_attempt)) [
            | inl (name, f) ↦
                rw (e, again, f, classify, answered)
                  (inl (
                    refl,
                    _,
                    refl,
                    named name s twice (parse_level-Declared seams.second_attempt f) refl
                        (omega arith) (omega arith),
                  ))
            | inr (y, f) ↦ elim (Bool-cases (is_retried y)) [
              | inl caught ↦
                  rw (e, again, f, caught, classify, answered)
                    (inl (refl, _, refl, defaulted valid s))
              | inr out ↦
                  rw (e, again, f, out, classify, answered)
                    (inr (refl, y, refl, refl, omega arith, omega arith))
            ]
          ]
        ]
      ]

  -- A known label decides.
  decided :
      (level : Text) (known : List Text) (s : RoutingState)
      → Declared level
      → nat_beq (length known) 0 ≡ false
      → Resolved known s s (record { level = level; classified = false; failed = false })
  decided level known s h some_known = record {
    declared = h;
    same_budget = refl;
    asked = sym some_known;
    called = (λ lt. absurd (omega (arith, lt)), λ no. absurd (ground (arith, no, some_known)));
    at_most = omega arith;
  }

  pub resolve_level_known_lem :
      valid_routing routing ≡ true
      → (known : List Text) (s : RoutingState) → All Declared known
      → ((r : LevelResolution) × ((resolve_level_known routing seams known s).0 ≡ ok r)
          × Resolved known s (resolve_level_known routing seams known s).1 r
          × ((nat_beq (length known) 0 && not answered) ≡ false))
        ⊎ ((nat_beq (length known) 0 ≡ true)
            × (answered ≡ false)
            × (e : Exn) × ((resolve_level_known routing seams known s).0 ≡ err e)
            × ((resolve_level_known routing seams known s).1.budget ≡ s.budget)
            × (s.attempts < (resolve_level_known routing seams known s).1.attempts)
            × ((resolve_level_known routing seams known s).1.attempts ≤ s.attempts + 2))
  unfolding resolve_level_known Classified
  resolve_level_known_lem valid [] s h = elim (resolve_level_known-empty valid s) [
    | inl (a, r, e, res) ↦ inl (r, e, res, rw (a) refl)
    | inr (a, x, e, b, more, few) ↦ inr (refl, a, x, e, b, more, few)
  ]
  resolve_level_known_lem valid (name ∷ []) s h =
      inl (_, refl, decided name (name ∷ []) s h.0 (ground arith), ground arith)
  resolve_level_known_lem valid (a ∷ b ∷ more) s h = inl (
    _,
    refl,
    decided routing.default (a ∷ b ∷ more) s (valid_routing-default valid) (ground arith),
    ground arith,
  )
