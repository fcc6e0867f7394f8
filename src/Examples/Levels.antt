-- ===== src/Examples/Levels.antt =====
-- The statements of the tests in libs/mm1-logger/src/level_filter_trie.rs, with numbers for the segments
-- (0 for the wildcard) and for the levels (3 for INFO, 4 for DEBUG, 5 for TRACE).
use mm.Shared.{ℕ, ◌≡◌, refl, List, [], ◌∷◌, none, false, ℕ_discrete}
use mm.LogFilter.{
  LogTargetConfig, from_statements, level_for_target, allows, child, put, child_or_default,
  set_level,
}
use mm.LogFilter.Meaning.{first, candidates, last_level, level_for_target-from_statements}

abbrev statements : List (LogTargetConfig ℕ)
statements = record { path = 1 ∷ []; level = 4 } ∷ record { path = 1 ∷ 2 ∷ []; level = 3 } ∷ []

level_for_target-from_statements_example :
    level_for_target ℕ_discrete 0 (from_statements ℕ_discrete statements) (1 ∷ 2 ∷ 5 ∷ [])
    ≡ first
        (λ q. last_level ℕ_discrete q none statements)
        (candidates ℕ_discrete 0 (1 ∷ 2 ∷ 5 ∷ []))
level_for_target-from_statements_example =
    level_for_target-from_statements ℕ_discrete 0 statements (1 ∷ 2 ∷ 5 ∷ [])

specific_statement_wins :
    allows ℕ_discrete 0 (from_statements ℕ_discrete statements) (1 ∷ 2 ∷ []) 4 ≡ false
unfolding allows from_statements level_for_target set_level child_or_default child put ℕ_discrete
specific_statement_wins = refl
