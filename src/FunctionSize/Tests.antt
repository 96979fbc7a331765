-- ===== src/FunctionSize/Tests.antt =====
-- Tests of FunctionSize.antt, and its theorems at concrete inputs.
use Prim.Native.Nat.{min}
use c_plus_server.Base.{◌*◌, ◌^◌, ◌≡◌, ◌≢◌, ◌↔◌, ◌≤◌, ◌<◌, suc, refl, arith, [], ◌∷◌, true}
use c_plus_server.Text.{codes}
use c_plus_server.FunctionSize.{
  FunctionState, new_function_state, trigger, error_level, check, size_report, begin, base_trigger,
}
use c_plus_server.FunctionSize.Level.{
  check-reports, check-silent, check-count_lines, error_level-log, count_lines,
}

abbrev long_function : FunctionState
long_function = record {
  in_a_function = true;
  lines_in_function = 2100;
  current_function = codes "main";
}

test_doubled : trigger (codes "TestMain") 1 ≡ 800
unfolding trigger base_trigger c_plus_server.Regex.match_re c_plus_server.Regex.lit
test_doubled = refl

-- The comment in the source gives 4.
level_800 : error_level 800 250 ≡ 1
unfolding error_level c_plus_server.FunctionSize.log2_ratio
level_800 = refl

level_three : error_level 2100 250 ≡ 3
unfolding error_level c_plus_server.FunctionSize.log2_ratio
level_three = refl

main_trigger : trigger (codes "main") 2 ≡ 1000
unfolding trigger base_trigger c_plus_server.Regex.match_re c_plus_server.Regex.lit
main_trigger = refl

check-reports_example :
    (check long_function 2 17 ≡ size_report long_function 2 17 ∷ [])
    × (min 2 5 ≤ (size_report long_function 2 17).confidence)
    × ((size_report long_function 2 17).confidence ≤ 5)
check-reports_example = check-reports long_function 2 17 refl (omega (arith, main_trigger))

check-silent_example : check long_function 4 17 ≡ []
unfolding trigger base_trigger c_plus_server.Regex.match_re c_plus_server.Regex.lit
check-silent_example = check-silent long_function 4 17 (omega (arith, main_trigger_four))
  where
    main_trigger_four : trigger (codes "main") 4 ≡ 4000
    main_trigger_four = refl

check-count_lines_example :
    (check (count_lines 3 (begin new_function_state (codes "main"))) 1 9 ≢ [])
    ↔ (trigger (codes "main") 1 < 3)
check-count_lines_example = check-count_lines 3 new_function_state (codes "main") 1 9

error_level-log_example :
    (250 * 2 ^ error_level 2100 250 ≤ 2100) × (2100 < 250 * 2 ^ suc (error_level 2100 250))
error_level-log_example =
    error_level-log 2100 250 (omega arith) (omega arith) (omega (arith, level_three))
