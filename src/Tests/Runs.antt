-- ===== src/Tests/Runs.antt =====
-- A run of the suggestion service: reserve, claim, finish.
use expo_fastapi_todo.Prelude.{◌≡◌, none, some, arith}
use expo_fastapi_todo.Result.{ok}
use expo_fastapi_todo.Suggestion.Claim.{claimed, claim_suggestion}
use expo_fastapi_todo.Suggestion.History.{IsOrdered, Follows}
use expo_fastapi_todo.Suggestion.History.Runs.{
  Reach, start, next, by_finish_claim, Reach-Follows, claim_once_ever,
}
use expo_fastapi_todo.Tests.Sample.{sample, breakdown}
use expo_fastapi_todo.Tests.Suggestion.{claim, after_claim, reserved, done, granted, finished}

reserved-IsOrdered : IsOrdered reserved
reserved-IsOrdered = (omega arith, omega arith)

after_claim-IsOrdered : IsOrdered after_claim
after_claim-IsOrdered = (omega arith, omega arith)

finishing : Reach sample after_claim done
finishing =
    next after_claim done start
      (by_finish_claim 4000 302 claim (some breakdown) none (some (1, 7)) _ finished)

Reach-Follows_example : Follows after_claim done
Reach-Follows_example = Reach-Follows sample after_claim done after_claim-IsOrdered finishing

claim_once_ever_example :
    ¬ (claim_suggestion sample 5000 303 1 (some (1, 7)) done ≡ ok (claimed claim, done))
claim_once_ever_example =
    claim_once_ever sample 2000 5000 300 303 1 1 1 7 7 reserved after_claim done {c' = claim}
      {db3 = done} reserved-IsOrdered granted finishing
