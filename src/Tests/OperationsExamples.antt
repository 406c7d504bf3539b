-- ===== src/Tests/OperationsExamples.antt =====
-- The throttle and the exposure monitor, at concrete inputs.
use zongo_v.Prelude.{◌≡◌, [], ◌∷◌, arith}
use zongo_v.Whatsapp.Throttling.{passes, window_admits_limit}
use zongo_v.Tests.Data.{full_bucket}

window_admits_limit_example : passes 2 "hash" (61000 ∷ 62000 ∷ 63000 ∷ []) (full_bucket ∷ []) ≡ 2
window_admits_limit_example =
    window_admits_limit 2 61000 "hash" (62000 ∷ 63000 ∷ []) (full_bucket ∷ []) (omega arith)
      (omega arith) (omega arith, (omega arith, tt))
