-- ===== src/Can/Health/Tests.antt =====
-- An error counter at a limit.
use l_comboard.Base.{◌≡◌, refl, false}
use l_comboard.Can.Health.{classify_can_health, warning}

warned : classify_can_health 96 0 false ≡ warning
unfolding classify_can_health
warned = refl
