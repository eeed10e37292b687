-- ===== src/Tests/Keys.antt =====
-- Order keys at concrete neighbours.
use knowtion.Base.{refl, list_eq, nat_eq, codes, arith}
use knowtion.OrderKey.Compare.{text_lt}
use knowtion.OrderKey.Digits.{digit_value, midpoint_between}
use knowtion.OrderKey.Digits.Differing.{Between}
use knowtion.OrderKey.Digits.Midpoint.{midpoint_between-Between}

midpoint_between-Between_example :
    Between (codes "V1") (codes "V2") (midpoint_between (codes "V1") (codes "V2"))
unfolding digit_value text_lt
midpoint_between-Between_example =
    midpoint_between-Between (codes "V1") (codes "V2") ((31, refl), ((1, refl), tt))
      ((31, refl), ((2, refl), tt)) (λ e. absurd (omega (arith, e))) refl
