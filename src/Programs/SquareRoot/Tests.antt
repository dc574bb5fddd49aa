-- ===== src/Programs/SquareRoot/Tests.antt =====
-- The tests of the square root with some single precision that is easy to compute.
use simple_network.Base.{
  ℕ, ◌*◌, ◌%◌, ◌^◌, ◌≡◌, refl, true, false, if◌then◌else◌, ◌==◌, arith, Bool, ap, ◌∙◌,
}
use simple_network.Programs.SquareRoot.{
  Floats, is_nan, is_nan_float, minus_22, positive_nos, zero_and_negative_nos, WidensExactly,
  KeepsNan, tests-fail,
}

-- Every number but -22 counts as 0 in single precision, and its square root is 0.
abbrev widen_to : Bool → ℕ → ℕ
widen_to true w = 9221120237041090560
widen_to false w = w % 2 ^ 20 * 2 ^ 29

abbrev coarse : Floats
coarse = record {
  narrow = λ x. if x == minus_22 then 3249537024 else 0;
  sqrtf = λ w. if w == 3249537024 then 2143289344 else 0;
  widen = λ w. widen_to (is_nan_float w) w;
}

coarse-WidensExactly : WidensExactly coarse
coarse-WidensExactly w n = ap (λ b. widen_to b w % 2 ^ 29) n ∙ omega arith

coarse-KeepsNan : KeepsNan coarse
coarse-KeepsNan w t = ap (λ b. is_nan (widen_to b w)) t

tests-fail_example : (positive_nos coarse ≡ false) × (zero_and_negative_nos coarse ≡ false)
tests-fail_example = tests-fail coarse coarse-WidensExactly coarse-KeepsNan refl
