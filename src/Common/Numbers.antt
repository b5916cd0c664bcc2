-- ===== src/Common/Numbers.antt =====
-- A JavaScript number as the integer tests of the program see it.
use Prim.Native.Nat.{ℕ}

-- An integer, `neg n` being -(n + 1), or none: a fraction, NaN, infinity.
pub data JsNumber : Type 0 where
  nat : ℕ → JsNumber
  neg : ℕ → JsNumber
  no_integer : JsNumber
