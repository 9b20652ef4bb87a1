-- ===== src/Base/Floats.antt =====
-- Python's floats: an abstract type with the operations and the functions of `math` that the
-- program calls. A literal is a numerator and a denominator.
use Prim.Native.Nat.{ℕ, ◌+◌, ◌-◌, ◌*◌, ◌/◌}
use mathlib.Core.Path.{◌≡◌}
use mathlib.Core.Bool.{Bool, true, false}
use native.Mathlib.Omega.{arith}
use sbd_drones_economics.Base.Tests.{ltb, eqb, if◌then◌else◌}

pub record Floats : Type 1 where
  pub Float : Type 0
  pub literal : (numerator denominator : ℕ) → Float
  pub of_int : ℕ → Float
  pub add : Float → Float → Float
  pub sub : Float → Float → Float
  pub times : Float → Float → Float
  pub over : Float → Float → Float
  pub below : Float → Float → Bool
  pub equal : Float → Float → Bool
  pub square : Float → Float
  pub abs : Float → Float
  pub round : Float → (digits : ℕ) → Float
  pub infinity : Float
  pub sqrt : Float → Float
  pub sin : Float → Float
  pub cos : Float → Float
  pub atan2 : Float → Float → Float
  pub radians : Float → Float

module _ (fl : Floats) where
  -- `min(a, b)` and `max(a, b)`: the first, unless the second is below or above it
  abbrev pub min : fl.Float → fl.Float → fl.Float
  min a b = if fl.below b a then b else a

  abbrev pub max : fl.Float → fl.Float → fl.Float
  max a b = if fl.below a b then b else a

  -- Neither below the one nor above the other.
  abbrev pub IsWithin : fl.Float → fl.Float → fl.Float → Type 0
  IsWithin lo hi x = (fl.below x lo ≡ false) × (fl.below hi x ≡ false)

  -- Whatever is clamped, also NaN, which is below nothing and above nothing.
  pub clamp-IsWithin :
      (lo hi x : fl.Float)
      → fl.below lo lo ≡ false
      → fl.below hi hi ≡ false
      → fl.below hi lo ≡ false
      → ((a b : fl.Float) → fl.below a b ≡ true → fl.below b a ≡ false)
      → IsWithin lo hi (max lo (min hi x))
  clamp-IsWithin lo hi x l h o asym = ground (arith, asym lo x, asym x hi, asym lo hi)

-- Hundredths, on which the code can be run. The functions of angles are left as they are there.
abbrev pub hundredths : Floats
hundredths = record {
  Float = ℕ;
  literal = λ n d. n * 100 / d;
  of_int = λ n. n * 100;
  add = λ a b. a + b;
  sub = λ a b. a - b;
  times = λ a b. a * b / 100;
  over = λ a b. a * 100 / b;
  below = ltb;
  equal = eqb;
  square = λ a. a * a / 100;
  abs = λ a. a;
  round = λ a n. a;
  infinity = 1_000_000_000_000;
  sqrt = λ a. a;
  sin = λ a. a;
  cos = λ a. a;
  atan2 = λ a b. a;
  radians = λ a. a;
}
