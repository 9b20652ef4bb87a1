-- ===== src/Base/Texts.antt =====
-- Python's `str` methods that the program calls: `strip`, `lower` and `startswith`.
use Prim.Native.Nat.{ℕ, zero, suc, ◌-◌, ◌/◌, ◌%◌, ◌<◌}
use Prim.Native.Char.{Char, code}
use Prim.Native.String.{String, char_at, ◌++◌ as append, [], ◌∷◌}
use Prim.Native.String.append
use Prim.Native.String.compare
use mathlib.Core.Path.{◌≡◌, refl}
use mathlib.Core.Logic.{inl, inr}
use mathlib.Core.Bool.{false, true, Bool, ◌&&◌, ◌||◌, not}
use text.Mathlib.Text.{◌==◌}
use native.Mathlib.Omega.{arith}
use sbd_drones_economics.Base.Tests.{Bool-cases, leb, eqb, if◌then◌else◌}

-- The characters that `str.strip()` removes.
unfoldable pub is_space : Char → Bool
is_space c =
    let n = code c in
    leb 9 n && leb n 13
    || leb 28 n && leb n 32
    || eqb n 133
    || eqb n 160
    || eqb n 5760
    || leb 8192 n && leb n 8202
    || eqb n 8232
    || eqb n 8233
    || eqb n 8239
    || eqb n 8287
    || eqb n 12288

strip_left : String → String
strip_left [] = []
strip_left (c ∷ s) = let rest = strip_left s in if is_space c then rest else c ∷ s

strip_right : String → String
strip_right [] = []
strip_right (c ∷ s) = let rest = strip_right s in if rest == "" && is_space c then [] else c ∷ rest

-- `s.strip()`
unfoldable pub strip : String → String
unfolding is_space strip_left strip_right
strip s = strip_right (strip_left s)

-- Capital ASCII letters, and the Kelvin sign, whose lower case is the ASCII k. Any other character
-- has a lower case outside ASCII, so it stands for itself: the program compares with ASCII texts.
lower_char : Char → Char
lower_char c =
    let n = code c in
    if leb 65 n && leb n 90
    then char_at "abcdefghijklmnopqrstuvwxyz" (n - 65)
    else if eqb n 8490
    then char_at "k" 0
    else c

-- `s.lower()`
unfoldable pub lower : String → String
unfolding lower_char
lower [] = []
lower (c ∷ s) = lower_char c ∷ lower s

-- `s[:n]`
abbrev pub first : ℕ → String → String
first zero s = []
first (suc n) [] = []
first (suc n) (c ∷ s) = c ∷ first n s

-- Concatenation of texts, as in f-strings.
infixr 65 ◌⊕◌
abbrev pub ◌⊕◌ : String → String → String
s ⊕ t = append s t

-- No character of the text passes the test.
abbrev pub lacks : (Char → Bool) → String → Bool
lacks p [] = true
lacks p (c ∷ s) = not (p c) && lacks p s

strip_lem : (s : String) → strip s ≡ strip_right (strip_left s)
unfolding strip
strip_lem s = refl

strip_left-cons : (c : Char) (s : String) → is_space c ≡ false → strip_left (c ∷ s) ≡ c ∷ s
unfolding strip_left
strip_left-cons c s h = rw h

strip_right-cons :
    (c : Char) (s : String) → is_space c ≡ false → strip_right (c ∷ s) ≡ c ∷ strip_right s
unfolding strip_right
strip_right-cons c s h = ground arith

strip_right-plain : (s : String) → lacks is_space s ≡ true → strip_right s ≡ s
unfolding strip_right
strip_right-plain [] h = refl
strip_right-plain (c ∷ s) h = ground (arith, strip_right-plain s)

-- A text without spaces is its own strip.
pub strip-plain : (s : String) → lacks is_space s ≡ true → strip s ≡ s
unfolding strip_left
strip-plain [] h = rw (strip_lem []) (strip_right-plain [] h)
strip-plain (c ∷ s) h =
    rw (strip_lem (c ∷ s), strip_left-cons c s (ground arith)) (strip_right-plain (c ∷ s) h)

-- A text that begins with something else than a space is not blank.
pub strip-cons_ne : (c : Char) (s : String) → is_space c ≡ false → (strip (c ∷ s) == "") ≡ false
strip-cons_ne c s h =
    rw (strip_lem (c ∷ s), strip_left-cons c s h, strip_right-cons c s h)
      (rw (compare.cons-nil c (strip_right s)))

pub strip-append_ne :
    (c : Char) (s t : String) → is_space c ≡ false → (strip ((c ∷ s) ⊕ t) == "") ≡ false
strip-append_ne c s t h = rw append.cons (strip-cons_ne c (s ⊕ t) h)

-- `s.startswith(prefix)`
abbrev pub starts_with : (prefix s : String) → Bool
starts_with [] s = true
starts_with (c ∷ p) [] = false
starts_with (c ∷ p) (d ∷ s) = eqb (code c) (code d) && starts_with p s

-- The digits of a number before a text; the number falls with each digit, so it is fuel enough.
digits : (fuel n : ℕ) → String → String
digits zero n rest = rest
digits (suc fuel) n rest =
    let d = char_at "0123456789" (n % 10) in
    let more = digits fuel (n / 10) (d ∷ rest) in if leb n 9 then d ∷ rest else more

-- `str(n)`
unfoldable pub decimal : ℕ → String
unfolding digits
decimal n = digits (suc n) n ""

digits-lacks :
    (p : Char → Bool) (fuel n : ℕ) (rest : String)
    → ((d : ℕ) → d < 10 → p (char_at "0123456789" d) ≡ false)
    → lacks p rest ≡ true
    → lacks p (digits fuel n rest) ≡ true
unfolding digits
digits-lacks p zero n rest none_of h = h
digits-lacks p (suc f) n rest none_of h = elim (Bool-cases (leb n 9)) [
  | inl e ↦ rw (digits, e) last
  | inr e ↦ rw (digits, e) (digits-lacks p f (n / 10) _ none_of last)
]
  where
    last : lacks p (char_at "0123456789" (n % 10) ∷ rest) ≡ true
    last = rw (none_of (n % 10) (omega arith), h) refl

-- A number lacks what no digit is.
pub decimal-lacks :
    (p : Char → Bool) (n : ℕ)
    → ((d : ℕ) → d < 10 → p (char_at "0123456789" d) ≡ false)
    → lacks p (decimal n) ≡ true
unfolding decimal
decimal-lacks p n none_of = digits-lacks p (suc n) n "" none_of refl

-- Any fuel above the number gives the same digits.
digits_enough : (f g n : ℕ) (rest : String) → n < f → n < g → digits f n rest ≡ digits g n rest
unfolding digits
digits_enough zero g n rest h k = elim h [ ]
digits_enough (suc f) zero n rest h k = elim k [ ]
digits_enough (suc f) (suc g) n rest h k =
    ground (arith, digits_enough f g (n / 10) (char_at "0123456789" (n % 10) ∷ rest))

decimal_2026 : decimal 2026 ≡ "2026"
unfolding decimal
decimal_2026 = refl
