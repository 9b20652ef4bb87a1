-- ===== src/Base/Splitting.antt =====
-- Python's `str.split` by a character, `str.splitlines` and what becomes of joined texts.
use Prim.Native.Char.{Char, code}
use Prim.Native.String.{String}
use Prim.Native.String.append
use mathlib.Core.Path.{◌≡◌, refl, ap}
use mathlib.Core.Bool.{Bool, true, false, ◌&&◌, ◌||◌}
use mathlib.Core.List.{List, [], ◌∷◌}
use native.Mathlib.Omega.{arith}
use sbd_drones_economics.Base.Lists.{All}
use sbd_drones_economics.Base.Tests.{leb, eqb, if◌then◌else◌}
use sbd_drones_economics.Base.Texts.{◌⊕◌, lacks}

-- A character before the first of some texts.
unfoldable pub before : Char → List String → List String
before c [] = String.◌∷◌ c String.[] ∷ []
before c (t ∷ ts) = String.◌∷◌ c t ∷ ts

-- `text.split(sep)`, where the separators are the characters that pass the test
unfoldable pub split_by : (Char → Bool) → String → List String
unfolding before
split_by p String.[] = String.[] ∷ []
split_by p (String.◌∷◌ c s) =
    let rest = split_by p s in if p c then String.[] ∷ rest else before c rest

pub split_by-lacks : (p : Char → Bool) (s : String) → lacks p s ≡ true → split_by p s ≡ s ∷ []
unfolding split_by before
split_by-lacks p String.[] h = refl
split_by-lacks p (String.◌∷◌ c s) h = ground (arith, split_by-lacks p s)

pub split_by-append :
    (p : Char → Bool) (a : String) (d : Char) (s : String)
    → lacks p a ≡ true
    → p d ≡ true
    → split_by p (a ⊕ String.◌∷◌ d s) ≡ a ∷ split_by p s
unfolding split_by before
split_by-append p String.[] d s h e = rw append.nil (ground arith)
split_by-append p (String.◌∷◌ c a) d s h e =
    rw append.cons (ground (arith, split_by-append p a d s))

pub lacks-append :
    (p : Char → Bool) (a b : String) → lacks p a ≡ true → lacks p b ≡ true → lacks p (a ⊕ b) ≡ true
lacks-append p String.[] b h k = rw append.nil k
lacks-append p (String.◌∷◌ c a) b h k = rw append.cons (ground (arith, lacks-append p a b))

-- A text that lacks what one test passes lacks what a stricter test passes.
pub lacks-weaker :
    (p q : Char → Bool) (s : String)
    → ((c : Char) → p c ≡ false → q c ≡ false)
    → lacks p s ≡ true
    → lacks q s ≡ true
lacks-weaker p q String.[] w h = refl
lacks-weaker p q (String.◌∷◌ c s) w h = ground (arith, lacks-weaker p q s w, w c)

append_assoc : (a b c : String) → (a ⊕ b) ⊕ c ≡ a ⊕ b ⊕ c
append_assoc String.[] b c = rw (append.nil, append.nil) refl
append_assoc (String.◌∷◌ x a) b c =
    rw (append.cons, append.cons, append.cons) (ap (λ s. String.◌∷◌ x s) (append_assoc a b c))

-- `sep.join(texts)`
unfoldable pub join : String → List String → String
join sep [] = String.[]
join sep (t ∷ []) = t
join sep (t ∷ u ∷ ts) = t ⊕ sep ⊕ join sep (u ∷ ts)

-- Texts without the separator come back from their join.
pub split_by-join :
    (p : Char → Bool) (d : Char) (t : String) (ts : List String)
    → p d ≡ true
    → All (λ s. lacks p s ≡ true) (t ∷ ts)
    → split_by p (join (String.◌∷◌ d String.[]) (t ∷ ts)) ≡ t ∷ ts
unfolding join
split_by-join p d t [] e h = split_by-lacks p t h.0
split_by-join p d t (u ∷ ts) e h =
    rw (append.cons, append.nil, split_by-append p t d _ h.0 e)
      (ap (λ r. t ∷ r) (split_by-join p d u ts e h.1))

-- The join lacks what its parts and its separator lack.
pub lacks-join :
    (p : Char → Bool) (sep t : String) (ts : List String)
    → lacks p sep ≡ true
    → All (λ s. lacks p s ≡ true) (t ∷ ts)
    → lacks p (join sep (t ∷ ts)) ≡ true
unfolding join
lacks-join p sep t [] e h = h.0
lacks-join p sep t (u ∷ ts) e h =
    lacks-append p t _ h.0 (lacks-append p sep _ e (lacks-join p sep u ts e h.1))

-- The characters at which `str.splitlines` breaks a text.
unfoldable pub is_break : Char → Bool
is_break c =
    let n = code c in
    leb 10 n && leb n 13 || leb 28 n && leb n 30 || eqb n 133 || eqb n 8232 || eqb n 8233

-- `"\n"` begins the text.
unfoldable pub starts_line : String → Bool
starts_line String.[] = false
starts_line (String.◌∷◌ c s) = eqb (code c) 10

-- `text.splitlines()`: a return before a newline is one break with it.
unfoldable pub splitlines : String → List String
unfolding before is_break starts_line
splitlines String.[] = []
splitlines (String.◌∷◌ c s) =
    let rest = splitlines s in
    if eqb (code c) 13 && starts_line s
    then rest
    else if is_break c
    then String.[] ∷ rest
    else before c rest

break-return : (c : Char) → is_break c ≡ false → eqb (code c) 13 ≡ false
unfolding is_break
break-return c h = ground arith

splitlines-cons :
    (c : Char) (s : String)
    → is_break c ≡ false
    → splitlines (String.◌∷◌ c s) ≡ before c (splitlines s)
unfolding splitlines
splitlines-cons c s h = rw (break-return c h, h) refl

-- Where the code does not break, a line goes on to the newline.
pub splitlines-append :
    (a : String) (s : String)
    → lacks is_break a ≡ true
    → splitlines (a ⊕ "\n" ⊕ s) ≡ a ∷ splitlines s
unfolding splitlines before is_break
splitlines-append String.[] s h = rw (append.nil, append.cons, append.nil) refl
splitlines-append (String.◌∷◌ c a) s h =
    rw (append.cons, splitlines-cons c (a ⊕ "\n" ⊕ s) (ground arith))
      (rw (splitlines-append a s (ground arith)) refl)

-- Lines that are joined, with a newline after the last, come back as the lines.
pub splitlines-join :
    (t : String) (ts : List String)
    → All (λ s. lacks is_break s ≡ true) (t ∷ ts)
    → splitlines (join "\n" (t ∷ ts) ⊕ "\n") ≡ t ∷ ts
unfolding join splitlines
splitlines-join t [] h = splitlines-append t "" h.0
splitlines-join t (u ∷ ts) h =
    rw
      (
        append_assoc t ("\n" ⊕ join "\n" (u ∷ ts)) "\n",
        append_assoc "\n" (join "\n" (u ∷ ts)) "\n",
        splitlines-append t (join "\n" (u ∷ ts) ⊕ "\n") h.0,
      )
      (ap (λ r. t ∷ r) (splitlines-join u ts h.1))
