-- ===== src/Sdk/Wpl/RoundTrip.antt =====
-- A route that is written comes back when it is read.
use Prim.Native.Nat.{◌<◌}
use Prim.Native.Char.{Char}
use Prim.Native.String.{char_at}
use sbd_drones_economics.Base.{
  ℕ, zero, suc, String, Bool, true, false, ◌||◌, if◌then◌else◌, Option, none, some, List, [], ◌∷◌,
  Dict, lookup, eqb, decimal, decimal-lacks, lacks, lacks-weaker, lacks-join, split_by,
  split_by-join, splitlines-join, is_break, All, length, ◌≡◌, refl, sym, ap, subst, ◌∙◌, inl, inr,
  arith, Bool-cases, Option-cases,
}
use sbd_drones_economics.Base.Floats.{Floats}
use sbd_drones_economics.Outcome.{ok, result_cases}
use sbd_drones_economics.Sdk.Wpl.{
  is_tab, Value, number, no_number, Entry, point, no_point, get_required, to_float, required_float,
  read_position, param, read_params, row_text, row, rows, points_to_wpl, read_both, read_columns,
  read_line, add_read, read_lines, parse_wpl_route,
}

-- The characters that structure a route's text.
unfoldable pub is_separator : Char → Bool
unfolding is_tab is_break
is_separator c = is_tab c || is_break c

separator-each : (c : Char) → is_separator c ≡ false → (is_tab c ≡ false) × (is_break c ≡ false)
unfolding is_separator
separator-each c h = both (is_tab c) (is_break c) h
  where
    both : (a b : Bool) → (a || b) ≡ false → (a ≡ false) × (b ≡ false)
    both a b h = ground arith

one : lacks is_separator "1" ≡ true
unfolding is_separator
one = refl

naught : lacks is_separator "0" ≡ true
unfolding is_separator
naught = refl

sixteen : lacks is_separator "16" ≡ true
unfolding is_separator
sixteen = refl

ok-injective : {A : Type 0} (a b : A) → ok a ≡ ok b → a ≡ b
ok-injective a b e = ground arith

digit-separator : (d : ℕ) → d < 10 → is_separator (char_at "0123456789" d) ≡ false
unfolding is_separator
digit-separator zero h = refl
digit-separator (suc zero) h = refl
digit-separator (suc (suc zero)) h = refl
digit-separator (suc (suc (suc zero))) h = refl
digit-separator (suc (suc (suc (suc zero)))) h = refl
digit-separator (suc (suc (suc (suc (suc zero))))) h = refl
digit-separator (suc (suc (suc (suc (suc (suc zero)))))) h = refl
digit-separator (suc (suc (suc (suc (suc (suc (suc zero))))))) h = refl
digit-separator (suc (suc (suc (suc (suc (suc (suc (suc zero)))))))) h = refl
digit-separator (suc (suc (suc (suc (suc (suc (suc (suc (suc zero))))))))) h = refl
digit-separator (suc (suc (suc (suc (suc (suc (suc (suc (suc (suc d)))))))))) h = ground arith

-- The place that a point stands for.
unfoldable pub place_of :
    {Float : Type 0} → Option (Value Float) → Option (Value Float) → Option (Float × Float)
place_of (some (number lat)) (some (number lon)) = some (lat, lon)
place_of (some (number lat)) (some (no_number _)) = none
place_of (some (number lat)) none = none
place_of (some (no_number _)) lon = none
place_of none lon = none

unfoldable pub place : {Float : Type 0} → Entry Float → Option (Float × Float)
unfolding place_of
place (no_point _) = none
place (point p) = place_of (lookup "lat" p) (lookup "lon" p)

unfoldable pub places : {Float : Type 0} → List (Entry Float) → List (Float × Float)
unfolding place add_read
places [] = []
places (p ∷ points) = add_read (place p) (places points)

module _ (floats : Floats) (show : floats.Float → String)
    (read : String → Option floats.Float) where
  open floats use {Float}

  -- A float is read back from its text, which holds no separator.
  pub record IsPrinted : Type 0 where
    pub back : (x : Float) → read (show x) ≡ some x
    pub plain : (x : Float) → lacks is_separator (show x) ≡ true

  required_float-number :
      (p : Dict (Value Float)) (field : String) (i : ℕ) (x : Float)
      → required_float floats show p field i ≡ ok x
      → lookup field p ≡ some (number x)
  unfolding required_float get_required to_float
  required_float-number p field i x e = elim (Option-cases (lookup field p)) [
    | inl n ↦ ground (arith, rw (required_float, n) at e)
    | inr (number y, s) ↦ ground (arith, rw (required_float, s) at e)
    | inr (no_number t, s) ↦ ground (arith, rw (required_float, s) at e)
  ]

  read_position-place :
      (i : ℕ) (p : Dict (Value Float)) (at : Float × (Float × Float))
      → read_position floats show i p ≡ ok at
      → place (point p) ≡ some (at.0, at.1.0)
  unfolding read_position place place_of
  read_position-place i p at e = elim (result_cases (required_float floats show p "lat" i)) [
    | inr (x, bad) ↦ ground (arith, rw (read_position, bad) at e)
    | inl (lat, h) ↦ elim (result_cases (required_float floats show p "lon" i)) [
      | inr (x, bad) ↦ ground (arith, rw (read_position, h, bad) at e)
      | inl (lon, k) ↦ elim (result_cases (required_float floats show p "alt_m" i)) [
        | inr (x, bad) ↦ ground (arith, rw (read_position, h, k, bad) at e)
        | inl (alt, l) ↦
            rw (required_float-number p "lat" i lat h, required_float-number p "lon" i lon k)
              (ground (arith, rw (read_position, h, k, l) at e))
      ]
    ]
  ]

  abbrev Shown4 : List String → Type 0
  Shown4 params =
      (a : Float) × ((b : Float) × ((c : Float) × ((d : Float) × (params
              ≡ show a ∷ show b ∷ show c ∷ show d ∷ []))))

  read_params-Shown4 :
      (p : Dict (Value Float)) (params : List String)
      → read_params floats show p ≡ ok params
      → Shown4 params
  unfolding read_params
  read_params-Shown4 p params e = elim (result_cases (param floats show p "param1")) [
    | inr (x, bad) ↦ ground (arith, rw (read_params, bad) at e)
    | inl (a, h) ↦ elim (result_cases (param floats show p "param2")) [
      | inr (x, bad) ↦ ground (arith, rw (read_params, h, bad) at e)
      | inl (b, k) ↦ elim (result_cases (param floats show p "param3")) [
        | inr (x, bad) ↦ ground (arith, rw (read_params, h, k, bad) at e)
        | inl (c, l) ↦ elim (result_cases (param floats show p "param4")) [
          | inr (x, bad) ↦ ground (arith, rw (read_params, h, k, l, bad) at e)
          | inl (d, m) ↦
              (a, (b, (c, (d, sym (ok-injective _ _ (rw (read_params, h, k, l, m) at e))))))
        ]
      ]
    ]
  ]

  -- A row is one line, and reads as the place it was written for.
  abbrev Reads : Option (Float × Float) → String → Type 0
  Reads place text = (lacks is_break text ≡ true) × (read_line read text ≡ place)

  -- The columns of a row after the first.
  abbrev columns : (i frame : ℕ) (a b c d lat lon alt : Float) → List String
  columns i frame a b c d lat lon alt =
      (if eqb i 0 then "1" else "0")
      ∷ decimal frame
      ∷ "16"
      ∷ show a
      ∷ show b
      ∷ show c
      ∷ show d
      ∷ show lat
      ∷ show lon
      ∷ show alt
      ∷ "1"
      ∷ []

  -- No column holds a separator.
  columns-plain :
      (p : Char → Bool) (i frame : ℕ) (a b c d lat lon alt : Float)
      → IsPrinted
      → ((k : Char) → is_separator k ≡ false → p k ≡ false)
      → All (λ s. lacks p s ≡ true) (decimal i ∷ columns i frame a b c d lat lon alt)
  columns-plain p i frame a b c d lat lon alt h weaker = (
    of_number i,
    (
      flag,
      (
        of_number frame,
        (
          of_plain "16" sixteen,
          (
            of_float a,
            (
              of_float b,
              (
                of_float c,
                (
                  of_float d,
                  (of_float lat, (of_float lon, (of_float alt, (of_plain "1" one, tt)))),
                ),
              ),
            ),
          ),
        ),
      ),
    ),
  )
    where
      of_plain : (s : String) → lacks is_separator s ≡ true → lacks p s ≡ true
      of_plain s = lacks-weaker is_separator p s weaker

      of_number : (n : ℕ) → lacks p (decimal n) ≡ true
      of_number n = of_plain (decimal n) (decimal-lacks is_separator n digit-separator)

      of_float : (x : Float) → lacks p (show x) ≡ true
      of_float x = of_plain (show x) (h.plain x)

      flag : lacks p (if eqb i 0 then "1" else "0") ≡ true
      flag = elim (Bool-cases (eqb i 0)) [
        | inl e ↦ rw e (of_plain "1" one)
        | inr e ↦ rw e (of_plain "0" naught)
      ]

  row_text-Reads :
      (i frame : ℕ) (params : List String) (lat lon alt : Float)
      → IsPrinted
      → Shown4 params
      → Reads (some (lat, lon)) (row_text floats show i frame params lat lon alt)
  unfolding row_text read_line read_columns read_both is_break is_tab
  row_text-Reads i frame params lat lon alt h (a, (b, (c, (d, e)))) = rw e (
    lacks-join is_break "\t" (decimal i) (columns i frame a b c d lat lon alt) refl
        (columns-plain is_break i frame a b c d lat lon alt h (λ k f. (separator-each k f).1)),
    ap (read_columns read) (
          split_by-join is_tab (char_at "\t" 0) (decimal i) (columns i frame a b c d lat lon alt)
            refl
            (columns-plain is_tab i frame a b c d lat lon alt h (λ k f. (separator-each k f).0)))
        ∙ rw (h.back lat, h.back lon) refl,
  )

  row-Reads :
      (i frame : ℕ) (entry : Entry Float) (text : String)
      → IsPrinted
      → row floats show i frame entry ≡ ok text
      → (at : Float × Float) × ((place entry ≡ some at) × Reads (some at) text)
  unfolding row
  row-Reads i frame (no_point t) text h e = ground arith
  row-Reads i frame (point p) text h e = elim (result_cases (read_position floats show i p)) [
    | inr (x, bad) ↦ ground (arith, rw (row, bad) at e)
    | inl (position, k) ↦ elim (result_cases (read_params floats show p)) [
      | inr (x, bad) ↦ ground (arith, rw (row, k, bad) at e)
      | inl (params, l) ↦ (
        (position.0, position.1.0),
        (
          read_position-place i p position k,
          subst (Reads (some (position.0, position.1.0))) (ok-injective _ _ (rw (row, k, l) at e)) (
              row_text-Reads i frame params position.0 position.1.0 position.1.1 h
                (read_params-Shown4 p params l)),
        ),
      )
    ]
  ]

  ReadsAll : List (Entry Float) → List String → Type 0
  ReadsAll points texts =
      All (λ s. lacks is_break s ≡ true) texts
      × ((read_lines read texts ≡ places points) × (length (places points) ≡ length points))

  rows-ReadsAll :
      (i frame : ℕ) (points : List (Entry Float)) (texts : List String)
      → IsPrinted
      → rows floats show i frame points ≡ ok texts
      → ReadsAll points texts
  unfolding rows ReadsAll places read_lines add_read
  rows-ReadsAll i frame [] texts h e = subst (ReadsAll []) (ok-injective _ _ e) (tt, (refl, refl))
  rows-ReadsAll i frame (p ∷ points) texts h e = elim (result_cases (row floats show i frame p)) [
    | inr (x, bad) ↦ ground (arith, rw (rows, bad) at e)
    | inl (text, k) ↦ elim (result_cases (rows floats show (suc i) frame points)) [
      | inr (x, bad) ↦ ground (arith, rw (rows, k, bad) at e)
      | inl (rest, l) ↦
          let (at, (there, (line, reads))) = row-Reads i frame p text h k in
          let (lines, (same, count)) = rows-ReadsAll (suc i) frame points rest h l in
          subst (ReadsAll (p ∷ points)) (ok-injective _ _ (rw (rows, k, l) at e)) (
            (line, lines),
            (rw (reads, there) (ap (λ r. at ∷ r) same), rw there (omega (arith, count))),
          )
    ]
  ]

  -- Whatever points the generator accepts, the operator reads their places back, one for each point
  -- and in order.
  pub parse_wpl_route-points_to_wpl :
      (points : List (Entry Float)) (frame : ℕ) (text : String)
      → IsPrinted
      → points_to_wpl floats show points frame ≡ ok text
      → (parse_wpl_route read text ≡ places points) × (length (places points) ≡ length points)
  unfolding points_to_wpl ReadsAll parse_wpl_route read_lines read_line read_columns split_by is_tab
      add_read is_break
  parse_wpl_route-points_to_wpl [] frame text h e = ground arith
  parse_wpl_route-points_to_wpl (p ∷ points) frame text h e =
      elim (result_cases (rows floats show 0 frame (p ∷ points))) [
        | inr (x, bad) ↦ ground (arith, rw (points_to_wpl, bad) at e)
        | inl (texts, k) ↦
            let (lines, (same, count)) = rows-ReadsAll 0 frame (p ∷ points) texts h k in
            (
              subst (λ s. parse_wpl_route read s ≡ places (p ∷ points))
                  (ok-injective _ _ (rw (points_to_wpl, k) at e))
                  (rw (splitlines-join "QGC WPL 110" texts (refl, lines)) same),
              count,
            )
      ]
