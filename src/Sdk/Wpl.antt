-- ===== src/Sdk/Wpl.antt =====
-- sdk/wpl_generator_2.py: the text of a route, and its reading by the operator
-- (systems/operator/src/operator_component/src/operator_component.py). How floats are written and
-- read is the library's.
pub mod RoundTrip
mod Tests
use Prim.Native.Char.{Char, code}
use sbd_drones_economics.Base.{
  ℕ, suc, String, Bool, true, false, ◌||◌, if◌then◌else◌, Option, none, some, List, [], ◌∷◌, Dict,
  lookup, ◌⊕◌, eqb, decimal, ◌++◌, join, split_by, splitlines,
}
use sbd_drones_economics.Base.Floats.{Floats}
use sbd_drones_economics.Outcome.{
  Result, ok, err, Exception, value_error, raise_if, or_raise, ◌>>=◌, ◌>>◌,
}

unfoldable pub is_tab : Char → Bool
is_tab c = eqb (code c) 9

-- What `float` takes, and what it refuses, with its `repr`.
pub data Value (Float : Type 0) : Type 0 where
  number : Float → Value Float
  no_number : String → Value Float

-- An element of the points, or something else with the name of its type.
pub data Entry (Float : Type 0) : Type 0 where
  point : Dict (Value Float) → Entry Float
  no_point : String → Entry Float

module _ (floats : Floats) (show : floats.Float → String) where
  open floats use {Float, of_int, sub, below}

  unfoldable pub get_required : Dict (Value Float) → String → ℕ → Result (Value Float)
  get_required p field index =
      or_raise (lookup field p)
        (value_error ("Point #" ⊕ decimal index ⊕ " missing required field '" ⊕ field ⊕ "'"))

  unfoldable pub to_float : Value Float → String → Result Float
  to_float (number x) field_name = ok x
  to_float (no_number text) field_name =
      err (value_error ("Field '" ⊕ field_name ⊕ "' must be a number, got: " ⊕ text))

  minus : ℕ → Float
  minus n = sub (of_int 0) (of_int n)

  unfoldable pub validate_lat_lon : Float → Float → Result (Unit {0})
  unfolding minus
  validate_lat_lon lat lon =
      raise_if (below lat (minus 90) || below (of_int 90) lat)
        (value_error ("Latitude out of range [-90..90]: " ⊕ show lat))
      >> raise_if (below lon (minus 180) || below (of_int 180) lon)
          (value_error ("Longitude out of range [-180..180]: " ⊕ show lon))

  -- `to_float(get_required(p, field, i), field)`
  unfoldable pub required_float : Dict (Value Float) → String → ℕ → Result Float
  unfolding get_required to_float
  required_float p field i = do value ← get_required p field i; to_float value field

  -- The part of the loop that reads and checks a point's position.
  unfoldable pub read_position : ℕ → Dict (Value Float) → Result (Float × (Float × Float))
  unfolding required_float validate_lat_lon
  read_position i p = do
    lat ← required_float p "lat" i
    lon ← required_float p "lon" i
    alt ← required_float p "alt_m" i
    validate_lat_lon lat lon
    if below alt (of_int 0)
        then err (value_error ("Altitude must be >=0, got point #" ⊕ decimal i ⊕ ": " ⊕ show alt))
        else ok (lat, (lon, alt))

  -- `to_float(p.get(name, 0.0), name)`
  unfoldable pub param : Dict (Value Float) → String → Result Float
  unfolding to_float
  param p name = elim (lookup name p) [ none ↦ ok (of_int 0) | some value ↦ to_float value name ]

  -- The part that reads the parameters, in their texts.
  unfoldable pub read_params : Dict (Value Float) → Result (List String)
  unfolding param
  read_params p = do
    param1 ← param p "param1"
    param2 ← param p "param2"
    param3 ← param p "param3"
    param4 ← param p "param4"
    ok (show param1 ∷ show param2 ∷ show param3 ∷ show param4 ∷ [])

  -- `"\t".join([str(i), str(current), str(frame), ...])`
  unfoldable pub row_text : (i frame : ℕ) (params : List String) (lat lon alt : Float) → String
  row_text i frame params lat lon alt = join "\t" (
      decimal i ∷ (if eqb i 0 then "1" else "0") ∷ decimal frame ∷ "16" ∷ params
      ++ show lat ∷ show lon ∷ show alt ∷ "1" ∷ [])

  unfoldable pub row : (i frame : ℕ) → Entry Float → Result String
  unfolding read_position read_params row_text
  row i frame (no_point type_name) =
      err (value_error ("Point #" ⊕ decimal i ⊕ " must be a dict, got: " ⊕ type_name))
  row i frame (point p) = do
    position ← read_position i p
    params ← read_params p
    ok (row_text i frame params position.0 position.1.0 position.1.1)

  -- The rows of the points from number `i` on.
  unfoldable pub rows : (i frame : ℕ) → List (Entry Float) → Result (List String)
  unfolding row
  rows i frame [] = ok []
  rows i frame (p ∷ points) = do
    text ← row i frame p
    rest ← rows (suc i) frame points
    ok (text ∷ rest)

  -- `points_to_wpl`
  unfoldable pub points_to_wpl : List (Entry Float) → (frame : ℕ) → Result String
  unfolding rows
  points_to_wpl [] frame = err (value_error "Points array is empty")
  points_to_wpl (p ∷ points) frame = do
    lines ← rows 0 frame (p ∷ points)
    ok (join "\n" ("QGC WPL 110" ∷ lines) ⊕ "\n")

unfoldable pub read_both : {Float : Type 0} → Option Float → Option Float → Option (Float × Float)
read_both (some lat) (some lon) = some (lat, lon)
read_both none lon = none
read_both (some lat) none = none

unfoldable pub add_read :
    {Float : Type 0} → Option (Float × Float) → List (Float × Float) → List (Float × Float)
add_read none route = route
add_read (some place) route = place ∷ route

module _ {Float : Type 0} (read : String → Option Float) where
  -- A line of the route, where it has twelve columns, with numbers in the ninth and the tenth.
  unfoldable pub read_columns : List String → Option (Float × Float)
  unfolding read_both
  read_columns (_ ∷ _ ∷ _ ∷ _ ∷ _ ∷ _ ∷ _ ∷ _ ∷ lat ∷ lon ∷ _ ∷ _ ∷ _) =
      read_both (read lat) (read lon)
  read_columns _ = none

  unfoldable pub read_line : String → Option (Float × Float)
  unfolding is_tab read_columns
  read_line line = read_columns (split_by is_tab line)

  unfoldable pub read_lines : List String → List (Float × Float)
  unfolding read_line add_read
  read_lines [] = []
  read_lines (line ∷ lines) = add_read (read_line line) (read_lines lines)

  -- `_parse_wpl_route`
  unfoldable pub parse_wpl_route : String → List (Float × Float)
  unfolding read_lines
  parse_wpl_route wpl = read_lines (splitlines wpl)
