-- ===== src/Prelude/Search.antt =====
-- What larri searches for in Go strings, on ASCII.
use Prim.Native.Nat.{ℕ, zero, suc, ◌-◌}
use mathlib.Core.Bool.{Bool, true, false, ◌&&◌, ◌||◌}
use mathlib.Core.Option.{none, some}
use mathlib.Core.List.{List, [], ◌∷◌, ◌++◌}
use larri.Prelude.Tests.{leb, ◌==◌, if◌then◌else◌}
use larri.Prelude.Lists.{length, take, drop}
use larri.Prelude.Text.{Text, text_eq, is_empty, cut_prefix, to_lower}

unfoldable pub has_byte : ℕ → Text → Bool
has_byte b [] = false
has_byte b (c ∷ s) = c == b || has_byte b s

-- `s[strings.LastIndex(s, "/")+1:]`.
unfoldable pub base_name : Text → Text
unfolding has_byte
base_name [] = []
base_name (c ∷ s) =
    let rest = base_name s in if has_byte 47 s then rest else if c == 47 then s else c ∷ s

unfoldable pub has_prefix : Text → Text → Bool
unfolding cut_prefix
has_prefix p s = elim (cut_prefix p s) [ none ↦ false | some _ ↦ true ]

unfoldable pub has_suffix : Text → Text → Bool
unfolding text_eq
has_suffix e s = text_eq (drop (length s - length e) s) e

-- strings.TrimPrefix and strings.TrimSuffix.
unfoldable pub trim_prefix : Text → Text → Text
unfolding cut_prefix
trim_prefix p s = elim (cut_prefix p s) [ none ↦ s | some rest ↦ rest ]

unfoldable pub trim_suffix : Text → Text → Text
unfolding has_suffix
trim_suffix e s = if has_suffix e s then take (length s - length e) s else s

-- strings.Contains.
unfoldable pub contains_text : Text → Text → Bool
unfolding has_prefix
contains_text p [] = is_empty p
contains_text p (c ∷ s) = has_prefix p (c ∷ s) || contains_text p s

unfoldable pub to_upper : Text → Text
to_upper [] = []
to_upper (c ∷ s) = (if leb 97 c && leb c 122 then c - 32 else c) ∷ to_upper s

-- strings.FieldsFunc, with the field that is being read.
unfoldable pub fields_from : (ℕ → Bool) → Text → Text → List Text
fields_from p field [] = if is_empty field then [] else field ∷ []
fields_from p field (c ∷ s) =
    let next = fields_from p [] s in
    let longer = fields_from p (field ++ (c ∷ [])) s in
    if p c then (if is_empty field then next else field ∷ next) else longer

unfoldable pub fields_func : (ℕ → Bool) → Text → List Text
unfolding fields_from
fields_func p s = fields_from p [] s

-- strings.ReplaceAll, of a text that is not empty; `skip` bytes still belong to what was found.
unfoldable pub replace_from : Text → Text → ℕ → Text → Text
unfolding has_prefix
replace_from old new skip [] = []
replace_from old new (suc skip) (c ∷ s) = replace_from old new skip s
replace_from old new zero (c ∷ s) = elim (has_prefix old (c ∷ s)) [
  | true ↦ new ++ replace_from old new (length old - 1) s
  | false ↦ c ∷ replace_from old new zero s
]

-- Of an empty text: before each byte and at the end.
unfoldable pub spread : Text → Text → Text
spread new [] = new
spread new (c ∷ s) = new ++ (c ∷ spread new s)

unfoldable pub replace_text : Text → Text → Text → Text
unfolding replace_from spread
replace_text old new s = if is_empty old then spread new s else replace_from old new 0 s

-- strings.EqualFold.
unfoldable pub equal_fold : Text → Text → Bool
unfolding text_eq to_lower
equal_fold a b = text_eq (to_lower a) (to_lower b)

-- A switch over texts, or a map from texts to true.
unfoldable pub is_one_of : List Text → Text → Bool
unfolding text_eq
is_one_of [] t = false
is_one_of (x ∷ xs) t = text_eq x t || is_one_of xs t
