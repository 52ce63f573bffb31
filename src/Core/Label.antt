-- ===== src/Core/Label.antt =====
-- internal/core/label.go: the marker on a provider's resource, from which a rig can be told when local
-- state is gone. A sealer is a parameter, and so are float64 and its text. A creation time is in whole
-- Unix seconds; the year 1 is Go's zero time. `Provider`, which is neither written nor read, is left
-- out.
pub mod Attribution
use larri.Prelude.{
  ℕ, zero, suc, ◌+◌, ◌-◌, ◌*◌, ◌/◌, ◌%◌, ◌^◌, ◌==◌, Bool, true, false, not, ◌&&◌, ◌||◌, Option,
  none, some, List, [], ◌∷◌, ◌++◌, ltb, leb, length, take, if◌then◌else◌,
}
use larri.Prelude.Text.{Text, text_eq, bytes, is_empty, cut_prefix, split, cut}
use larri.Prelude.Decimal.{itoa, parse_int}
use larri.Prelude.Int.{ℤ, pos, negsuc, is_zero}

-- What the sealer does with bytes; none is its error.
pub record Sealer : Type 0 where
  pub seal : Text → Option Text
  pub open_token : Text → Option Text

-- float64 as the label uses it: `> 0`, FormatFloat(f, 'f', 4, 64) and ParseFloat(s, 64).
pub record Prices : Type 1 where
  pub F : Type 0
  pub no_price : F
  pub is_positive : F → Bool
  pub format : F → Text
  pub parse : Text → Option F

pub record Label (F : Type 0) : Type 0 where
  pub rig_of : Text
  pub version : ℤ
  pub model : Text
  pub served : Text
  pub runtime : Text
  pub port : ℤ
  pub created : ℤ
  pub price : F
  pub sealed : Bool

abbrev pub label_version : ℤ
label_version = pos 1

abbrev pub zero_time : ℤ
zero_time = negsuc 62135596799

unfoldable pub is_zero_time : ℤ → Bool
is_zero_time (pos n) = false
is_zero_time (negsuc n) = n == 62135596799

unfoldable pub above_zero : ℤ → Bool
above_zero (pos n) = ltb 0 n
above_zero (negsuc n) = false

-- The replacer of `sanitise`: a bar, an equals sign, a line feed and a space become `_`.
unfoldable pub replaced : ℕ → ℕ
replaced c = if (c == 124 || c == 61) || (c == 10 || c == 32) then 95 else c

unfoldable pub replace_all : Text → Text
unfolding replaced
replace_all [] = []
replace_all (c ∷ s) = replaced c ∷ replace_all s

unfoldable pub sanitise : Text → Text
unfolding replace_all
sanitise s = let t = replace_all s in if ltb 64 (length t) then take 64 t else t

unfoldable pub or_default : ℤ → ℤ → ℤ
or_default v default = if is_zero v then default else v

-- `head`.
unfoldable pub label_head : Text → Text
label_head rig = bytes "larri:" ++ rig

unfoldable pub label_limit : ℤ → ℕ
label_limit (pos zero) = 255
label_limit (pos (suc n)) = suc n
label_limit (negsuc n) = 255

unfoldable pub add_field : Text → Text → List (Text × Text) → List (Text × Text)
add_field k v rest = if is_empty v then rest else (k, v) ∷ rest

-- The loop over the fields, with what is written so far.
unfoldable pub put_fields : ℕ → Text → List (Text × Text) → Text
put_fields limit out [] = out
put_fields limit out (f ∷ fs) =
    let seg = bytes "|" ++ f.0 ++ bytes "=" ++ f.1 in
    let rest = put_fields limit (out ++ seg) fs in
    if ltb limit (length out + length seg) then out else rest

module _ (Pr : Prices) where
  unfoldable pub fields : Label Pr.F → List (Text × Text)
  unfolding add_field or_default is_zero_time above_zero
  fields l = add_field (bytes "v") (itoa (or_default l.version label_version)) (
      add_field (bytes "t") (if is_zero_time l.created then [] else itoa l.created) (
        add_field (bytes "r") l.runtime (
          add_field (bytes "p") (if above_zero l.port then itoa l.port else []) (
            add_field (bytes "c") (if Pr.is_positive l.price then Pr.format l.price else []) (
              add_field (bytes "n") (sanitise l.served)
                (add_field (bytes "m") (sanitise l.model) []))))))

  unfoldable pub encode_plain : Label Pr.F → ℕ → Text
  unfolding put_fields fields label_head
  encode_plain l limit =
      let head = label_head l.rig_of in
      if ltb limit (length head) then head else put_fields limit head (fields l)

  unfoldable pub encode_fields : Label Pr.F → Text
  unfolding or_default is_zero_time above_zero
  encode_fields l =
      bytes "v="
      ++ itoa (or_default l.version label_version)
      ++ (if is_zero_time l.created then [] else bytes "|t=" ++ itoa l.created)
      ++ (if is_empty l.runtime then [] else bytes "|r=" ++ l.runtime)
      ++ (if above_zero l.port then bytes "|p=" ++ itoa l.port else [])
      ++ (if Pr.is_positive l.price then bytes "|c=" ++ Pr.format l.price else [])
      ++ (if is_empty l.served then [] else bytes "|n=" ++ sanitise l.served)
      ++ (if is_empty l.model then [] else bytes "|m=" ++ sanitise l.model)

  -- EncodeLabel; a sealer of none is Go's nil.
  unfoldable pub encode_label : Label Pr.F → ℤ → Option Sealer → Text
  unfolding encode_plain encode_fields label_head
  encode_label l limit none = encode_plain l (label_limit limit)
  encode_label l limit (some s) = elim (s.seal (encode_fields l)) [
    | none ↦ label_head l.rig_of
    | some token ↦
        let full = label_head l.rig_of ++ bytes "|e=" ++ token in
        if ltb (label_limit limit) (length full) then label_head l.rig_of else full
  ]

  -- The cases of the switch.
  unfoldable pub set_field : Label Pr.F → Text → Text → Label Pr.F
  set_field l k v =
      if text_eq k (bytes "v")
      then elim (parse_int v) [ none ↦ l | some n ↦ record l { version = n } ]
      else (if text_eq k (bytes "t")
          then elim (parse_int v) [ none ↦ l | some n ↦ record l { created = n } ]
          else (if text_eq k (bytes "r")
              then record l { runtime = v }
              else (if text_eq k (bytes "p")
                  then elim (parse_int v) [ none ↦ l | some n ↦ record l { port = n } ]
                  else (if text_eq k (bytes "c")
                      then elim (Pr.parse v) [ none ↦ l | some f ↦ record l { price = f } ]
                      else (if text_eq k (bytes "n")
                          then record l { served = v }
                          else (if text_eq k (bytes "m") then record l { model = v } else l))))))

  -- One turn of the second loop, and the loop.
  unfoldable pub read_field : Label Pr.F → Text → Label Pr.F
  unfolding set_field cut
  read_field l p = elim (cut 61 p) [ none ↦ l | some (k, v) ↦ set_field l k v ]

  unfoldable pub read_fields : Label Pr.F → List Text → Label Pr.F
  unfolding read_field
  read_fields l [] = l
  read_fields l (p ∷ ps) = read_fields (read_field l p) ps

  unfoldable pub blank_label : Text → Label Pr.F
  blank_label rig = record {
    rig_of = rig;
    version = label_version;
    model = [];
    served = [];
    runtime = [];
    port = pos 0;
    created = zero_time;
    price = Pr.no_price;
    sealed = false;
  }

  -- The first loop without a sealer: is there a sealed part?
  unfoldable pub has_sealed : List Text → Bool
  has_sealed [] = false
  has_sealed (p ∷ ps) =
      let rest = has_sealed ps in elim (cut_prefix (bytes "e=") p) [ none ↦ rest | some _ ↦ true ]

  -- The start of DecodeLabelWith: the rig id, and the parts behind it; none is a label that is not
  -- LARRI's.
  unfoldable pub label_parts : Text → Option (Text × List Text)
  unfolding split cut_prefix
  label_parts s = elim (cut_prefix (bytes "larri:") s) [
    | none ↦ none
    | some rest ↦
        if is_empty rest || is_empty (split 124 rest).0 then none else some (split 124 rest)
  ]

  -- DecodeLabel, which is DecodeLabelWith and no sealer.
  unfoldable pub decode_label : Text → Option (Label Pr.F)
  unfolding label_parts has_sealed read_fields blank_label
  decode_label s = elim (label_parts s) [
    | none ↦ none
    | some (rig, parts) ↦
        some (read_fields (record (blank_label rig) { sealed = has_sealed parts }) parts)
  ]

  -- What the decoding of an opened payload gives, the zero label when it is none.
  unfoldable pub inner_label : Text → Text → Label Pr.F
  unfolding decode_label blank_label label_head
  inner_label rig payload = elim (decode_label (label_head rig ++ bytes "|" ++ payload)) [
    | none ↦ record (blank_label rig) { version = pos 0 }
    | some l ↦ record l { rig_of = rig }
  ]

  -- The first loop with a sealer: the first part that opens, and whether one did not.
  unfoldable pub open_sealed : Sealer → List Text → Bool → Option Text × Bool
  unfolding cut_prefix
  open_sealed s [] failed = (none, failed)
  open_sealed s (p ∷ ps) failed = elim (cut_prefix (bytes "e=") p) [
    | none ↦ open_sealed s ps failed
    | some token ↦ elim (s.open_token token) [
      | none ↦ open_sealed s ps true
      | some payload ↦ (some payload, failed)
    ]
  ]

  unfoldable pub decode_label_with : Text → Option Sealer → Option (Label Pr.F)
  unfolding decode_label inner_label open_sealed
  decode_label_with s none = decode_label s
  decode_label_with s (some sealer) = elim (label_parts s) [
    | none ↦ none
    | some (rig, parts) ↦
        let (payload, failed) = open_sealed sealer parts false in
        elim payload [
          | none ↦ some (read_fields (record (blank_label rig) { sealed = failed }) parts)
          | some text ↦ some (inner_label rig text)
        ]
  ]
