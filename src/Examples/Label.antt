-- ===== src/Examples/Label.antt =====
-- internal/core/label.go: a label sealed, read with the right key, with another, and cut.
use larri.Prelude.{
  ℕ, ◌+◌, ◌-◌, ◌*◌, ◌/◌, ◌%◌, ◌==◌, ◌≤◌, ◌≡◌, refl, Bool, true, false, Option, none, some, [], ◌∷◌,
  ltb, take, length, map, arith, if◌then◌else◌,
}
use larri.Prelude.Text.{Text, text_eq, bytes, cut}
use larri.Prelude.Decimal.{digits, read_unsigned, parse_int, itoa}
use larri.Prelude.Int.{pos, negsuc}
use larri.Core.Label.{
  Sealer, Prices, Label, sanitise, label_head, label_limit, encode_label, decode_label,
  decode_label_with,
}
use larri.Core.Label.Attribution.{decode_label_with-encode_label}

-- Prices in ten-thousandths of a dollar.
abbrev show_price : ℕ → Text
unfolding digits
show_price n =
    let d : ℕ → ℕ = λ k. 48 + n / k % 10 in
    digits 20 (n / 10000) (46 ∷ d 1000 ∷ d 100 ∷ d 10 ∷ d 1 ∷ [])

abbrev both : Option ℕ → Option ℕ → Option ℕ
both (some dollars) (some rest) = some (dollars * 10000 + rest)
both _ _ = none

abbrev read_price : Text → Option ℕ
unfolding cut read_unsigned
read_price s = elim (cut 46 s) [
  | none ↦ none
  | some (a, b) ↦ both (read_unsigned a) (read_unsigned b)
]

abbrev cents : Prices
cents = record { F = ℕ; no_price = 0; is_positive = ltb 0; format = show_price; parse = read_price }

-- Shifts each byte, behind a byte that tells the key.
abbrev open_with : ℕ → Text → Option Text
open_with key [] = none
open_with key (k ∷ s) = if k == key then some (map (λ c. c - 128) s) else none

abbrev shifter : ℕ → Sealer
shifter key = record { seal = λ s. some (key ∷ map (λ c. c + 128) s); open_token = open_with key }

abbrev label_1 : Label ℕ
label_1 = record {
  rig_of = bytes "01J9Z";
  version = pos 1;
  model = bytes "qwen/qwen3";
  served = bytes "qwen3";
  runtime = bytes "vllm";
  port = pos 8000;
  created = pos 1700000000;
  price = 4321;
  sealed = false;
}

abbrev rig_and_sealed : Option (Label ℕ) → Option (Text × Bool)
rig_and_sealed none = none
rig_and_sealed (some l) = some (l.rig_of, l.sealed)

plain_label :
    encode_label cents label_1 (pos 0) none
    ≡ bytes "larri:01J9Z|v=1|t=1700000000|r=vllm|p=8000|c=0.4321|n=qwen3|m=qwen/qwen3"
unfolding encode_label label_limit itoa sanitise
plain_label = refl

trimmed_label :
    encode_label cents label_1 (pos 40) none ≡ bytes "larri:01J9Z|v=1|t=1700000000|r=vllm"
unfolding encode_label label_limit itoa
trimmed_label = refl

plain_read : decode_label cents (encode_label cents label_1 (pos 0) none) ≡ some label_1
unfolding encode_label decode_label label_limit itoa sanitise text_eq parse_int
plain_read = refl

right_key :
    decode_label_with cents
      (encode_label cents label_1 (pos 0) (some (shifter 33)))
      (some (shifter 33))
    ≡ some label_1
unfolding encode_label decode_label_with label_limit itoa sanitise text_eq parse_int
right_key = refl

wrong_key :
    rig_and_sealed (
      decode_label_with cents
        (encode_label cents label_1 (pos 0) (some (shifter 33)))
        (some (shifter 34)))
    ≡ some (bytes "01J9Z", true)
unfolding encode_label decode_label_with label_limit itoa sanitise text_eq parse_int
wrong_key = refl

numbers_read :
    (parse_int (bytes "-12") ≡ some (negsuc 11))
    × ((parse_int (bytes "9223372036854775808") ≡ none)
        × ((parse_int (bytes "-9223372036854775808") ≡ some (negsuc 9223372036854775807))
            × ((parse_int (bytes "1_0") ≡ none) × (itoa (negsuc 99) ≡ bytes "-100"))))
unfolding parse_int itoa
numbers_read = (refl, (refl, (refl, (refl, refl))))

no_forged_field : sanitise (bytes "a|p=1 b") ≡ bytes "a_p_1_b"
unfolding sanitise
no_forged_field = refl

head_short : length (label_head label_1.rig_of) ≤ 14
unfolding label_head
head_short = omega arith

decode_label_with-encode_label_example :
    (d : Label ℕ) × ((decode_label_with cents
          (take 14 (encode_label cents label_1 (pos 0) (some (shifter 33))))
          (some (shifter 34))
        ≡ some d)
      × (d.rig_of ≡ bytes "01J9Z"))
decode_label_with-encode_label_example =
    decode_label_with-encode_label cents label_1 (pos 0) (some (shifter 33)) (some (shifter 34)) 14
      refl (refl, (refl, (refl, (refl, (refl, tt))))) head_short
