-- ===== src/Core/Label/Attribution.antt =====
-- Which rig a cut label of internal/core/label.go is attributed to.
use larri.Prelude.{
  ℕ, zero, suc, ◌-◌, ◌+◌, ◌≤◌, ◌==◌, ◌≡◌, refl, ap, ◌∙◌, Bool, true, false, Option, none, some,
  List, [], ◌∷◌, ◌++◌, arith, ltb, length, take, All, Bool-cases, Option-cases, inl, inr,
  if◌then◌else◌,
}
use native.Mathlib.Numerals.{unary_clauses}
use larri.Prelude.Text.{Text, bytes, is_empty, cut_prefix, split}
use larri.Prelude.Int.{ℤ}
use larri.Core.Label.{
  Sealer, Prices, Label, label_head, label_limit, put_fields, fields, encode_plain, encode_fields,
  encode_label, set_field, read_field, read_fields, label_parts, decode_label, inner_label,
  open_sealed, decode_label_with, has_sealed, blank_label,
}

-- Nothing, or a bar and more.
abbrev starts_bar : Text → Bool
starts_bar [] = true
starts_bar (c ∷ _) = c == 124

abbrev NoBar : Text → Type 0
NoBar s = All (λ c. (c == 124) ≡ false) s

-- A text that goes on behind `head` with nothing or with a bar.
record Behind (head s : Text) : Type 0 where
  tail : Text
  eq : s ≡ head ++ tail
  bar : starts_bar tail ≡ true

append_nil : (s : Text) → s ≡ s ++ []
append_nil [] = refl
append_nil (c ∷ s) = ap (λ t. c ∷ t) (append_nil s)

append_assoc : (s t u : Text) → (s ++ t) ++ u ≡ s ++ (t ++ u)
append_assoc [] t u = refl
append_assoc (c ∷ s) t u = ap (λ r. c ∷ r) (append_assoc s t u)

head-Behind : (head : Text) → Behind head head
head-Behind head = record { tail = []; eq = append_nil head; bar = refl }

put_fields-Behind :
    (limit : ℕ) (out : Text) (fs : List (Text × Text)) → Behind out (put_fields limit out fs)
unfolding put_fields
put_fields-Behind limit out [] = head-Behind out
put_fields-Behind limit out (f ∷ fs) =
    let seg = bytes "|" ++ f.0 ++ bytes "=" ++ f.1 in
    let rest = put_fields-Behind limit (out ++ seg) fs in
    elim (Bool-cases (ltb limit (length out + length seg))) [
      | inl h ↦ rw h (head-Behind out)
      | inr h ↦ rw h (record {
        tail = seg ++ rest.tail;
        eq = rest.eq ∙ append_assoc out seg rest.tail;
        bar = refl;
      })
    ]

take-append : (n : ℕ) (s t : Text) → length s ≤ n → take n (s ++ t) ≡ s ++ take (n - length s) t
take-append n [] t h = simp unary_clauses refl
take-append zero (c ∷ s) t h = absurd (omega (arith, h))
take-append (suc n) (c ∷ s) t h =
    simp unary_clauses (ap (λ r. c ∷ r) (take-append n s t (omega (arith, h))))

take-starts_bar : (n : ℕ) (t : Text) → starts_bar t ≡ true → starts_bar (take n t) ≡ true
take-starts_bar zero t h = refl
take-starts_bar (suc n) [] h = refl
take-starts_bar (suc n) (c ∷ t) h = h

take-Behind : (n : ℕ) (head s : Text) → length head ≤ n → Behind head s → Behind head (take n s)
take-Behind n head s h b = record {
  tail = take (n - length head) b.tail;
  eq = rw b.eq (take-append n head b.tail h);
  bar = take-starts_bar (n - length head) b.tail b.bar;
}

cut_prefix-append : (p s : Text) → cut_prefix p (p ++ s) ≡ some s
unfolding cut_prefix
cut_prefix-append [] s = refl
cut_prefix-append (c ∷ p) s = ground (arith, cut_prefix-append p s)

split-append : (rig t : Text) → NoBar rig → starts_bar t ≡ true → (split 124 (rig ++ t)).0 ≡ rig
unfolding split
split-append [] [] h k = refl
split-append [] (c ∷ t) h k = rw k refl
split-append (c ∷ rig) t h k = rw (h.0, split-append rig t h.1 k) refl

module _ (Pr : Prices) where
  set_field-rig_of : (l : Label Pr.F) (k v : Text) → (set_field Pr l k v).rig_of ≡ l.rig_of
  unfolding set_field
  set_field-rig_of l k v = ground arith

  read_field-rig_of : (l : Label Pr.F) (p : Text) → (read_field Pr l p).rig_of ≡ l.rig_of
  unfolding read_field
  read_field-rig_of l p = grind (arith, set_field-rig_of)

  read_fields-rig_of : (l : Label Pr.F) (ps : List Text) → (read_fields Pr l ps).rig_of ≡ l.rig_of
  unfolding read_fields
  read_fields-rig_of l [] = refl
  read_fields-rig_of l (p ∷ ps) = read_fields-rig_of (read_field Pr l p) ps ∙ read_field-rig_of l p

  encode_plain-Behind :
      (l : Label Pr.F) (limit : ℕ) → Behind (label_head l.rig_of) (encode_plain Pr l limit)
  unfolding encode_plain
  encode_plain-Behind l limit = elim (Bool-cases (ltb limit (length (label_head l.rig_of)))) [
    | inl h ↦ rw h (head-Behind (label_head l.rig_of))
    | inr h ↦ rw h (put_fields-Behind limit (label_head l.rig_of) (fields Pr l))
  ]

  sealed-Behind :
      (rig token : Text) (limit : ℕ)
      → let full = label_head rig ++ bytes "|e=" ++ token in
        Behind (label_head rig) (if ltb limit (length full) then label_head rig else full)
  sealed-Behind rig token limit =
      elim (Bool-cases (ltb limit (length (label_head rig ++ bytes "|e=" ++ token)))) [
        | inl h ↦ rw h (head-Behind (label_head rig))
        | inr h ↦ rw h (record {
          tail = bytes "|e=" ++ token;
          eq = append_assoc (label_head rig) (bytes "|e=") token;
          bar = refl;
        })
      ]

  encode_label-Behind :
      (l : Label Pr.F) (limit : ℤ) (by : Option Sealer)
      → Behind (label_head l.rig_of) (encode_label Pr l limit by)
  unfolding encode_label
  encode_label-Behind l limit none = encode_plain-Behind l (label_limit limit)
  encode_label-Behind l limit (some s) = elim (Option-cases (s.seal (encode_fields Pr l))) [
    | inl h ↦ rw h (head-Behind (label_head l.rig_of))
    | inr (token, h) ↦ rw h (sealed-Behind l.rig_of token (label_limit limit))
  ]

  parts_of :
      (rig : Text) (p : Text × List Text)
      → is_empty rig ≡ false
      → p.0 ≡ rig
      → (if is_empty p.0 then none else some p) ≡ some (rig, p.1)
  parts_of rig p h e = ground arith

  label_parts_append :
      (rig t : Text)
      → is_empty rig ≡ false
      → NoBar rig
      → starts_bar t ≡ true
      → label_parts Pr (label_head rig ++ t) ≡ some (rig, (split 124 (rig ++ t)).1)
  unfolding label_parts label_head cut_prefix
  label_parts_append [] t h k b = cc
  label_parts_append (c ∷ rig) t h k b =
      parts_of (c ∷ rig) (split 124 (c ∷ rig ++ t)) refl (split-append (c ∷ rig) t k b)

  label_parts-Behind :
      (rig s : Text)
      → is_empty rig ≡ false
      → NoBar rig
      → Behind (label_head rig) s
      → (parts : List Text) × (label_parts Pr s ≡ some (rig, parts))
  label_parts-Behind rig s h k b =
      ((split 124 (rig ++ b.tail)).1, rw b.eq (label_parts_append rig b.tail h k b.bar))

  inner_label-rig_of : (rig payload : Text) → (inner_label Pr rig payload).rig_of ≡ rig
  unfolding inner_label blank_label
  inner_label-rig_of rig payload = ground arith

  decode_parts :
      (rig s : Text) (parts : List Text) (with_key : Option Sealer)
      → label_parts Pr s ≡ some (rig, parts)
      → (d : Label Pr.F) × ((decode_label_with Pr s with_key ≡ some d) × (d.rig_of ≡ rig))
  unfolding decode_label_with decode_label blank_label
  decode_parts rig s parts none h = rw h (
    read_fields Pr (record (blank_label Pr rig) { sealed = has_sealed Pr parts }) parts,
    (refl, read_fields-rig_of _ parts),
  )
  decode_parts rig s parts (some sealer) h =
      let found = open_sealed Pr sealer parts false in
      elim (Option-cases found.0) [
        | inl e ↦
            rw (h, e)
              (
                read_fields Pr (record (blank_label Pr rig) { sealed = found.1 }) parts,
                (refl, read_fields-rig_of _ parts),
              )
        | inr (text, e) ↦ rw (h, e) (inner_label Pr rig text, (refl, inner_label-rig_of rig text))
      ]

  -- A label that EncodeLabel wrote for a rig whose id is not empty and has no bar in it, cut anywhere
  -- behind the id, still names that rig to DecodeLabelWith: whatever the limit it was trimmed to,
  -- whichever sealer or none it was written with, and whichever sealer or none it is read with.
  pub decode_label_with-encode_label :
      (l : Label Pr.F) (limit : ℤ) (by with_key : Option Sealer) (n : ℕ)
      → is_empty l.rig_of ≡ false
      → All (λ c. (c == 124) ≡ false) l.rig_of
      → length (label_head l.rig_of) ≤ n
      → (d : Label Pr.F) × ((decode_label_with Pr (take n (encode_label Pr l limit by)) with_key
            ≡ some d)
          × (d.rig_of ≡ l.rig_of))
  decode_label_with-encode_label l limit by with_key n h k le =
      let cut_label = take n (encode_label Pr l limit by) in
      let parts =
        label_parts-Behind l.rig_of cut_label h k
          (take-Behind n (label_head l.rig_of) _ le (encode_label-Behind l limit by)) in
      decode_parts l.rig_of cut_label parts.0 with_key parts.1
