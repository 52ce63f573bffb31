-- ===== src/Sizing/Variants/Found.antt =====
-- What FindQuantised of internal/sizing/variants.go gives, whatever the order of its goroutines.
use mathlib.Core.Path.{subst}
use larri.Prelude.{
  ℕ, ◌+◌, ◌%◌, ◌^◌, ◌<◌, ◌≡◌, ◌≤◌, ◌==◌, refl, sym, ap, Bool, true, false, ◌||◌, ◌⊎◌, inl, inr,
  none, some, List, [], ◌∷◌, if◌then◌else◌, take-All, filter, filter-All, All, All-Among, Among,
  arith, Bool-cases, Option-cases,
}
use larri.Prelude.Text.{Text, bytes, is_empty, to_lower, text_eq, text_eq_refl, text_eq→eq}
use larri.Prelude.Search.{base_name, has_suffix, contains_text, equal_fold}
use larri.Prelude.Order.{sort_stable}
use larri.Prelude.Order.Sorting.{sort_stable-All}
use larri.Prelude.Order.Texts.{text_lt_asym, text_lt_trans, text_lt_total}
use larri.Prelude.Order.Reordered.{
  Reordered, Reordered-All, Apart, Reordered-Apart, IsOrdered, sort_stable-Reordered,
  Reordered-sort_stable, filter-Apart, take-Apart,
}
use larri.Sizing.Variants.{
  Variant, SearchResult, Hub, is_build_of, more_downloads, measured, measure_all, lighter,
  candidates, find_quantised, detect_quant, extra_tokens, owner_of, weight_bytes_from,
  looks_like_same_model,
}

lighter_asym : (x y : Variant) → lighter x y ≡ true → lighter y x ≡ false
unfolding lighter
lighter_asym x y h = ground (arith, text_lt_asym x.ref y.ref)

lighter_trans : (x y z : Variant) → lighter x y ≡ true → lighter y z ≡ true → lighter x z ≡ true
unfolding lighter
lighter_trans x y z h k = ground (arith, text_lt_trans x.ref y.ref z.ref)

lighter_total :
    (x y : Variant) → text_eq x.ref y.ref ≡ false → (lighter x y ≡ true) ⊎ (lighter y x ≡ true)
unfolding lighter
lighter_total x y h = ground (arith, text_lt_total x.ref y.ref h)

-- Two results with different ids.
abbrev pub OtherId : SearchResult → SearchResult → Type 0
OtherId a b = text_eq a.id b.id ≡ false

text_eq_flip : (x y : Text) → text_eq x y ≡ false → text_eq y x ≡ false
text_eq_flip x y h = elim (Bool-cases (text_eq y x)) [
  | inr e ↦ e
  | inl e ↦ let same = text_eq→eq y x e in absurd (cc (same, text_eq_refl x, h))
]

measured-ref :
    (hub : Hub) (ref : Text) (r : SearchResult) (v : Variant)
    → measured hub ref r ≡ some v
    → v.ref ≡ r.id
unfolding measured
measured-ref hub ref r v h = ground arith

measure_all-next :
    (hub : Hub) (ref : Text) (r : SearchResult) (rs : List SearchResult) (v : Variant)
    → measured hub ref r ≡ some v
    → measure_all hub ref (r ∷ rs) ≡ v ∷ measure_all hub ref rs
unfolding measure_all
measure_all-next hub ref r rs v e = rw (e, measure_all) refl

measure_all-skip :
    (hub : Hub) (ref : Text) (r : SearchResult) (rs : List SearchResult)
    → measured hub ref r ≡ none
    → measure_all hub ref (r ∷ rs) ≡ measure_all hub ref rs
unfolding measure_all
measure_all-skip hub ref r rs e = rw (e, measure_all) refl

-- What holds of a result, for whatever is measured of it, holds of all that is measured.
measure_all-All :
    (hub : Hub) (ref : Text) (P : SearchResult → Type 0) (Q : Variant → Type 0)
    → ((r : SearchResult) (v : Variant) → P r → measured hub ref r ≡ some v → Q v)
    → (rs : List SearchResult) → All P rs
    → All Q (measure_all hub ref rs)
unfolding measure_all
measure_all-All hub ref P Q f [] h = tt
measure_all-All hub ref P Q f (r ∷ rs) h = elim (Option-cases (measured hub ref r)) [
  | inl e ↦ rw (measure_all-skip hub ref r rs e) (measure_all-All hub ref P Q f rs h.1)
  | inr (v, e) ↦
      rw (measure_all-next hub ref r rs v e) (f r v h.0 e, measure_all-All hub ref P Q f rs h.1)
]

measure_all-Apart :
    (hub : Hub) (ref : Text) (rs : List SearchResult)
    → Apart OtherId rs
    → Apart (IsOrdered lighter lighter_asym lighter_trans) (measure_all hub ref rs)
unfolding measure_all
measure_all-Apart hub ref [] h = tt
measure_all-Apart hub ref (r ∷ rs) h = elim (Option-cases (measured hub ref r)) [
  | inl e ↦ rw (measure_all-skip hub ref r rs e) (measure_all-Apart hub ref rs h.1)
  | inr (v, e) ↦ rw (measure_all-next hub ref r rs v e) (
    measure_all-All hub ref (OtherId r) (IsOrdered lighter lighter_asym lighter_trans v)
        (λ r' v' k e'.
          lighter_total v v' (rw (measured-ref hub ref r v e, measured-ref hub ref r' v' e') k))
        rs h.0,
    measure_all-Apart hub ref rs h.1,
  )
]

candidates-Apart :
    (ref : Text) (accept : Text → Bool) (found : List SearchResult)
    → Apart OtherId found
    → Apart OtherId (candidates ref accept found)
unfolding candidates
candidates-Apart ref accept found h =
    let kept = filter (is_build_of ref accept) found in
    take-Apart OtherId 6 (sort_stable more_downloads kept) (
      Reordered-Apart OtherId (λ a b. text_eq_flip a.id b.id)
        (Reordered-sort_stable more_downloads kept)
        (filter-Apart OtherId (is_build_of ref accept) found h))

-- Where no two results of the hub's search have one id, the order in which the goroutines finish does
-- not show: FindQuantised gives what it gives if they finish in the order of the candidates.
pub find_quantised_order :
    (hub : Hub) (finished : List Variant → List Variant) (ref : Text) (accept : Text → Bool)
    (found : List SearchResult)
    → hub.search (base_name ref) ≡ some found
    → Apart OtherId found
    → ((vs : List Variant) → Reordered vs (finished vs))
    → find_quantised hub finished ref accept ≡ find_quantised hub (λ vs. vs) ref accept
unfolding find_quantised
find_quantised_order hub finished ref accept found e apart order =
    let vs = measure_all hub ref (candidates ref accept found) in
    rw (e, find_quantised)
      (ap some (
        sym (
          sort_stable-Reordered lighter lighter_asym lighter_trans (order vs) (
            measure_all-Apart hub ref (candidates ref accept found)
              (candidates-Apart ref accept found apart)))))

-- What a result is to the model: another repository, whose name has the model's in it and at most one
-- word more, in a scheme that is accepted.
pub record IsBuild (ref : Text) (accept : Text → Bool) (r : SearchResult) : Type 0 where
  pub another : equal_fold r.id ref ≡ false
  pub same_model : contains_text (to_lower (base_name ref)) (to_lower (base_name r.id)) ≡ true
  pub is_known : is_empty (detect_quant r.id r.tags) ≡ false
  pub accepted : accept (detect_quant r.id r.tags) ≡ true
  pub no_tune : extra_tokens r.id (base_name ref) ≤ 1

abbrev is_safe : Text → Bool
is_safe name = has_suffix (bytes ".safetensors") name || has_suffix (bytes ".gguf") name

-- Whether a file holds weights that are no pickle.
abbrev pub some_safe : List (Text × ℕ) → Bool
some_safe [] = false
some_safe ((name, size) ∷ files) = is_safe name || some_safe files

-- The exact bytes of the files that hold weights.
abbrev pub weights_total : List (Text × ℕ) → ℕ
weights_total [] = 0
weights_total ((name, size) ∷ files) =
    (if is_safe name || has_suffix (bytes ".bin") name then size else 0) + weights_total files

-- What the files of a variant show: some are no pickles, and the size is theirs and the pickles'.
abbrev pub IsMeasured : Hub → SearchResult → Variant → Type 0
IsMeasured hub r v =
    (files : List (Text × ℕ)) × ((hub.files r.id ≡ some files)
      × ((v.weight_bytes ≡ weights_total files % 2 ^ 64) × (some_safe files ≡ true)))

-- What a variant that is suggested has gone through, from the results of a search.
pub record IsSuggested (hub : Hub) (ref : Text) (accept : Text → Bool) (found : List SearchResult)
    (v : Variant) : Type 0 where
  pub result : SearchResult
  pub there : Among result found
  pub is_build : IsBuild ref accept result
  pub named : v.ref ≡ result.id
  pub scheme : v.quant ≡ detect_quant result.id result.tags
  pub counted : v.downloads ≡ result.downloads
  pub owned : v.same_owner ≡ equal_fold (owner_of result.id) (owner_of ref)
  pub measures : IsMeasured hub result v
  pub sized : (v.weight_bytes == 0) ≡ false
  pub trusted : (v.same_owner ≡ true) ⊎ (100 ≤ v.downloads)

weighed_lem :
    (files : List (Text × ℕ)) (t : ℕ) (b : Bool)
    → t < 2 ^ 64
    → ((weight_bytes_from files t b).0 ≡ (t + weights_total files) % 2 ^ 64)
      × ((weight_bytes_from files t b).1 ≡ (some_safe files || b))
unfolding weight_bytes_from
weighed_lem [] t b h = (omega arith, refl)
weighed_lem ((name, size) ∷ files) t b h =
    let counts = is_safe name || has_suffix (bytes ".bin") name in
    let t' = if counts then (t + size) % 2 ^ 64 else t in
    let small : t' < 2 ^ 64 = ground arith in
    let k = weighed_lem files t' (is_safe name || b) small in
    elim (Bool-cases counts) [
      | inl e ↦ (ground (arith, e, k.0), or_swap (some_safe files) (is_safe name) b k.1)
      | inr e ↦ (ground (arith, e, k.0), or_swap (some_safe files) (is_safe name) b k.1)
    ]
  where
    or_swap : {x : Bool} (p q r : Bool) → x ≡ (p || (q || r)) → x ≡ ((q || p) || r)
    or_swap p q r h = ground arith

measured-fields :
    (hub : Hub) (ref : Text) (r : SearchResult) (v : Variant)
    → measured hub ref r ≡ some v
    → (v.quant ≡ detect_quant r.id r.tags)
      × ((v.downloads ≡ r.downloads)
          × ((v.same_owner ≡ equal_fold (owner_of r.id) (owner_of ref))
              × (((v.weight_bytes == 0) ≡ false) × ((v.same_owner ≡ true) ⊎ (100 ≤ v.downloads)))))
unfolding measured
measured-fields hub ref r v h = ground arith

measured-files :
    (hub : Hub) (ref : Text) (r : SearchResult) (v : Variant)
    → measured hub ref r ≡ some v
    → (files : List (Text × ℕ)) × ((hub.files r.id ≡ some files)
        × ((v.weight_bytes ≡ (weight_bytes_from files 0 false).0)
            × ((weight_bytes_from files 0 false).1 ≡ true)))
unfolding measured
measured-files hub ref r v h = elim (Option-cases (hub.files r.id)) [
  | inl e ↦ absurd (ground (arith, e, h))
  | inr (files, e) ↦ (files, (e, ground (arith, e, h)))
]

is_build_of-IsBuild :
    (ref : Text) (accept : Text → Bool) (r : SearchResult)
    → is_build_of ref accept r ≡ true
    → IsBuild ref accept r
unfolding is_build_of looks_like_same_model
is_build_of-IsBuild ref accept r h = record {
  another = ground arith;
  same_model = ground arith;
  is_known = ground arith;
  accepted = ground arith;
  no_tune = ground arith;
}

measured-IsMeasured :
    (hub : Hub) (ref : Text) (r : SearchResult) (v : Variant)
    → measured hub ref r ≡ some v
    → IsMeasured hub r v
measured-IsMeasured hub ref r v h =
    let (files, k) = measured-files hub ref r v h in
    let w = weighed_lem files 0 false (omega arith) in
    (files, (k.0, (omega (arith, k.1.0, w.0), ground (arith, k.1.1, w.1))))

measured-IsSuggested :
    (hub : Hub) (ref : Text) (accept : Text → Bool) (found : List SearchResult) (r : SearchResult)
    (v : Variant)
    → Among r found
    → is_build_of ref accept r ≡ true
    → measured hub ref r ≡ some v
    → IsSuggested hub ref accept found v
measured-IsSuggested hub ref accept found r v m b e =
    let k = measured-fields hub ref r v e in
    record {
      result = r;
      there = m;
      is_build = is_build_of-IsBuild ref accept r b;
      named = measured-ref hub ref r v e;
      scheme = k.0;
      counted = k.1.0;
      owned = k.1.1.0;
      measures = measured-IsMeasured hub ref r v e;
      sized = k.1.1.1.0;
      trusted = k.1.1.1.1;
    }

candidates-All :
    (ref : Text) (accept : Text → Bool) (found : List SearchResult)
    → All (λ r. (is_build_of ref accept r ≡ true) × Among r found) (candidates ref accept found)
unfolding candidates
candidates-All ref accept found = take-All 6 _ _ (
    sort_stable-All more_downloads _ (filter (is_build_of ref accept) found)
      (filter-All (is_build_of ref accept) (λ r. Among r found) found (All-Among found)))

-- Whatever the order in which the goroutines finish, each variant that FindQuantised gives stands for a
-- result of the search that is another repository than the model's, with the model's name in its own
-- and at most one word more, in a scheme that it names and that the engine accepts. Its downloads are
-- the result's, its size is the bytes of the repository's weights, not nothing and not pickles alone,
-- and its owner is the model's or it has been downloaded a hundred times or more.
pub find_quantised-IsSuggested :
    (hub : Hub) (finished : List Variant → List Variant) (ref : Text) (accept : Text → Bool)
    (found : List SearchResult) (vs : List Variant)
    → ((us : List Variant) → Reordered us (finished us))
    → hub.search (base_name ref) ≡ some found
    → find_quantised hub finished ref accept ≡ some vs
    → All (IsSuggested hub ref accept found) vs
unfolding find_quantised
find_quantised-IsSuggested hub finished ref accept found vs order e h =
    let us = measure_all hub ref (candidates ref accept found) in
    let good =
      measure_all-All hub ref (λ r. (is_build_of ref accept r ≡ true) × Among r found)
        (IsSuggested hub ref accept found)
        (λ r v k e'. measured-IsSuggested hub ref accept found r v k.1 k.0 e')
        (candidates ref accept found) (candidates-All ref accept found) in
    let same : sort_stable lighter (finished us) ≡ vs = ground (arith, e, h) in
    subst (All (IsSuggested hub ref accept found)) same
      (sort_stable-All lighter _ (finished us) (Reordered-All _ (order us) good))
