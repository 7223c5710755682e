-- ===== src/Conv/RoundTrip.antt =====
-- What ParseKeyValues reads from the options that ToOptionsSlice writes.
use testground.Base.{
  ◌≡◌, ◌≢◌, refl, sym, ap, ◌∙◌, String, Bool, true, false, Option, none, some, List, [], ◌∷◌,
  eq_iff, if◌then◌else◌, arith, Bool-cases, inl, inr,
}
use testground.Base.Maps.{Map, lookup, insert, lookup-insert, or_else}
use testground.Base.Errors.{ok}
use testground.Conv.{
  push_char, is_sign, concat, split, join, key_value, parse_into, parse_key_values,
  to_options_slice,
}
use Prim.Native.Char.{Char}

-- a text without an equals sign
unfoldable pub has_no_equals : String → Bool
has_no_equals String.[] = true
has_no_equals (String.◌∷◌ c s) = let rest = has_no_equals s in if is_sign c then false else rest

-- the first part of a key without the sign, and the parts of the value
split-key : (k v : String) → has_no_equals k ≡ true → split (concat k (concat "=" v)) ≡ k ∷ split v
unfolding split has_no_equals concat
split-key String.[] v h = refl
split-key (String.◌∷◌ c s) v h = elim (Bool-cases (is_sign c)) [
  | inl sign ↦ cc (h, if_true (is_sign c) sign (has_no_equals s))
  | inr other ↦
      rw other (rw (split-key s v (sym (if_false (is_sign c) other (has_no_equals s)) ∙ h)) refl)
]
  where
    if_true : (b : Bool) → b ≡ true → (x : Bool) → (if b then false else x) ≡ false
    if_true b e x = rw e refl

    if_false : (b : Bool) → b ≡ false → (x : Bool) → (if b then false else x) ≡ x
    if_false b e x = rw e refl

join_push : (c : Char) (ss : List String) → ss ≢ [] → join (push_char c ss) ≡ String.◌∷◌ c (join ss)
unfolding join
join_push c [] h = absurd (h refl)
join_push c (s ∷ []) h = refl
join_push c (s ∷ t ∷ ss) h = refl

join_sign : (ss : List String) → ss ≢ [] → join ("" ∷ ss) ≡ concat "=" (join ss)
unfolding join
join_sign [] h = absurd (h refl)
join_sign (s ∷ ss) h = refl

sign_text : (c : Char) (s : String) → is_sign c ≡ true → concat "=" s ≡ String.◌∷◌ c s
unfolding concat
sign_text c s h = ap (λ (t : String). concat t s) (sym ((eq_iff (String.◌∷◌ c String.[]) "=").0 h))

push-ne-nil : (c : Char) (ss : List String) → push_char c ss ≢ []
push-ne-nil c [] e = cc e
push-ne-nil c (s ∷ ss) e = cc e

split-ne-nil : (s : String) → split s ≢ []
unfolding split
split-ne-nil String.[] e = cc e
split-ne-nil (String.◌∷◌ c s) e = nonempty (is_sign c) e
  where
    nonempty : (b : Bool) → (if b then "" ∷ split s else push_char c (split s)) ≢ []
    nonempty true k = cc k
    nonempty false k = push-ne-nil c (split s) k

join-split : (s : String) → join (split s) ≡ s
unfolding split
join-split String.[] = unfold join in refl
join-split (String.◌∷◌ c s) = elim (Bool-cases (is_sign c)) [
  | inl sign ↦
      rw sign (
        join_sign (split s) (split-ne-nil s)
        ∙ (ap (concat "=") (join-split s) ∙ sign_text c s sign))
  | inr other ↦ rw other (join_push c (split s) (split-ne-nil s) ∙ ap (String.◌∷◌ c) (join-split s))
]

-- the parts of one option
key_value-option :
    (k v : String)
    → has_no_equals k ≡ true
    → key_value (concat k (concat "=" v)) (split (concat k (concat "=" v))) ≡ ok (k, v)
key_value-option k v h = rw (split-key k v h) (value _ (split v) (split-ne-nil v) (join-split v))
  where
    value :
        (d : String) (vs : List String) → vs ≢ [] → join vs ≡ v → key_value d (k ∷ vs) ≡ ok (k, v)
    value d [] h e = absurd (h refl)
    value d (s ∷ ss) h e = rw e refl

abbrev pub KeysFree : Map String → Type 0
KeysFree [] = Unit
KeysFree ((k, v) ∷ m) = (has_no_equals k ≡ true) × KeysFree m

abbrev pub Absent : String → Map String → Type 0
Absent k m = lookup k m ≡ none

-- no key has two values, as in a Go map
abbrev pub IsMap : Map String → Type 0
IsMap [] = Unit
IsMap ((k, v) ∷ m) = Absent k m × IsMap m

parse_into-options :
    (m res : Map String)
    → KeysFree m
    → IsMap m
    → (out : Map String) × (parse_into res (to_options_slice m) ≡ ok out)
      × ((j : String) → lookup j out ≡ or_else (lookup j m) (lookup j res))
unfolding parse_into to_options_slice lookup
parse_into-options [] res free distinct = (res, refl, λ j. refl)
parse_into-options ((k, v) ∷ m) res (free, frees) (absent, distinct) =
    let (out, parsed, found) = parse_into-options m (insert k v res) frees distinct in
    (out, rw (key_value-option k v free) parsed, λ j. newer out j (found j))
  where
    newer :
        (out : Map String) (j : String)
        → lookup j out ≡ or_else (lookup j m) (lookup j (insert k v res))
        → lookup j out ≡ or_else (lookup j ((k, v) ∷ m)) (lookup j res)
    newer out j h = ground (arith, lookup-insert k j v res, eq_iff k j)

-- ParseKeyValues of what ToOptionsSlice makes of a map whose keys hold no equals sign, in any
-- order of its entries, is a map with the same value for every key, whatever the values hold.
pub parse_key_values-to_options_slice :
    (m : Map String)
    → KeysFree m
    → IsMap m
    → (out : Map String) × (parse_key_values (to_options_slice m) ≡ ok out)
      × ((j : String) → lookup j out ≡ lookup j m)
unfolding parse_key_values lookup
parse_key_values-to_options_slice m free distinct =
    let (out, parsed, found) = parse_into-options m [] free distinct in
    (out, parsed, λ j. found j ∙ nothing_else (lookup j m))
  where
    nothing_else : (o : Option String) → or_else o none ≡ o
    nothing_else none = refl
    nothing_else (some s) = refl
