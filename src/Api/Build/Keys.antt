-- ===== src/Api/Build/Keys.antt =====
-- What the build keys tell apart, and what they do not.
use mathlib.Core.List.{Perm, Permᴰ}
use mathlib.Core.Logic.{∥∥₁_elim}
use mathlib.Core.HLevel.{hedberg}
use testground.Base.{
  ◌≡◌, refl, ap, ◌∙◌, String, false, List, [], ◌∷◌, str_eq, eq_iff, Bool-cases, inl, inr, arith,
  map,
}
use testground.Task.Bytes.{codes, before_asym, before_antisym, before_le_trans, codes-injective}
use testground.Api.Composition.{Dependency, Build, Group}
use testground.Api.Build.{
  str_before, insert_sorted, sort_by, itself, write_dependencies, build_key, group_key,
}

str_before_antisym : (a b : String) → str_before a b ≡ false → str_before b a ≡ false → a ≡ b
str_before_antisym a b h k = codes-injective a b (before_antisym (codes a) (codes b) h k)

-- Two insertions may change places.
insert_sorted_comm :
    (x y : String) (l : List String)
    → insert_sorted itself x (insert_sorted itself y l)
      ≡ insert_sorted itself y (insert_sorted itself x l)
unfolding insert_sorted
insert_sorted_comm x y [] = ground (
  arith,
  before_asym (codes x) (codes y),
  before_asym (codes y) (codes x),
  str_before_antisym x y,
)
insert_sorted_comm x y (z ∷ l) = ground (
  arith,
  before_asym (codes x) (codes y),
  before_asym (codes y) (codes x),
  before_le_trans (codes z) (codes y) (codes x),
  before_le_trans (codes z) (codes x) (codes y),
  str_before_antisym x y,
  insert_sorted_comm x y l,
)

sort-Permᴰ : {l m : List String} → Permᴰ l m → sort_by itself l ≡ sort_by itself m
unfolding sort_by
sort-Permᴰ Permᴰ.nil = refl
sort-Permᴰ (Permᴰ.cons e p) = cc (e, sort-Permᴰ p)
sort-Permᴰ (Permᴰ.swap {a} {b} {l = l} e f) = cc (e, f, insert_sorted_comm a b (sort_by itself l))
sort-Permᴰ (Permᴰ.trans p q) = sort-Permᴰ p ∙ sort-Permᴰ q

String-set : IsSet String
String-set = hedberg (λ s t. elim (Bool-cases (str_eq s t)) [
  | inl same ↦ yes ((eq_iff s t).0 same)
  | inr apart ↦ no (λ e. cc (apart, (eq_iff s t).1 e))
])

-- Build.BuildKey is the same for the same selectors in any order.
pub build_key-perm :
    (b : Build) (selectors : List String)
    → Perm selectors b.selectors
    → build_key (record b { selectors = selectors }) ≡ build_key b
build_key-perm b selectors p = ∥∥₁_elim p (String-set _ _) same
  where
    same :
        Permᴰ selectors b.selectors → build_key (record b { selectors = selectors }) ≡ build_key b
    same q = unfold build_key in rw (sort-Permᴰ q)

-- the dependency with another target
abbrev pub retarget : (Dependency → String) → Dependency → Dependency
retarget f d = record d { target = f d }

insert_sorted-retarget :
    (f : Dependency → String) (d : Dependency) (ds : List Dependency)
    → insert_sorted (λ (e : Dependency). e.module_path) (retarget f d) (map (retarget f) ds)
      ≡ map (retarget f) (insert_sorted (λ (e : Dependency). e.module_path) d ds)
unfolding insert_sorted
insert_sorted-retarget f d [] = refl
insert_sorted-retarget f d (e ∷ ds) = ground (arith, insert_sorted-retarget f d ds)

sort-retarget :
    (f : Dependency → String) (ds : List Dependency)
    → sort_by (λ (e : Dependency). e.module_path) (map (retarget f) ds)
      ≡ map (retarget f) (sort_by (λ (e : Dependency). e.module_path) ds)
unfolding sort_by
sort-retarget f [] = refl
sort-retarget f (d ∷ ds) =
    ap (insert_sorted (λ (e : Dependency). e.module_path) (retarget f d)) (sort-retarget f ds)
    ∙ insert_sorted-retarget f d (sort_by (λ (e : Dependency). e.module_path) ds)

write-retarget :
    (f : Dependency → String) (ds : List Dependency)
    → write_dependencies (map (retarget f) ds) ≡ write_dependencies ds
unfolding write_dependencies
write-retarget f [] = refl
write-retarget f (d ∷ ds) = rw (write-retarget f ds)

build_key-retarget :
    (f : Dependency → String) (b : Build)
    → build_key (record b { dependencies = map (retarget f) b.dependencies }) ≡ build_key b
build_key-retarget f b = unfold build_key in rw (sort-retarget f b.dependencies, write-retarget f)

-- Group.BuildKey does not see the targets of the dependencies: whatever they are changed to, the
-- group keeps its key, or its panic for a missing builder.
pub group_key-retarget :
    {F : Type 0} (f : Dependency → String) (g : Group F)
    → group_key (record g {
      build = record g.build { dependencies = map (retarget f) g.build.dependencies };
    })
      ≡ group_key g
unfolding group_key
group_key-retarget f g = rw (build_key-retarget f g.build)
