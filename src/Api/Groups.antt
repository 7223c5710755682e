-- ===== src/Api/Groups.antt =====
-- Loops `for _, grp := range c.Groups { … }` that write to the groups.
use testground.Base.{
  ◌⊎◌, ℕ, ◌<◌, ◌≡◌, refl, sym, ap, ◌∙◌, Option, none, some, List, [], ◌∷◌, arith, All, length,
  get_elem?, set, length-set, get_elem?-set_self, get_elem?-set_ne, lt-length_of_get,
  get_elem?_of_lt, All-map, Option-cases, inl, inr,
}
use testground.Base.Errors
use testground.Base.Errors.{Fallible, ok, err, panic}
use testground.Base.Actions.{Action}
use testground.Task.Database.{Elem}

abbrev pub stop_on {ℓ} : {S E : Type ℓ} → Option E → Action S E (Unit {0}) → Action S E (Unit {0})
stop_on none rest s = rest s
stop_on (some e) rest s = (err e, s)

module _ {G E : Type 0} where
  -- the body writes `write g` to the group and then may return an error; a nil pointer panics
  unfoldable pub for_each : (G → G) → (G → Option E) → List ℕ → Action (List G) E (Unit {0})
  for_each write check [] heap = (ok tt, heap)
  for_each write check (p ∷ ps) heap = elim (get_elem? heap p) [
    | none ↦ (panic, heap)
    | some g ↦ stop_on (check (write g)) (for_each write check ps) (set heap p (write g))
  ]

  -- the dereference of a group's pointer
  abbrev pub deref : Option G → Fallible E G
  deref none = panic
  deref (some g) = ok g

  -- reading the groups
  unfoldable pub read_all : List ℕ → List G → Fallible E (List G)
  read_all [] heap = ok []
  read_all (p ∷ ps) heap =
      Errors.◌>>=◌ (deref (get_elem? heap p))
        (λ g. Errors.◌>>=◌ (read_all ps heap) (λ gs. ok (g ∷ gs)))

abbrev pub AllInside : {G : Type 0} → List ℕ → List G → Type 0
AllInside ps heap = All (λ p. p < length heap) ps

abbrev pub AllDistinct : List ℕ → Type 0
AllDistinct [] = Unit
AllDistinct (p ∷ ps) = (¬ Elem p ps) × AllDistinct ps

-- exactly the groups at `ps` were written, each once
pub record Written {G : Type 0} (write : G → G) (ps : List ℕ) (heap heap' : List G) : Type 0 where
  pub size : length heap' ≡ length heap
  pub written :
      (p : ℕ) (g : G) → Elem p ps → get_elem? heap p ≡ some g → get_elem? heap' p ≡ some (write g)
  pub kept : (p : ℕ) → ¬ Elem p ps → get_elem? heap' p ≡ get_elem? heap p

-- a group that the check refuses after the write
abbrev pub Refused : {G E : Type 0} → (G → G) → (G → Option E) → List ℕ → List G → E → Type 0
Refused {G} write check ps heap e =
    (p : ℕ) × (g : G) × Elem p ps × (get_elem? heap p ≡ some g) × (check (write g) ≡ some e)

pub Written-nil : {G : Type 0} (write : G → G) (heap : List G) → Written write [] heap heap
Written-nil write heap = record { size = refl; written = λ p g m h. elim m [ ]; kept = λ p h. refl }

pub Written-cons :
    {G : Type 0} (write : G → G) (q : ℕ) (ps : List ℕ) (heap heap' : List G) (g₀ : G)
    → get_elem? heap q ≡ some g₀
    → ¬ Elem q ps
    → Written write ps (set heap q (write g₀)) heap'
    → Written write (q ∷ ps) heap heap'
Written-cons write q ps heap heap' g₀ at fresh w = record {
  size = w.size ∙ length-set heap q (write g₀);
  written = λ p g m h. elim m [
    | inl e ↦
        let same : g₀ ≡ g = cc (e, at, h) in
        rw (e, ← same)
          (w.kept q fresh ∙ get_elem?-set_self heap q (write g₀) (lt-length_of_get heap q at))
    | inr r ↦ w.written p g r (get_elem?-set_ne heap (write g₀) (λ (k : q ≡ p). fresh (rw k r)) ∙ h)
  ];
  kept = λ p h.
      w.kept p (λ r. h (inr r)) ∙ get_elem?-set_ne heap (write g₀) (λ (k : q ≡ p). h (inl (sym k)));
}

module _ {G E : Type 0} (write : G → G) (check : G → Option E) where
  for_each-next :
      (q : ℕ) (ps : List ℕ) (heap : List G) (g : G)
      → get_elem? heap q ≡ some g
      → check (write g) ≡ none
      → for_each write check (q ∷ ps) heap ≡ for_each write check ps (set heap q (write g))
  unfolding for_each
  for_each-next q ps heap g at passed = ground (arith, at, passed)

  for_each-stop :
      (q : ℕ) (ps : List ℕ) (heap : List G) (g : G) (e : E)
      → get_elem? heap q ≡ some g
      → check (write g) ≡ some e
      → (for_each write check (q ∷ ps) heap).0 ≡ err e
  unfolding for_each
  for_each-stop q ps heap g e at refused = ground (arith, at, refused)

  -- a write to a group that does not come again
  before_write :
      (q p : ℕ) (ps : List ℕ) (heap : List G) (v : G)
      → ¬ Elem q ps
      → Elem p ps
      → get_elem? (set heap q v) p ≡ get_elem? heap p
  before_write q p ps heap v fresh m = get_elem?-set_ne heap v (λ (k : q ≡ p). fresh (rw k m))

  -- how the loop ends
  abbrev pub LoopEnd : List ℕ → List G → Type 0
  LoopEnd ps heap =
      ((heap' : List G) × (for_each write check ps heap ≡ (ok tt, heap'))
        × Written write ps heap heap'
        × ((p : ℕ) (g : G) → Elem p ps → get_elem? heap p ≡ some g → check (write g) ≡ none))
      ⊎ ((e : E) × ((for_each write check ps heap).0 ≡ err e) × Refused write check ps heap e)

  LoopEnd-next :
      (q : ℕ) (ps : List ℕ) (heap : List G) (g₀ : G)
      → get_elem? heap q ≡ some g₀
      → check (write g₀) ≡ none
      → ¬ Elem q ps
      → LoopEnd ps (set heap q (write g₀))
      → LoopEnd (q ∷ ps) heap
  LoopEnd-next q ps heap g₀ at passed fresh (inl (heap', ran, w, checks)) = inl (
    heap',
    for_each-next q ps heap g₀ at passed ∙ ran,
    Written-cons write q ps heap heap' g₀ at fresh w,
    λ p g m h. elim m [
      | inl e ↦ let same : g₀ ≡ g = cc (e, at, h) in rw (← same) passed
      | inr r ↦ checks p g r (before_write q p ps heap (write g₀) fresh r ∙ h)
    ],
  )
  LoopEnd-next q ps heap g₀ at passed fresh (inr (e, ran, (p, g, m, h, refused))) = inr (
    e,
    ap (λ (x : Fallible E (Unit {0}) × List G). x.0) (for_each-next q ps heap g₀ at passed) ∙ ran,
    (p, g, inr m, sym (before_write q p ps heap (write g₀) fresh m) ∙ h, refused),
  )

  -- The loop over distinct groups writes each once, or stops with an error of its check.
  pub for_each_lem :
      (ps : List ℕ) (heap : List G) → AllInside ps heap → AllDistinct ps → LoopEnd ps heap
  for_each_lem [] heap inside distinct =
      inl (heap, unfold for_each in refl, Written-nil write heap, λ p g m h. elim m [ ])
  for_each_lem (q ∷ ps) heap inside distinct =
      let (g₀, at) = get_elem?_of_lt heap q inside.0 in
      elim (Option-cases (check (write g₀))) [
        | inr (e, refused) ↦
            inr (e, for_each-stop q ps heap g₀ e at refused, (q, g₀, inl refl, at, refused))
        | inl passed ↦ LoopEnd-next q ps heap g₀ at passed distinct.0 (
            for_each_lem ps (set heap q (write g₀))
              (All-map (λ p. p < length heap) (λ p. p < length (set heap q (write g₀))) ps
                (λ p h. omega (arith, h, length-set heap q (write g₀))) inside.1)
              distinct.1)
      ]

-- Two loops, one after the other.
pub Written-then :
    {G : Type 0} (first second : G → G) (ps : List ℕ) (heap heap₁ heap₂ : List G)
    → Written first ps heap heap₁
    → Written second ps heap₁ heap₂
    → Written (λ g. second (first g)) ps heap heap₂
Written-then first second ps heap heap₁ heap₂ v w = record {
  size = w.size ∙ v.size;
  written = λ p g m h. w.written p (first g) m (v.written p g m h);
  kept = λ p h. w.kept p h ∙ v.kept p h;
}

-- A loop that is not run.
pub Written-id : {G : Type 0} (ps : List ℕ) (heap : List G) → Written (λ g. g) ps heap heap
Written-id ps heap = record { size = refl; written = λ p g m h. h; kept = λ p h. refl }

pub AllInside-size :
    {G : Type 0} (ps : List ℕ) (heap heap' : List G)
    → length heap' ≡ length heap
    → AllInside ps heap
    → AllInside ps heap'
AllInside-size ps heap heap' e inside =
    All-map (λ p. p < length heap) (λ p. p < length heap') ps (λ p h. omega (arith, h, e)) inside

-- A loop that checks nothing always ends.
pub for_each_total :
    {G E : Type 0} (write : G → G) (ps : List ℕ) (heap : List G)
    → AllInside ps heap
    → AllDistinct ps
    → (heap' : List G) × (for_each {E = E} write (λ g. none) ps heap ≡ (ok tt, heap'))
      × Written write ps heap heap'
for_each_total {E} write ps heap inside distinct =
    elim (for_each_lem {E = E} write (λ g. none) ps heap inside distinct) [
      | inl (heap', ran, w, checks) ↦ (heap', ran, w)
      | inr (e, ran, (p, g, m, h, refused)) ↦ absurd (none-ne-some e refused)
    ]
  where
    none-ne-some : (e : E) → ◌≡◌ {A = Option E} none (some e) → ⊥
    none-ne-some e h = cc

pub get_of_Elem :
    {G : Type 0} (p : ℕ) (ps : List ℕ) (heap : List G)
    → AllInside ps heap
    → Elem p ps
    → (g : G) × (get_elem? heap p ≡ some g)
get_of_Elem p [] heap inside m = elim m [ ]
get_of_Elem p (q ∷ ps) heap inside (inl e) = rw e (get_elem?_of_lt heap q inside.0)
get_of_Elem p (q ∷ ps) heap inside (inr m) = get_of_Elem p ps heap inside.1 m
