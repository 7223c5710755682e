-- ===== src/Task/Queue/Order.antt =====
-- The order of the queue, and what holds of its heap between two calls.
use mathlib.Core.List.{Perm}
use mathlib.Core.List.Perm
use testground.Base.{
  ℕ, suc, ◌+◌, ◌-◌, ◌<◌, ◌∙◌, ◌≡◌, ◌≢◌, Bool, true, false, not, List, [], ◌∷◌, ◌++◌, arith, ltb,
  if◌then◌else◌, ap, take, get_elem?, some, length, length-append,
}
use native.Mathlib.Decide.{ℕ_discrete}
use testground.Base.Int.{pos, ltb_ℤ}
use testground.Base.Errors.{ok}
use testground.Base.Arrays.{
  entry, exchange, entry-append, entry-append_last, entry-take, entry-exchange, length-exchange,
  take-append-last, get_elem?-entry, exchange-perm, perm_length, snoc-perm,
}
use testground.Task.{Task, Time, DatedState, TaskType, Input, Result}
use testground.Task.Payload.{null}
use testground.Task.Heap.{swap, down, parent}
use testground.Task.Heap.Order.{Precedence, AllFit, IsHeap, root_first, exchange-AllFit, swap-ok}
use testground.Task.Heap.Up.{UpInv, up_restores}
use testground.Task.Heap.Down.{DownInv, down_restores}
use testground.Task.Queue.{eq_ℤ, less, heap_push, heap_pop}

-- the time of the first state, which Created returns where there is one
abbrev pub first_time : List DatedState → Time
first_time [] = 0
first_time (d ∷ ds) = d.created

-- `x` stands before `y` in the queue
unfoldable pub goes_before : Task → Task → Bool
goes_before x y =
    if not (eq_ℤ x.priority y.priority)
    then ltb_ℤ y.priority x.priority
    else ltb (first_time x.states) (first_time y.states)

pub less-ok : (x y : Task) → x.states ≢ [] → y.states ≢ [] → less x y ≡ ok (goes_before x y)
unfolding less goes_before
less-ok x y h k = ground arith

pub goes_before_asym : (x y : Task) → goes_before x y ≡ true → goes_before y x ≡ false
unfolding goes_before
goes_before_asym x y h = ground arith

pub goes_before_trans :
    (x y z : Task) → goes_before y x ≡ false → goes_before z y ≡ false → goes_before z x ≡ false
unfolding goes_before
goes_before_trans x y z h k = ground arith

abbrev pub task_order : Precedence less
task_order = record {
  Fits = λ t. t.states ≢ [];
  lt = goes_before;
  runs = less-ok;
  asym = goes_before_asym;
  trans = goes_before_trans;
}

-- what an index out of range would read in a proof; the program reads none
abbrev pub any_task : Task
any_task = record {
  version = pos 0;
  priority = pos 0;
  id = "";
  runner = "";
  plan = "";
  case = "";
  states = [];
  type = TaskType.build;
  composition = null;
  input = Input.no_input;
  result = Result.no_result;
  error = "";
  created_by = record { user = ""; repo = ""; branch = ""; commit = "" };
}

pub record IsOrdered (tq : List Task) : Type 0 where
  pub heap : IsHeap less task_order any_task (length tq) tq
  pub fit : AllFit less task_order any_task tq

appended :
    (tq : List Task) (t : Task)
    → IsOrdered tq
    → t.states ≢ []
    → UpInv less task_order any_task (tq ++ t ∷ []) (length tq)
appended tq t v has_state =
    let size = length-append tq (t ∷ []) in
    record {
      inside = omega (arith, size);
      fit = λ i h. elim (ℕ_discrete i (length tq)) [
        | yes last ↦ rw (last, entry-append_last any_task tq t) has_state
        | no other ↦
            rw (entry-append any_task tq (t ∷ []) i (omega (arith, size)))
              (v.fit i (omega (arith, size)))
      ];
      edges = λ c p q h.
          rw
            (
              entry-append any_task tq (t ∷ []) c (omega (arith, size)),
              entry-append any_task tq (t ∷ []) (parent c) (omega (arith, size)),
            )
            (v.heap c p (omega (arith, size)));
      bridged = λ c p q h r. absurd (omega (arith, size));
    }

-- `heap.Push` on an ordered queue returns, and adds exactly the task.
pub heap_push_correct :
    (tq : List Task) (t : Task)
    → IsOrdered tq
    → t.states ≢ []
    → (tq' : List Task) × (heap_push tq t ≡ ok tq') × IsOrdered tq' × Perm tq' (t ∷ tq)
unfolding heap_push
heap_push_correct tq t v has_state =
    let (ys, ran, heap, fit, same) =
      up_restores less task_order any_task (length tq + 1) (tq ++ t ∷ []) (length tq) (omega arith)
        (appended tq t v has_state) in
    (ys, ran, record { heap = heap; fit = fit }, Perm.trans same (snoc-perm tq t))

module _ (tq : List Task) (v : IsOrdered tq) (n : ℕ) (size : length tq ≡ suc n) where
  abbrev swapped : List Task
  swapped = exchange any_task tq 0 n

  swapped-DownInv : DownInv less task_order any_task n swapped 0
  swapped-DownInv = record {
    within = omega (arith, size, length-exchange any_task tq 0 n);
    fit =
        exchange-AllFit less task_order any_task tq 0 n (omega (arith, size)) (omega (arith, size))
          v.fit;
    edges = λ c p q h. ground (
      arith,
      entry-exchange any_task tq 0 n (omega (arith, size)) (omega (arith, size)) c,
      entry-exchange any_task tq 0 n (omega (arith, size)) (omega (arith, size)) (parent c),
      v.heap c p,
    );
    bridged = λ c p q h r. absurd (omega arith);
  }

  -- the last of `n + 1` elements cut off
  cut :
      (zs : List Task)
      → length zs ≡ suc n
      → IsHeap less task_order any_task n zs
      → AllFit less task_order any_task zs
      → IsOrdered (take n zs)
  cut zs h heap fit =
      let shorter : length (take n zs) ≡ n = omega (
        arith,
        ap (λ (l : List Task). length l) (take-append-last any_task n zs h),
        length-append (take n zs) (entry any_task zs n ∷ []),
      ) in
      record {
        heap = λ c p q.
            rw
              (
                entry-take any_task n zs c (omega (arith, shorter)),
                entry-take any_task n zs (parent c) (omega (arith, shorter)),
              )
              (heap c p (omega (arith, shorter)));
        fit = λ i q.
            rw (entry-take any_task n zs i (omega (arith, shorter)))
              (fit i (omega (arith, shorter)));
      }

-- what `heap.Pop` returns of the tasks `tq`: one that no other goes before, and the others
pub record Popped (tq : List Task) (t : Task) (rest : List Task) : Type 0 where
  pub ordered : IsOrdered rest
  pub same : Perm (t ∷ rest) tq
  pub has_state : t.states ≢ []
  pub first : (i : ℕ) → i < length tq → goes_before (entry any_task tq i) t ≡ false

heap_pop-run :
    (tq ys zs : List Task) (n : ℕ) (t : Task)
    → length tq - 1 ≡ n
    → swap tq 0 n ≡ ok ys
    → down less (n + 1) ys 0 n ≡ ok zs
    → get_elem? zs n ≡ some t
    → heap_pop tq ≡ ok (t, take n zs)
unfolding heap_pop
heap_pop-run tq ys zs n t size swapping sinking last = ground arith

heap_pop_at :
    (tq : List Task) (n : ℕ)
    → length tq ≡ suc n
    → IsOrdered tq
    → (t : Task) × (rest : List Task) × (heap_pop tq ≡ ok (t, rest)) × Popped tq t rest
heap_pop_at tq n size v =
    let swapping =
      swap-ok less task_order any_task tq 0 n (omega (arith, size)) (omega (arith, size)) in
    let (zs, ran, heap, fit, same, behind) =
      down_restores less task_order any_task (n + 1) n (swapped tq v n size) 0 (omega arith)
        (omega arith) (swapped-DownInv tq v n size) in
    let long : length zs ≡ suc n =
      omega (arith, size, perm_length same, length-exchange any_task tq 0 n) in
    let last = get_elem?-entry any_task zs n (omega (arith, long)) in
    let root : entry any_task zs n ≡ entry any_task tq 0 =
      behind n (omega arith)
      ∙ ground
          (arith, entry-exchange any_task tq 0 n (omega (arith, size)) (omega (arith, size)) n) in
    (
      entry any_task zs n,
      take n zs,
      heap_pop-run tq _ zs n _ (omega (arith, size)) swapping ran last,
      record {
        ordered = cut tq v n size zs long heap fit;
        same = Perm.trans (Perm.symm (snoc-perm (take n zs) (entry any_task zs n))) (
            rw (take-append-last any_task n zs long) (
              Perm.trans same
                (exchange-perm any_task tq 0 n (omega (arith, size)) (omega (arith, size)))));
        has_state = fit n (omega (arith, long));
        first = λ i p. rw root (root_first less task_order any_task (length tq) tq i v.heap p);
      },
    )

-- `heap.Pop` on an ordered queue that is not empty returns such a task.
pub heap_pop_correct :
    (tq : List Task)
    → IsOrdered tq
    → 0 < length tq
    → (t : Task) × (rest : List Task) × (heap_pop tq ≡ ok (t, rest)) × Popped tq t rest
heap_pop_correct tq v h = heap_pop_at tq (length tq - 1) (omega arith) v
