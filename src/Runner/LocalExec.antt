-- ===== src/Runner/LocalExec.antt =====
-- pkg/runner/local_exec.go: Run, which starts each instance as a process and waits for all of
-- them. An environment says how the start of each instance ends, and what it prints.
use testground.Base.{
  ℕ, zero, suc, ◌+◌, ◌%◌, ◌<◌, ◌≡◌, refl, String, Bool, true, false, List, [], ◌∷◌, ◌==◌,
  if◌then◌else◌, arith,
}
use testground.Base.Int.{pos, pos_part, ltb_ℤ}
use testground.Base.Errors.{Fallible, ok, err, panic}
use testground.Engine.Runs.{RunGroup, RunInput}
use testground.Sidecar.{u32_mod}
use testground.Runner.Printer.{
  Line, Printer, fail_start, manage, process_stdout, process_stdout_lem, wait_succeeds,
  instance_passes,
}

-- the start of an instance
pub data Start : Type 0 where
  mkdir_failed tempdir_failed start_failed : Start
  started : List Line → Start  -- with the lines of its standard output

-- how the instance of a group and a number starts
abbrev pub Environment : Type 0
Environment = String → ℕ → Start

pub data RunError : Type 0 where
  nodes_failed : ℕ → RunError

abbrev pub run_instance : Start → Printer → Printer
run_instance mkdir_failed c = fail_start c
run_instance tempdir_failed c = fail_start c
run_instance start_failed c = fail_start c
run_instance (started lines) c = manage lines c

-- the inner loop, with the number of the next instance and how many are left
unfoldable pub run_instances : Environment → String → ℕ → ℕ → Printer → Printer
run_instances env id i zero c = c
run_instances env id i (suc left) c = run_instances env id (i + 1) left (run_instance (env id i) c)

-- the outer loop
unfoldable pub run_groups : Environment → List RunGroup → Printer → Printer
unfolding run_instances
run_groups env [] c = c
run_groups env (g ∷ gs) c = run_groups env gs (run_instances env g.id 0 (pos_part g.instances) c)

abbrev waited : String → Printer → Fallible RunError String
waited run_id c = if wait_succeeds c then ok run_id else err (nodes_failed c.failed)

-- Run of the local:exec runner; a negative capacity of the slice panics
unfoldable pub run_local_exec : Environment → RunInput → Fallible RunError String
unfolding run_groups wait_succeeds
run_local_exec env input =
    if ltb_ℤ input.total_instances (pos 0)
    then panic
    else waited input.run_id (run_groups env input.groups (record { failed = 0; count = 0 }))

abbrev pub start_passes : Start → Bool
start_passes mkdir_failed = false
start_passes tempdir_failed = false
start_passes start_failed = false
start_passes (started lines) = instance_passes lines

-- how many instances fail
unfoldable pub failing : Environment → String → ℕ → ℕ → ℕ
failing env id i zero = 0
failing env id i (suc left) =
    (if start_passes (env id i) then 0 else 1) + failing env id (i + 1) left

unfoldable pub failing_groups : Environment → List RunGroup → ℕ
failing_groups env [] = 0
failing_groups env (g ∷ gs) = failing env g.id 0 (pos_part g.instances) + failing_groups env gs

abbrev one_if_failed : Start → ℕ
one_if_failed s = if start_passes s then 0 else 1

run_instance-failed :
    (s : Start) (c : Printer)
    → c.failed < u32_mod
    → (run_instance s c).failed ≡ (c.failed + one_if_failed s) % u32_mod
unfolding fail_start manage
run_instance-failed mkdir_failed c h = refl
run_instance-failed tempdir_failed c h = refl
run_instance-failed start_failed c h = refl
run_instance-failed (started lines) c h = counted (instance_passes lines) refl
  where
    counted :
        (b : Bool)
        → instance_passes lines ≡ b
        → (process_stdout lines (record c { count = (c.count + 1) % u32_mod })).failed
          ≡ (c.failed + (if instance_passes lines then 0 else 1)) % u32_mod
    counted true e =
        rw (process_stdout_lem lines (record c { count = (c.count + 1) % u32_mod }))
          (rw e (omega arith))
    counted false e =
        rw (process_stdout_lem lines (record c { count = (c.count + 1) % u32_mod })) (rw e refl)

run_instances-failed :
    (env : Environment) (id : String) (i left : ℕ) (c : Printer)
    → c.failed < u32_mod
    → (run_instances env id i left c).failed ≡ (c.failed + failing env id i left) % u32_mod
unfolding run_instances failing
run_instances-failed env id i zero c h = omega arith
run_instances-failed env id i (suc left) c h =
    let one = run_instance-failed (env id i) c h in
    let c' : Printer = run_instance (env id i) c in
    let below : c'.failed < u32_mod = omega (arith, one) in
    omega (arith, one, run_instances-failed env id (i + 1) left c' below)

run_groups-failed :
    (env : Environment) (gs : List RunGroup) (c : Printer)
    → c.failed < u32_mod
    → (run_groups env gs c).failed ≡ (c.failed + failing_groups env gs) % u32_mod
unfolding run_groups failing_groups
run_groups-failed env [] c h = omega arith
run_groups-failed env (g ∷ gs) c h =
    let one = run_instances-failed env g.id 0 (pos_part g.instances) c h in
    let c' : Printer = run_instances env g.id 0 (pos_part g.instances) c in
    let below : c'.failed < u32_mod = omega (arith, one) in
    omega (arith, one, run_groups-failed env gs c' below)

zero-add : (n : ℕ) → 0 + n ≡ n
zero-add n = omega arith

-- Run of the local:exec runner with a total that is not negative returns the identifier of the run
-- exactly when the number of instances that fail is a multiple of 2^32, and otherwise an error with
-- that number modulo 2^32. An instance fails when it does not start, or does not report a success
-- without a failure or a crash before the first event that the printer does not know.
pub run_local_exec_correct :
    (env : Environment) (input : RunInput)
    → ltb_ℤ input.total_instances (pos 0) ≡ false
    → let failed = failing_groups env input.groups % u32_mod in
      run_local_exec env input
      ≡ (if failed == 0 then ok input.run_id else err (nodes_failed failed))
unfolding run_local_exec wait_succeeds
run_local_exec_correct env input h = rw h (
    rw (run_groups-failed env input.groups (record { failed = 0; count = 0 }) (omega arith))
      (rw (zero-add (failing_groups env input.groups)) refl))
