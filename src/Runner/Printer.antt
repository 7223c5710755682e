-- ===== src/Runner/Printer.antt =====
-- pkg/runner/pretty.go: the printer that follows the output of the instances and counts those that
-- failed. What it prints is left out. A line stands for what json.Unmarshal makes of it.
use testground.Base.{
  ℕ, ◌+◌, ◌%◌, ◌≡◌, refl, Bool, true, false, not, ◌||◌, List, [], ◌∷◌, ◌==◌, if◌then◌else◌, arith,
}
use testground.Sidecar.{u32_mod}

pub data Line : Type 0 where
  garbage : Line  -- no JSON object, or no event in it
  success failure crash : Line
  message start stage_start stage_end : Line
  unknown : Line  -- an event of no known kind

-- `ok` and `failed` of processStdout
pub record Progress : Type 0 where
  pub succeeded : Bool
  pub failed : Bool

-- the loop of processStdout: an unknown event ends it
unfoldable pub read_lines : List Line → Progress → Progress
read_lines [] p = p
read_lines (garbage ∷ lines) p = read_lines lines p
read_lines (success ∷ lines) p = read_lines lines (record p { succeeded = true })
read_lines (failure ∷ lines) p = read_lines lines (record p { failed = true })
read_lines (crash ∷ lines) p = read_lines lines (record p { failed = true })
read_lines (message ∷ lines) p = read_lines lines p
read_lines (start ∷ lines) p = read_lines lines p
read_lines (stage_start ∷ lines) p = read_lines lines p
read_lines (stage_end ∷ lines) p = read_lines lines p
read_lines (unknown ∷ lines) p = p

-- PrettyPrinter; the counters are uint32
pub record Printer : Type 0 where
  pub failed : ℕ
  pub count : ℕ

abbrev bump : ℕ → ℕ
bump n = (n + 1) % u32_mod

-- FailStart
unfoldable pub fail_start : Printer → Printer
fail_start c = record { failed = bump c.failed; count = bump c.count }

abbrev passes : Progress → Bool
passes p = if p.succeeded then not p.failed else false

-- processStdout, with its deferred function
unfoldable pub process_stdout : List Line → Printer → Printer
unfolding read_lines
process_stdout lines c =
    if passes (read_lines lines (record { succeeded = false; failed = false }))
    then c
    else record c { failed = bump c.failed }

-- Manage, up to the end of the goroutine that it starts
unfoldable pub manage : List Line → Printer → Printer
unfolding process_stdout
manage lines c = process_stdout lines (record c { count = bump c.count })

-- Wait: whether it sends nil
unfoldable pub wait_succeeds : Printer → Bool
wait_succeeds c = c.failed == 0

-- the lines up to the first unknown event
abbrev is_unknown : Line → Bool
is_unknown unknown = true
is_unknown _ = false

abbrev pub is_success : Line → Bool
is_success success = true
is_success _ = false

abbrev pub is_failure : Line → Bool
is_failure failure = true
is_failure crash = true
is_failure _ = false

abbrev pub understood : List Line → List Line
understood [] = []
understood (l ∷ lines) = if is_unknown l then [] else l ∷ understood lines

abbrev pub any_line : (Line → Bool) → List Line → Bool
any_line f [] = false
any_line f (l ∷ lines) = f l || any_line f lines

-- An instance passes: it reported a success, and neither a failure nor a crash, before the first
-- event that the printer does not know.
abbrev pub instance_passes : List Line → Bool
instance_passes lines =
    if any_line is_success (understood lines)
    then not (any_line is_failure (understood lines))
    else false

read_lines_lem :
    (lines : List Line) (p : Progress)
    → read_lines lines p ≡ record {
      succeeded = p.succeeded || any_line is_success (understood lines);
      failed = p.failed || any_line is_failure (understood lines);
    }
unfolding read_lines
read_lines_lem [] p = ground arith
read_lines_lem (garbage ∷ lines) p = read_lines_lem lines p
read_lines_lem (success ∷ lines) p =
    ground (arith, read_lines_lem lines (record p { succeeded = true }))
read_lines_lem (failure ∷ lines) p =
    ground (arith, read_lines_lem lines (record p { failed = true }))
read_lines_lem (crash ∷ lines) p = ground (arith, read_lines_lem lines (record p { failed = true }))
read_lines_lem (message ∷ lines) p = read_lines_lem lines p
read_lines_lem (start ∷ lines) p = read_lines_lem lines p
read_lines_lem (stage_start ∷ lines) p = read_lines_lem lines p
read_lines_lem (stage_end ∷ lines) p = read_lines_lem lines p
read_lines_lem (unknown ∷ lines) p = ground arith

pub process_stdout_lem :
    (lines : List Line) (c : Printer)
    → process_stdout lines c
      ≡ (if instance_passes lines then c else record c { failed = bump c.failed })
unfolding process_stdout
process_stdout_lem lines c =
    rw (read_lines_lem lines (record { succeeded = false; failed = false })) refl
