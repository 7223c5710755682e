-- ===== src/Tests/Rpcs.antt =====
-- Outcomes, options and responses at concrete values.
use testground.Base.{
  ℕ, zero, suc, ◌+◌, ◌≡◌, refl, ap, ◌∙◌, String, true, false, Option, none, some, List, [], ◌∷◌,
  str_eq, if◌then◌else◌, arith,
}
use testground.Base.Maps.{Map, lookup}
use testground.Base.Errors.{ok}
use testground.Base.Actions.{pure}
use testground.Task.{State, Result, DatedState}
use testground.Task.Payload.{Outcome, null, object, result_object, strings, scalar}
use testground.Task.Bytes.{Bytes}
use testground.Engine.Worker.{Surroundings, in_work, ended}
use testground.Data.{MapStructure, decode_task_outcome, decode_task_outcome-ended}
use testground.Conv.RoundTrip.{KeysFree, IsMap, has_no_equals}
use testground.Rpc.{Base64, string, value}
use testground.Rpc.Reader.{Console, Handler, Headings, parse_collect_response}
use testground.Rpc.RoundTrip.{Output, no_bytes, line, part, respond, fresh, parse-respond}
use testground.Tests.Tasks.{urgent}

-- a decoder that keeps the default where there is no outcome
abbrev decoded : Result → Outcome → Outcome
decoded Result.no_result o = o
decoded (Result.runner_result o' text) o = o'
decoded (Result.artifact_paths paths) o = o
decoded (Result.untyped j) o = elim j [
  | null ↦ o
  | object t ↦ o
  | result_object o' t ↦ o'
  | strings ss ↦ o
  | scalar t ↦ o
]

abbrev decoder : MapStructure
decoder = record {
  decode = decoded;
  decode-nil = λ o. refl;
  decode-null = λ o. refl;
  decode-result = λ o o' t. refl;
  decode-object = λ o o' t. refl;
}

abbrev finished : DatedState
finished = record { created = 63735596812000000000; state = State.complete }

-- a run whose plan cannot be built
abbrev test_surroundings : Surroundings
test_surroundings = record {
  channel = 1;
  log_opens = true;
  do_run = λ j. ok (none, some (record { text = "no such plan"; is_canceled = false }));
  do_build = λ j. ok (none, none);
  started_at = 63735596810000000000;
  ended_at = 63735596812000000000;
  github_token = "";
}

decode_task_outcome-ended_example :
    decode_task_outcome decoder (
      ended test_surroundings
        (in_work test_surroundings urgent)
        (Result.no_result, some (record { text = "no such plan"; is_canceled = false })))
    ≡ ok Outcome.success
decode_task_outcome-ended_example =
    decode_task_outcome-ended decoder test_surroundings urgent Result.no_result
      (some (record { text = "no such plan"; is_canceled = false })) refl

abbrev two_options : Map String
two_options = ("GOPROXY", "a=b") ∷ ("TAG", "") ∷ []

two_options-KeysFree : KeysFree two_options
unfolding has_no_equals
two_options-KeysFree = (refl, (refl, tt))

two_options-IsMap : IsMap two_options
unfolding lookup
two_options-IsMap = (refl, (refl, tt))

-- an encoding of bytes as text that can be read back: a stroke for each unit
strokes : ℕ → String → String
strokes zero s = String.◌∷◌ "," s
strokes (suc n) s = String.◌∷◌ "|" (strokes n s)

pub encoded : Bytes → String
encoded [] = ""
encoded (b ∷ bs) = strokes b (encoded bs)

abbrev cons_decoded : ℕ → Option Bytes → Option Bytes
cons_decoded b none = none
cons_decoded b (some bs) = some (b ∷ bs)

pub read_strokes : ℕ → String → Option Bytes
read_strokes n String.[] = some []
read_strokes n (String.◌∷◌ c s) =
    let more = read_strokes (n + 1) s in
    let next = read_strokes 0 s in
    if str_eq (String.◌∷◌ c String.[]) "," then cons_decoded n next else more

read_strokes-strokes :
    (k n : ℕ) (s : String) → read_strokes k (strokes n s) ≡ cons_decoded (k + n) (read_strokes 0 s)
unfolding read_strokes strokes
read_strokes-strokes k zero s = ap (λ (b : ℕ). cons_decoded b (read_strokes 0 s)) (plus_zero k)
  where
    plus_zero : (m : ℕ) → m ≡ m + zero
    plus_zero m = omega arith
read_strokes-strokes k (suc n) s =
    read_strokes-strokes (k + 1) n s ∙ ap (λ (b : ℕ). cons_decoded b (read_strokes 0 s)) (moved k n)
  where
    moved : (m l : ℕ) → m + 1 + l ≡ m + suc l
    moved m l = omega arith

pub read-encoded : (bs : Bytes) → read_strokes 0 (encoded bs) ≡ some bs
unfolding encoded
read-encoded [] = unfold read_strokes in refl
read-encoded (b ∷ bs) = read_strokes-strokes 0 b (encoded bs) ∙ rw (read-encoded bs) (same b)
  where
    same : (n : ℕ) → cons_decoded (0 + n) (some bs) ≡ some (n ∷ bs)
    same n = ap (λ (m : ℕ). some (m ∷ bs)) (plus n)
      where
        plus : (m : ℕ) → 0 + m ≡ m
        plus m = omega arith

abbrev pub strokes64 : Base64
strokes64 = record { encode = encoded; decode = read_strokes 0; decode-encode = read-encoded }

abbrev keep_result : Handler
keep_result v = pure tt

abbrev some_outputs : List Output
some_outputs = no_bytes ∷ line (104 ∷ 105 ∷ []) ∷ part (1 ∷ 2 ∷ []) ∷ line (33 ∷ []) ∷ []

abbrev no_output : Console
no_output = record { printed = []; file = [] }

abbrev plain : Headings
plain = record { server_output = 79 ∷ []; error = 69 ∷ []; result = 82 ∷ [] }

parse-respond_example :
    ((respond strokes64 some_outputs (value (string "done")) fresh).0 ≡ ok tt)
    × (parse_collect_response plain strokes64 keep_result
          (respond strokes64 some_outputs (value (string "done")) fresh).1.sent
          no_output
        ≡ keep_result
            (some (string "done"))
            (record { printed = 79 ∷ 104 ∷ 105 ∷ 33 ∷ 82 ∷ []; file = 1 ∷ 2 ∷ [] }))
parse-respond_example =
    parse-respond strokes64 plain keep_result some_outputs (string "done") no_output
