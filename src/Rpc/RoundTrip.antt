-- ===== src/Rpc/RoundTrip.antt =====
-- What the client reads from the response that a handler of the daemon writes.
use mathlib.Core.List.{append_assoc, append-nil}
use testground.Base.{◌≡◌, refl, ap, ◌∙◌, Bool, true, false, Option, none, some, List, [], ◌∷◌, ◌++◌}
use testground.Base.Maps.{or_else}
use testground.Base.Errors.{Fallible, ok}
use testground.Base.Actions.{Action, pure, ◌>>◌}
use testground.Task.Bytes.{Bytes}
use testground.Rpc.{
  Chunk, ChunkType, WireValue, string, Base64, Payload, nil_payload, value, WriteError, Response,
  write_progress, write_binary, write_result,
}
use testground.Rpc.Reader.{
  ClientError, Console, Handler, Headings, decode_into, parse_generic, zero_chunk, print_progress,
  save_binary, parse_collect_response,
}

-- what a handler writes before its result: lines of the log, parts of a file, and nil slices to
-- the log
pub data Output : Type 0 where
  no_bytes : Output
  line : Bytes → Output
  part : Bytes → Output

abbrev pub lines : List Output → Bytes
lines [] = []
lines (no_bytes ∷ os) = lines os
lines (line b ∷ os) = b ++ lines os
lines (part b ∷ os) = lines os

abbrev pub parts : List Output → Bytes
parts [] = []
parts (no_bytes ∷ os) = parts os
parts (line b ∷ os) = parts os
parts (part b ∷ os) = b ++ parts os

abbrev pub fresh : Response
fresh = record { sent = []; is_broken = false }

module _ (base64 : Base64) where
  open base64 use {encode, decode, decode-encode}

  abbrev pub write_output : Output → Action Response WriteError (Unit {0})
  write_output no_bytes = write_progress base64 none
  write_output (line b) = write_progress base64 (some b)
  write_output (part b) = write_binary base64 (some b)

  abbrev pub write_outputs : List Output → Action Response WriteError (Unit {0})
  write_outputs [] = pure tt
  write_outputs (o ∷ os) = write_output o >> write_outputs os

  -- a handler of the daemon
  abbrev pub respond : List Output → Payload → Action Response WriteError (Unit {0})
  respond os res = write_outputs os >> write_result res

  abbrev document : ChunkType → Bytes → Chunk
  document type b = record { type = type; payload = some (string (encode b)); error_msg = none }

  abbrev documents : List Output → List Chunk
  documents [] = []
  documents (no_bytes ∷ os) = documents os
  documents (line b ∷ os) = document ChunkType.progress b ∷ documents os
  documents (part b ∷ os) = document ChunkType.binary b ∷ documents os

  abbrev result_document : Option WireValue → Chunk
  result_document payload = record { type = ChunkType.result; payload = payload; error_msg = none }

  write_outputs-sent :
      (os : List Output) (sent : List Chunk)
      → ◌≡◌ {A = Fallible WriteError (Unit {0}) × Response}
          (write_outputs os (record { sent = sent; is_broken = false }))
          (ok tt, record { sent = sent ++ documents os; is_broken = false })
  unfolding write_progress write_binary
  write_outputs-sent [] sent = rw (append-nil sent) refl
  write_outputs-sent (no_bytes ∷ os) sent = write_outputs-sent os sent
  write_outputs-sent (line b ∷ os) sent =
      write_outputs-sent os (sent ++ document ChunkType.progress b ∷ [])
      ∙ rw (append_assoc sent (document ChunkType.progress b ∷ []) (documents os)) refl
  write_outputs-sent (part b ∷ os) sent =
      write_outputs-sent os (sent ++ document ChunkType.binary b ∷ [])
      ∙ rw (append_assoc sent (document ChunkType.binary b ∷ []) (documents os)) refl

  last_chunk : List Output → Chunk → Chunk
  last_chunk [] c = c
  last_chunk (no_bytes ∷ os) c = last_chunk os c
  last_chunk (line b ∷ os) c = last_chunk os (decode_into c (document ChunkType.progress b))
  last_chunk (part b ∷ os) c = last_chunk os (decode_into c (document ChunkType.binary b))

  last_chunk-line :
      (os : List Output) (b : Bytes) (c : Chunk)
      → (last_chunk (os ++ line b ∷ []) c).payload ≡ some (string (encode b))
  unfolding last_chunk decode_into
  last_chunk-line [] b c = refl
  last_chunk-line (no_bytes ∷ os) b c = last_chunk-line os b c
  last_chunk-line (line a ∷ os) b c = last_chunk-line os b _
  last_chunk-line (part a ∷ os) b c = last_chunk-line os b _

  module _ (headings : Headings) where
    -- the heading of the output, unless it is printed already or there is no line
    abbrev pub heading : Bool → List Output → Bytes
    heading true os = []
    heading false [] = []
    heading false (no_bytes ∷ os) = heading false os
    heading false (line b ∷ os) = headings.server_output
    heading false (part b ∷ os) = heading false os

    show_outputs : Bool → List Output → Console → Console
    show_outputs done [] s = s
    show_outputs done (no_bytes ∷ os) s = show_outputs done os s
    show_outputs true (line b ∷ os) s = show_outputs true os (record s { printed = s.printed ++ b })
    show_outputs false (line b ∷ os) s =
        show_outputs true os (record s { printed = (s.printed ++ headings.server_output) ++ b })
    show_outputs done (part b ∷ os) s = show_outputs done os (record s { file = s.file ++ b })

    was_done : Bool → List Output → Bool
    was_done done [] = done
    was_done done (no_bytes ∷ os) = was_done done os
    was_done done (line b ∷ os) = was_done true os
    was_done done (part b ∷ os) = was_done done os

    show_outputs_lem :
        (done : Bool) (os : List Output) (s : Console)
        → show_outputs done os s ≡ record {
          printed = s.printed ++ (heading done os ++ lines os);
          file = s.file ++ parts os;
        }
    unfolding show_outputs
    show_outputs_lem true [] s = rw (append-nil s.printed) (rw (append-nil s.file) refl)
    show_outputs_lem false [] s = rw (append-nil s.printed) (rw (append-nil s.file) refl)
    show_outputs_lem true (no_bytes ∷ os) s = show_outputs_lem true os s
    show_outputs_lem false (no_bytes ∷ os) s = show_outputs_lem false os s
    show_outputs_lem true (line b ∷ os) s =
        show_outputs_lem true os (record s { printed = s.printed ++ b })
        ∙ rw (append_assoc s.printed b (lines os)) refl
    show_outputs_lem false (line b ∷ os) s =
        show_outputs_lem true os (record s { printed = (s.printed ++ headings.server_output) ++ b })
        ∙ rw (append_assoc (s.printed ++ headings.server_output) b (lines os))
            (rw (append_assoc s.printed headings.server_output (b ++ lines os)) refl)
    show_outputs_lem true (part b ∷ os) s =
        show_outputs_lem true os (record s { file = s.file ++ b })
        ∙ rw (append_assoc s.file b (parts os)) refl
    show_outputs_lem false (part b ∷ os) s =
        show_outputs_lem false os (record s { file = s.file ++ b })
        ∙ rw (append_assoc s.file b (parts os)) refl

    module _ (fn_result : Handler) where
      abbrev parse : Bool → Chunk → List Chunk → Action Console ClientError (Unit {0})
      parse = parse_generic headings (print_progress base64) (some (save_binary base64)) fn_result

      parse_outputs :
          (done : Bool) (os : List Output) (rest : List Chunk) (c : Chunk) (s : Console)
          → parse done c (documents os ++ rest) s
            ≡ parse (was_done done os) (last_chunk os c) rest (show_outputs done os s)
      unfolding parse_generic show_outputs last_chunk was_done
      parse_outputs done [] rest c s = refl
      parse_outputs true (no_bytes ∷ os) rest c s = parse_outputs true os rest c s
      parse_outputs false (no_bytes ∷ os) rest c s = parse_outputs false os rest c s
      parse_outputs true (line b ∷ os) rest c s =
          rw (decode-encode b) (parse_outputs true os rest _ _)
      parse_outputs false (line b ∷ os) rest c s =
          rw (decode-encode b) (parse_outputs true os rest _ _)
      parse_outputs true (part b ∷ os) rest c s =
          rw (decode-encode b) (parse_outputs true os rest _ _)
      parse_outputs false (part b ∷ os) rest c s =
          rw (decode-encode b) (parse_outputs false os rest _ _)

      parse_result :
          (done : Bool) (c : Chunk) (payload : Option WireValue) (s : Console)
          → parse done c (result_document payload ∷ []) s
            ≡ fn_result
                (or_else payload c.payload)
                (record s { printed = s.printed ++ headings.result })
      unfolding parse_generic decode_into
      parse_result done c payload s = refl

      -- the console before fn_result
      abbrev pub read_out : List Output → Console → Console
      read_out os s = record {
        printed = (s.printed ++ (heading false os ++ lines os)) ++ headings.result;
        file = s.file ++ parts os;
      }

      parse_response :
          (os : List Output) (payload : Option WireValue) (s : Console)
          → parse_collect_response headings base64 fn_result
              (documents os ++ result_document payload ∷ [])
              s
            ≡ fn_result (or_else payload (last_chunk os zero_chunk).payload) (read_out os s)
      unfolding parse_collect_response
      parse_response os payload s =
          parse_outputs false os (result_document payload ∷ []) zero_chunk s
          ∙ (parse_result (was_done false os) (last_chunk os zero_chunk) payload
                (show_outputs false os s)
              ∙ ap
                  (λ (x : Console).
                    fn_result (or_else payload (last_chunk os zero_chunk).payload)
                      (record x { printed = x.printed ++ headings.result }))
                  (show_outputs_lem false os s))

      -- A handler that writes lines, parts of a file and then a result that is not nil to a
      -- client that stays makes parseGeneric print the heading of the output once, before the
      -- first line and only where there is one, then exactly the lines in their order, then the
      -- heading of the result; it writes exactly the parts in their order, and hands over the
      -- result.
      pub parse-respond :
          (os : List Output) (v : WireValue) (s : Console)
          → ((respond os (value v) fresh).0 ≡ ok tt)
            × (parse_collect_response headings base64 fn_result
                  (respond os (value v) fresh).1.sent
                  s
                ≡ fn_result (some v) (record {
                  printed = (s.printed ++ (heading false os ++ lines os)) ++ headings.result;
                  file = s.file ++ parts os;
                }))
      unfolding write_result
      parse-respond os v s = rw (write_outputs-sent os []) (refl, parse_response os (some v) s)

      -- A nil result after a line of the log is not read as nil: the client hands the text of that
      -- line over as the result.
      pub parse-respond_stale :
          (os : List Output) (b : Bytes) (s : Console)
          → parse_collect_response headings base64 fn_result
              (respond (os ++ line b ∷ []) nil_payload fresh).1.sent
              s
            ≡ fn_result (some (string (encode b))) (read_out (os ++ line b ∷ []) s)
      unfolding write_result
      parse-respond_stale os b s =
          let all = os ++ line b ∷ [] in
          rw (write_outputs-sent all [])
            (parse_response all none s ∙ rw (last_chunk-line os b zero_chunk) refl)
