-- ===== src/Rpc/Reader.antt =====
-- pkg/client/client.go: parseGeneric and the parsers of the responses. What the client prints and
-- writes is its state.
use testground.Base.{String, Bool, true, false, Option, none, some, List, [], ◌∷◌, ◌++◌}
use testground.Base.Maps.{or_else}
use testground.Base.Errors.{ok, panic}
use testground.Base.Actions.{Action, pure, raise, lift, ◌>>◌}
use testground.Task.Bytes.{Bytes}
use testground.Rpc.{Chunk, ChunkType, WireValue, string, tree, Base64}

pub data ClientError : Type 0 where
  end_of_stream : ClientError
  remote : String → ClientError  -- the message of an error chunk
  unknown_type : ClientError
  not_base64 : ClientError
  not_a_string : ClientError

-- the terminal, and the file of a `collect` call
pub record Console : Type 0 where
  pub printed : Bytes
  pub file : Bytes

abbrev pub Handler : Type 0
Handler = Option WireValue → Action Console ClientError (Unit {0})

-- `dec.Decode(&chunk)`: the chunk is declared outside the loop, and a field that the document
-- leaves out keeps its old value
unfoldable pub decode_into : Chunk → Chunk → Chunk
decode_into old doc = record {
  type = doc.type;
  payload = or_else doc.payload old.payload;
  error_msg = or_else doc.error_msg old.error_msg;
}

abbrev remote_error : Option String → Action Console ClientError (Unit {0})
remote_error none = lift panic
remote_error (some msg) = raise (remote msg)

abbrev call_binary : Option Handler → Option WireValue → Action Console ClientError (Unit {0})
call_binary none payload = lift panic
call_binary (some fn_binary) payload = fn_binary payload

-- the three headings that parseGeneric prints, as the aurora package colours them, each with the
-- end of its line
pub record Headings : Type 0 where
  pub server_output : Bytes
  pub error : Bytes
  pub result : Bytes

abbrev pub print : Bytes → Action Console ClientError (Unit {0})
print text s = (ok tt, record s { printed = s.printed ++ text })

-- `once.Do(…)`, on whether it was done
abbrev print_once : Bool → Bytes → Action Console ClientError (Unit {0})
print_once true text = pure tt
print_once false text = print text

module _ (headings : Headings) (fn_progress : Handler) (fn_binary : Option Handler)
    (fn_result : Handler) where
  -- the `switch` of the loop, and the rest of the loop, which takes whether the heading of the
  -- output was printed
  abbrev pub dispatch :
      Bool
      → ChunkType
      → Chunk
      → (Bool → Action Console ClientError (Unit {0}))
      → Action Console ClientError (Unit {0})
  dispatch done ChunkType.progress c rest = do
    print_once done headings.server_output
    fn_progress c.payload
    rest true
  dispatch done ChunkType.error c rest = print headings.error >> remote_error c.error_msg
  dispatch done ChunkType.result c rest = print headings.result >> fn_result c.payload
  dispatch done ChunkType.binary c rest = call_binary fn_binary c.payload >> rest done
  dispatch done (ChunkType.other s) c rest = raise unknown_type

  -- parseGeneric, with whether `once` was done and the chunk of the last round
  unfoldable pub parse_generic : Bool → Chunk → List Chunk → Action Console ClientError (Unit {0})
  unfolding decode_into
  parse_generic done chunk [] = raise end_of_stream
  parse_generic done chunk (doc ∷ docs) =
      dispatch done doc.type (decode_into chunk doc)
        (λ next. parse_generic next (decode_into chunk doc) docs)

-- the zero chunk
abbrev pub zero_chunk : Chunk
zero_chunk = record { type = ChunkType.other ""; payload = none; error_msg = none }

abbrev print_decoded : Option Bytes → Action Console ClientError (Unit {0})
print_decoded none = raise not_base64
print_decoded (some m) = print m

abbrev save_decoded : Option Bytes → Action Console ClientError (Unit {0})
save_decoded none = raise not_base64
save_decoded (some m) = λ s. (ok tt, record s { file = s.file ++ m })

module _ (base64 : Base64) where
  open base64 use {decode}

  -- printProgress; a payload that is no string fails the assertion
  abbrev pub print_progress : Handler
  print_progress (some (string p)) = print_decoded (decode p)
  print_progress (some (tree t)) = lift panic
  print_progress none = lift panic

  abbrev pub save_binary : Handler
  save_binary (some (string p)) = save_decoded (decode p)
  save_binary (some (tree t)) = lift panic
  save_binary none = lift panic

module _ (headings : Headings) (base64 : Base64) where
  -- ParseCollectResponse, up to what becomes of the result
  unfoldable pub parse_collect_response :
      Handler → List Chunk → Action Console ClientError (Unit {0})
  unfolding parse_generic
  parse_collect_response fn_result docs =
      parse_generic headings (print_progress base64) (some (save_binary base64)) fn_result false
        zero_chunk docs

  abbrev string_result : Handler
  string_result (some (string s)) = pure tt
  string_result (some (tree t)) = raise not_a_string
  string_result none = raise not_a_string

  -- ParseRunResponse and ParseBuildResponse, up to the string that they return
  unfoldable pub parse_run_response : List Chunk → Action Console ClientError (Unit {0})
  unfolding parse_generic
  parse_run_response docs =
      parse_generic headings (print_progress base64) none string_result false zero_chunk docs
