-- ===== src/Rpc.antt =====
-- pkg/rpc/chunk.go and writer.go: the chunks that the daemon writes to a response. The stream is
-- the list of its JSON documents, and base64 is a parameter; a line of the logger is the text that
-- zap hands to the progress writer.
pub mod Reader
pub mod RoundTrip
use testground.Base.{
  ◌≡◌, String, Bool, true, false, Option, none, some, List, [], ◌∷◌, ◌++◌, if◌then◌else◌,
}
use testground.Base.Errors.{Fallible, ok, err, panic}
use testground.Base.Actions.{Action, pure, raise, lift, ◌>>=◌, ◌>>◌}
use testground.Task.Bytes.{Bytes, codes}

-- ChunkType; a stream may hold any other rune
pub data ChunkType : Type 0 where
  progress binary result error : ChunkType
  other : String → ChunkType

-- a JSON value on the wire: a string, or any other by its text
pub data WireValue : Type 0 where
  string : String → WireValue
  tree : String → WireValue

-- Chunk, and its JSON document, where `omitempty` leaves out what is nil
pub record Chunk : Type 0 where
  pub type : ChunkType
  pub payload : Option WireValue
  pub error_msg : Option String

-- `base64.StdEncoding`; encoding/json writes a byte slice in it
pub record Base64 : Type 0 where
  pub encode : Bytes → String
  pub decode : String → Option Bytes
  pub decode-encode : (b : Bytes) → decode (encode b) ≡ some b

-- what a handler passes to WriteResult
pub data Payload : Type 0 where
  nil_payload : Payload
  value : WireValue → Payload
  unencodable : Payload

pub data WriteError : Type 0 where
  marshal_failed : WriteError
  broken_pipe : WriteError

-- the response: what was written, and whether the client is gone
pub record Response : Type 0 where
  pub sent : List Chunk
  pub is_broken : Bool

abbrev pub write_out : Chunk → Action Response WriteError (Unit {0})
write_out c r =
    if r.is_broken then (err broken_pipe, r) else (ok tt, record r { sent = r.sent ++ c ∷ [] })

abbrev marshal_payload : Payload → Fallible WriteError (Option WireValue)
marshal_payload nil_payload = ok none
marshal_payload (value v) = ok (some v)
marshal_payload unencodable = err marshal_failed

-- an error of a method that returns none is logged
abbrev ignore :
    Fallible WriteError (Unit {0}) × Response → Fallible WriteError (Unit {0}) × Response
ignore (ok u, r) = (ok u, r)
ignore (err e, r) = (ok tt, r)
ignore (panic, r) = (panic, r)

-- the pairs of WriteError: `fmt.Fprintf(b, "%s: %s;", …)`
format_pairs : List Bytes → Fallible WriteError Bytes
format_pairs [] = ok []
format_pairs (k ∷ []) = panic
format_pairs (k ∷ v ∷ kvs) = elim (format_pairs kvs) [
  | ok rest ↦ ok (k ++ codes ": " ++ v ++ codes ";" ++ rest)
  | err e ↦ err e
  | panic ↦ panic
]

-- `kvs[:len(kvs)-1]`
cut_last : Bytes → Bytes
cut_last [] = []
cut_last (b ∷ []) = []
cut_last (b ∷ c ∷ bs) = b ∷ cut_last (c ∷ bs)

abbrev with_pairs : Bytes → List Bytes → Fallible WriteError Bytes
with_pairs message [] = ok message
with_pairs message (k ∷ kvs) = elim (format_pairs (k ∷ kvs)) [
  | ok text ↦ ok (message ++ codes "; " ++ cut_last text)
  | err e ↦ err e
  | panic ↦ panic
]

module _ (base64 : Base64) where
  open base64 use {encode}

  -- progressWriter.Write, also the sink of the logger; `none` is a nil slice
  unfoldable pub write_progress : Option Bytes → Action Response WriteError (Unit {0})
  write_progress none = pure tt
  write_progress (some p) =
      write_out (record { type = progress; payload = some (string (encode p)); error_msg = none })

  -- WriteBinary: a nil slice in an interface that is not nil is not left out, but null
  unfoldable pub write_binary : Option Bytes → Action Response WriteError (Unit {0})
  write_binary none =
      write_out (record { type = binary; payload = some (tree "null"); error_msg = none })
  write_binary (some b) =
      write_out (record { type = binary; payload = some (string (encode b)); error_msg = none })

-- WriteResult
unfoldable pub write_result : Payload → Action Response WriteError (Unit {0})
write_result res r = ignore (
    (do
      payload ← lift (marshal_payload res)
      write_out (record { type = result; payload = payload; error_msg = none }))
      r)

-- WriteError after the line of its warning, which the logger writes
unfoldable pub write_error :
    (Bytes → String) → Bytes → List Bytes → Action Response WriteError (Unit {0})
unfolding format_pairs cut_last
write_error to_string message kvs = do
  text ← lift (with_pairs message kvs)
  λ r.
      ignore
        (write_out (record { type = error; payload = none; error_msg = some (to_string text) }) r)
