-- ===== src/Worker/Wire.antt =====
-- crates/zkie-runtime/src/worker.rs: the text of a specification and of a result, and its readers.
pub mod SpecText
pub mod ResultText
use zk_ie.Common.{
  ℕ, not, List, [], ◌∷◌, ◌++◌, Option, none, some, Result, ok, err, ◌>>=◌, ◌>>◌, guard, ok_or,
  String, ◌==◌, if◌then◌else◌, map, u32_size, u64_size,
}
use zk_ie.Common.Chars.{
  Chars, is_empty, chars_eq, trim_end, split_once, lines, digits, parse_unsigned,
}
use zk_ie.Common.Text.{codes}
use zk_ie.Identity
use zk_ie.Identity.{Digest32}
use zk_ie.State.{is_identifier_codes}
use zk_ie.Worker.{
  ProtocolError, unsupported_schema_version, malformed, identifier, WorkerJobKind,
  worker_kind_as_str, parse_worker_kind, Fields, new_worker_job, WorkerSpec, schema, validate_spec,
  WorkerOutcome, succeeded, failed, WorkerResult, sanitize_code,
}

-- A key and its value, and the text of such rows, `{key} {value}\n`.
abbrev pub Row : Type 0
Row = Chars × Chars

unfoldable pub render : List Row → Chars
render [] = []
render ((key, value) ∷ rest) = key ++ 32 ∷ (value ++ 10 ∷ render rest)

abbrev pub missing : ProtocolError
missing = malformed "missing required field"

unfoldable pub split_pair : Chars → Result ProtocolError Row
unfolding split_once trim_end
split_pair line = do
  pair ← ok_or (split_once 32 line) (malformed "expected a key/value line")
  guard (not (is_empty pair.0)) (malformed "empty message key")
  ok (pair.0, trim_end pair.1)

unfoldable pub parse_u32 : Chars → Result ProtocolError ℕ
unfolding parse_unsigned
parse_u32 value = ok_or (parse_unsigned u32_size value) (malformed "invalid integer")

unfoldable pub parse_u64 : Chars → Result ProtocolError ℕ
unfolding parse_unsigned
parse_u64 value = ok_or (parse_unsigned u64_size value) (malformed "invalid integer")

unfoldable pub parse_digest : Chars → Result ProtocolError Digest32
unfolding Identity.from_str
parse_digest value = elim (Identity.from_str value) [
  | ok d ↦ ok d
  | err _ ↦ err (malformed "invalid digest")
]

-- `JobId::new` and `AttemptId::new` on the code points.
unfoldable pub parse_id : Chars → Result ProtocolError Chars
unfolding is_identifier_codes
parse_id value = if is_identifier_codes value then ok value else err identifier

-- The loop over the lines of a message, with the arms of its `match`.
unfoldable pub read_lines :
    {D : Type 0}
    → (D → Chars → Chars → Result ProtocolError D)
    → D
    → List Chars
    → Result ProtocolError D
unfolding split_pair
read_lines arm d [] = ok d
read_lines arm d (line ∷ rest) = do
  pair ← split_pair line
  next ← arm d pair.0 pair.1
  read_lines arm next rest

-- The first line of a message: the schema version, where it is the version that is supported.
unfoldable pub read_head : String → List Chars → Result ProtocolError ℕ
unfolding split_pair chars_eq parse_u32
read_head magic [] = err missing
read_head magic (first ∷ _) = do
  pair ← split_pair first
  guard (chars_eq pair.0 (codes magic)) (malformed "unexpected message magic")
  version ← parse_u32 pair.1
  guard (version == schema) (unsupported_schema_version version)
  ok version

abbrev pub tail : List Chars → List Chars
tail [] = []
tail (_ ∷ rest) = rest
