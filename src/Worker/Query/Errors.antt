-- ===== src/Worker/Query/Errors.antt =====
-- The classes of errors and the records of failed queries in crates/incidentbench-worker/src/query.rs.
-- A message is a text of the library's, whose `len` counts bytes of UTF-8.
use Prim.Native.Char.{code}
use Prim.Native.String.{len}
use text.Mathlib.Text.{get?}
use incident_bench.Base.{
  ℕ, ◌+◌, ℤ, String, ◌<>◌, Bool, true, false, ◌&&◌, ◌||◌, Option, none, some, List, [], ◌∷◌, map,
  leb, ◌==◌, if◌then◌else◌, as_i32, any,
}
use incident_bench.Aggregator.Snapshots.{QueryErrorRecord}

-- The code points of a text.
abbrev codes : String → List ℕ
codes String.[] = []
codes (String.◌∷◌ c s) = code c ∷ codes s

-- `to_ascii_lowercase`.
abbrev lower : ℕ → ℕ
lower c = if leb b'A' c && leb c b'Z' then c + 32 else c

abbrev starts_with : List ℕ → List ℕ → Bool
starts_with s [] = true
starts_with [] (c ∷ cs) = false
starts_with (b ∷ s) (c ∷ cs) = b == c && starts_with s cs

-- `contains`, of a part that is not empty.
abbrev contains_part : List ℕ → List ℕ → Bool
contains_part [] part = false
contains_part (c ∷ s) part = starts_with (c ∷ s) part || contains_part s part

-- One of the parts is in the message, in lower case.
unfoldable pub mentions : String → List String → Bool
mentions message parts =
    any (λ (part : String). contains_part (map lower (codes message)) (codes part)) parts

unfoldable pub is_timeout_error : String → Bool
unfolding mentions
is_timeout_error message = mentions message ("timed out" ∷ "timeout" ∷ "deadline" ∷ [])

unfoldable pub classify_query_error : String → Bool → String
unfolding is_timeout_error mentions
classify_query_error message timed_out =
    if timed_out || is_timeout_error message
    then "timeout"
    else if mentions message ("cancel" ∷ [])
    then "cancelled"
    else if mentions message ("resource" ∷ "oom" ∷ "memory" ∷ "exhaust" ∷ "enhance_your_calm" ∷ [])
    then "resource"
    else if mentions message
        ("sql" ∷ "sqlstate" ∷ "code=" ∷ "syntax" ∷ "parse" ∷ "relation" ∷ "column" ∷ [])
    then "sql"
    else if mentions message
        ("connection" ∷ "connect" ∷ "transport" ∷ "broken pipe" ∷ "connection reset" ∷ [])
    then "connection"
    else if mentions message ("http 5" ∷ "internal" ∷ [])
    then "target_internal"
    else "unknown"

abbrev shortened : Option String → Option String
shortened none = none
shortened (some s) = some (s <> "…")

-- `none` is the panic of a slice that ends inside a character.
unfoldable pub truncate_error_message : String → Option String
truncate_error_message message =
    if leb (len message) 1024 then some message else shortened (get? message 0 1024)

-- What the record of an error takes from the worker, besides the query and the error.
pub record Origin : Type 0 where
  pub phase : String
  pub worker_id : String
  pub worker_index : ℕ
  pub timestamp_ms : ℤ

module _ {F : Type 0} where
  unfoldable pub error_record :
      String → String → Origin → F → Bool → String → Option String → Option (QueryErrorRecord F)
  error_record query_name category o duration timed_out message none = none
  error_record query_name category o duration timed_out message (some cut) = some record {
    query_name = query_name;
    category = category;
    phase = o.phase;
    worker_id = o.worker_id;
    worker_index = as_i32 o.worker_index;
    timestamp_ms = o.timestamp_ms;
    duration_ms = duration;
    timed_out = timed_out;
    error_class = classify_query_error message timed_out;
    message = cut;
  }

  unfoldable pub query_error_record_parts :
      String → String → Origin → F → Bool → String → Option (QueryErrorRecord F)
  unfolding error_record classify_query_error truncate_error_message
  query_error_record_parts query_name category o duration timed_out message =
      error_record query_name category o duration timed_out message (truncate_error_message message)
