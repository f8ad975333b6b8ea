-- ===== src/ResponseStore/Model.antt =====
-- src/response_store/model.rs, the rows of the tables, and the encodings of
-- src/response_store/sqlite.rs.
use kiro_gateway.Common.{ℕ, ◌*◌, ◌/◌, List, [], Option, none, some, if◌then◌else◌, leb, ◌++◌}
use kiro_gateway.Common.Text.{Text, codes, text_eq}
use kiro_gateway.Common.Json.{Value, str, obj, JsonCodec, insert, remove, lookup}
use kiro_gateway.Common.Result.{Result, ok, err, map_err}
use kiro_gateway.Common.Dict.{Dict}
use kiro_gateway.Error.{AppError, storage}

pub data ResponseStatus : Type 0 where
  in_progress completed incomplete failed : ResponseStatus

-- `DateTime<Utc>`, by its nanoseconds since 1970.
abbrev pub DateTime : Type 0
DateTime = ℕ

-- What the clock says during a transaction: first, and when the event of a number is written.
pub record Times : Type 0 where
  pub now : DateTime
  pub written : ℕ → DateTime

pub record ResponseRecord : Type 0 where
  pub id : Text
  pub object : Text
  pub status : ResponseStatus
  pub model : Text
  pub payload : Value
  pub created_at : DateTime
  pub updated_at : DateTime

pub record ResponseEvent : Type 0 where
  pub response_id : Text
  pub sequence_number : ℕ
  pub event_type : Text
  pub payload : Value
  pub created_at : DateTime

-- A row of `responses` behind its key; times are in seconds.
pub record ResponseRow : Type 0 where
  pub object : Text
  pub status : Text
  pub model : Text
  pub created_at : ℕ
  pub updated_at : ℕ

-- A row of `response_events`, but for its automatic number, which nothing reads.
pub record EventRow : Type 0 where
  pub response_id : Text
  pub sequence_number : ℕ
  pub event_type : Text
  pub payload : Text
  pub created_at : ℕ

pub record Database : Type 0 where
  pub responses : Dict ResponseRow
  pub requests : Dict Text
  pub snapshots : Dict Text
  pub events : List EventRow

abbrev pub empty_database : Database
empty_database = record { responses = []; requests = []; snapshots = []; events = [] }

-- `DateTime::timestamp` and `DateTime::from_timestamp`, whose last second is that of the year
-- 262142.
abbrev pub seconds : DateTime → ℕ
seconds t = t / 1_000_000_000

unfoldable pub timestamp : ℕ → Result DateTime AppError
timestamp s =
    if leb s 8_210_266_876_799
    then ok (s * 1_000_000_000)
    else err (storage (codes "invalid stored response timestamp"))

abbrev pub status_name : ResponseStatus → Text
status_name in_progress = codes "in_progress"
status_name completed = codes "completed"
status_name incomplete = codes "incomplete"
status_name failed = codes "failed"

unfoldable pub status_of_name : Text → Result ResponseStatus AppError
unfolding text_eq
status_of_name s =
    if text_eq s (codes "in_progress")
    then ok in_progress
    else if text_eq s (codes "completed")
    then ok completed
    else if text_eq s (codes "incomplete")
    then ok incomplete
    else if text_eq s (codes "failed")
    then ok failed
    else err (storage (codes "invalid stored response status: " ++ s))

unfoldable pub encode_status : JsonCodec → ResponseStatus → Text
encode_status codec s = codec.to_string (str (status_name s))

-- The text after the colon is the JSON library's; here it is the text that was read.
unfoldable pub decode_status : JsonCodec → Text → Result ResponseStatus AppError
unfolding status_of_name
decode_status codec t = elim (codec.from_str t) [
  | ok (str s) ↦ status_of_name s
  | _ ↦ err (storage (codes "invalid stored response status: " ++ t))
]

unfoldable pub decode_json : JsonCodec → Text → Text → Result Value AppError
decode_json codec value label =
    map_err (λ e. storage (codes "invalid stored " ++ label ++ codes ": " ++ e))
      (codec.from_str value)

unfoldable pub split_payload : Value → Value × Option Value
unfolding lookup remove
split_payload (obj fs) = (obj (remove (codes "response") fs), lookup (codes "response") fs)
split_payload v = (v, none)

unfoldable pub join_payload : Value → Option Value → Value
unfolding insert
join_payload (obj fs) (some snapshot) = obj (insert (codes "response") snapshot fs)
join_payload v _ = v
