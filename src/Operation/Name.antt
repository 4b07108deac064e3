-- ===== src/Operation/Name.antt =====
-- The names of operations: `operationName` and `parseOperationName`.
pub mod Roundtrip
use salience.Base.{
  ℕ, zero, suc, ◌-◌, Text, codes, text_eq, List, [], ◌∷◌, ◌++◌, Bool, true, false, ◌&&◌, Option,
  none, some, leb, length, every, if◌then◌else◌,
}
use salience.Json.Print.{decimal}
use salience.Semver.{is_digit, split_first}
use salience.Semver.Numbers.{number}

pub data OperationKind : Type 0 where
  reserved pending committed fenced cancelled : OperationKind

unfoldable pub kind_text : OperationKind → Text
kind_text reserved = codes "reserved"
kind_text pending = codes "pending"
kind_text committed = codes "committed"
kind_text fenced = codes "fenced"
kind_text cancelled = codes "cancelled"

abbrev pub zeros : ℕ → Text
zeros zero = []
zeros (suc n) = b'0' ∷ zeros n

-- `text.padStart(20, '0')`
abbrev pub padded : Text → Text
padded t = zeros (20 - length t) ++ t

-- `operationName`, of a kind or the word `claim`.
unfoldable pub operation_name : Text → ℕ → Text
operation_name kind generation = kind ++ (b'-' ∷ padded (decimal generation))

abbrev pub kind_of : Text → Option OperationKind
kind_of t =
    if text_eq t (codes "reserved")
    then some reserved
    else if text_eq t (codes "pending")
    then some pending
    else if text_eq t (codes "committed")
    then some committed
    else if text_eq t (codes "fenced")
    then some fenced
    else if text_eq t (codes "cancelled")
    then some cancelled
    else none

abbrev pub is_generation : Text → Bool
is_generation t = leb 1 (length t) && leb (length t) 20 && every is_digit t

abbrev pub operation_of : Option OperationKind → Option Text → Option (OperationKind × ℕ)
operation_of none digits = none
operation_of (some kind) none = none
operation_of (some kind) (some digits) =
    if is_generation digits then some (kind, number digits) else none

-- `parseOperationName`; no kind has a dash.
unfoldable pub parse_operation_name : Text → Option (OperationKind × ℕ)
parse_operation_name name =
    let parts = split_first b'-' name in operation_of (kind_of parts.0) parts.1
