-- ===== src/Queue/Headers.antt =====
-- The message headers of queue.go: headerAttempt, safeCause, shouldPreserveAttempt.
use xg_mangement.Base.{
  ℕ, suc, ◌+◌, ◌-◌, ◌*◌, Bool, true, false, ◌&&◌, Option, none, some, List, [], ◌∷◌, String, ltb,
  leb, ◌==◌, if◌then◌else◌, ℤ, pos, negsuc, lookup, take, utf8, trim_space, signed_word,
}
use xg_mangement.Errors.{GoError, HandlerError, as_handler, error_text}

-- The values of an amqp091.Table that this code reads or writes. A text is its bytes.
pub data HeaderValue : Type 0 where
  int32 int64 int : ℤ → HeaderValue
  text : List ℕ → HeaderValue
  flag : Bool → HeaderValue
  other : HeaderValue

abbrev pub Headers : Type 0
Headers = List (String × HeaderValue)

abbrev pub attempt_header : String
attempt_header = "x-xg-attempt"

abbrev pub preserve_attempt_header : String
preserve_attempt_header = "x-xg-preserve-attempt"

abbrev pub last_error_header : String
last_error_header = "x-xg-last-error"

abbrev max_int : ℕ
max_int = 9223372036854775807

atoi_digits : ℕ → List ℕ → Option ℕ
atoi_digits acc [] = some acc
atoi_digits acc (c ∷ s) =
    let rest = atoi_digits (acc * 10 + (c - 48)) s in if leb 48 c && leb c 57 then rest else none

unsigned : List ℕ → Option ℕ
unfolding atoi_digits
unsigned [] = none
unsigned (c ∷ s) = atoi_digits 0 (c ∷ s)

abbrev positive : Option ℕ → ℤ × Bool
positive none = (pos 0, false)
positive (some n) = if leb n max_int then (pos n, true) else (pos max_int, false)

abbrev negative : Option ℕ → ℤ × Bool
negative none = (pos 0, false)
negative (some n) =
    if n == 0
    then (pos 0, true)
    else if leb n (suc max_int)
    then (negsuc (n - 1), true)
    else (negsuc max_int, false)

-- strconv.Atoi on 64 bits: the value, and whether the error is nil
unfoldable pub atoi : List ℕ → ℤ × Bool
unfolding unsigned
atoi [] = (pos 0, false)
atoi (c ∷ s) =
    if c == b'-'
    then negative (unsigned s)
    else if c == b'+'
    then positive (unsigned s)
    else positive (unsigned (c ∷ s))

-- max(1, n)
abbrev pub at_least_one : ℤ → ℕ
at_least_one (pos n) = if ltb 1 n then n else 1
at_least_one (negsuc _) = 1

abbrev attempt_of : Option HeaderValue → ℕ
attempt_of (some (int32 z)) = at_least_one z
attempt_of (some (int64 z)) = at_least_one z
attempt_of (some (int z)) = at_least_one z
attempt_of (some (text s)) = at_least_one (atoi s).0
attempt_of _ = 1

-- A nil table and an empty one read the same.
unfoldable pub header_attempt : Headers → ℕ
header_attempt headers = attempt_of (lookup attempt_header headers)

-- the conversion int32(n) of a non-negative int
abbrev pub to_int32 : ℕ → ℤ
to_int32 n = signed_word 2147483648 n

-- `nil` is `none`; the cut at 256 counts bytes
unfoldable pub safe_cause : Option GoError → List ℕ
safe_cause none = []
safe_cause (some e) = take 256 (utf8 (trim_space (error_text e)))

abbrev preserves : Option HandlerError → Bool
preserves none = false
preserves (some h) = h.preserve_attempt

-- Only *HandlerError has the method PreserveQueueAttempt.
unfoldable pub should_preserve_attempt : GoError → Bool
should_preserve_attempt e = preserves (as_handler e)
