-- ===== src/Client.antt =====
-- internal/host/client.go: what may be repeated, and the loop of the requests that are. Sending a
-- request and sleeping are parameters, on a state of any type. The child bounds the loop.
pub mod Retries
use release_me.Host.{HostError, not_found, status, other, local_failure}
use release_me.Prelude.{
  ℕ, zero, suc, ◌+◌, ◌-◌, ◌*◌, ◌/◌, ◌%◌, ◌^◌, Bool, true, false, not, ◌&&◌, ◌||◌, Option, none,
  some, List, [], ◌∷◌, ltb, leb, ◌==◌, if◌then◌else◌, is_empty, Bytes, codes, bytes_eq, is_decimal,
  value, Result, ok, err,
}

-- An int64, as a duration in nanoseconds or as a number of seconds.
pub data ℤ : Type 0 where
  pos : ℕ → ℤ
  negsuc : ℕ → ℤ

abbrev pub second : ℕ
second = 1000000000

-- The value that 64 bits keep.
abbrev wrap_bits : ℕ → ℤ
wrap_bits n = if ltb n (2 ^ 63) then pos n else negsuc (2 ^ 64 - suc n)

-- `time.Duration(secs) * time.Second`
abbrev pub in_seconds : ℤ → ℤ
in_seconds (pos n) = wrap_bits ((n * second) % 2 ^ 64)
in_seconds (negsuc n) = wrap_bits ((2 ^ 64 - (suc n * second) % 2 ^ 64) % 2 ^ 64)

abbrev negated : ℕ → ℤ
negated zero = pos 0
negated (suc n) = negsuc n

abbrev unsigned_within : ℕ → Bytes → Option ℕ
unsigned_within limit s = if is_decimal s && leb (value 0 s) limit then some (value 0 s) else none

abbrev map_int : (ℕ → ℤ) → Option ℕ → Option ℤ
map_int f none = none
map_int f (some n) = some (f n)

-- `strconv.Atoi` and `strconv.ParseInt(s, 10, 64)`
abbrev pub parse_int : Bytes → Option ℤ
parse_int [] = none
parse_int (c ∷ s) =
    if c == b'-'
    then map_int negated (unsigned_within (2 ^ 63) s)
    else if c == b'+'
    then map_int pos (unsigned_within (2 ^ 63 - 1) s)
    else map_int pos (unsigned_within (2 ^ 63 - 1) (c ∷ s))

-- The status, the text of the `APIError` that it makes, and the three headers that the code reads.
pub record Response : Type 0 where
  pub status : ℕ
  pub text : Bytes
  pub remaining : Bytes
  pub retry_after : Bytes
  pub reset : Bytes

-- The outcome of one attempt: an error with its text, of the network (or an unexpected end) or
-- another, or a response.
pub data Answer : Type 0 where
  failed : Bool → Bytes → Answer
  responded : Response → Answer

-- `if header != "" { if secs, err := …; err == nil { … } }`
abbrev header_int : Bytes → Option ℤ
header_int s = if is_empty s then none else parse_int s

module _ (until : ℤ → ℤ) where
  abbrev reset_wait : Option ℤ → ℤ
  reset_wait none = pos (30 * second)
  reset_wait (some at) = until at

  abbrev limited_wait : Option ℤ → Bytes → ℤ
  limited_wait (some secs) reset = in_seconds secs
  limited_wait none reset = reset_wait (header_int reset)

  -- `retryable`: the wait before another attempt, or none. `until` is the time until a Unix second and
  -- one second more.
  unfoldable pub retryable : Answer → Option ℤ
  retryable (failed temporary _) = if temporary then some (pos 0) else none
  retryable (responded r) =
      if leb 500 r.status
      then some (pos 0)
      else if r.status == 429 || r.status == 403 && bytes_eq r.remaining (codes "0")
      then some (limited_wait (header_int r.retry_after) r.reset)
      else none

abbrev pub is_zero : ℤ → Bool
is_zero (pos n) = n == 0
is_zero (negsuc n) = false

-- `wait > max`
abbrev pub exceeds : ℤ → ℕ → Bool
exceeds (pos n) max = ltb max n
exceeds (negsuc n) max = false

pub data Event : Type 0 where
  sent : Answer → Event
  slept : ℤ → Event

pub data Final : Type 0 where
  answered : Answer → Final
  gave_up : Answer → Final
  wait_too_long : Answer → ℤ → Final
  interrupted : Final

-- What a request comes to, and what was done for it, in order.
pub record Outcome : Type 0 where
  pub final : Final
  pub events : List Event

-- `attempts` and `maxWait`; a bound below zero acts as 0.
abbrev pub attempts : ℕ → ℕ
attempts bound = if bound == 0 then 5 else bound

abbrev pub max_wait : ℕ → ℕ
max_wait bound = if bound == 0 then 120 * second else bound

module _ {W : Type 0} (send : W → Answer × W) (sleep : ℤ → W → Bool × W) (retry : Answer → Option ℤ)
    (max : ℕ) where
  -- The waits: the backoff stands for a wait of 0, and doubles then.
  abbrev pub wait_for : ℤ → ℕ → ℤ
  wait_for wait backoff = if is_zero wait then pos backoff else wait

  abbrev pub next_backoff : ℤ → ℕ → ℕ
  next_backoff wait backoff = if is_zero wait then backoff * 2 else backoff

  -- The loop of `DoIdempotent`; the first argument is the number of attempts that are left.
  unfoldable pub request_loop : ℕ → ℕ → W → Outcome
  request_loop zero backoff w = record { final = interrupted; events = [] }
  request_loop (suc left) backoff w =
      let (a, w1) = send w in
      elim (retry a) [
        | none ↦ record { final = answered a; events = sent a ∷ [] }
        | some wait ↦
            if left == 0
            then record { final = gave_up a; events = sent a ∷ [] }
            else if exceeds (wait_for wait backoff) max
            then record { final = wait_too_long a (wait_for wait backoff); events = sent a ∷ [] }
            else let (woke, w2) = sleep (wait_for wait backoff) w1 in
              let rest = request_loop left (next_backoff wait backoff) w2 in
              if woke
              then record {
                final = rest.final;
                events = sent a ∷ slept (wait_for wait backoff) ∷ rest.events;
              }
              else record {
                final = interrupted;
                events = sent a ∷ slept (wait_for wait backoff) ∷ [];
              }
      ]

-- `DoIdempotent`, with the bounds of the client.
unfoldable pub do_idempotent :
    {W : Type 0} → (W → Answer × W) → (ℤ → W → Bool × W) → (ℤ → ℤ) → ℕ → ℕ → W → Outcome
do_idempotent send sleep until max_attempts bound w =
    request_loop send sleep (retryable until) (max_wait bound) (attempts max_attempts) second w

-- `readError`
abbrev pub error_of : Answer → HostError
error_of (failed _ text) = other text
error_of (responded r) = status r.status r.text

-- What `decode` and `Stream` make of the status of a response that is returned.
abbrev pub checked : Answer → Result HostError Response
checked (failed _ text) = err (other text)
checked (responded r) =
    if r.status == 404
    then err not_found
    else if ltb r.status 200 || ltb 299 r.status
    then err (status r.status r.text)
    else ok r

abbrev pub stream_result : Final → Result HostError Response
stream_result (answered a) = checked a
stream_result (gave_up a) = err (error_of a)
stream_result (wait_too_long a _) = err (error_of a)
stream_result interrupted = err local_failure

-- `Stream`: the response with its body, and what was done for it.
unfoldable pub stream :
    {W : Type 0}
    → (W → Answer × W)
    → (ℤ → W → Bool × W)
    → (ℤ → ℤ)
    → ℕ
    → ℕ
    → W
    → Result HostError Response × List Event
stream send sleep until max_attempts bound w =
    let o =
      request_loop send sleep (retryable until) (max_wait bound) (attempts max_attempts) second w in
    (stream_result o.final, o.events)

-- `PostJSON`: one attempt, whatever comes.
unfoldable pub post_json :
    {W : Type 0} → (W → Answer × W) → W → Result HostError Response × List Event
post_json send w = let (a, w1) = send w in (checked a, sent a ∷ [])
