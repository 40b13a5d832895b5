-- ===== src/Samples/Requests.antt =====
-- A server that answers twice with an error that may pass, and instances of the theorems on the client.
use release_me.Prelude.{
  ℕ, zero, suc, ◌*◌, ◌≤◌, ◌≡◌, refl, Bool, true, none, [], ◌∷◌, All, codes, ok,
}
use release_me.Client.{
  ℤ, pos, Response, Answer, responded, second, attempts, max_wait, sent, slept, retryable,
  request_loop, do_idempotent, stream,
}
use release_me.Client.Retries.{count_sent, Allowed, Bounded, do_idempotent-Bounded, stream_sound}

abbrev reply : ℕ → Response
reply status = record {
  status = status;
  text = [];
  remaining = [];
  retry_after = codes "7";
  reset = [];
}

-- The state is the number of errors that are left.
abbrev send : ℕ → Answer × ℕ
send zero = (responded (reply 200), zero)
send (suc zero) = (responded (reply 429), zero)
send (suc (suc n)) = (responded (reply 503), suc n)

abbrev sleep : ℤ → ℕ → Bool × ℕ
sleep d n = (true, n)

abbrev until : ℤ → ℤ
until at = pos 0

streamed : (stream send sleep until 0 0 2).0 ≡ ok (reply 200)
unfolding stream request_loop retryable
streamed = refl

-- The backoff of one second, and the seven seconds that the server asks for.
waited :
    (stream send sleep until 0 0 2).1
    ≡ sent (responded (reply 503))
      ∷ slept (pos second)
      ∷ sent (responded (reply 429))
      ∷ slept (pos (7 * second))
      ∷ sent (responded (reply 200))
      ∷ []
unfolding stream request_loop retryable
waited = refl

do_idempotent-Bounded_example :
    Bounded (retryable until) (max_wait 0) (attempts 3) (do_idempotent send sleep until 3 0 4)
do_idempotent-Bounded_example = do_idempotent-Bounded send sleep until 3 0 4

stream_sound_example :
    (200 ≤ 200)
    × (200 ≤ 299)
    × (retryable until (responded (reply 200)) ≡ none)
    × (count_sent (stream send sleep until 0 0 2).1 ≤ 5)
    × All (Allowed (retryable until) (max_wait 0)) (stream send sleep until 0 0 2).1
stream_sound_example = stream_sound send sleep until 0 0 2 (reply 200) streamed
