-- ===== src/Client/Retries.antt =====
-- The loop of `DoIdempotent` is bounded: by its attempts, and each wait by the longest one allowed.
use release_me.Prelude.{
  ℕ, zero, suc, ◌≤◌, ◌≡◌, ◌≢◌, refl, ap, Bool, true, false, Option, none, List, [], ◌∷◌, All, arith,
  ◌==◌, ltb, Option-cases, Bool-cases, inl, inr, ◌||◌, ok, ok-injective, subst,
}
use release_me.Client.{
  ℤ, Answer, retryable, exceeds, Event, sent, slept, Final, answered, gave_up, wait_too_long,
  interrupted, Outcome, attempts, max_wait, second, wait_for, next_backoff, request_loop,
  do_idempotent, Response, responded, failed, checked, stream_result, stream,
}

-- The number of requests that were sent.
pub count_sent : List Event → ℕ
count_sent [] = 0
count_sent (sent a ∷ es) = suc (count_sent es)
count_sent (slept d ∷ es) = count_sent es

module _ (retry : Answer → Option ℤ) (max : ℕ) where
  -- No wait is longer than the bound.
  abbrev pub Allowed : Event → Type 0
  Allowed (sent a) = Unit
  Allowed (slept d) = exceeds d max ≡ false

  -- What the result says: an answer that is returned may not be repeated, the answer that is given up
  -- may be and is the last of all attempts, and a wait that is refused is too long.
  abbrev pub Explained : ℕ → ℕ → Final → Type 0
  Explained left sends (answered a) = retry a ≡ none
  Explained left sends (gave_up a) = (retry a ≢ none) × (sends ≡ left)
  Explained left sends (wait_too_long a d) = exceeds d max ≡ true
  Explained left sends interrupted = Unit

  pub record Bounded (left : ℕ) (o : Outcome) : Type 0 where
    pub sends : count_sent o.events ≤ left
    pub waits : All Allowed o.events
    pub explained : Explained left (count_sent o.events) o.final

  Explained-later :
      (left sends : ℕ) (f : Final) → Explained left sends f → Explained (suc left) (suc sends) f
  Explained-later left sends (answered a) h = h
  Explained-later left sends (gave_up a) (h, e) = (h, ap suc e)
  Explained-later left sends (wait_too_long a d) h = h
  Explained-later left sends interrupted h = tt

  module _ {W : Type 0} (send : W → Answer × W) (sleep : ℤ → W → Bool × W) where
    request_loop-Bounded :
        (left backoff : ℕ) (w : W) → Bounded left (request_loop send sleep retry max left backoff w)
    unfolding request_loop count_sent
    request_loop-Bounded zero backoff w = record { sends = omega arith; waits = tt; explained = tt }
    request_loop-Bounded (suc left) backoff w =
        let a = (send w).0 in
        let w1 = (send w).1 in
        elim (Option-cases (retry a)) [
          | inl final ↦
              rw (final, request_loop)
                (record { sends = omega arith; waits = (tt, tt); explained = final })
          | inr (wait, again) ↦ elim (Bool-cases (left == 0)) [
            | inl last ↦
                rw (again, last, request_loop)
                  (record {
                    sends = omega arith;
                    waits = (tt, tt);
                    explained = (λ e. cc, ground arith);
                  })
            | inr more ↦
                let d = wait_for send sleep retry max wait backoff in
                elim (Bool-cases (exceeds d max)) [
                  | inl long ↦
                      rw (again, more, long, request_loop)
                        (record { sends = omega arith; waits = (tt, tt); explained = long })
                  | inr short ↦
                      let w2 = (sleep d w1).1 in
                      let r =
                        request_loop-Bounded left (next_backoff send sleep retry max wait backoff)
                          w2 in
                      elim (Bool-cases (sleep d w1).0) [
                        | inl woke ↦
                            rw (again, more, short, woke, request_loop)
                              (record {
                                sends = omega (arith, r.sends);
                                waits = (tt, (short, r.waits));
                                explained = Explained-later left _ _ r.explained;
                              })
                        | inr cut ↦
                            rw (again, more, short, cut, request_loop)
                              (record {
                                sends = omega arith;
                                waits = (tt, (short, tt));
                                explained = tt;
                              })
                      ]
                ]
          ]
        ]

-- `DoIdempotent` sends at most its bound of attempts and never waits longer than its longest
-- wait; an answer that it returns may not be repeated, an answer that it gives up may be and was
-- the last of all attempts, and a wait that it refuses is longer than the longest wait.
pub do_idempotent-Bounded :
    {W : Type 0} (send : W → Answer × W) (sleep : ℤ → W → Bool × W) (until : ℤ → ℤ)
    (max_attempts bound : ℕ) (w : W)
    → Bounded
        (retryable until)
        (max_wait bound)
        (attempts max_attempts)
        (do_idempotent send sleep until max_attempts bound w)
unfolding do_idempotent
do_idempotent-Bounded send sleep until max_attempts bound w =
    request_loop-Bounded (retryable until) (max_wait bound) send sleep (attempts max_attempts)
      second w

checked_lem :
    (a : Answer) (r : Response)
    → checked a ≡ ok r
    → (a ≡ responded r) × (200 ≤ r.status) × (r.status ≤ 299)
checked_lem (failed _ _) r h = cc
checked_lem (responded x) r h = elim (Bool-cases (x.status == 404)) [
  | inl missing ↦ cc (rw missing at h)
  | inr found ↦ elim (Bool-cases (ltb x.status 200 || ltb 299 x.status)) [
    | inl bad ↦ cc (rw (found, bad) at h)
    | inr good ↦
        subst (λ y. (responded x ≡ responded y) × (200 ≤ y.status) × (y.status ≤ 299))
          (ok-injective (rw (found, good) at h)) (refl, ground arith, ground arith)
  ]
]

stream_result-ok :
    (f : Final) (r : Response)
    → stream_result f ≡ ok r
    → (a : Answer) × (f ≡ answered a) × (checked a ≡ ok r)
stream_result-ok (answered a) r h = (a, refl, h)
stream_result-ok (gave_up a) r h = cc
stream_result-ok (wait_too_long a d) r h = cc
stream_result-ok interrupted r h = cc

-- If `Stream` returns a response, its status is from 200 to 299 and may not be repeated, at most
-- the bound of attempts were sent, and no wait was longer than the longest wait.
pub stream_sound :
    {W : Type 0} (send : W → Answer × W) (sleep : ℤ → W → Bool × W) (until : ℤ → ℤ)
    (max_attempts bound : ℕ) (w : W) (r : Response)
    → (stream send sleep until max_attempts bound w).0 ≡ ok r
    → (200 ≤ r.status)
      × (r.status ≤ 299)
      × (retryable until (responded r) ≡ none)
      × (count_sent (stream send sleep until max_attempts bound w).1 ≤ attempts max_attempts)
      × All
          (Allowed (retryable until) (max_wait bound))
          (stream send sleep until max_attempts bound w).1
unfolding stream
stream_sound send sleep until max_attempts bound w r h =
    let o =
      request_loop send sleep (retryable until) (max_wait bound) (attempts max_attempts) second w in
    let b =
      request_loop-Bounded (retryable until) (max_wait bound) send sleep (attempts max_attempts)
        second w in
    let (a, e, k) = stream_result-ok o.final r h in
    let (same, low, high) = checked_lem a r k in
    let last : retryable until a ≡ none =
      subst
        (Explained (retryable until) (max_wait bound) (attempts max_attempts) (count_sent o.events))
        e b.explained in
    (low, high, subst (λ x. retryable until x ≡ none) same last, b.sends, b.waits)
