-- ===== src/Publish/Log.antt =====
-- What a step of a run adds to the record of its calls, and that the memo of verified assets stays
-- backed by downloads in that record: one rule for each way to build a step.
use release_me.Prelude.{
  ◌+◌, ◌<◌, take, length, ||-eq-false, Any, Any-append_right, ℕ, ◌≡◌, inr, refl, sym, ap, ◌∙◌,
  subst, Bool, true, false, List, [], ◌∷◌, ◌++◌, append_assoc, All, All-append, All-map_of,
  if◌then◌else◌, Bytes, Result, ok, err,
}
use release_me.Host.{
  HostError, Stream, Event, asset_opened, is_write, is_listing, unsettles, is_publish, limits_read,
  tag_read, release_found, releases_listed, draft_created, assets_listed, asset_uploaded,
  asset_deleted, published, release_deleted,
}
use release_me.Publish.Types.{Env, State, PublishError}
use release_me.Publish.Exec.{Exec, pure, raise, call, must, modify, gets, fail_if, continue, ◌>>=◌}

module _ {W : Type 0} (env : Env W) where
  -- The answer's bytes, cut behind the first byte that is too many for the size, hash to `sum`, and the
  -- connection does not break before that.
  abbrev pub HashesTo : ℕ → Bytes → Result HostError Stream → Type 0
  HashesTo size sum (err _) = ⊥
  HashesTo size sum (ok st) =
      (env.sha256 (take (size + 1) st.content) ≡ sum)
      × (st.broken ≡ true → size < length st.content)

  -- The call is a download of the asset `id` whose bytes hash to `sum`.
  abbrev pub Backs : ℕ → Bytes → Event → Type 0
  Backs id sum (asset_opened rel a r) = (a.id ≡ id) × HashesTo a.size sum r
  Backs id sum _ = ⊥

  -- Some call of the record is such a download.
  abbrev pub Fetched : ℕ → Bytes → List Event → Type 0
  Fetched id sum log = Any (Backs id sum) log

  -- Each entry of `o.verified` is backed by a download of this run.
  abbrev pub Memo : State W → Type 0
  Memo s = All (λ v. Fetched v.0 v.1 s.log) s.verified

  -- From `s` to `t` only calls are made for which the test `p` is false.
  pub record Grows (p : Event → Bool) (s t : State W) : Type 0 where
    pub events : List Event
    pub extends : t.log ≡ events ++ s.log
    pub clean : All (λ e. p e ≡ false) events
    pub memo : Memo s → Memo t

  pub Grows-refl : (p : Event → Bool) (s : State W) → Grows p s s
  Grows-refl p s = record { events = []; extends = refl; clean = tt; memo = λ m. m }

  pub Grows-trans : (p : Event → Bool) {s t u : State W} → Grows p s t → Grows p t u → Grows p s u
  Grows-trans p {s} {t} {u} g h = record {
    events = h.events ++ g.events;
    extends =
        h.extends ∙ ap (λ l. h.events ++ l) g.extends ∙ sym (append_assoc h.events g.events s.log);
    clean = All-append _ h.events g.events h.clean g.clean;
    memo = λ m. h.memo (g.memo m);
  }

  -- A step that makes no call of some kind makes none of a part of that kind.
  pub Grows-imp :
      {p q : Event → Bool} {s t : State W}
      → ((e : Event) → p e ≡ false → q e ≡ false)
      → Grows p s t
      → Grows q s t
  Grows-imp imp g = record {
    events = g.events;
    extends = g.extends;
    clean = All-map_of imp g.events g.clean;
    memo = g.memo;
  }

  -- Downloads stay in the record.
  pub Grows-Fetched :
      (p : Event → Bool) {s t : State W} (id : ℕ) (sum : Bytes)
      → Grows p s t
      → Fetched id sum s.log
      → Fetched id sum t.log
  Grows-Fetched p {s} id sum g f =
      subst (Fetched id sum) (sym g.extends) (Any-append_right (Backs id sum) g.events s.log f)

  Memo-longer :
      (vs : List (ℕ × Bytes)) (e : Event) (log : List Event)
      → All (λ v. Fetched v.0 v.1 log) vs
      → All (λ v. Fetched v.0 v.1 (e ∷ log)) vs
  Memo-longer vs e log = All-map_of (λ v h. inr h) vs

  -- Whatever it returns, the step makes only calls for which `p` is false.
  pub record Quiet {A : Type 0} (p : Event → Bool) (m : Exec W A) : Type 0 where
    pub at : (s : State W) → Grows p s (m s).1

  pub Quiet-imp :
      {A : Type 0} {p q : Event → Bool} {m : Exec W A}
      → ((e : Event) → p e ≡ false → q e ≡ false)
      → Quiet p m
      → Quiet q m
  Quiet-imp imp k = record { at = λ s. Grows-imp imp (k.at s) }

  module _ {A : Type 0} {p : Event → Bool} where
    pub Quiet-pure : (a : A) → Quiet p (pure a)
    unfolding pure
    Quiet-pure a = record { at = Grows-refl p }

    pub Quiet-raise : (e : PublishError) → Quiet p (raise {A = A} e)
    unfolding raise
    Quiet-raise e = record { at = Grows-refl p }

    pub Quiet-must :
        (wrap : HostError → PublishError) (r : Result HostError A) → Quiet p (must {W = W} wrap r)
    unfolding must
    Quiet-must wrap (ok a) = record { at = Grows-refl p }
    Quiet-must wrap (err e) = record { at = Grows-refl p }

    pub Quiet-gets : (f : State W → A) → Quiet p (gets f)
    unfolding gets
    Quiet-gets f = record { at = Grows-refl p }

    pub Quiet-call :
        (op : W → Result HostError A × W) (event : Result HostError A → Event)
        → ((r : Result HostError A) → p (event r) ≡ false)
        → Quiet p (call op event)
    unfolding call
    Quiet-call op event h = record {
      at = λ s.
          let (r, w) = op s.world in
          record {
            events = event r ∷ [];
            extends = refl;
            clean = (h r, tt);
            memo = Memo-longer s.verified (event r) s.log;
          };
    }

    pub Quiet-if :
        (b : Bool) (m n : Exec W A) → Quiet p m → Quiet p n → Quiet p (if b then m else n)
    Quiet-if true m n km kn = km
    Quiet-if false m n km kn = kn

  module _ {p : Event → Bool} where
    pub Quiet-fail_if : (b : Bool) (e : PublishError) → Quiet p (fail_if b e)
    unfolding fail_if
    Quiet-fail_if true e = record { at = Grows-refl p }
    Quiet-fail_if false e = record { at = Grows-refl p }

    -- A write that leaves the record and the memo alone.
    pub Quiet-modify :
        (f : State W → State W)
        → ((s : State W) → ((f s).log ≡ s.log) × ((f s).verified ≡ s.verified))
        → Quiet p (modify f)
    unfolding modify
    Quiet-modify f h = record {
      at = λ s. record {
        events = [];
        extends = (h s).0;
        clean = tt;
        memo = λ m. rw ((h s).0, (h s).1) m;
      };
    }

  module _ {A B : Type 0} {p : Event → Bool} where
    Quiet-continue :
        (r : Result PublishError A) (f : A → Exec W B) (s : State W)
        → ((a : A) → Quiet p (f a))
        → Grows p s (continue r f s).1
    Quiet-continue (ok a) f s h = (h a).at s
    Quiet-continue (err e) f s h = Grows-refl p s

    pub Quiet-bind :
        (m : Exec W A) (f : A → Exec W B)
        → Quiet p m
        → ((a : A) → Quiet p (f a))
        → Quiet p (m >>= f)
    unfolding ◌>>=◌
    Quiet-bind m f km kf = record {
      at = λ s. Grows-trans p (km.at s) (Quiet-continue (m s).0 f (m s).1 kf);
    }

-- What leaves a listing the last word writes nothing.
pub write-unsettles : (e : Event) → unsettles e ≡ false → is_write e ≡ false
write-unsettles e h = (||-eq-false (is_write e) (is_listing e) h).0

module _ {W : Type 0} (env : Env W) where
  pub Grows-read : {s t : State W} → Grows env unsettles s t → Grows env is_write s t
  Grows-read = Grows-imp env write-unsettles

  pub Quiet-read : {A : Type 0} {m : Exec W A} → Quiet env unsettles m → Quiet env is_write m
  Quiet-read = Quiet-imp env write-unsettles

-- A step that writes nothing does not publish.
pub publish-write : (e : Event) → is_write e ≡ false → is_publish e ≡ false
publish-write (limits_read _) h = refl
publish-write (tag_read _ _) h = refl
publish-write (release_found _ _) h = refl
publish-write (releases_listed _) h = refl
publish-write (draft_created _ _) h = refl
publish-write (assets_listed _ _) h = refl
publish-write (asset_uploaded _ _ _) h = refl
publish-write (asset_deleted _ _ _) h = refl
publish-write (asset_opened _ _ _) h = refl
publish-write (published _ _ _) h = cc
publish-write (release_deleted _ _) h = refl
