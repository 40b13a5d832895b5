-- ===== src/Publish/Preflight.antt =====
-- What `Run` has checked before it changes anything: the limits and the tag on the platform.
use release_me.Prelude.{
  ◌<◌, ◌≤◌, ◌≡◌, ◌↔◌, ◌⊎◌, inl, inr, refl, ap, ◌∙◌, subst, Bool, true, false, not, ◌&&◌, ◌||◌,
  Option, none, some, List, [], ◌∷◌, All, arith, ltb, length, is_empty, bytes_eq, bytes_eq_iff,
  Result, ok, err, Bool-cases,
}
use release_me.Host.{Limits, Event, is_write, limits_read, tag_read, release_found}
use release_me.Publish.Types.{
  Env, State, Options, LocalAsset, PublishError, limits_unknown, no_tag, tag_moved, options_missing,
}
use release_me.Publish.Exec.{
  Exec, pure, raise, call, must, fail_if, ◌>>=◌, bind-ok, must-ok, fail_if-ok,
}
use release_me.Publish.Run.{
  Outcome, size_error, limit_error, raise_some, with_existing, preflight, run,
}
use release_me.Publish.Log.{Grows, Grows-refl, Quiet-call}
use release_me.Publish.Quiet.{preflight-Quiet}
use release_me.Publish.Final.{Seen, call-ok, Grows-Seen}

-- The assets are within the limits, where 0 is no limit.
pub record WithinLimits (limits : Limits) (assets : List LocalAsset) : Type 0 where
  pub count : 0 < limits.max_assets → length assets ≤ limits.max_assets
  pub sizes : All (λ a. 0 < limits.max_asset_size → a.size ≤ limits.max_asset_size) assets

size_error_iff :
    (limits : Limits) (assets : List LocalAsset)
    → (size_error limits assets ≡ none)
      ↔ All (λ a. 0 < limits.max_asset_size → a.size ≤ limits.max_asset_size) assets
unfolding size_error
size_error_iff limits [] = (λ _. tt, λ _. refl)
size_error_iff limits (a ∷ as_) = ground (arith, size_error_iff limits as_)

pub limit_error_iff :
    (limits : Limits) (assets : List LocalAsset)
    → (limit_error limits assets ≡ none) ↔ WithinLimits limits assets
unfolding limit_error
limit_error_iff limits assets =
    elim (Bool-cases (ltb 0 limits.max_assets && ltb limits.max_assets (length assets))) [
      | inl many ↦ rw many (λ h. cc, λ w. ground (arith, w.count))
      | inr few ↦ rw few (
        λ h. record { count = ground arith; sizes = (size_error_iff limits assets).0 h },
        λ w. (size_error_iff limits assets).1 w.sizes,
      )
    ]

module _ {W : Type 0} (env : Env W) (o : Options) (assets : List LocalAsset) where
  -- The platform answered with limits that the assets keep, and with the commit for the tag.
  pub record Passed (log : List Event) : Type 0 where
    pub limits : Limits
    pub limits_seen : Seen (limits_read (ok limits)) log
    pub within : WithinLimits limits assets
    pub tag_seen : Seen (tag_read o.tag (ok o.commit)) log

  raise_some-ok :
      (e : Option PublishError) (s : State W) {x : Unit {0}}
      → (raise_some env o e s).0 ≡ ok x
      → (e ≡ none) × ((raise_some env o e s).1 ≡ s)
  unfolding raise_some pure raise
  raise_some-ok none s h = (refl, refl)
  raise_some-ok (some e) s h = cc

  preflight-ok :
      (s : State W) {x : Unit {0}}
      → (preflight env o assets s).0 ≡ ok x
      → Passed (preflight env o assets s).1.log
  unfolding preflight
  preflight-ok s h =
      let op = env.host.limits in
      let (l, e1, q1) = bind-ok (call op limits_read) _ s h in
      let s1 : State W = (call op limits_read s).1 in
      let h1 = rw q1 at h in
      let (limits, e2, q2) = bind-ok (must limits_unknown l) _ s1 h1 in
      let (e2', st2) = must-ok limits_unknown l s1 e2 in
      let h2 = rw (q2, st2) at h1 in
      let (u, e3, q3) = bind-ok (raise_some env o (limit_error limits assets)) _ s1 h2 in
      let (e3', st3) = raise_some-ok (limit_error limits assets) s1 e3 in
      let h3 = rw (q3, st3) at h2 in
      let tag = env.host.tag_commit o.tag in
      let (t, e4, q4) = bind-ok (call tag (tag_read o.tag)) _ s1 h3 in
      let s4 : State W = (call tag (tag_read o.tag) s1).1 in
      let g4 = (Quiet-call env {p = is_write} tag (tag_read o.tag) (λ r. refl)).at s1 in
      let h4 = rw q4 at h3 in
      let (remote, e5, q5) = bind-ok (must no_tag t) _ s4 h4 in
      let (e5', st5) = must-ok no_tag t s4 e5 in
      let h5 = rw (q5, st5) at h4 in
      let (e6, st6) = fail_if-ok (not (bytes_eq remote o.commit)) (tag_moved remote) s4 h5 in
      let same : remote ≡ o.commit = (bytes_eq_iff remote o.commit).0 (ground arith) in
      let seen = subst (λ x. Seen (limits_read x) s1.log) e2' (call-ok env op limits_read s e1) in
      let tag_seen =
        subst (λ x. Seen (tag_read o.tag x) s4.log) (e5' ∙ ap ok same)
          (call-ok env tag (tag_read o.tag) s1 e4) in
      rw (q1, q2, st2, q3, st3, q4, q5, st5, st6)
        (record {
          limits = limits;
          limits_seen = Grows-Seen env (limits_read (ok limits)) {s = s1} {t = s4} g4 seen;
          within = (limit_error_iff limits assets).0 e3';
          tag_seen = tag_seen;
        })

  -- The rest of `Run`, behind the preflight.
  abbrev rest : Exec W Outcome
  rest = call (env.host.find_release o.tag) (release_found o.tag) >>= with_existing env o assets

  -- The step only reads, or it passes the checks, reading only, and goes on with the rest.
  abbrev pub ChecksFirst : Exec W Outcome → State W → Type 0
  ChecksFirst m s =
      Grows env is_write s (m s).1
      ⊎ ((mid : State W) × Grows env is_write s mid × Passed mid.log × (m s ≡ rest mid))

  preflight_first-by :
      (s : State W) (r : Result PublishError (Unit {0}))
      → (preflight env o assets s).0 ≡ r
      → ChecksFirst (preflight env o assets >>= λ _. rest) s
  unfolding ◌>>=◌
  preflight_first-by s (err e) h = inl (rw h ((preflight-Quiet env o assets).at s))
  preflight_first-by s (ok u) h = inr (
    (preflight env o assets s).1,
    (preflight-Quiet env o assets).at s,
    preflight-ok s h,
    rw h refl,
  )

  options_first :
      (b : Bool) (s : State W)
      → ChecksFirst (fail_if b options_missing >>= λ _. preflight env o assets >>= λ _. rest) s
  unfolding fail_if ◌>>=◌
  options_first true s = inl (Grows-refl env is_write s)
  options_first false s = preflight_first-by s (preflight env o assets s).0 refl

  -- A run makes no call that writes, or it first reads, without a write, limits that the local
  -- assets keep and the commit of the options as what the remote tag points at, and its whole
  -- result is then that of looking up the release and going on from there.
  pub run-ChecksFirst : (s : State W) → ChecksFirst (run env o assets) s
  unfolding run
  run-ChecksFirst s = options_first (is_empty o.tag || is_empty o.commit || is_empty o.dir) s
