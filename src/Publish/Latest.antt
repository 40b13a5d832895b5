-- ===== src/Publish/Latest.antt =====
-- `decideLatest`: when a release may be marked latest.
use release_me.Prelude.{
  ◌≡◌, ◌≢◌, ◌↔◌, inl, inr, refl, sym, ◌∙◌, subst, Bool, true, false, ◌||◌, Option, none, some, List,
  [], ◌∷◌, All, arith, Bytes, bytes_eq, bytes_eq_iff, is_le, Ordering, Result, ok, err,
  ok-injective, Bool-cases,
}
use release_me.Semver
use release_me.Semver.{Version, SemverError, is_prerelease, compare_version}
use release_me.Host.{Release, Event, releases_listed}
use release_me.Publish.Types.{Env, State, Options, listing_failed}
use release_me.Publish.Exec.{pure, call, must, bind-ok, must-ok}
use release_me.Publish.Run.{
  not_above, latest_among, with_version, unless_prerelease, latest_or, decide_latest,
}
use release_me.Publish.Final.{Seen, call-ok}

-- A published release that is no pre-release, of another tag that spells a version, has a lower one.
abbrev pub Outranks : Bytes → Version → Release → Type 0
Outranks tag ours r =
    r.draft ≡ false
    → r.prerelease ≡ false
    → r.tag ≢ tag
    → (v : Version) → Semver.parse_tag r.tag ≡ ok v
    → compare_version ours v ≡ Ordering.gt

not_above_lem :
    (ours : Version) (p : Result SemverError Version)
    → (not_above ours p ≡ false) ↔ ((v : Version) → p ≡ ok v → compare_version ours v ≡ Ordering.gt)
not_above_lem ours (err e) = (λ _ v h. cc, λ _. refl)
not_above_lem ours (ok w) = (
  λ h v e.
      subst (λ x. compare_version ours x ≡ Ordering.gt) (ok-injective e)
        (above (compare_version ours w) h),
  λ k. rw (k w refl) refl,
)
  where
    above : (c : Ordering) → is_le c ≡ false → c ≡ Ordering.gt
    above c h = ground arith

skipped_lem :
    (tag : Bytes) (r : Release)
    → (r.draft || r.prerelease || bytes_eq r.tag tag) ≡ false
    → (r.draft ≡ false) × (r.prerelease ≡ false) × (r.tag ≢ tag)
skipped_lem tag r h =
    (ground arith, ground arith, λ same. let e = (bytes_eq_iff r.tag tag).1 same in ground arith)

pub latest_among_iff :
    (tag : Bytes) (ours : Version) (rs : List Release)
    → (latest_among tag ours rs ≡ true) ↔ All (Outranks tag ours) rs
unfolding latest_among
latest_among_iff tag ours [] = (λ _. tt, λ _. refl)
latest_among_iff tag ours (r ∷ rs) =
    elim (Bool-cases (r.draft || r.prerelease || bytes_eq r.tag tag)) [
      | inl skip ↦ rw skip (
        λ h. (λ d p t v e. absurd (passed_over skip d p t), (latest_among_iff tag ours rs).0 h),
        λ h. (latest_among_iff tag ours rs).1 h.1,
      )
      | inr counts ↦ elim (Bool-cases (not_above ours (Semver.parse_tag r.tag))) [
        | inl above ↦
            rw (counts, above)
              (
                λ h. cc,
                λ h.
                    let (d, p, t) = skipped_lem tag r counts in
                    cc (sym above ∙ (not_above_lem ours (Semver.parse_tag r.tag)).1 (h.0 d p t)),
              )
        | inr below ↦
            rw (counts, below)
              (
                λ h. (
                  λ d p t. (not_above_lem ours (Semver.parse_tag r.tag)).0 below,
                  (latest_among_iff tag ours rs).0 h,
                ),
                λ h. (latest_among_iff tag ours rs).1 h.1,
              )
      ]
    ]
  where
    passed_over :
        (r.draft || r.prerelease || bytes_eq r.tag tag) ≡ true
        → r.draft ≡ false
        → r.prerelease ≡ false
        → r.tag ≢ tag
        → ⊥
    passed_over skip d p t = t ((bytes_eq_iff r.tag tag).0 (ground arith))

module _ {W : Type 0} (env : Env W) (o : Options) where
  -- The run may call its release the latest: its tag is a version, no pre-release, and above all that
  -- the platform lists.
  pub record IsLatest (log : List Event) : Type 0 where
    pub ours : Version
    pub parses : Semver.parse_tag o.tag ≡ ok ours
    pub normal : is_prerelease ours ≡ false
    pub all : List Release
    pub seen : Seen (releases_listed (ok all)) log
    pub above : All (Outranks o.tag ours) all

  with_version-ok :
      (v : Result SemverError Version) (s : State W)
      → Semver.parse_tag o.tag ≡ v
      → (with_version env o v s).0 ≡ ok true
      → IsLatest (with_version env o v s).1.log
  unfolding with_version pure
  with_version-ok (err e) s p h = absurd (cc (ok-injective h))
  with_version-ok (ok ours) s p h = elim (Bool-cases (is_prerelease ours)) [
    | inl pre ↦ absurd (cc (ok-injective (rw pre at h)))
    | inr normal ↦
        let op = env.host.list_releases in
        let h0 = rw normal at h in
        let (r, e1, q1) = bind-ok (call op releases_listed) _ s h0 in
        let s1 : State W = (call op releases_listed s).1 in
        let h1 = rw q1 at h0 in
        let (rs, e2, q2) = bind-ok (must listing_failed r) _ s1 h1 in
        let (e2', st2) = must-ok listing_failed r s1 e2 in
        let h2 = rw q2 at h1 in
        rw (normal, q1, q2, st2)
          (record {
            ours = ours;
            parses = p;
            normal = normal;
            all = rs;
            seen =
                subst (λ x. Seen (releases_listed x) s1.log) e2'
                  (call-ok env op releases_listed s e1);
            above = (latest_among_iff o.tag ours rs).0 (ok-injective h2);
          })
  ]

  unless_prerelease-ok :
      (b : Bool) (s : State W)
      → (unless_prerelease env o b s).0 ≡ ok true
      → (b ≡ false) × IsLatest (unless_prerelease env o b s).1.log
  unfolding pure
  unless_prerelease-ok true s h = absurd (cc (ok-injective h))
  unless_prerelease-ok false s h = (refl, with_version-ok (Semver.parse_tag o.tag) s refl h)

  latest_or-ok :
      (l : Option Bool) (s : State W)
      → l ≡ none
      → (latest_or env o l s).0 ≡ ok true
      → (o.prerelease ≡ false) × IsLatest (latest_or env o l s).1.log
  latest_or-ok (some b) s unset h = cc
  latest_or-ok none s unset h = unless_prerelease-ok o.prerelease s h

  -- If `decideLatest` answers true and the latest option is not set, then the prerelease option
  -- is off, the tag spells a version that is no pre-release, and in a listing of the releases
  -- read from the platform every published release that is no pre-release and has another tag
  -- that spells a version has a lower version.
  pub decide_latest_sound :
      (s : State W)
      → o.latest ≡ none
      → (decide_latest env o s).0 ≡ ok true
      → (o.prerelease ≡ false) × IsLatest (decide_latest env o s).1.log
  unfolding decide_latest
  decide_latest_sound s unset h = latest_or-ok o.latest s unset h
