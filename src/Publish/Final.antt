-- ===== src/Publish/Final.antt =====
-- The blocks of `Run` that list the stored assets and compare them: what is known behind them.
use release_me.Prelude.{
  ◌++◌, append_assoc, All-append, Any, Any-append_right, ◌≡◌, ◌≢◌, inl, inr, refl, sym, ap, ◌∙◌,
  subst, Bool, true, false, not, ◌||◌, List, [], ◌∷◌, All, All-map_of, arith, ◌==◌, ==_iff,
  is_empty, Result, ok, ok-injective,
}
use release_me.Host.{
  HostError, Release, Asset, Event, is_write, unsettles, assets_listed, release_found,
}
use release_me.Publish.Types.{
  Env, State, Options, LocalAsset, CompareError, PublishError, host_failed, already_published,
  final_check, reread_failed, other_release, not_ours, published_differs,
}
use release_me.Publish.Exec.{Exec, pure, call, must, fail_if, ◌>>=◌, bind-ok, fail_if-ok, must-ok}
use release_me.Publish.Check.{compare_assets}
use release_me.Publish.Run.{Outcome, decide_latest, before_publish, after_publish, check_published}
use release_me.Publish.Log.{Memo, Grows, Grows-read, Grows-trans, Grows-Fetched, Quiet-call}
use release_me.Publish.Compared.{named, IsFile, Exact, compare_assets_sound, compare_assets-Quiet}
use release_me.Publish.Quiet.{decide_latest-Quiet}

-- The call is in the record.
abbrev pub Seen : Event → List Event → Type 0
Seen e log = Any (λ x. x ≡ e) log

is_empty-not : {A : Type 0} (xs : List A) → not (is_empty xs) ≡ false → xs ≡ []
is_empty-not [] h = refl
is_empty-not (x ∷ xs) h = cc

module _ {W : Type 0} (env : Env W) where
  pub Grows-Seen :
      (e : Event) {s t : State W} → Grows env is_write s t → Seen e s.log → Seen e t.log
  Grows-Seen e {s} g h =
      subst (Seen e) (sym g.extends) (Any-append_right (λ x. x ≡ e) g.events s.log h)

  -- The record of a call behind it, and what it leaves.
  pub call-ok :
      {A : Type 0} (op : W → Result HostError A × W) (event : Result HostError A → Event)
      (s : State W) {r : Result HostError A}
      → (call op event s).0 ≡ ok r
      → Seen (event r) (call op event s).1.log
  unfolding call
  call-ok op event s h = inl (ap event (ok-injective h))

  -- The record behind a call.
  pub call-log :
      {A : Type 0} (op : W → Result HostError A × W) (event : Result HostError A → Event)
      (s : State W) {r : Result HostError A}
      → (call op event s).0 ≡ ok r
      → (call op event s).1.log ≡ event r ∷ s.log
  unfolding call
  call-log op event s h = ap (λ r. event r ∷ s.log) (ok-injective h)

  module _ (rel : Release) (download : Bool) where
    -- The last listing of assets in the record is this one of the release, and behind it there is no
    -- call that may change the platform's state.
    pub record LastListed (stored : List Asset) (log : List Event) : Type 0 where
      pub behind : List Event
      pub older : List Event
      pub last : log ≡ behind ++ (assets_listed rel (ok stored) ∷ older)
      pub settled : All (λ e. unsettles e ≡ false) behind

    -- The last listing in the record is one of the release that is exactly the local files.
    abbrev pub Verified : List LocalAsset → List Event → Type 0
    Verified assets log =
        (stored : List Asset) × LastListed stored log × Exact env rel download stored assets log

    LastListed-later :
        (stored : List Asset) {s t : State W}
        → Grows env unsettles s t
        → LastListed stored s.log
        → LastListed stored t.log
    LastListed-later stored g l = record {
      behind = g.events ++ l.behind;
      older = l.older;
      last =
          g.extends
          ∙ ap (λ x. g.events ++ x) l.last
          ∙ sym (append_assoc g.events l.behind (assets_listed rel (ok stored) ∷ l.older));
      settled = All-append _ g.events l.behind g.clean l.settled;
    }

    pub Verified-later :
        (assets : List LocalAsset) {s t : State W}
        → Grows env unsettles s t
        → Verified assets s.log
        → Verified assets t.log
    Verified-later assets {s} {t} g (stored, seen, exact) = (
      stored,
      LastListed-later stored g seen,
      record {
        each_stored = All-map_of later assets exact.each_stored;
        none_else = exact.none_else;
      },
    )
      where
        bytes :
            (a : LocalAsset) (x : Asset)
            → IsFile env rel download s.log a x
            → IsFile env rel download t.log a x
        bytes a x (d, inl trusted) = (d, inl trusted)
        bytes a x (d, inr f) = (d, inr (Grows-Fetched env unsettles x.id a.sha256 g f))

        later :
            (a : LocalAsset)
            → ((x : Asset) × (named a.name stored ≡ x ∷ []) × IsFile env rel download s.log a x)
            → (x : Asset) × (named a.name stored ≡ x ∷ []) × IsFile env rel download t.log a x
        later a (x, e, i) = (x, e, bytes a x i)

    -- The block with any errors and any continuation.
    abbrev listing :
        {B : Type 0}
        → (HostError → PublishError)
        → (List CompareError → PublishError)
        → List LocalAsset
        → Exec W B
        → Exec W B
    listing wrap bad assets k = call (env.host.assets rel) (assets_listed rel) >>= λ listed.
        must wrap listed >>= λ stored. compare_assets env rel stored assets download >>= λ errs.
        fail_if (not (is_empty errs)) (bad errs) >>= λ _. k

    pub listing-ok :
        {B : Type 0} (wrap : HostError → PublishError) (bad : List CompareError → PublishError)
        (assets : List LocalAsset) (k : Exec W B) (s : State W) {b : B}
        → Memo env s
        → All (λ a. a.sha256 ≢ []) assets
        → (listing wrap bad assets k s).0 ≡ ok b
        → (t : State W) × Grows env is_write s t
          × Verified assets t.log
          × (listing wrap bad assets k s ≡ k t)
    listing-ok wrap bad assets k s m ne h =
        let op = env.host.assets rel in
        let (listed, e1, q1) = bind-ok (call op (assets_listed rel)) _ s h in
        let s1 : State W = (call op (assets_listed rel) s).1 in
        let g1 = (Quiet-call env op (assets_listed rel) (λ r. refl)).at s in
        let h1 = rw q1 at h in
        let (stored, e2, q2) = bind-ok (must wrap listed) _ s1 h1 in
        let (e2', st2) = must-ok wrap listed s1 e2 in
        let h2 = rw (q2, st2) at h1 in
        let (errs, e3, q3) = bind-ok (compare_assets env rel stored assets download) _ s1 h2 in
        let s2 : State W = (compare_assets env rel stored assets download s1).1 in
        let g2 = (compare_assets-Quiet env rel download stored assets).at s1 in
        let h3 = rw q3 at h2 in
        let (u, e4, q4) = bind-ok (fail_if (not (is_empty errs)) (bad errs)) _ s2 h3 in
        let (e4', st4) = fail_if-ok (not (is_empty errs)) (bad errs) s2 e4 in
        let listed_now : LastListed stored s1.log = record {
          behind = [];
          older = s.log;
          last = call-log op (assets_listed rel) s e1 ∙ ap (λ r. assets_listed rel r ∷ s.log) e2';
          settled = tt;
        } in
        (
          s2,
          Grows-trans env is_write g1 (Grows-read env g2),
          (
            stored,
            LastListed-later stored g2 listed_now,
            compare_assets_sound env rel download stored assets s1 (g1.memo m) ne
                (e3 ∙ ap ok (is_empty-not errs e4')),
          ),
          q1 ∙ q2 ∙ rw (st2, q3, q4, st4),
        )

  module _ (o : Options) (assets : List LocalAsset) where
    -- What a run knows when it publishes: the last listing is one of the draft and is the local files,
    -- nothing was changed behind it, and the last call read the release of the tag, which is the draft.
    pub record Cleared (rel : Release) (log : List Event) : Type 0 where
      pub verified : Verified rel (not o.trust_server_digest) assets log
      pub current :
          (cur : Release) × (older : List Event) × (log ≡ release_found o.tag (ok cur) ∷ older)
          × (cur.id ≡ rel.id)

    -- What a run knows when it returns: the release of the tag is the draft, it is public, and its
    -- last listing is the local files.
    pub record Confirmed (rel final : Release) (log : List Event) : Type 0 where
      pub ours : final.id ≡ rel.id
      pub public : final.draft ≡ false
      pub found : Seen (release_found o.tag (ok final)) log
      pub verified : Verified final false assets log

    module _ (ne : All (λ a. a.sha256 ≢ []) assets) where
      pub before_publish-ok :
          (rel : Release) (s : State W) {latest : Bool}
          → Memo env s
          → (before_publish env o rel assets s).0 ≡ ok latest
          → Cleared rel (before_publish env o rel assets s).1.log
      unfolding before_publish pure
      before_publish-ok rel s m h =
          let (s0, g0, v, q0) =
            listing-ok rel (not o.trust_server_digest) host_failed final_check assets _ s m ne h in
          let h0 = rw q0 at h in
          let (latest, e1, q1) = bind-ok (decide_latest env o) _ s0 h0 in
          let s1 : State W = (decide_latest env o s0).1 in
          let g1 = (decide_latest-Quiet env o).at s0 in
          let h1 = rw q1 at h0 in
          let op = env.host.find_release o.tag in
          let (r, e2, q2) = bind-ok (call op (release_found o.tag)) _ s1 h1 in
          let s2 : State W = (call op (release_found o.tag) s1).1 in
          let g2 = (Quiet-call env {p = unsettles} op (release_found o.tag) (λ r. refl)).at s1 in
          let h2 = rw q2 at h1 in
          let (cur, e3, q3) = bind-ok (must reread_failed r) _ s2 h2 in
          let (e3', st3) = must-ok reread_failed r s2 e3 in
          let h3 = rw (q3, st3) at h2 in
          let (u, e4, q4) =
            bind-ok (fail_if (not (cur.id == rel.id)) (other_release cur.id)) _ s2 h3 in
          let (e4', st4) = fail_if-ok (not (cur.id == rel.id)) (other_release cur.id) s2 e4 in
          let found : s2.log ≡ release_found o.tag (ok cur) ∷ s1.log =
            call-log op (release_found o.tag) s1 e2
            ∙ ap (λ x. release_found o.tag x ∷ s1.log) e3' in
          rw (q0, q1, q2, q3, st3, q4, st4)
            (record {
              verified =
                  Verified-later rel (not o.trust_server_digest) assets
                    (Grows-trans env unsettles g1 g2) v;
              current = (cur, s1.log, found, (==_iff cur.id rel.id).0 (ground arith));
            })

      pub after_publish-ok :
          (rel : Release) (s : State W) {final : Release}
          → Memo env s
          → (after_publish env o rel assets s).0 ≡ ok final
          → Confirmed rel final (after_publish env o rel assets s).1.log
      unfolding after_publish pure
      after_publish-ok rel s {final} m h =
          let op = env.host.find_release o.tag in
          let (r, e2, q2) = bind-ok (call op (release_found o.tag)) _ s h in
          let s2 : State W = (call op (release_found o.tag) s).1 in
          let g2 = (Quiet-call env {p = is_write} op (release_found o.tag) (λ r. refl)).at s in
          let h2 = rw q2 at h in
          let (cur, e3, q3) = bind-ok (must reread_failed r) _ s2 h2 in
          let (e3', st3) = must-ok reread_failed r s2 e3 in
          let h3 = rw (q3, st3) at h2 in
          let (u, e4, q4) =
            bind-ok (fail_if (not (cur.id == rel.id) || cur.draft) (not_ours cur.id)) _ s2 h3 in
          let (e4', st4) =
            fail_if-ok (not (cur.id == rel.id) || cur.draft) (not_ours cur.id) s2 e4 in
          let h4 = rw (q4, st4) at h3 in
          let (s5, g5, v, q5) =
            listing-ok cur false host_failed published_differs assets _ s2 (g2.memo m) ne h4 in
          let h5 : ok cur ≡ ok final = rw q5 at h4 in
          let found =
            subst (λ x. Seen (release_found o.tag x) s2.log) e3'
              (call-ok op (release_found o.tag) s e2) in
          rw (q2, q3, st3, q4, st4, q5)
            (subst (λ f. Confirmed rel f s5.log) (ok-injective h5)
              (record {
                ours = (==_iff cur.id rel.id).0 (ground arith);
                public = ground arith;
                found = Grows-Seen (release_found o.tag (ok cur)) {s = s2} {t = s5} g5 found;
                verified = v;
              }))

      pub check_published-ok :
          (rel : Release) (s : State W) {out : Outcome}
          → Memo env s
          → (check_published env o assets rel s).0 ≡ ok out
          → (out.release ≡ rel)
            × (out.was_published ≡ true)
            × Verified rel true assets (check_published env o assets rel s).1.log
      unfolding check_published pure
      check_published-ok rel s {out} m h =
          let (t, g, v, q) =
            listing-ok rel true (λ _. already_published) (λ _. already_published) assets _ s m ne
              h in
          let e = ok-injective (rw q at h) in
          rw q ((sym (ap (λ x. x.release) e), sym (ap (λ x. x.was_published) e), v))
