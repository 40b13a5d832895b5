-- ===== src/Publish/Checked.antt =====
-- What `check` establishes of a stored asset, and that it only reads.
use release_me.Prelude.{
  ℕ, ◌+◌, ◌≤◌, ltb, take, length, ◌≡◌, ◌≢◌, ◌⊎◌, inl, inr, refl, sym, ap, ◌∙◌, subst, subst₂, Bool,
  true, false, not, ◌&&◌, Option, none, some, List, [], ◌∷◌, ◌++◌, All, arith, if◌then◌else◌, ◌==◌,
  ==_iff, Bytes, codes, bytes_eq, bytes_eq_iff, is_empty, Result, ok, err, Bool-cases, ok-injective,
}
use release_me.Host.{HostError, Release, Asset, Stream, Event, asset_opened, unsettles}
use release_me.Publish.Types.{
  Env, State, LocalAsset, CheckError, mismatch, wrong_state, wrong_size, wrong_digest,
}
use release_me.Publish.Exec.{pure, call, modify, gets, ◌>>=◌}
use release_me.Publish.Check.{
  verified_sum, is_verified, check_metadata, hash_stream, check_hash, check_stream, fetch_unless,
  check_bytes, check_or_fetch, check,
}
use release_me.Publish.Log.{
  HashesTo, Fetched, Memo, Grows, Grows-refl, Grows-trans, Quiet, Quiet-pure, Quiet-bind,
  Quiet-call, Quiet-gets,
}

-- The platform's description of the asset fits the local file.
pub record Described (s : Asset) (want : LocalAsset) : Type 0 where
  pub state_ok : (s.state ≡ []) ⊎ (s.state ≡ codes "uploaded")
  pub size_ok : s.size ≡ want.size
  pub digest_ok : (s.digest ≡ []) ⊎ (s.digest ≡ codes "sha256:" ++ want.sha256)

is_empty-eq : {A : Type 0} (xs : List A) → is_empty xs ≡ true → xs ≡ []
is_empty-eq [] h = refl
is_empty-eq (x ∷ xs) h = cc

state_cases :
    (s : Bytes)
    → (not (is_empty s) && not (bytes_eq s (codes "uploaded"))) ≡ false
    → (s ≡ []) ⊎ (s ≡ codes "uploaded")
state_cases [] h = inl refl
state_cases (c ∷ s) h = inr ((bytes_eq_iff (c ∷ s) (codes "uploaded")).0 (ground arith))

digest_cases :
    (s x : Bytes) → (is_empty s ≡ true) ⊎ (not (bytes_eq s x) ≡ false) → (s ≡ []) ⊎ (s ≡ x)
digest_cases s x (inl e) = inl (is_empty-eq s e)
digest_cases s x (inr e) = inr ((bytes_eq_iff s x).0 (ground arith))

abbrev Verdict : Type 0
Verdict = Option (Result CheckError (Unit {0}))

-- The ladder of tests, over any values of the tests.
abbrev ladder : Bool → Bool → Bool → Bool → Bool → Verdict
ladder state size absent digest download =
    if state
    then some (err (mismatch wrong_state))
    else if size
    then some (err (mismatch wrong_size))
    else if absent
    then none
    else if digest
    then some (err (mismatch wrong_digest))
    else if download
    then none
    else some (ok tt)

ladder-none :
    (b1 b2 b3 b4 d : Bool)
    → ladder b1 b2 b3 b4 d ≡ none
    → (b1 ≡ false) × (b2 ≡ false) × ((b3 ≡ true) ⊎ (b4 ≡ false))
ladder-none b1 b2 b3 b4 d h = ground arith

ladder-ok :
    (b1 b2 b3 b4 d : Bool)
    → ladder b1 b2 b3 b4 d ≡ some (ok tt)
    → (b1 ≡ false) × (b2 ≡ false) × (b3 ≡ false) × (b4 ≡ false) × (d ≡ false)
ladder-ok b1 b2 b3 b4 d h = ground arith

module _ (s : Asset) (want : LocalAsset) (download : Bool) where
  abbrev Ladder : Verdict
  Ladder =
      ladder (not (is_empty s.state) && not (bytes_eq s.state (codes "uploaded")))
        (not (s.size == want.size)) (is_empty s.digest)
        (not (bytes_eq s.digest (codes "sha256:" ++ want.sha256))) download

  check_metadata_lem : check_metadata s want download ≡ Ladder
  unfolding check_metadata
  check_metadata_lem = refl

  describe :
      (not (is_empty s.state) && not (bytes_eq s.state (codes "uploaded"))) ≡ false
      → not (s.size == want.size) ≡ false
      → (is_empty s.digest ≡ true)
        ⊎ (not (bytes_eq s.digest (codes "sha256:" ++ want.sha256)) ≡ false)
      → Described s want
  describe e1 e2 e3 = record {
    state_ok = state_cases s.state e1;
    size_ok = ground arith;
    digest_ok = digest_cases s.digest (codes "sha256:" ++ want.sha256) e3;
  }

  check_metadata-none : check_metadata s want download ≡ none → Described s want
  check_metadata-none h =
      let (e1, e2, e3) = ladder-none _ _ _ _ download (sym check_metadata_lem ∙ h) in
      describe e1 e2 e3

  -- The answer without a download needs a digest of the platform.
  check_metadata-ok :
      check_metadata s want download ≡ some (ok tt)
      → Described s want × (download ≡ false) × (is_empty s.digest ≡ false)
  check_metadata-ok h =
      let (e1, e2, e3, e4, e5) = ladder-ok _ _ _ _ download (sym check_metadata_lem ∙ h) in
      (describe e1 e2 (inr e4), e5, e3)

module _ {W : Type 0} (env : Env W) where
  check_hash-Grows :
      (a : Asset) (want : LocalAsset) (r : Result HostError Bytes) (t : State W)
      → ((sum : Bytes) → r ≡ ok sum → Fetched env a.id sum t.log)
      → Grows env unsettles t (check_hash env a want r t).1
  unfolding check_hash pure modify ◌>>=◌
  check_hash-Grows a want (err e) t h = Grows-refl env unsettles t
  check_hash-Grows a want (ok sum) t h = elim (Bool-cases (not (bytes_eq sum want.sha256))) [
    | inl bad ↦ rw bad (Grows-refl env unsettles t)
    | inr good ↦
        rw good (record { events = []; extends = refl; clean = tt; memo = λ m. (h sum refl, m) })
  ]

  hash_stream-ok :
      (limit : ℕ) (st : Stream) {sum : Bytes}
      → hash_stream env limit st ≡ ok sum
      → (env.sha256 (take limit st.content) ≡ sum) × (st.broken ≡ true → limit ≤ length st.content)
  unfolding hash_stream
  hash_stream-ok limit st h = elim (Bool-cases (st.broken && ltb (length st.content) limit)) [
    | inl cut ↦ cc (rw cut at h)
    | inr whole ↦ (ok-injective (rw whole at h), λ b. ground arith)
  ]

  -- The limit of the download is that of the size that the platform described.
  hash_stream-HashesTo :
      (a : Asset) (want : LocalAsset) (st : Stream) {sum : Bytes}
      → a.size ≡ want.size
      → hash_stream env (want.size + 1) st ≡ ok sum
      → HashesTo env a.size sum (ok st)
  hash_stream-HashesTo a want st same e =
      let (sum_of, long) =
        hash_stream-ok (a.size + 1) st (ap (λ n. hash_stream env (n + 1) st) same ∙ e) in
      (sum_of, λ b. omega (arith, long b))

  check_stream-Grows :
      (rel : Release) (a : Asset) (want : LocalAsset) (r : Result HostError Stream) (t : State W)
      (rest : List Event)
      → a.size ≡ want.size
      → t.log ≡ asset_opened rel a r ∷ rest
      → Grows env unsettles t (check_stream env a want r t).1
  unfolding check_stream pure
  check_stream-Grows rel a want (err e) t rest same h = Grows-refl env unsettles t
  check_stream-Grows rel a want (ok st) t rest same h =
      check_hash-Grows a want (hash_stream env (want.size + 1) st) t (λ sum e.
        subst (Fetched env a.id sum) (sym h) (inl (refl, hash_stream-HashesTo a want st same e)))

  module _ (rel : Release) (a : Asset) (want : LocalAsset) where
    fetch_unless-Quiet :
        a.size ≡ want.size
        → (known : Bool) → Quiet env unsettles (fetch_unless env rel a want known)
    unfolding fetch_unless
    fetch_unless-Quiet same true = Quiet-pure env (ok tt)
    fetch_unless-Quiet same false = record {
      at = λ s.
          let op = env.host.open_asset rel a in
          let called : State W = (call op (asset_opened rel a) s).1 in
          unfold ◌>>=◌ call in
          Grows-trans env unsettles ((Quiet-call env op (asset_opened rel a) (λ r. refl)).at s)
            (check_stream-Grows rel a want (op s.world).0 called s.log same refl);
    }

    check_or_fetch-Quiet :
        (download : Bool) (v : Verdict)
        → check_metadata a want download ≡ v
        → Quiet env unsettles (check_or_fetch env rel a want v)
    unfolding check_or_fetch check_bytes
    check_or_fetch-Quiet download (some r) e = Quiet-pure env r
    check_or_fetch-Quiet download none e =
        Quiet-bind env _ _ (Quiet-gets env _)
          (fetch_unless-Quiet (check_metadata-none a want download e).size_ok)

    -- `check` only reads.
    pub check-Quiet : (download : Bool) → Quiet env unsettles (check env rel a want download)
    unfolding check
    check-Quiet download = check_or_fetch-Quiet download (check_metadata a want download) refl

    -- An entry of the memo stands for a download.
    verified_sum-Fetched :
        (log : List Event) (vs : List (ℕ × Bytes))
        → All (λ v. Fetched env v.0 v.1 log) vs
        → want.sha256 ≢ []
        → verified_sum a.id vs ≡ want.sha256
        → Fetched env a.id want.sha256 log
    unfolding verified_sum
    verified_sum-Fetched log [] m ne h = absurd (ne (sym h))
    verified_sum-Fetched log ((i, sum) ∷ vs) (f, m) ne h = elim (Bool-cases (i == a.id)) [
      | inl same ↦ subst₂ (λ x y. Fetched env x y log) ((==_iff i a.id).0 same) (rw same at h) f
      | inr other ↦ verified_sum-Fetched log vs m ne (rw other at h)
    ]

    check_hash-Fetched :
        (r : Result HostError Bytes) (t : State W)
        → ((sum : Bytes) → r ≡ ok sum → Fetched env a.id sum t.log)
        → (check_hash env a want r t).0 ≡ ok (ok tt)
        → Fetched env a.id want.sha256 (check_hash env a want r t).1.log
    unfolding check_hash pure modify ◌>>=◌
    check_hash-Fetched (err e) t f h = cc
    check_hash-Fetched (ok sum) t f h = elim (Bool-cases (not (bytes_eq sum want.sha256))) [
      | inl bad ↦ cc (rw bad at h)
      | inr good ↦ rw good (
          subst (λ x. Fetched env a.id x t.log) ((bytes_eq_iff sum want.sha256).0 (ground arith))
            (f sum refl))
    ]

    check_stream-Fetched :
        (r : Result HostError Stream) (t : State W) (rest : List Event)
        → a.size ≡ want.size
        → t.log ≡ asset_opened rel a r ∷ rest
        → (check_stream env a want r t).0 ≡ ok (ok tt)
        → Fetched env a.id want.sha256 (check_stream env a want r t).1.log
    unfolding check_stream pure
    check_stream-Fetched (err e) t rest same eq h = cc
    check_stream-Fetched (ok st) t rest same eq h =
        check_hash-Fetched (hash_stream env (want.size + 1) st) t
          (λ sum e.
            subst (Fetched env a.id sum) (sym eq)
              (inl (refl, hash_stream-HashesTo a want st same e)))
          h

    fetch_unless-Fetched :
        (known : Bool) (s : State W)
        → a.size ≡ want.size
        → (known ≡ true → Fetched env a.id want.sha256 s.log)
        → (fetch_unless env rel a want known s).0 ≡ ok (ok tt)
        → Fetched env a.id want.sha256 (fetch_unless env rel a want known s).1.log
    unfolding fetch_unless
    fetch_unless-Fetched true s same f h = unfold pure in f refl
    fetch_unless-Fetched false s same f h =
        let op = env.host.open_asset rel a in
        unfold ◌>>=◌ call in
        check_stream-Fetched (op s.world).0 (call op (asset_opened rel a) s).1 s.log same refl h

    check_bytes-Fetched :
        (s : State W)
        → a.size ≡ want.size
        → Memo env s
        → want.sha256 ≢ []
        → (check_bytes env rel a want s).0 ≡ ok (ok tt)
        → Fetched env a.id want.sha256 (check_bytes env rel a want s).1.log
    unfolding check_bytes gets ◌>>=◌ is_verified
    check_bytes-Fetched s same m ne h =
        fetch_unless-Fetched (is_verified a.id want.sha256 s.verified) s same
          (λ known.
            verified_sum-Fetched s.log s.verified m ne
              ((bytes_eq_iff (verified_sum a.id s.verified) want.sha256).0 (ground arith)))
          h

    check_or_fetch_sound :
        (download : Bool) (v : Verdict) (s : State W)
        → check_metadata a want download ≡ v
        → Memo env s
        → want.sha256 ≢ []
        → (check_or_fetch env rel a want v s).0 ≡ ok (ok tt)
        → Described a want
          × (((download ≡ false) × (is_empty a.digest ≡ false))
              ⊎ Fetched env a.id want.sha256 (check_or_fetch env rel a want v s).1.log)
    unfolding check_or_fetch
    check_or_fetch_sound download (some r) s e m ne h =
        let passed : r ≡ ok tt = unfold pure in ok-injective h in
        let (d, off, digest) = check_metadata-ok a want download (e ∙ ap some passed) in
        (d, inl (off, digest))
    check_or_fetch_sound download none s e m ne h =
        let d = check_metadata-none a want download e in
        (d, inr (check_bytes-Fetched s d.size_ok m ne h))

    pub check_sound :
        (download : Bool) (s : State W)
        → Memo env s
        → want.sha256 ≢ []
        → (check env rel a want download s).0 ≡ ok (ok tt)
        → Described a want
          × (((download ≡ false) × (is_empty a.digest ≡ false))
              ⊎ Fetched env a.id want.sha256 (check env rel a want download s).1.log)
    unfolding check
    check_sound download s m ne h =
        check_or_fetch_sound download (check_metadata a want download) s refl m ne h
