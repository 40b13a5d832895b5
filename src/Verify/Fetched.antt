-- ===== src/Verify/Fetched.antt =====
-- What the first part of the verification establishes: the names of the assets, the manifest, and the
-- files that it lists.
use release_me.Prelude.{
  ℕ, ◌≤◌, ◌<◌, arith, ◌⊎◌, subst, ◌≡◌, ◌≢◌, inl, inr, refl, sym, ap, ◌∙◌, subst₂, true, false, not,
  Option, none, some, List, [], ◌∷◌, ◌++◌, append_assoc, append-nil, is_empty, All, All-map_of,
  All-append_left, All-append_right, Bytes, bytes_eq, bytes_eq_iff, Bool-cases, not-eq-false,
  Result, ok, err, ok-injective,
}
use mathlib.Core.Option
use release_me.Host.{Asset}
use release_me.Manifest
use release_me.Manifest.{Entry, Manifest, ManifestError, valid_name}
use release_me.Manifest.Files.{check-nil}
use release_me.Policy.{Policy, manifest_name}
use release_me.Verify.Types.{VerifyError, bad_manifest, HostClient, Env, State}
use release_me.Verify.Exec.{wrap, >>=-ok, lift->>=-ok, pure-ok}
use release_me.Verify.Fetch.{
  asset_named, is_listed, check_names, fetch, fetch_all, check_files, contradicts, digest_of,
  check_platform, fetch_manifest,
}
use release_me.Verify.Kept.{Keeps, fetch-Downloads}

pub wrap-ok :
    {E A : Type 0} (f : E → VerifyError) (r : Result E A) {a : A} → wrap f r ≡ ok a → r ≡ ok a
wrap-ok f (ok a) h = ap ok (ok-injective h)
wrap-ok f (err e) h = cc

-- No two assets have one name.
abbrev pub Distinct : List Asset → Type 0
Distinct [] = Unit
Distinct (a ∷ as_list) = All (λ b. b.name ≢ a.name) as_list × Distinct as_list

-- The names of a release's assets are safe, and no two are equal.
pub record SafeNames (assets : List Asset) : Type 0 where
  pub valid : All (λ a. valid_name a.name ≡ true) assets
  pub distinct : Distinct assets

asset_named-none :
    (name : Bytes) (published : List Asset)
    → is_listed (asset_named name published) ≡ false
    → All (λ a. name ≢ a.name) published
unfolding asset_named
asset_named-none name [] h = tt
asset_named-none name (a ∷ as_list) h = elim (Bool-cases (bytes_eq a.name name)) [
  | inl same ↦ cc (rw same at h)
  | inr other ↦ (
    λ e. cc (sym other ∙ (bytes_eq_iff a.name name).1 (sym e)),
    asset_named-none name as_list (rw other at h),
  )
]

-- The names of a list differ from those of the assets before.
abbrev Fresh : List Asset → List Asset → Type 0
Fresh before rest = All (λ b. All (λ a. b.name ≢ a.name) before) rest

Fresh-last :
    (before : List Asset) (a : Asset) (rest : List Asset)
    → Fresh (before ++ (a ∷ [])) rest
    → All (λ b. b.name ≢ a.name) rest × Fresh before rest
Fresh-last before a [] h = (tt, tt)
Fresh-last before a (b ∷ rest) (hb, h) =
    let (here, there) = Fresh-last before a rest h in
    (
      ((All-append_right (λ c. b.name ≢ c.name) before (a ∷ []) hb).0, here),
      (All-append_left (λ c. b.name ≢ c.name) before (a ∷ []) hb, there),
    )

check_names-ok :
    (before rest : List Asset) {out : List Asset}
    → check_names before rest ≡ ok out
    → (before ++ rest ≡ out) × SafeNames rest × Fresh before rest
unfolding check_names
check_names-ok before [] h =
    (append-nil before ∙ ok-injective h, record { valid = tt; distinct = tt }, tt)
check_names-ok before (a ∷ rest) h = elim (Bool-cases (not (valid_name a.name))) [
  | inl unsafe ↦ cc (rw unsafe at h)
  | inr safe ↦ elim (Bool-cases (is_listed (asset_named a.name before))) [
    | inl twice ↦ cc (rw (safe, twice) at h)
    | inr new ↦
        let (e, names, fresh) = check_names-ok (before ++ (a ∷ [])) rest (rw (safe, new) at h) in
        let (apart, older) = Fresh-last before a rest fresh in
        (
          sym (append_assoc before (a ∷ []) rest) ∙ e,
          record { valid = (not-eq-false _ safe, names.valid); distinct = (apart, names.distinct) },
          (asset_named-none a.name before new, older),
        )
  ]
]

pub check_names-SafeNames :
    (assets : List Asset) {published : List Asset}
    → check_names [] assets ≡ ok published
    → (assets ≡ published) × SafeNames assets
check_names-SafeNames assets h = let (e, names, _) = check_names-ok [] assets h in (e, names)

check_platform-ok :
    (published : List Asset) (es : List Entry)
    → check_platform published es ≡ ok tt
    → All (λ e. contradicts e (digest_of (asset_named e.name published)) ≡ false) es
unfolding check_platform
check_platform-ok published [] h = tt
check_platform-ok published (e ∷ es) h =
    elim (Bool-cases (contradicts e (digest_of (asset_named e.name published)))) [
      | inl other ↦ cc (rw other at h)
      | inr same ↦ (same, check_platform-ok published es (rw same at h))
    ]

hash_some :
    (hash : Bytes → Bytes) (o : Option Bytes) {d : Bytes}
    → Option.map hash o ≡ some d
    → (c : Bytes) × (o ≡ some c) × (hash c ≡ d)
hash_some hash none h = cc
hash_some hash (some c) h = (c, refl, cc)

-- The file of an entry's name is there and has its digest.
abbrev pub HasFile : Env → State → Entry → Type 0
HasFile env s e = (c : Bytes) × (s.files e.name ≡ some c) × (env.hash c ≡ e.sha256)

pub empty_nil : {A : Type 0} (xs : List A) → is_empty xs ≡ true → xs ≡ []
empty_nil [] h = refl
empty_nil (x ∷ xs) h = cc

module _ (env : Env) (client : HostClient) (tag : Bytes) (published : List Asset) where
  -- Between the two states the file of the name was downloaded: what it now holds is what the
  -- platform sent at one of the downloads in between.
  pub record Sent (s s' : State) (name : Bytes) : Type 0 where
    pub at : ℕ
    pub from_here : s.downloads ≤ at
    pub before_end : at < s'.downloads
    pub holds : env.download client tag at name ≡ s'.files name

  -- What the downloads of some entries leave: each entry's file was downloaded, and every other file
  -- is as before or was downloaded too.
  record AllSent (es : List Entry) (s s' : State) : Type 0 where
    pub each_sent : All (λ e. Sent s s' e.name) es
    pub files : (n : Bytes) → (s'.files n ≡ s.files n) ⊎ Sent s s' n
    pub forward : s.downloads ≤ s'.downloads

  Sent-earlier :
      (s t s' : State) (name : Bytes) → s.downloads ≤ t.downloads → Sent t s' name → Sent s s' name
  Sent-earlier s t s' name forward h = record {
    at = h.at;
    from_here = omega (arith, forward, h.from_here);
    before_end = h.before_end;
    holds = h.holds;
  }

  Sent-forward : (s t : State) (name : Bytes) → Sent s t name → s.downloads ≤ t.downloads
  Sent-forward s t name h = omega (arith, h.from_here, h.before_end)

  -- A file that was downloaded is still as it was sent, or as it was sent later.
  Sent-later :
      (s t s' : State) (name : Bytes)
      → Sent s t name
      → t.downloads ≤ s'.downloads
      → (s'.files name ≡ t.files name) ⊎ Sent t s' name
      → Sent s s' name
  Sent-later s t s' name h forward (inl kept) = record {
    at = h.at;
    from_here = h.from_here;
    before_end = omega (arith, h.before_end, forward);
    holds = h.holds ∙ sym kept;
  }
  Sent-later s t s' name h forward (inr again) =
      Sent-earlier s t s' name (Sent-forward s t name h) again

  fetch-Sent :
      (name : Bytes) (s s' : State) {content : Bytes}
      → fetch env client tag published name s ≡ ok (content, s')
      → Sent s s' name
  fetch-Sent name s s' h =
      let d = fetch-Downloads env client tag published name h in
      record {
        at = s.downloads;
        from_here = omega arith;
        before_end = omega (arith, d.counted);
        holds = d.sent ∙ sym d.written;
      }

  -- Another file behind one download and those that follow it.
  file_behind :
      (s t s' : State) (name n : Bytes)
      → Sent s t name
      → Keeps (λ x. x ≡ name) s t
      → t.downloads ≤ s'.downloads
      → (s'.files n ≡ t.files n) ⊎ Sent t s' n
      → (s'.files n ≡ s.files n) ⊎ Sent s s' n
  file_behind s t s' name n h keeps forward later = elim (Bool-cases (bytes_eq n name)) [
    | inl same ↦
        let e = (bytes_eq_iff n name).0 same in
        inr (Sent-later s t s' n (subst (Sent s t) (sym e) h) forward later)
    | inr other ↦ apart (λ e. cc (sym other ∙ (bytes_eq_iff n name).1 e)) later
  ]
    where
      apart :
          ¬ (n ≡ name)
          → (s'.files n ≡ t.files n) ⊎ Sent t s' n
          → (s'.files n ≡ s.files n) ⊎ Sent s s' n
      apart out (inl kept) = inl (kept ∙ keeps n out)
      apart out (inr again) = inr (Sent-earlier s t s' n (Sent-forward s t name h) again)

  fetch_all-AllSent :
      (es : List Entry) (s s' : State) {u : Unit {0}}
      → fetch_all env client tag published es s ≡ ok (u, s')
      → AllSent es s s'
  unfolding fetch_all
  fetch_all-AllSent [] s s' h =
      let (_, same) = pure-ok tt s h in
      subst (AllSent [] s) same
        (record { each_sent = tt; files = λ n. inl refl; forward = omega arith })
  fetch_all-AllSent (e ∷ es) s s' h =
      let (c, t, d, h1) =
        >>=-ok (fetch env client tag published e.name) (λ _. fetch_all env client tag published es)
          h in
      let here = fetch-Sent e.name s t d in
      let keeps = (fetch-Downloads env client tag published e.name d).keeps in
      let rest = fetch_all-AllSent es t s' h1 in
      let onward = Sent-forward s t e.name here in
      record {
        each_sent = (
          Sent-later s t s' e.name here rest.forward (rest.files e.name),
          All-map_of (λ x k. Sent-earlier s t s' x.name onward k) es rest.each_sent,
        );
        files = λ n. file_behind s t s' e.name n here keeps rest.forward (rest.files n);
        forward = omega (arith, onward, rest.forward);
      }

  fetch_all-listed :
      (es : List Entry) (s : State) {out : Unit {0} × State}
      → fetch_all env client tag published es s ≡ ok out
      → All (λ e. is_listed (asset_named e.name published) ≡ true) es
  unfolding fetch_all
  fetch_all-listed [] s h = tt
  fetch_all-listed (e ∷ es) s h =
      let (c, t, d, h1) =
        >>=-ok (fetch env client tag published e.name) (λ _. fetch_all env client tag published es)
          h in
      let downloaded =
        fetch-Downloads env client tag published e.name {s = s} {s' = t} {content = c} d in
      (downloaded.listed, fetch_all-listed es t h1)

  abbrev file_hash : State → Bytes → Option Bytes
  file_hash s name = Option.map env.hash (s.files name)

  check_files-ok :
      (m : Manifest) (s s' : State) {u : Unit {0}}
      → check_files env client tag published m s ≡ ok (u, s')
      → All (HasFile env s) m × (s ≡ s')
  unfolding check_files
  check_files-ok m s s' h = elim (Bool-cases (is_empty (Manifest.check (file_hash s) m))) [
    | inr errors ↦ cc (rw errors at h)
    | inl none_found ↦
        let (_, same) = pure-ok tt s (rw none_found at h) in
        (
          All-map_of (λ e k. hash_some env.hash (s.files e.name) k) m
              ((check-nil (file_hash s) m).0 (empty_nil _ none_found)),
          same,
        )
  ]

  -- What `Run` knows of the manifest and its files behind its first part.
  pub record Listing (p : Policy) (text : Bytes) (m : Manifest) (s0 s : State) : Type 0 where
    pub manifest_listed : is_listed (asset_named (manifest_name p) published) ≡ true
    pub manifest_sent : env.download client tag s0.downloads (manifest_name p) ≡ some text
    pub parsed : Manifest.parse text ≡ ok m
    pub listed : All (λ e. is_listed (asset_named e.name published) ≡ true) m
    pub downloaded : All (λ e. Sent s0 s e.name) m
    pub matches : All (HasFile env s) m
    pub platform_agrees :
        All (λ e. contradicts e (digest_of (asset_named e.name published)) ≡ false) m

  pub fetch_manifest-Listing :
      (p : Policy) (s s' : State) {m : Manifest} {text : Bytes}
      → fetch_manifest env client tag published p s ≡ ok ((m, text), s')
      → Listing p text m s s'
  unfolding fetch_manifest
  fetch_manifest-Listing p s s' {m} {text} h =
      let (t, s1, e1, h1) = >>=-ok (fetch env client tag published (manifest_name p)) _ h in
      let first = fetch-Downloads env client tag published (manifest_name p) e1 in
      let (n, e2, h2) = lift->>=-ok (wrap bad_manifest (Manifest.parse t)) _ h1 in
      let (done, s2, e3, h3) = >>=-ok (fetch_all env client tag published n) _ h2 in
      let (_, s3, e4, h4) = >>=-ok (check_files env client tag published n) _ h3 in
      let (matches, same) = check_files-ok n s2 s3 e4 in
      let (_, e5, h5) = lift->>=-ok (check_platform published n) _ h4 in
      let (value, last) = pure-ok (n, t) s3 h5 in
      subst₂ (λ (x : Manifest × Bytes) z. Listing p x.1 x.0 s z) value (same ∙ last)
        (record {
          manifest_listed = first.listed;
          manifest_sent = first.sent;
          downloaded =
              All-map_of (λ e k. Sent-earlier s s1 s2 e.name (omega (arith, first.counted)) k) n
                (fetch_all-AllSent n s1 s2 e3).each_sent;
          parsed = wrap-ok bad_manifest (Manifest.parse t) e2;
          listed = fetch_all-listed n s1 e3;
          matches = matches;
          platform_agrees = check_platform-ok published n e5;
        })
