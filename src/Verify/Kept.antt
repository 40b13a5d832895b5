-- ===== src/Verify/Kept.antt =====
-- Which files of the directory a part of the verification leaves as they are.
use release_me.Prelude.{
  ℕ, suc, ◌≡◌, inl, inr, refl, sym, ap, ◌∙◌, subst, true, false, not, Option, none, some, List,
  Bytes, bytes_eq, bytes_eq_iff, Bool-cases, not-eq-false, ok, ok-injective,
}
use release_me.Host.{Asset}
use release_me.Verify.Types.{no_asset, HostClient, Env, State}
use release_me.Verify.Exec.{pure, >>=-ok, fail_if->>-ok, pure-ok}
use release_me.Verify.Fetch.{
  asset_named, is_listed, write_file, stored, save, fetch, fetch_optional,
}

-- All files but those of some names are as before.
abbrev pub Keeps : (Bytes → Type 0) → State → State → Type 0
Keeps P s s' = (n : Bytes) → ¬ P n → s'.files n ≡ s.files n

pub Keeps-refl : (P : Bytes → Type 0) (s : State) → Keeps P s s
Keeps-refl P s n h = refl

pub Keeps-trans : (P : Bytes → Type 0) (s t u : State) → Keeps P s t → Keeps P t u → Keeps P s u
Keeps-trans P s t u h k n out = k n out ∙ h n out

write_file_other :
    (name content : Bytes) (files : Bytes → Option Bytes) (n : Bytes)
    → ¬ (n ≡ name)
    → write_file name content files n ≡ files n
write_file_other name content files n h = elim (Bool-cases (bytes_eq n name)) [
  | inl same ↦ absurd (h ((bytes_eq_iff n name).0 same))
  | inr other ↦ rw other refl
]

write_file_self :
    (name content : Bytes) (files : Bytes → Option Bytes)
    → write_file name content files name ≡ some content
write_file_self name content files = rw ((bytes_eq_iff name name).1 refl) refl

module _ (env : Env) (client : HostClient) (tag : Bytes) (published : List Asset) where
  -- A download that succeeded: the asset is one of the release, its bytes are what the platform sent,
  -- and they are now the file of its name.
  pub record Downloads (name content : Bytes) (s s' : State) : Type 0 where
    pub listed : is_listed (asset_named name published) ≡ true
    pub sent : env.download client tag s.downloads name ≡ some content
    pub written : s'.files name ≡ some content
    pub counted : s'.downloads ≡ suc s.downloads
    pub keeps : Keeps (λ n. n ≡ name) s s'

  -- The text is what the platform sends at one of the downloads of the asset of the name.
  abbrev pub IsSent : Bytes → Bytes → Type 0
  IsSent name content = (k : ℕ) × (env.download client tag k name ≡ some content)

  stored-Downloads :
      (name : Bytes) (s : State) (answer : Option Bytes) {content : Bytes} {s' : State}
      → is_listed (asset_named name published) ≡ true
      → env.download client tag s.downloads name ≡ answer
      → stored env client tag published name s answer ≡ ok (content, s')
      → Downloads name content s s'
  stored-Downloads name s none l e h = cc
  stored-Downloads name s (some c) {content} {s'} l e h =
      let same : ◌≡◌ {A = Bytes × State}
          (c, record s { downloads = suc s.downloads; files = write_file name c s.files })
          (content, s') =
        ok-injective h in
      let content_same : c ≡ content = ap (λ x. x.0) same in
      let files_same : write_file name c s.files ≡ s'.files = ap (λ x. x.1.files) same in
      record {
        listed = l;
        sent = e ∙ ap some content_same;
        written =
            ap (λ f. f name) (sym files_same)
            ∙ write_file_self name c s.files
            ∙ ap some content_same;
        counted = ap (λ x. x.1.downloads) (sym same);
        keeps = λ n out. ap (λ f. f n) (sym files_same) ∙ write_file_other name c s.files n out;
      }

  pub fetch-Downloads :
      (name : Bytes) {s s' : State} {content : Bytes}
      → fetch env client tag published name s ≡ ok (content, s')
      → Downloads name content s s'
  unfolding fetch save
  fetch-Downloads name {s} h =
      let (l, h1) =
        fail_if->>-ok (not (is_listed (asset_named name published))) (no_asset name)
          (save env client tag published name) h in
      stored-Downloads name s (env.download client tag s.downloads name) (not-eq-false _ l) refl h1

  -- An optional download: the file that it names may be written, and none is given only where the
  -- release has no such asset.
  pub record Fetched (name : Bytes) (r : Option Bytes) (s s' : State) : Type 0 where
    pub absent : r ≡ none → is_listed (asset_named name published) ≡ false
    pub sent : (content : Bytes) → r ≡ some content → IsSent name content
    pub keeps : Keeps (λ n. n ≡ name) s s'

  pub fetch_optional-Fetched :
      (name : Bytes) (s s' : State) {r : Option Bytes}
      → fetch_optional env client tag published name s ≡ ok (r, s')
      → Fetched name r s s'
  unfolding fetch_optional
  fetch_optional-Fetched name s s' {r} h =
      elim (Bool-cases (is_listed (asset_named name published))) [
        | inl there ↦
            let (content, t, e, h1) =
              >>=-ok (fetch env client tag published name) (λ c. pure (some c)) (rw there at h) in
            let d = fetch-Downloads name e in
            let (value, same) = pure-ok (some content) t h1 in
            record {
              absent = λ n. cc (value ∙ n);
              sent = λ c e. (s.downloads, d.sent ∙ value ∙ e);
              keeps = subst (Keeps (λ n. n ≡ name) s) same d.keeps;
            }
        | inr missing ↦
            let (value, same) = pure-ok none s (rw missing at h) in
            record {
              absent = λ _. missing;
              sent = λ c e. cc (value ∙ e);
              keeps = subst (Keeps (λ n. n ≡ name) s) same (Keeps-refl (λ n. n ≡ name) s);
            }
      ]
