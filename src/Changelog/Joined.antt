-- ===== src/Changelog/Joined.antt =====
-- internal/changelog/changelog.go: the text that `Release` joins is split into the lines that it wrote.
use release_me.Prelude.{
  ℕ, suc, ◌≡◌, ◌≢◌, refl, Bool, true, false, not, Option, none, some, List, [], ◌∷◌, ◌++◌,
  append-eq-nil, arith, ◌==◌, if◌then◌else◌, All, all, All-append, all-Lacks, Bytes, codes,
  bytes_eq, Lacks, split, split-join, split-All-Lacks, split-ne-nil, join,
}
use release_me.Semver.{to_string}
use release_me.Changelog.Shapes.{link_def, not_space, unreleased_head, format_date}
use release_me.Changelog.Cut.{IsUrl, format_date-Lacks}
use release_me.Changelog.Rewritten.{PlanOk}
use release_me.Changelog.Rewrite.{
  heading_line, link_line, Plan, new_links, rewrite_link, rewrite_line, rewrite_lines,
}

-- A text that spells no newline.
spells : (s : Bytes) → all (λ c. not (c == b'\n')) s ≡ true → Lacks b'\n' s
spells s h = all-Lacks (λ c. not (c == b'\n')) b'\n' s refl h

module _ (p : Plan) (plan : PlanOk p) where
  url-Lacks : (url : Bytes) → IsUrl url → Lacks b'\n' url
  url-Lacks url h = all-Lacks not_space b'\n' url refl h.no_spaces

  link_line-Lacks :
      (name url : Bytes) → Lacks b'\n' name → Lacks b'\n' url → Lacks b'\n' (link_line name url)
  link_line-Lacks name url hn hu = (
    omega arith,
    All-append (λ a. a ≢ b'\n') name (b']' ∷ b':' ∷ b' ' ∷ url) hn
        (omega arith, (omega arith, (omega arith, hu))),
  )

  new_links-Lacks : All (Lacks b'\n') (new_links p)
  new_links-Lacks = (
    link_line-Lacks (codes "Unreleased") _ (spells (codes "Unreleased") refl)
        (url-Lacks _ plan.head_url),
    (
      link_line-Lacks (to_string p.version) _ plan.prints.no_newline (url-Lacks _ plan.version_url),
      tt,
    ),
  )

  heading_line-Lacks : Lacks b'\n' (heading_line p.version (format_date p.date))
  heading_line-Lacks =
      All-append (λ a. a ≢ b'\n') (codes "## [") _ (spells (codes "## [") refl)
        (All-append (λ a. a ≢ b'\n') (to_string p.version) (codes "] - " ++ format_date p.date)
          plan.prints.no_newline
          (All-append (λ a. a ≢ b'\n') (codes "] - ") (format_date p.date)
            (spells (codes "] - ") refl)
            (format_date-Lacks p.date plan.date_fits b'\n' refl (omega arith))))

  -- What the loop appends for a line: at least one line, and no newline in it.
  abbrev Lines : List Bytes → Type 0
  Lines ls = (ls ≢ []) × All (Lacks b'\n') ls

  rewrite_link-Lines :
      (l : Bytes) (o : Option (Bytes × Bytes)) → Lacks b'\n' l → Lines (rewrite_link p l o)
  rewrite_link-Lines l none h = (λ e. cc, (h, tt))
  rewrite_link-Lines l (some (name, url)) h = choice (bytes_eq name (codes "Unreleased"))
    where
      choice : (b : Bool) → Lines (if b then new_links p else l ∷ [])
      choice true = (λ e. cc, new_links-Lacks)
      choice false = (λ e. cc, (h, tt))

  rewrite_line-Lines : (n i : ℕ) (l : Bytes) → Lacks b'\n' l → Lines (rewrite_line p n i l)
  rewrite_line-Lines n i l h = choice (i == n)
    where
      choice :
          (b : Bool)
          → Lines (
              if b
              then unreleased_head ∷ [] ∷ heading_line p.version (format_date p.date) ∷ []
              else rewrite_link p l (link_def l))
      choice true = (λ e. cc, (spells unreleased_head refl, (tt, (heading_line-Lacks, tt))))
      choice false = rewrite_link-Lines l (link_def l) h

  rewrite_lines-Lacks :
      (n i : ℕ) (ls : List Bytes)
      → All (Lacks b'\n') ls
      → All (Lacks b'\n') (rewrite_lines p n i ls)
  unfolding rewrite_lines
  rewrite_lines-Lacks n i [] h = tt
  rewrite_lines-Lacks n i (l ∷ ls) (hl, h) =
      All-append (Lacks b'\n') (rewrite_line p n i l) (rewrite_lines p n (suc i) ls)
        (rewrite_line-Lines n i l hl).1 (rewrite_lines-Lacks n (suc i) ls h)

  -- `Parse` splits the new text into the lines that were joined.
  pub split-rewrite_lines :
      (n : ℕ) (text : Bytes)
      → split b'\n' (join b'\n' (rewrite_lines p n 0 (split b'\n' text)))
        ≡ rewrite_lines p n 0 (split b'\n' text)
  split-rewrite_lines n text =
      split-join b'\n' _
        (some_line (split b'\n' text) (split-ne-nil b'\n' text) (split-All-Lacks b'\n' text))
        (rewrite_lines-Lacks n 0 (split b'\n' text) (split-All-Lacks b'\n' text))
    where
      some_line : (ls : List Bytes) → ls ≢ [] → All (Lacks b'\n') ls → rewrite_lines p n 0 ls ≢ []
      some_line [] ne h e = ne refl
      some_line (l ∷ ls) ne (hl, h) e =
          (rewrite_line-Lines n 0 l hl).0
            (append-eq-nil (rewrite_line p n 0 l) (rewrite_lines p n 1 ls)
              (unfold rewrite_lines in e)).0
