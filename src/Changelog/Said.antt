-- ===== src/Changelog/Said.antt =====
-- internal/changelog/changelog.go: what sections say, whatever the numbers of their lines.
use release_me.Prelude.{◌≡◌, refl, ap, List, [], ◌∷◌, map, Bytes, join, trim_space}
use release_me.Changelog.Moved.{outline}
use release_me.Changelog.{
  Heading, unreleased_at, released_at, Section, Release, releases_of, unreleased_of, section_body,
  add_release, or_body, strip_links,
}
use release_me.Changelog.Rewrite.{}

-- A release without the number of its line.
abbrev pub unnumbered : Release → Release
unnumbered r = record r { line = 0 }

-- The releases and the body of [Unreleased] that sections say.
abbrev pub said_releases : List (Heading × List Bytes) → List Release
said_releases [] = []
said_releases ((unreleased_at _, ls) ∷ rest) = said_releases rest
said_releases ((released_at v date yanked _, ls) ∷ rest) =
    record {
      version = v;
      date = date;
      yanked = yanked;
      body = trim_space (join b'\n' ls);
      line = 0;
    }
    ∷ said_releases rest

abbrev pub said_unreleased : List (Heading × List Bytes) → Bytes
said_unreleased [] = []
said_unreleased ((unreleased_at _, ls) ∷ rest) = trim_space (join b'\n' ls)
said_unreleased ((released_at _ _ _ _, ls) ∷ rest) = said_unreleased rest

pub releases_of-outline :
    (ss : List Section) → map unnumbered (releases_of ss) ≡ said_releases (map outline ss)
unfolding releases_of section_body
releases_of-outline [] = refl
releases_of-outline (s ∷ ss) = one s.heading s.lines (releases_of-outline ss)
  where
    one :
        (h : Heading) (ls : List Bytes)
        → map unnumbered (releases_of ss) ≡ said_releases (map outline ss)
        → map unnumbered (add_release h (section_body ls) (releases_of ss))
          ≡ said_releases (outline (record { heading = h; lines = ls }) ∷ map outline ss)
    one (unreleased_at i) ls rest = rest
    one (released_at v d y i) ls rest =
        ap
          (λ r.
            record {
              version = v;
              date = d;
              yanked = y;
              body = trim_space (join b'\n' (strip_links ls));
              line = 0;
            }
            ∷ r)
          rest

pub unreleased_of-outline :
    (ss : List Section) → unreleased_of ss ≡ said_unreleased (map outline ss)
unfolding unreleased_of section_body
unreleased_of-outline [] = refl
unreleased_of-outline (s ∷ ss) = one s.heading s.lines (unreleased_of-outline ss)
  where
    one :
        (h : Heading) (ls : List Bytes)
        → unreleased_of ss ≡ said_unreleased (map outline ss)
        → or_body h (section_body ls) (unreleased_of ss)
          ≡ said_unreleased (outline (record { heading = h; lines = ls }) ∷ map outline ss)
    one (unreleased_at i) ls rest = refl
    one (released_at v d y i) ls rest = rest
