-- ===== src/Manifest/RoundTrip.antt =====
-- `Parse` reads back what `Bytes` writes.
use release_me.Prelude.{
  reject_iff, ||-eq-false, ℕ, ◌+◌, ◌≤◌, ◌≡◌, ◌≢◌, refl, sym, ap, ◌∙◌, subst, true, false, ◌||◌,
  none, some, List, [], ◌∷◌, ◌++◌, append_assoc, append-nil, map, arith, leb, ltb, all, length, All,
  All-append, All-append_left, All-append_right, length-append, take, drop, take-append_length,
  drop-append_length, Bytes, codes, Lacks, all-Lacks, bytes_eq, to_lower, raw_lines, drop_cr, index,
  is_empty, ok,
}
use release_me.Manifest.{
  Entry, Manifest, valid_name, name_byte, is_hex, add, lookup, render, parse_line, parse_lines,
  parse, max_token,
}
use release_me.Manifest.Search.{IsSorted, NameLt}
use release_me.Manifest.Sorted.{put_last, find_above, place-put, lookup-find}
use release_me.Manifest.Valid.{EntryOk, IsValid, Accepts, add_complete, is_lower_hex}

abbrev line : Entry → Bytes
line e = e.sha256 ++ (b' ' ∷ b' ' ∷ e.name)

raw_lines-append :
    (l rest : Bytes) → Lacks b'\n' l → raw_lines (l ++ (b'\n' ∷ rest)) ≡ l ∷ raw_lines rest
unfolding raw_lines
raw_lines-append [] rest h = refl
raw_lines-append (c ∷ l) rest (hc, h) = ground (arith, raw_lines-append l rest h)

drop_cr-Lacks : (l : Bytes) → Lacks b'\r' l → drop_cr l ≡ l
unfolding drop_cr
drop_cr-Lacks [] h = refl
drop_cr-Lacks (c ∷ []) (hc, h) = ground arith
drop_cr-Lacks (c ∷ d ∷ l) (hc, h) = ap (λ t. c ∷ t) (drop_cr-Lacks (d ∷ l) h)

index-append :
    (s t : Bytes) → Lacks b' ' s → index (s ++ (b' ' ∷ b' ' ∷ t)) (codes "  ") ≡ some (length s)
unfolding index
index-append [] t h = refl
index-append (c ∷ s) t (hc, h) = ground (arith, index-append s t h)

to_lower-lower_hex : (s : Bytes) → all is_lower_hex s ≡ true → to_lower s ≡ s
to_lower-lower_hex [] h = refl
to_lower-lower_hex (c ∷ s) h = ground (arith, to_lower-lower_hex s)

lower_hex-hex : (s : Bytes) → all is_lower_hex s ≡ true → all is_hex s ≡ true
lower_hex-hex [] h = refl
lower_hex-hex (c ∷ s) h = ground (arith, lower_hex-hex s)

-- What `ValidName` asks, without the tests of the first byte.
valid_name_bounds :
    (s : Bytes) → valid_name s ≡ true → (all name_byte s ≡ true) × (1 ≤ length s) × (length s ≤ 255)
unfolding valid_name
valid_name_bounds [] h = cc
valid_name_bounds (c ∷ s) h =
    let (limits, rest) = reject_iff _ _ h in
    let (_, bytes) = reject_iff _ _ rest in
    let (long, _) =
      ||-eq-false (ltb 255 (length (c ∷ s)) || bytes_eq (c ∷ s) (codes ".")) _ limits in
    let (fits, _) = ||-eq-false (ltb 255 (length (c ∷ s))) _ long in
    (bytes, omega arith, ground arith)

module _ (e : Entry) (h : EntryOk e) where
  line-Lacks : (x : ℕ) → is_lower_hex x ≡ false → name_byte x ≡ false → b' ' ≢ x → Lacks x (line e)
  line-Lacks x fx fn ne =
      All-append _ e.sha256 (b' ' ∷ b' ' ∷ e.name)
        (all-Lacks is_lower_hex x e.sha256 fx h.digest_hex)
        (ne, (ne, all-Lacks name_byte x e.name fn (valid_name_bounds e.name h.name_ok).0))

  length-line : length (line e) ≡ 66 + length e.name
  length-line = omega (arith, length-append e.sha256 (b' ' ∷ b' ' ∷ e.name), h.digest_size)

  index-line : index (line e) (codes "  ") ≡ some 64
  index-line =
      index-append e.sha256 e.name (all-Lacks is_lower_hex b' ' e.sha256 refl h.digest_hex)
      ∙ ap some h.digest_size

  take-line : take 64 (line e) ≡ e.sha256
  take-line =
      subst (λ k. take k (line e) ≡ e.sha256) h.digest_size
        (take-append_length e.sha256 (b' ' ∷ b' ' ∷ e.name))

  drop-line : drop 66 (line e) ≡ e.name
  drop-line =
      let prefix = e.sha256 ++ (b' ' ∷ b' ' ∷ []) in
      let size : length prefix ≡ 66 =
        omega (arith, length-append e.sha256 (b' ' ∷ b' ' ∷ []), h.digest_size) in
      ap (drop 66) (sym (append_assoc e.sha256 (b' ' ∷ b' ' ∷ []) e.name))
      ∙ subst (λ k. drop k (prefix ++ e.name) ≡ e.name) size (drop-append_length prefix e.name)

pub IsSorted-append_left : (xs ys : List Entry) → IsSorted (xs ++ ys) → IsSorted xs
IsSorted-append_left [] ys h = tt
IsSorted-append_left (x ∷ xs) ys (hx, h) =
    (All-append_left _ xs ys hx, IsSorted-append_left xs ys h)

pub below_middle :
    (xs : List Entry) (e : Entry) (ys : List Entry)
    → IsSorted (xs ++ (e ∷ ys))
    → All (λ d. NameLt d.name e.name) xs
below_middle [] e ys h = tt
below_middle (x ∷ xs) e ys (hx, h) = ((All-append_right _ xs (e ∷ ys) hx).0, below_middle xs e ys h)

-- An entry that comes behind all others is added at the end.
pub add_last :
    (m : Manifest) (e : Entry)
    → IsSorted m
    → EntryOk e
    → All (λ d. NameLt d.name e.name) m
    → add m e.name e.sha256 ≡ ok (m ++ (e ∷ []))
add_last m e s h below =
    let accepted : Accepts e.name e.sha256 = record {
      name_ok = h.name_ok;
      size = h.digest_size;
      hex = lower_hex-hex e.sha256 h.digest_hex;
    } in
    add_complete m e.name e.sha256 accepted
    ∙ rw (
      to_lower-lower_hex e.sha256 h.digest_hex,
      place-put e.name e.sha256 m s,
      put_last e.name e.sha256 m below,
    )

-- One round of `Parse` on a line of `Bytes`.
parse_line-line :
    (n : ℕ) (m : Manifest) (e : Entry)
    → IsSorted m
    → EntryOk e
    → All (λ d. NameLt d.name e.name) m
    → parse_line n (line e) m ≡ ok (m ++ (e ∷ []))
unfolding parse_line
parse_line-line n m e s h below =
    let (_, positive, _) = valid_name_bounds e.name h.name_ok in
    let added : add m e.name e.sha256 ≡ ok (m ++ (e ∷ [])) = add_last m e s h below in
    let long : is_empty (line e) ≡ false =
      is_empty_of_length (line e) (omega (arith, length-line e h)) in
    let enough : ltb (length (line e)) 67 ≡ false = rw (length-line e h) (ground arith) in
    let new : lookup m e.name ≡ none = lookup-find e.name m s ∙ find_above e.name m below in
    rw (long, index-line e h, enough, drop-line e h, take-line e h, new, added)
  where
    is_empty_of_length : (l : Bytes) → 1 ≤ length l → is_empty l ≡ false
    is_empty_of_length [] h = absurd (omega arith)
    is_empty_of_length (c ∷ l) h = refl

parse_lines-lines :
    (n : ℕ) (es m : List Entry)
    → IsSorted (m ++ es)
    → All EntryOk es
    → parse_lines n (map line es) m ≡ ok (m ++ es)
unfolding parse_lines
parse_lines-lines n [] m s h = rw append-nil
parse_lines-lines n (e ∷ es) m s (he, h) =
    let below = below_middle m e es s in
    let fits : leb max_token (length (line e)) ≡ false =
      rw (length-line e he) (ground (arith, valid_name_bounds e.name he.name_ok)) in
    let uncut : drop_cr (line e) ≡ line e =
      drop_cr-Lacks (line e) (line-Lacks e he b'\r' refl refl (omega arith)) in
    rw (fits, uncut, parse_line-line (n + 1) m e (IsSorted-append_left m (e ∷ es) s) he below)
      (parse_lines-lines (n + 1) es (m ++ (e ∷ [])) (rw (append_assoc m (e ∷ []) es) s) h
        ∙ rw append_assoc)

raw_lines-render : (m : Manifest) → All EntryOk m → raw_lines (render m) ≡ map line m
raw_lines-render [] h = unfold render raw_lines in refl
raw_lines-render (e ∷ es) (he, h) =
    let whole : render (e ∷ es) ≡ line e ++ (b'\n' ∷ render es) =
      unfold render in rw append_assoc in
    ap raw_lines whole
    ∙ raw_lines-append (line e) (render es) (line-Lacks e he b'\n' refl refl (omega arith))
    ∙ ap (λ t. line e ∷ t) (raw_lines-render es h)

-- A valid manifest with at least one entry is read back unchanged by `Parse` from the bytes that
-- `Bytes` writes.
pub parse-render : (m : Manifest) → IsValid m → m ≢ [] → parse (render m) ≡ ok m
unfolding parse
parse-render [] v ne = absurd (ne refl)
parse-render (e ∷ es) v ne =
    rw (
      raw_lines-render (e ∷ es) v.entries_ok,
      parse_lines-lines 0 (e ∷ es) [] v.sorted v.entries_ok,
    )
