-- ===== src/Rpc/Trim.antt =====
-- The trimming of an XML text in src/rpc.c.
use bootstrap_agency_templat.Prelude.{
  ℕ, zero, suc, ◌+◌, ◌-◌, ◌≤◌, ◌<◌, ◌≡◌, refl, sym, ap, ◌∙◌, inl, inr, Bool, true, false, ◌||◌,
  none, some, List, [], ◌∷◌, ◌++◌, append_assoc, arith, ◌==◌, le→leb, ==_refl, Bool-cases,
  Option-cases, length, get_or, take, drop, replicate, length-append, length-replicate,
  drop-append_length, drop-drop, take_seam, drop_seam,
}
use bootstrap_agency_templat.Libc.{strchr, strnstr}
use bootstrap_agency_templat.Rpc.Xml.{
  newline, open_tag, close_tag, skip_newlines, tail_from, inner, behind_tag, trim,
}

-- a byte that the loop on `tail` goes over
abbrev is_blank : ℕ → Bool
is_blank c = c == 0 || c == newline

tail_from-stop :
    (s : List ℕ) (n : ℕ) → is_blank (get_or s (suc n) 0) ≡ false → tail_from s (suc n) ≡ suc n
unfolding tail_from
tail_from-stop s n h = rw (h, tail_from) refl

tail_from-skip :
    (s : List ℕ) (n k : ℕ)
    → ((i : ℕ) → n < i → i ≤ n + k → is_blank (get_or s i 0) ≡ true)
    → tail_from s (n + k) ≡ tail_from s n
unfolding tail_from
tail_from-skip s n zero blank = let same : n + 0 ≡ n = omega arith in ap (tail_from s) same
tail_from-skip s n (suc k) blank =
    let same : n + suc k ≡ suc (n + k) = omega arith in
    ap (tail_from s) same
    ∙ rw (blank (suc (n + k)) (omega arith) (omega arith), tail_from)
        (tail_from-skip s n k (λ i l u. blank i l (omega arith)))

get_or-append : (xs ys : List ℕ) (i d : ℕ) → get_or (xs ++ ys) (length xs + i) d ≡ get_or ys i d
get_or-append [] ys i d = let same : 0 + i ≡ i = omega arith in ap (λ k. get_or ys k d) same
get_or-append (x ∷ xs) ys i d =
    let same : suc (length xs) + i ≡ suc (length xs + i) = omega arith in
    ap (λ k. get_or (x ∷ (xs ++ ys)) k d) same ∙ get_or-append xs ys i d

-- Newlines, and what is behind the end, are gone over.
newlines_blank : (m i : ℕ) → is_blank (get_or (replicate m newline) i 0) ≡ true
newlines_blank zero i = refl
newlines_blank (suc m) zero = refl
newlines_blank (suc m) (suc i) = newlines_blank m i

-- the text between the tags, when the last byte before the second one is left out
inner_lem :
    (text : List ℕ) (last m : ℕ)
    → inner (text ++ (last ∷ (close_tag ++ replicate m newline))) ≡ some text
unfolding inner
inner_lem text last m =
    let rest = last ∷ (close_tag ++ replicate m newline) in
    let s = text ++ rest in
    let n = length text in
    let size : length s ≡ n + 8 + (m + 1) =
      omega (arith, length-append text rest, length-replicate m newline) in
    let newlines = replicate m newline in
    let blank = λ (i : ℕ) (l : n + 8 < i) (u : i ≤ n + 8 + (m + 1)).
      let j = i - n - 9 in
      let at : i ≡ n + (9 + j) = omega arith in
      ap (λ k. is_blank (get_or s k 0)) at
      ∙ ap is_blank
          (get_or-append text rest (9 + j) 0 ∙ get_or-append (last ∷ close_tag) newlines j 0)
      ∙ newlines_blank m j in
    let end : suc (n + 7) ≡ n + 8 = omega arith in
    let stopped : tail_from s (n + 8) ≡ n + 8 =
      ap (tail_from s) (sym end)
      ∙ tail_from-stop s (n + 7)
          (ap (λ k. is_blank (get_or s k 0)) end ∙ ap is_blank (get_or-append text rest 8 0))
      ∙ end in
    let tail : tail_from s (length s) ≡ n + 8 =
      ap (tail_from s) size ∙ tail_from-skip s (n + 8) (m + 1) blank ∙ stopped in
    let behind : drop (n + 8 - 7) s ≡ close_tag ++ newlines =
      ap (drop (n + 8 - 7)) (sym (append_assoc text (last ∷ []) (close_tag ++ newlines)))
      ∙ drop_seam (n + 8 - 7) (text ++ (last ∷ [])) (close_tag ++ newlines)
          (omega (arith, length-append text (last ∷ []))) in
    let before : take (n + 8 - 8) s ≡ text = take_seam (n + 8 - 8) text rest (omega arith) in
    rw (tail, inner, le→leb 8 (n + 8) (omega arith), behind, before) refl

strchr-append :
    (c : ℕ) (xs ys : List ℕ) → strchr c xs ≡ none → strchr c (xs ++ (c ∷ ys)) ≡ some (length xs)
unfolding strchr
strchr-append c [] ys h = rw (==_refl c, strchr) refl
strchr-append c (x ∷ xs) ys h = elim (Bool-cases (c == x)) [
  | inl t ↦ absurd (cc (rw (t, strchr) at h))
  | inr t ↦ elim (Option-cases (strchr c xs)) [
    | inl n ↦ rw (t, strchr, strchr-append c xs ys n) refl
    | inr (i, n) ↦ absurd (cc (rw (t, n, strchr) at h))
  ]
]

skip_newlines_lem :
    (k c : ℕ) (s : List ℕ)
    → (c == newline) ≡ false
    → skip_newlines (replicate k newline ++ (c ∷ s)) ≡ c ∷ s
unfolding skip_newlines
skip_newlines_lem zero c s h = rw (h, skip_newlines) refl
skip_newlines_lem (suc k) c s h = skip_newlines_lem k c s h

behind_tag_lem :
    (pre attributes rest : List ℕ)
    → let xml = pre ++ (open_tag ++ (attributes ++ (b'>' ∷ rest))) in
      strnstr open_tag xml ≡ some (length pre)
      → strchr b'>' attributes ≡ none
      → behind_tag xml ≡ some (skip_newlines rest)
unfolding behind_tag strchr
behind_tag_lem pre attributes rest first closed =
    let xml = pre ++ (open_tag ++ (attributes ++ (b'>' ∷ rest))) in
    let i = length pre in
    let j = length (open_tag ++ attributes) in
    let tag_closed : strchr b'>' (open_tag ++ attributes) ≡ none = rw closed refl in
    let at : drop i xml ≡ (open_tag ++ attributes) ++ (b'>' ∷ rest) = drop-append_length pre _ in
    let close : strchr b'>' (drop i xml) ≡ some j =
      ap (strchr b'>') at ∙ strchr-append b'>' (open_tag ++ attributes) rest tag_closed in
    let left : drop (i + j + 1) xml ≡ rest =
      sym (drop-drop i (j + 1) (i + j + 1) xml (omega arith))
      ∙ ap (drop (j + 1)) (at ∙ sym (append_assoc (open_tag ++ attributes) (b'>' ∷ []) rest))
      ∙ drop_seam (j + 1) ((open_tag ++ attributes) ++ (b'>' ∷ [])) rest
          (omega (arith, length-append (open_tag ++ attributes) (b'>' ∷ []))) in
    rw (first, behind_tag, close, left) refl

-- From a document with one `plist` element the trimming takes what is between its tags, without the
-- newlines behind the first tag and without the last byte, which is a newline in what libplist writes,
-- before the second. The text begins with no newline, the attributes hold no `>`, and only newlines are
-- behind the second tag.
pub trim_lem :
    (pre attributes : List ℕ) (k c : ℕ) (text : List ℕ) (last m : ℕ)
    → let element =
        replicate k newline ++ (c ∷ (text ++ (last ∷ (close_tag ++ replicate m newline)))) in
      let xml = pre ++ (open_tag ++ (attributes ++ (b'>' ∷ element))) in
      strnstr open_tag xml ≡ some (length pre)
      → strchr b'>' attributes ≡ none
      → (c == newline) ≡ false
      → trim xml ≡ c ∷ text
unfolding trim
trim_lem pre attributes k c text last m first closed starts =
    rw
      (
        behind_tag_lem pre attributes _ first closed,
        trim,
        skip_newlines_lem k c _ starts,
        inner_lem (c ∷ text) last m,
      )
      refl
