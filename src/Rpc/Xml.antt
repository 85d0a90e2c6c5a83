-- ===== src/Rpc/Xml.antt =====
-- The XML of an argument that src/rpc.c writes to its log.
use bootstrap_agency_templat.Prelude.{
  ℕ, zero, suc, ◌+◌, ◌-◌, Bool, ◌&&◌, ◌||◌, Option, none, some, List, [], ◌∷◌, leb, ◌==◌,
  if◌then◌else◌, length, get_or, take, drop,
}
use bootstrap_agency_templat.Libc.{codes, starts_with, strchr, strnstr}
use bootstrap_agency_templat.Rpc.{Plist, ◌>>=◌}

abbrev pub newline : ℕ
newline = 10

abbrev pub open_tag : List ℕ
open_tag = codes "<plist"

abbrev pub close_tag : List ℕ
close_tag = codes "</plist>"

unfoldable pub skip_newlines : List ℕ → List ℕ
skip_newlines [] = []
skip_newlines (c ∷ s) = let rest = skip_newlines s in if c == newline then rest else c ∷ s

-- where the loop on `tail` stops, from `n` on: not behind a byte that is a newline or a zero
unfoldable pub tail_from : List ℕ → ℕ → ℕ
tail_from s zero = 0
tail_from s (suc n) =
    let before = tail_from s n in
    let c = get_or s (suc n) 0 in if c == 0 || c == newline then before else suc n

-- what is between the tags, from behind the first
unfoldable pub inner : List ℕ → Option (List ℕ)
unfolding tail_from starts_with
inner s =
    let tail = tail_from s (length s) in
    if leb 8 tail && starts_with close_tag (drop (tail - 7) s)
    then some (take (tail - 8) s)
    else none

-- the text behind the tag that `head` ends up behind; `none` where there is no such tag
unfoldable pub behind_tag : List ℕ → Option (List ℕ)
unfolding strnstr strchr skip_newlines
behind_tag xml = strnstr open_tag xml >>= λ i.
    strchr b'>' (drop i xml) >>= λ j. some (skip_newlines (drop (i + j + 1) xml))

-- the trimming in `rpc_args_to_xml`
unfoldable pub trim : List ℕ → List ℕ
unfolding behind_tag inner
trim xml = elim (behind_tag xml >>= inner) [ none ↦ xml | some text ↦ text ]

-- `rpc_args_to_xml`; `none` is its error
unfoldable pub args_to_xml : {N : Type 0} → Plist N → Option N → Bool → Option (List ℕ)
unfolding trim
args_to_xml plist none should_trim = none
args_to_xml plist (some args) should_trim = elim (plist.to_xml args) [
  | none ↦ none
  | some [] ↦ none
  | some (c ∷ xml) ↦ some (if should_trim then trim (c ∷ xml) else c ∷ xml)
]
