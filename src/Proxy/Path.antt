-- ===== src/Proxy/Path.antt =====
-- The paths of the frontend's files in src/ios_webkit_debug_proxy.c: `iwdp_get_frontend_path` and
-- `iwdp_get_content_type`.
pub mod Contained
use bootstrap_agency_templat.Prelude.{
  ℕ, zero, suc, ◌+◌, ◌-◌, ◌*◌, ◌/◌, ◌%◌, ◌^◌, ◌≤◌, ◌<◌, min, max, ◌≡◌, refl, sym, ap, ap₂, ◌∙◌,
  subst, fun_ext, ◌≢◌, ◌↔◌, ◌⊎◌, inl, inr, Bool, true, false, not, ◌&&◌, ◌||◌, Option, none, some,
  List, [], ◌∷◌, ◌++◌, map, append-nil, append_assoc, arith, ltb, leb, ◌==◌, if◌then◌else◌, ltb→lt,
  lt→ltb, leb→le, le→leb, ltb-false, ==_iff, ==_refl, ==_ne, tests, Bool-cases, Option-cases,
  length, get_or, set, take, drop, replicate, length-append, length-set, length-take, length-drop,
  length-replicate, get_or-set_self, get_or-set_ne, take-append-drop, take-append_length,
  drop-append_length, take-append_le, drop-append_le, take_all, drop_all, drop-drop, take-nil,
  take_seam, drop_seam, drop-take, nil_of_length, bit_xor_twice, bit_xor-bits, bit_xor-halves,
}
use bootstrap_agency_templat.Libc.{codes, starts_with, strcasecmp_equal, strrchr, strnstr}

-- the test of the second loop on `res_tail`
unfoldable pub is_allowed : ℕ → Bool
is_allowed ch =
    leb b'a' ch && leb ch b'z'
    || leb b'A' ch && leb ch b'Z'
    || leb b'0' ch && leb ch b'9'
    || (ch == b'-' || ch == b'.' || ch == b'/' || ch == b'_')

-- both loops: how far `res_tail` goes over the slashes, and how far over what is allowed
unfoldable pub slashes : List ℕ → ℕ
slashes [] = 0
slashes (c ∷ s) = if c == b'/' then suc (slashes s) else 0

unfoldable pub allowed_len : List ℕ → ℕ
allowed_len [] = 0
allowed_len (c ∷ s) = if is_allowed c then suc (allowed_len s) else 0

unfoldable pub res_len : List ℕ → ℕ
unfolding slashes allowed_len
res_len res = slashes res + allowed_len (drop (slashes res) res)

-- `fe_path_len`, and what is behind the last slash
unfoldable pub dir_len : List ℕ → ℕ
unfolding strrchr
dir_len fe_path = elim (strrchr b'/' fe_path) [ none ↦ 0 | some i ↦ suc i ]

unfoldable pub fe_file : List ℕ → Option (List ℕ)
unfolding strrchr
fe_file fe_path = elim (strrchr b'/' fe_path) [ none ↦ none | some i ↦ some (drop (suc i) fe_path) ]

-- what follows the directory in the path, from the resource without its prefix
unfoldable pub chosen : List ℕ → List ℕ → List ℕ
unfolding res_len fe_file
chosen fe_path res =
    if res_len res == 0
    then elim (fe_file fe_path) [ none ↦ [] | some file ↦ file ]
    else take (res_len res) res

abbrev pub devtools : List ℕ
devtools = codes "/devtools/"

abbrev pub dot_dot : List ℕ
dot_dot = codes ".."

-- `iwdp_get_frontend_path`; `none` is its error, where it leaves no path
unfoldable pub get_frontend_path : Option (List ℕ) → Option (List ℕ) → Option (List ℕ)
unfolding starts_with strnstr res_len dir_len chosen
get_frontend_path none resource = none
get_frontend_path (some fe_path) none = none
get_frontend_path (some fe_path) (some resource) =
    let res = drop 10 resource in
    if not (starts_with devtools resource)
    then none
    else elim (strnstr dot_dot (take (res_len res) res)) [
      | some _ ↦ none
      | none ↦ some (take (dir_len fe_path) fe_path ++ chosen fe_path res)
    ]

-- `EXT_TO_MIME`
abbrev pub ext_to_mime : List (List ℕ × List ℕ)
ext_to_mime =
    (codes "css", codes "text/css")
    ∷ (codes "gif", codes "image/gif; charset=binary")
    ∷ (codes "html", codes "text/html; charset=UTF-8")
    ∷ (codes "ico", codes "image/x-icon")
    ∷ (codes "js", codes "application/javascript")
    ∷ (codes "json", codes "application/json; charset=UTF-8")
    ∷ (codes "png", codes "image/png; charset=binary")
    ∷ (codes "txt", codes "text/plain")
    ∷ []

unfoldable pub mime_of : List ℕ → List (List ℕ × List ℕ) → Option (List ℕ)
unfolding strcasecmp_equal
mime_of fext [] = none
mime_of fext (entry ∷ entries) =
    if strcasecmp_equal fext entry.0 then some entry.1 else mime_of fext entries

-- `iwdp_get_content_type` in a build without libmagic
unfoldable pub get_content_type : List ℕ → Option (List ℕ)
unfolding strrchr mime_of
get_content_type path = elim (strrchr b'.' path) [
  | none ↦ none
  | some i ↦ mime_of (drop (suc i) path) ext_to_mime
]
