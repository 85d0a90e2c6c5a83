-- ===== src/Proxy/Lists.antt =====
-- `iwdp_on_list_request` and `iwdp_on_static_request` of src/ios_webkit_debug_proxy.c: the answer to a
-- request for a list, and where the frontend's files come from.
use bootstrap_agency_templat.Prelude.{
  ℕ, suc, ◌+◌, ◌≡◌, refl, sym, ap, ◌∙◌, Bool, true, false, not, Option, none, some, List, [], ◌∷◌,
  ◌++◌, arith, ◌==◌, if◌then◌else◌, ==_refl, length, take, drop, take-append-drop,
  drop-append_length, drop-drop,
}
use bootstrap_agency_templat.Libc.{codes, starts_with, starts_with_case, strrchr, strnstr}
use bootstrap_agency_templat.Proxy.{Iport}
use bootstrap_agency_templat.Proxy.Text.{or_else, iports_to_text}
use bootstrap_agency_templat.Proxy.Text.Pages.{ipages_to_text}
use bootstrap_agency_templat.Proxy.Requests.{send_http}
use bootstrap_agency_templat.Proxy.Path.{devtools, dot_dot, dir_len, get_frontend_path}
use bootstrap_agency_templat.Proxy.Path.Contained.{AllAllowed, get_frontend_path-asked}

abbrev scheme_end : List ℕ
scheme_end = codes "://"

-- `fe_path`: behind the scheme
unfoldable pub behind_scheme : List ℕ → List ℕ
unfolding strnstr
behind_scheme fe_url = elim (strnstr scheme_end fe_url) [
  | none ↦ fe_url
  | some i ↦ drop (i + 3) fe_url
]

-- `fe_file`: behind the last slash; `none` where nothing is there
unfoldable pub last_name : List ℕ → Option (List ℕ)
unfolding strrchr
last_name fe_path = elim (strrchr b'/' fe_path) [
  | none ↦ some fe_path
  | some i ↦ if length (drop i fe_path) == 1 then none else some (drop (suc i) fe_path)
]

-- `frontend_url`. A null `fe_file` is printed as the C library prints a null string.
unfoldable pub frontend_url : Option (List ℕ) → Option (List ℕ)
unfolding starts_with_case behind_scheme last_name
frontend_url none = none
frontend_url (some fe_url) =
    if starts_with_case (codes "chrome-devtools://") fe_url
    then some fe_url
    else some (devtools ++ or_else (last_name (behind_scheme fe_url)) (codes "(null)"))

-- `iwdp_on_list_request`: the bytes that are sent
unfoldable pub on_list_request :
    List Iport → Option (List ℕ) → Iport → Bool → Bool → Option (List ℕ) → List ℕ
unfolding frontend_url ipages_to_text iports_to_text send_http
on_list_request iports frontend iport is_head want_json host =
    let content : List ℕ = elim iport.device_id [
      | none ↦ iports_to_text iports want_json host
      | some device_id ↦
          ipages_to_text iport.pages want_json device_id
            (or_else iport.device_name (codes "(null)")) (frontend_url frontend) host iport.port
    ] in
    send_http is_head (codes "200 OK") (if want_json then codes ".json" else codes ".html")
      (some content)

-- Where a file of the frontend is.
pub data Source : Type 0 where
  -- `iwdp_on_static_request_for_file`, and its path
  file : (fe_path : List ℕ) → Source
  -- `iwdp_on_static_request_for_http`
  http : Source
  -- `iwdp_on_not_found`, with its details
  not_found : (details : List ℕ) → Source
  -- the internal error
  refused : Source

-- `iwdp_on_static_request`
unfoldable pub on_static_request : Option (List ℕ) → List ℕ → Source
unfolding starts_with starts_with_case strnstr
on_static_request frontend resource =
    if not (starts_with devtools resource) then refused else elim frontend [
      | none ↦ not_found (codes "Frontend is disabled.")
      | some fe_url ↦
          let is_file : Bool = elim (strnstr scheme_end fe_url) [ none ↦ true | some _ ↦ false ] in
          if is_file
          then file fe_url
          else if starts_with_case (codes "file://") fe_url
          then file (drop 7 fe_url)
          else if starts_with_case (codes "http://") fe_url
          then http
          else not_found (codes "Invalid frontend URL?")
    ]

two_more : (n : ℕ) → (suc (suc n) == 1) ≡ false
two_more n = ground arith

strrchr-last :
    (c : ℕ) (dir name : List ℕ)
    → strrchr c name ≡ none
    → strrchr c (dir ++ (c ∷ name)) ≡ some (length dir)
unfolding strrchr
strrchr-last c [] name h = rw (h, ==_refl c) refl
strrchr-last c (d ∷ dir) name h = rw (strrchr-last c dir name h) refl

-- The link in the list of pages leads back to the frontend: where the frontend is a file in a directory,
-- the path for the link is the frontend itself. The name of the file is made of letters, digits and `-._`, and two dots
-- do not stand next to each other in it.
pub get_frontend_path-frontend_url :
    (dir : List ℕ) (c : ℕ) (name : List ℕ)
    → strrchr b'/' (c ∷ name) ≡ none
    → AllAllowed (c ∷ name)
    → strnstr dot_dot (c ∷ name) ≡ none
    → strnstr scheme_end (dir ++ (b'/' ∷ c ∷ name)) ≡ none
    → starts_with_case (codes "chrome-devtools://") (dir ++ (b'/' ∷ c ∷ name)) ≡ false
    → get_frontend_path
        (some (dir ++ (b'/' ∷ c ∷ name)))
        (frontend_url (some (dir ++ (b'/' ∷ c ∷ name))))
      ≡ some (dir ++ (b'/' ∷ c ∷ name))
unfolding frontend_url behind_scheme last_name dir_len
get_frontend_path-frontend_url dir c name flat all safe plain other =
    let fe = dir ++ (b'/' ∷ c ∷ name) in
    let last : strrchr b'/' fe ≡ some (length dir) = strrchr-last b'/' dir (c ∷ name) flat in
    let tail : drop (length dir) fe ≡ b'/' ∷ c ∷ name = drop-append_length dir (b'/' ∷ c ∷ name) in
    let rest : drop (suc (length dir)) fe ≡ c ∷ name =
      sym (drop-drop (length dir) 1 (suc (length dir)) fe (omega arith)) ∙ ap (drop 1) tail in
    let path : behind_scheme fe ≡ fe = rw (plain, behind_scheme) refl in
    let long : (length (drop (length dir) fe) == 1) ≡ false =
      ap (λ l. length l == 1) tail ∙ two_more (length name) in
    let file_name : last_name fe ≡ some (c ∷ name) = rw (last, long, last_name) (ap some rest) in
    let url : frontend_url (some fe) ≡ some (devtools ++ (c ∷ name)) =
      rw (other, path, file_name, frontend_url) refl in
    let directory : dir_len fe ≡ suc (length dir) = rw (last, dir_len) refl in
    ap (get_frontend_path (some fe)) url
    ∙ get_frontend_path-asked fe c name all safe
    ∙ ap (λ n. some (take n fe ++ (c ∷ name))) directory
    ∙ ap (λ l. some (take (suc (length dir)) fe ++ l)) (sym rest)
    ∙ ap some (take-append-drop (suc (length dir)) fe)
