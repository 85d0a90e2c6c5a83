-- ===== src/Proxy/Path/Contained.antt =====
-- Where the path that `iwdp_get_frontend_path` of src/ios_webkit_debug_proxy.c gives can lead.
use bootstrap_agency_templat.Prelude.{
  ℕ, zero, suc, ◌+◌, ◌≡◌, refl, sym, ap, ap₂, ◌∙◌, subst, ◌≢◌, inl, inr, true, false, none, some,
  List, [], ◌∷◌, ◌++◌, arith, ◌==◌, Bool-cases, Option-cases, length, get_or, take, drop,
  take-append-drop, take_all,
}
use bootstrap_agency_templat.Libc.{starts_with, strrchr, strnstr}
use bootstrap_agency_templat.Proxy.Path.{
  is_allowed, slashes, allowed_len, res_len, dir_len, fe_file, chosen, devtools, dot_dot,
  get_frontend_path,
}

-- every byte is a letter, a digit or one of `-./_`
pub data AllAllowed : List ℕ → Type 0 where
  none_left : AllAllowed []
  one_more : {c : ℕ} {s : List ℕ} → is_allowed c ≡ true → AllAllowed s → AllAllowed (c ∷ s)

-- two dots stand nowhere next to each other
abbrev pub NoDotDot : List ℕ → Type 0
NoDotDot s = (i : ℕ) → get_or s i 0 ≡ b'.' → get_or s (suc i) 0 ≢ b'.'

is_allowed-zero : (c : ℕ) → is_allowed c ≡ true → (c == 0) ≡ false
unfolding is_allowed
is_allowed-zero c h = ground arith

is_allowed-slash : (c : ℕ) → (c == b'/') ≡ true → is_allowed c ≡ true
unfolding is_allowed
is_allowed-slash c h = ground arith

res_len-allowed_len : (s : List ℕ) → res_len s ≡ allowed_len s
unfolding res_len slashes allowed_len
res_len-allowed_len [] = refl
res_len-allowed_len (c ∷ s) = elim (Bool-cases (c == b'/')) [
  | inr f ↦ rw (f, slashes) (omega arith)
  | inl t ↦
      rw (t, is_allowed-slash c t, slashes, allowed_len)
        (let rest : slashes s + allowed_len (drop (slashes s) s) ≡ allowed_len s =
            res_len-allowed_len s in
          omega (arith, rest))
]

take-AllAllowed : (s : List ℕ) → AllAllowed (take (allowed_len s) s)
unfolding allowed_len
take-AllAllowed [] = none_left
take-AllAllowed (c ∷ s) = elim (Bool-cases (is_allowed c)) [
  | inl t ↦ rw (t, allowed_len) (one_more t (take-AllAllowed s))
  | inr f ↦ rw (f, allowed_len) none_left
]

strnstr-NoDotDot : (s : List ℕ) → AllAllowed s → strnstr dot_dot s ≡ none → NoDotDot s
unfolding strnstr starts_with is_allowed
strnstr-NoDotDot [] none_left h i e = absurd (omega arith)
strnstr-NoDotDot (c ∷ []) (one_more a all) h zero e = λ f. absurd (omega arith)
strnstr-NoDotDot (c ∷ d ∷ s) (one_more a all) h zero e = ground arith
strnstr-NoDotDot (c ∷ s) (one_more a all) h (suc i) e =
    strnstr-NoDotDot s all (ground (arith, is_allowed-zero c a)) i e

allowed_len-all : (s : List ℕ) → AllAllowed s → allowed_len s ≡ length s
unfolding allowed_len
allowed_len-all [] none_left = refl
allowed_len-all (c ∷ s) (one_more a all) = rw (a, allowed_len) (ap suc (allowed_len-all s all))

take_res-AllAllowed : (s : List ℕ) → AllAllowed (take (res_len s) s)
take_res-AllAllowed s = rw (res_len-allowed_len s) (take-AllAllowed s)

-- What a path can be: the frontend itself, or what stands behind its directory.
pub data Contained (fe_path path : List ℕ) : Type 0 where
  itself : path ≡ fe_path → Contained fe_path path
  inside :
      (rest : List ℕ)
      → path ≡ take (dir_len fe_path) fe_path ++ rest
      → AllAllowed rest
      → NoDotDot rest
      → Contained fe_path path

chosen-Contained :
    (fe_path res : List ℕ)
    → strnstr dot_dot (take (res_len res) res) ≡ none
    → Contained fe_path (take (dir_len fe_path) fe_path ++ chosen fe_path res)
unfolding chosen dir_len fe_file
chosen-Contained fe_path res h = elim (Bool-cases (res_len res == 0)) [
  | inr f ↦
      inside (take (res_len res) res) (rw (f, chosen) refl) (take_res-AllAllowed res)
        (strnstr-NoDotDot (take (res_len res) res) (take_res-AllAllowed res) h)
  | inl t ↦ elim (Option-cases (strrchr b'/' fe_path)) [
    | inl nowhere ↦ inside [] (rw (t, chosen, nowhere) refl) none_left (λ i e. absurd (omega arith))
    | inr (i, there) ↦
        let dir : dir_len fe_path ≡ suc i = rw (there, dir_len) refl in
        let file : chosen fe_path res ≡ drop (suc i) fe_path = rw (t, there, chosen) refl in
        itself (ap₂ (λ n rest. take n fe_path ++ rest) dir file ∙ take-append-drop (suc i) fe_path)
  ]
]

-- Whatever the browser asks for, the path is the frontend itself, or its directory followed by letters,
-- digits and `-./_` in which two dots never stand next to each other.
pub get_frontend_path-Contained :
    (fe_path resource path : List ℕ)
    → get_frontend_path (some fe_path) (some resource) ≡ some path
    → Contained fe_path path
unfolding get_frontend_path
get_frontend_path-Contained fe_path resource path h =
    let res = drop 10 resource in
    elim (Bool-cases (starts_with devtools resource)) [
      | inr f ↦
          let refused : get_frontend_path (some fe_path) (some resource) ≡ none =
            rw (f, get_frontend_path) refl in
          absurd (cc (h, refused))
      | inl t ↦ elim (Option-cases (strnstr dot_dot (take (res_len res) res))) [
        | inr (i, bad) ↦
            let refused : get_frontend_path (some fe_path) (some resource) ≡ none =
              rw (t, bad, get_frontend_path) refl in
            absurd (cc (h, refused))
        | inl good ↦
            let same : some path ≡ some (take (dir_len fe_path) fe_path ++ chosen fe_path res) =
              sym h ∙ rw (t, good, get_frontend_path) refl in
            subst (Contained fe_path) (sym (cc same)) (chosen-Contained fe_path res good)
      ]
    ]

-- What is asked for stands behind the directory, if all of it is allowed.
pub get_frontend_path-asked :
    (fe_path : List ℕ) (c : ℕ) (s : List ℕ)
    → AllAllowed (c ∷ s)
    → strnstr dot_dot (c ∷ s) ≡ none
    → get_frontend_path (some fe_path) (some (devtools ++ (c ∷ s)))
      ≡ some (take (dir_len fe_path) fe_path ++ (c ∷ s))
unfolding get_frontend_path chosen starts_with
get_frontend_path-asked fe_path c s all h =
    let whole : res_len (c ∷ s) ≡ suc (length s) =
      res_len-allowed_len (c ∷ s) ∙ allowed_len-all (c ∷ s) all in
    let taken : take (res_len (c ∷ s)) (c ∷ s) ≡ c ∷ s =
      rw (whole) (take_all (suc (length s)) (c ∷ s) (omega arith)) in
    let rest : chosen fe_path (c ∷ s) ≡ c ∷ s =
      let long : (suc (length s) == 0) ≡ false = ground arith in
      rw (whole, long, chosen) (take_all (suc (length s)) (c ∷ s) (omega arith)) in
    rw (taken, h, rest, get_frontend_path) refl

-- Where the frontend has no slash, a browser that asks for an absolute path behind `/devtools/` gets this
-- path, if it is made of letters, digits and `-./_` without two dots next to each other.
pub get_frontend_path-root :
    (fe_path : List ℕ) (c : ℕ) (s : List ℕ)
    → strrchr b'/' fe_path ≡ none
    → AllAllowed (c ∷ s)
    → strnstr dot_dot (c ∷ s) ≡ none
    → get_frontend_path (some fe_path) (some (devtools ++ (c ∷ s))) ≡ some (c ∷ s)
unfolding dir_len
get_frontend_path-root fe_path c s nowhere all h =
    let dir : dir_len fe_path ≡ 0 = rw (nowhere, dir_len) refl in
    get_frontend_path-asked fe_path c s all h ∙ ap (λ n. some (take n fe_path ++ (c ∷ s))) dir
