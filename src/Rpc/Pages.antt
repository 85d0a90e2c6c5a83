-- ===== src/Rpc/Pages.antt =====
-- The lists of pages that src/rpc.c reads from dictionaries.
use bootstrap_agency_templat.Prelude.{
  ℕ, ◌^◌, ◌<◌, ◌≡◌, refl, ap, ◌∙◌, subst, ◌↔◌, inl, inr, true, Option, none, some, List, [], ◌∷◌,
  arith, Bool-cases,
}
use bootstrap_agency_templat.Libc.{codes, strtol}
use bootstrap_agency_templat.Rpc.{
  Plist, Page, ◌>>=◌, item_of, get_optional_string, fits, get_required_uint,
}
use bootstrap_agency_templat.Rpc.Parse.{parse_page, is_number, keyed_page, parse_each, parse_pages}

-- Two lists of one length, related item by item.
abbrev pub Each : {A B : Type 0} → (A → B → Type 0) → List A → List B → Type 0
Each R [] [] = Unit
Each R [] (b ∷ ys) = ⊥
Each R (a ∷ xs) [] = ⊥
Each R (a ∷ xs) (b ∷ ys) = R a b × Each R xs ys

pub bind-some :
    {A B : Type 0} (m : Option A) (f : A → Option B) {b : B}
    → (m >>= f) ≡ some b
    → (a : A) × (m ≡ some a) × (f a ≡ some b)
bind-some none f h = absurd (cc h)
bind-some (some a) f h = (a, refl, h)

some-injective : {A : Type 0} {a b : A} → Option.some a ≡ Option.some b → a ≡ b
some-injective h = cc h

Each-map :
    {A B : Type 0} {R S : A → B → Type 0} (f : (a : A) (b : B) → R a b → S a b) (xs : List A)
    (ys : List B)
    → Each R xs ys
    → Each S xs ys
Each-map f [] [] e = tt
Each-map f [] (b ∷ ys) e = e
Each-map f (a ∷ xs) [] e = e
Each-map f (a ∷ xs) (b ∷ ys) (r, e) = (f a b r, Each-map f xs ys e)

abbrev Entry : Type 0 → Type 0
Entry N = Option (List ℕ) × Option N

module _ {N : Type 0} (plist : Plist N) where
  module _ {A : Type 0} (parse : Entry N → Option A) where
    parse_each-Each :
        (entries : List (Entry N)) (xs : List A)
        → parse_each plist parse entries ≡ some xs
        → Each (λ x a. parse x ≡ some a) entries xs
    unfolding parse_each
    parse_each-Each [] [] h = tt
    parse_each-Each [] (a ∷ xs) h = absurd (cc h)
    parse_each-Each (x ∷ entries) xs h =
        let (a, p, g) = bind-some (parse x) _ h in
        let (rest, q, e) = bind-some (parse_each plist parse entries) _ g in
        subst (Each (λ x a. parse x ≡ some a) (x ∷ entries)) (some-injective e)
          (p, parse_each-Each entries rest q)

    Each-parse_each :
        (entries : List (Entry N)) (xs : List A)
        → Each (λ x a. parse x ≡ some a) entries xs
        → parse_each plist parse entries ≡ some xs
    unfolding parse_each
    Each-parse_each [] [] e = refl
    Each-parse_each [] (a ∷ xs) e = absurd e
    Each-parse_each (x ∷ entries) [] e = absurd e
    Each-parse_each (x ∷ entries) (a ∷ xs) (p, e) = rw (p, Each-parse_each entries xs e) refl

  fits_small : (v id : ℕ) → fits plist v ≡ some id → id < 2 ^ 32
  fits_small v id h = ground arith

  -- An entry of a listing and its page: the key, read xs a number, is that of the page, which fits 32
  -- bits, and the page is what the value says.
  pub record Describes (entry : Entry N) (page : Page) : Type 0 where
    pub key : List ℕ
    pub has_key : entry.0 ≡ some key
    pub numbered : is_number plist (strtol key) page.page_id ≡ true
    pub small : page.page_id < 2 ^ 32
    pub parsed : parse_page plist entry.1 ≡ some page

  parse_page-small :
      (node : Option N) (page : Page) → parse_page plist node ≡ some page → page.page_id < 2 ^ 32
  unfolding parse_page get_required_uint
  parse_page-small node page h =
      let (id, p, g) =
        bind-some (get_required_uint plist node (codes "WIRPageIdentifierKey")) _ h in
      let (v, q, fit) =
        bind-some (item_of plist node (codes "WIRPageIdentifierKey") >>= plist.uint_val)
          (fits plist) p in
      let (c, q1, g1) =
        bind-some (get_optional_string plist node (codes "WIRConnectionIdentifierKey")) _ g in
      let (t, q2, g2) = bind-some (get_optional_string plist node (codes "WIRTitleKey")) _ g1 in
      let (u, q3, g3) = bind-some (get_optional_string plist node (codes "WIRURLKey")) _ g2 in
      let same : id ≡ page.page_id = ap (λ (r : Page). r.page_id) (some-injective g3) in
      fits_small v page.page_id (fit ∙ ap some same)

  keyed_page-Describes :
      (entry : Entry N) (page : Page) → keyed_page plist entry ≡ some page → Describes entry page
  unfolding keyed_page
  keyed_page-Describes (none, value) page h = absurd (cc h)
  keyed_page-Describes (some key, value) page h =
      let (found, p, g) = bind-some (parse_page plist value) _ h in
      elim (Bool-cases (is_number plist (strtol key) found.page_id)) [
        | inl t ↦
            let same : found ≡ page = some-injective (rw t at g) in
            record {
              key = key;
              has_key = refl;
              numbered = subst (λ f. is_number plist (strtol key) f.page_id ≡ true) same t;
              small = parse_page-small value page (p ∙ ap some same);
              parsed = p ∙ ap some same;
            }
        | inr t ↦ absurd (cc (rw t at g))
      ]

  Describes-keyed_page :
      (entry : Entry N) (page : Page) → Describes entry page → keyed_page plist entry ≡ some page
  unfolding keyed_page
  Describes-keyed_page (k, value) page d = rw (d.has_key, keyed_page, d.parsed, d.numbered) refl

  -- `rpc_parse_pages` gives a list of pages exactly where the node is a dictionary whose entries describe
  -- these pages, one by one and in the order of the dictionary: the key, read as a number, is that of
  -- the page, which fits 32 bits, and the page is what the value says.
  pub parse_pages-Each :
      (node : Option N) (pages : List Page)
      → (parse_pages plist node ≡ some pages) ↔ (
          (items : List (Entry N)) × ((node >>= plist.items) ≡ some items)
          × Each Describes items pages)
  unfolding parse_pages
  parse_pages-Each node pages = (
    λ h.
        let (items, p, g) =
          bind-some (node >>= plist.items) (parse_each plist (keyed_page plist)) h in
        (
          items,
          p,
          Each-map keyed_page-Describes items pages
              (parse_each-Each (keyed_page plist) items pages g),
        ),
    λ (items, p, e).
        rw
          (
            p,
            Each-parse_each (keyed_page plist) items pages
                (Each-map Describes-keyed_page items pages e),
          )
          refl,
  )
