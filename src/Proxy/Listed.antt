-- ===== src/Proxy/Listed.antt =====
-- The handlers of the inspector's reports in src/ios_webkit_debug_proxy.c keep the ownership.
use bootstrap_agency_templat.Prelude.{
  ℕ, suc, ◌+◌, ◌^◌, ◌≤◌, ◌<◌, ◌≡◌, refl, sym, ap, ◌∙◌, inl, inr, Bool, true, false, ◌&&◌, Option,
  none, some, List, [], ◌∷◌, map, arith, ◌==◌, Bool-cases, Option-cases,
}
use bootstrap_agency_templat.Libc.{strcmp_equal}
use bootstrap_agency_templat.Rpc.{Page}
use bootstrap_agency_templat.Proxy.{Ipage, Iwi, Iport}
use bootstrap_agency_templat.Proxy.Pages.{find_page, put_page, find_page-put_ne}
use bootstrap_agency_templat.Proxy.Session.{Outside, stop_devtools}
use bootstrap_agency_templat.Proxy.Listing.{
  has_app, find_known, next_num, new_page, is_remote, place, describe, cut_off, claim_remote,
  add_page, add_pages, is_unlisted, remove_pages, on_application_sent_listing,
}
use bootstrap_agency_templat.Proxy.Owned.{max_of, IsOwned}
use bootstrap_agency_templat.Proxy.Writes.{
  with_client-IsOwned, with_page-keeps, without_page, without_page-IsOwned,
}
use bootstrap_agency_templat.Proxy.Stopping.{stop_devtools-IsOwned}

-- A page with the next number is put beside the others.
put-IsOwned :
    (p : Ipage) (iwi : Iwi) (a : Iport)
    → IsOwned a
    → max_of a.iwi < p.page_num
    → max_of a.iwi ≤ iwi.max_page_num
    → p.page_num ≤ iwi.max_page_num
    → IsOwned (record a { iwi = some iwi; pages = put_page p a.pages })
put-IsOwned p iwi a owned fresh more top = record {
  registered = owned.registered;
  held = λ k iws m there has.
      let held = owned.held k iws m there has in
      let old = owned.below m held.ipage held.found in
      record {
        ipage = held.ipage;
        found = find_page-put_ne m p a.pages (λ same. absurd (omega arith)) ∙ held.found;
        owner = held.owner;
        sender = held.sender;
      };
  below = λ m q h. elim (Bool-cases (p.page_num == m)) [
    | inl same ↦ ground arith
    | inr apart ↦
        let old = owned.below m q (sym (find_page-put_ne m p a.pages (ground arith)) ∙ h) in
        omega (arith, old, more)
  ];
}

pub with_iwi-IsOwned :
    (iwi : Iwi) (a : Iport)
    → IsOwned a
    → max_of a.iwi ≤ iwi.max_page_num
    → IsOwned (record a { iwi = some iwi })
with_iwi-IsOwned iwi a owned more = record {
  registered = owned.registered;
  held = owned.held;
  below = λ m q h. let old = owned.below m q h in omega (arith, old, more);
}

-- the number that the last page got, which one more page makes higher by one at most
abbrev pub Rises : Iport → Iport → Type 0
Rises a b = max_of b.iwi ≤ max_of a.iwi + 1

place-IsOwned :
    (app_id : List ℕ) (known : List ℕ) (page : Page) (iwi : Iwi) (a : Iport)
    → a.iwi ≡ some iwi
    → IsOwned a
    → iwi.max_page_num + 1 < 2 ^ 32
    → IsOwned (place app_id known page iwi a).1 × Rises a (place app_id known page iwi a).1
unfolding place
place-IsOwned app_id known page iwi a has owned small =
    let top : max_of a.iwi ≡ iwi.max_page_num = ap max_of has in
    elim (Option-cases (find_known app_id page.page_id known a.pages)) [
      | inr (n, found) ↦ rw (found, place) (owned, omega arith)
      | inl gone ↦
          let n = next_num iwi.max_page_num in
          rw (gone, place)
            (
              put-IsOwned (new_page n app_id page.page_id) (record iwi { max_page_num = n }) a owned
                  (omega (arith, top)) (omega (arith, top)) (omega arith),
              omega (arith, top),
            )
    ]

claim_remote-IsOwned :
    (client : Option ℕ) (remote : Bool) (a : Iport)
    → IsOwned a
    → IsOwned (claim_remote client remote a) × Rises a (claim_remote client remote a)
unfolding claim_remote
claim_remote-IsOwned none remote a owned = (owned, omega arith)
claim_remote-IsOwned (some w) true a owned =
    (with_client-IsOwned w cut_off (λ c. refl) (λ c. inl refl) a owned, omega arith)
claim_remote-IsOwned (some w) false a owned = (owned, omega arith)

claim_remote-iwi :
    (client : Option ℕ) (remote : Bool) (a : Iport) → (claim_remote client remote a).iwi ≡ a.iwi
unfolding claim_remote
claim_remote-iwi none remote a = refl
claim_remote-iwi (some w) true a = refl
claim_remote-iwi (some w) false a = refl

pub add_page-IsOwned :
    (app_id : List ℕ) (known : List ℕ) (page : Page) (a : Iport)
    → IsOwned a
    → max_of a.iwi + 1 < 2 ^ 32
    → IsOwned (add_page app_id known page a) × Rises a (add_page app_id known page a)
unfolding add_page
add_page-IsOwned app_id known page a owned small = elim (Option-cases a.iwi) [
  | inl gone ↦ rw (gone, add_page) (owned, omega (arith, ap max_of gone))
  | inr (iwi, has) ↦
      let top : max_of a.iwi ≡ iwi.max_page_num = ap max_of has in
      let placed = (place app_id known page iwi a).1 in
      let n = (place app_id known page iwi a).0 in
      let client : Option ℕ = elim (find_page n placed.pages) [ none ↦ none | some p ↦ p.iws ] in
      let remote = is_remote iwi.connection_id page.connection_id in
      let (owned', rises) = place-IsOwned app_id known page iwi a has owned (omega (arith, top)) in
      let (owned'', _) = claim_remote-IsOwned client remote placed owned' in
      let same = claim_remote-iwi client remote placed in
      rw (has, add_page)
        (
          with_page-keeps n (describe page) (λ p. refl) (λ p. refl) (λ p. refl)
              (claim_remote client remote placed) owned'',
          omega (arith, ap max_of same, rises, top),
        )
]

abbrev pub count : List Page → ℕ
count [] = 0
count (page ∷ pages) = suc (count pages)

pub add_pages-IsOwned :
    (app_id : List ℕ) (known : List ℕ) (pages : List Page) (a : Iport)
    → IsOwned a
    → max_of a.iwi + count pages < 2 ^ 32
    → IsOwned (add_pages app_id known pages a)
unfolding add_pages
add_pages-IsOwned app_id known [] a owned small = owned
add_pages-IsOwned app_id known (page ∷ pages) a owned small =
    let (owned', rises) = add_page-IsOwned app_id known page a owned (omega arith) in
    add_pages-IsOwned app_id known pages (add_page app_id known page a) owned'
      (omega (arith, rises))

module _ {E : Type 0} (out : Outside E) where
  pub remove_pages-IsOwned :
      (gone : Ipage → Bool) (ns : List ℕ) (a : Iport) (e : E)
      → IsOwned a
      → IsOwned (remove_pages out gone ns a e).0
  unfolding remove_pages
  remove_pages-IsOwned gone [] a e owned = owned
  remove_pages-IsOwned gone (n ∷ ns) a e owned =
      let done = stop_devtools out n a e in
      let is_gone : Bool = elim (find_page n a.pages) [ none ↦ false | some p ↦ gone p ] in
      elim (Bool-cases is_gone) [
        | inl t ↦
            let (owned', free) = stop_devtools-IsOwned out n a e owned in
            rw (t, remove_pages)
              (remove_pages-IsOwned gone ns (without_page n done.iport) done.outside
                (without_page-IsOwned n done.iport free owned'))
        | inr f ↦ rw (f, remove_pages) (remove_pages-IsOwned gone ns a e owned)
      ]

  pub listing-IsOwned :
      (app_id : List ℕ) (pages : List Page) (a : Iport) (e : E)
      → IsOwned a
      → max_of a.iwi + count pages < 2 ^ 32
      → IsOwned (on_application_sent_listing out app_id pages a e).iport
  unfolding on_application_sent_listing
  listing-IsOwned app_id pages a e owned small = elim (Option-cases a.iwi) [
    | inl gone ↦ rw (gone, on_application_sent_listing) owned
    | inr (iwi, has) ↦ elim (Bool-cases (has_app app_id iwi.app_id_to_true)) [
      | inl t ↦
          let known = map (λ p. p.page_num) a.pages in
          rw (has, t, on_application_sent_listing)
            (remove_pages-IsOwned (λ p. strcmp_equal p.app_id app_id && is_unlisted p.page_id pages)
              known (add_pages app_id known pages a) e
              (add_pages-IsOwned app_id known pages a owned small))
      | inr f ↦ elim (Option-cases iwi.app) [
        | inl gone ↦ rw (has, f, gone, on_application_sent_listing) owned
        | inr (app, there) ↦ rw (has, f, there, on_application_sent_listing) owned
      ]
    ]
  ]
