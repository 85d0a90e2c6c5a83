-- ===== src/Proxy/Text/Json.antt =====
-- The JSON lists of src/ios_webkit_debug_proxy.c are arrays: their objects stand between brackets, with
-- a comma between one and the next.
use bootstrap_agency_templat.Prelude.{
  ℕ, ◌+◌, ◌≤◌, ◌≡◌, refl, ap, inl, inr, Bool, true, false, Option, none, some, List, [], ◌∷◌, ◌++◌,
  arith, ◌==◌, Option-cases, length,
}
use mathlib.Core.List.{flatten, Perm}
use bootstrap_agency_templat.Libc.{codes}
use bootstrap_agency_templat.Proxy.{Ipage, Iport}
use bootstrap_agency_templat.Proxy.Text.{
  sort, collect, comma, device_object, device_item, iports_to_text, page_href, page_object,
}
use bootstrap_agency_templat.Proxy.Text.Sorted.{InOrder, sort-InOrder, sort-perm}
use bootstrap_agency_templat.Proxy.Text.Pages.{page_item, ipages_to_text}

-- texts with a comma before each, and with a comma between them
abbrev pub followed : List (List ℕ) → List ℕ
followed [] = []
followed (o ∷ os) = codes "," ++ o ++ followed os

abbrev pub separated : List (List ℕ) → List ℕ
separated [] = []
separated (o ∷ os) = o ++ followed os

module _ {A : Type 0} where
  abbrev pub objects : (A → Option (List ℕ)) → List A → List (List ℕ)
  objects object [] = []
  objects object (a ∷ rest) = elim (object a) [
    | none ↦ objects object rest
    | some o ↦ o ∷ objects object rest
  ]

  -- an item is its object behind a comma, if something stands before it
  pub data PrintsAt (item : Bool → A → Option (List ℕ)) (object : A → Option (List ℕ)) (a : A)
      : Type 0 where
    skipped : object a ≡ none → ((b : Bool) → item b a ≡ none) → PrintsAt item object a
    printed :
        (o : List ℕ)
        → object a ≡ some o
        → 1 ≤ length o
        → ((b : Bool) → item b a ≡ some (comma b ++ o))
        → PrintsAt item object a

  abbrev pub Prints : (Bool → A → Option (List ℕ)) → (A → Option (List ℕ)) → Type 0
  Prints item object = (a : A) → PrintsAt item object a

  collect-followed :
      (item : Bool → A → Option (List ℕ)) (object : A → Option (List ℕ))
      → Prints item object
      → (n : ℕ) (xs : List A) → (n == 0) ≡ false
      → flatten (collect item n xs) ≡ followed (objects object xs)
  unfolding collect flatten
  collect-followed item object prints n [] some_before = refl
  collect-followed item object prints n (a ∷ rest) some_before = elim (prints a) [
    | skipped gone no_item ↦
        rw (some_before, no_item true, gone, objects, collect)
          (collect-followed item object prints n rest some_before)
    | printed o there long this_item ↦
        let behind =
          collect-followed item object prints (n + length (comma true ++ o)) rest (ground arith) in
        rw (some_before, this_item true, there, objects, collect)
          (ap (λ tail. codes "," ++ o ++ tail) behind)
  ]

  collect-separated :
      (item : Bool → A → Option (List ℕ)) (object : A → Option (List ℕ))
      → Prints item object
      → (xs : List A) → flatten (collect item 0 xs) ≡ separated (objects object xs)
  unfolding collect flatten
  collect-separated item object prints [] = refl
  collect-separated item object prints (a ∷ rest) = elim (prints a) [
    | skipped gone no_item ↦
        rw (no_item false, gone, objects, collect) (collect-separated item object prints rest)
    | printed o there long this_item ↦
        let behind =
          collect-followed item object prints (0 + length (comma false ++ o)) rest (ground arith) in
        rw (this_item false, there, objects, collect) (ap (λ tail. o ++ tail) behind)
  ]

-- the device that the list shows: one with an identifier and an inspector
abbrev pub shown_device : Option (List ℕ) → Iport → Option (List ℕ)
shown_device host iport = elim iport.device_id [
  | none ↦ none
  | some _ ↦ elim iport.iwi [ none ↦ none | some _ ↦ some (device_object host iport) ]
]

device_object-long :
    (host : Option (List ℕ)) (iport : Iport) → 1 ≤ length (device_object host iport)
unfolding device_object
device_object-long host iport = omega arith

device_item-Prints : (host : Option (List ℕ)) → Prints (device_item true host) (shown_device host)
unfolding device_item
device_item-Prints host iport = elim (Option-cases iport.device_id) [
  | inl gone ↦ skipped (rw (gone) refl) (λ b. rw (gone, device_item) refl)
  | inr (device_id, there) ↦ elim (Option-cases iport.iwi) [
    | inl gone ↦ skipped (rw (there, gone) refl) (λ b. rw (there, gone, device_item) refl)
    | inr (iwi, has) ↦
        printed (device_object host iport) (ground arith) (device_object-long host iport)
          (λ b. ground arith)
  ]
]

-- The registry's JSON text is an array of the devices that have an inspector. They stand in the order
-- of their ports: the devices are those of the table, each once, and no port is above one behind it.
pub iports_to_text-json :
    (iports : List Iport) (host : Option (List ℕ))
    → (sorted : List Iport) × Perm sorted iports
      × InOrder (λ iport. iport.port) sorted
      × (iports_to_text iports true host
          ≡ codes "[" ++ separated (objects (shown_device host) sorted) ++ codes "]")
unfolding iports_to_text
iports_to_text-json iports host =
    let sorted = sort (λ iport. iport.port) iports in
    (
      sorted,
      sort-perm (λ iport. iport.port) iports,
      sort-InOrder (λ iport. iport.port) iports,
      ap (λ items. codes "[" ++ items ++ codes "]")
          (collect-separated (device_item true host) (shown_device host) (device_item-Prints host)
            sorted),
    )

abbrev pub shown_page : Option (List ℕ) → Option (List ℕ) → ℕ → Ipage → Option (List ℕ)
shown_page frontend_url host port ipage =
    some (page_object (page_href frontend_url host port ipage) host port ipage)

page_object-long :
    (href host : Option (List ℕ)) (port : ℕ) (ipage : Ipage)
    → 1 ≤ length (page_object href host port ipage)
unfolding page_object
page_object-long href host port ipage = omega arith

page_item-Prints :
    (frontend_url host : Option (List ℕ)) (port : ℕ)
    → Prints (page_item true frontend_url host port) (shown_page frontend_url host port)
unfolding page_item
page_item-Prints frontend_url host port ipage =
    let href = page_href frontend_url host port ipage in
    printed (page_object href host port ipage) refl (page_object-long href host port ipage)
      (λ b. refl)

-- The JSON text of a device is an array of its pages, each once, in the order of their numbers.
pub ipages_to_text-json :
    (ipages : List Ipage) (device_id device_name : List ℕ) (frontend_url host : Option (List ℕ))
    (port : ℕ)
    → (sorted : List Ipage) × Perm sorted ipages
      × InOrder (λ ipage. ipage.page_num) sorted
      × (ipages_to_text ipages true device_id device_name frontend_url host port
          ≡ codes "["
            ++ separated (objects (shown_page frontend_url host port) sorted)
            ++ codes "]")
unfolding ipages_to_text
ipages_to_text-json ipages device_id device_name frontend_url host port =
    let sorted = sort (λ ipage. ipage.page_num) ipages in
    (
      sorted,
      sort-perm (λ ipage. ipage.page_num) ipages,
      sort-InOrder (λ ipage. ipage.page_num) ipages,
      ap (λ items. codes "[" ++ items ++ codes "]")
          (collect-separated (page_item true frontend_url host port)
            (shown_page frontend_url host port) (page_item-Prints frontend_url host port) sorted),
    )
