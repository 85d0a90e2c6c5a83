-- ===== src/HashTable.antt =====
-- src/hash_table.c: a chained hash table with a fixed number of buckets and move-to-front reads.
-- A chain is the list of its entries from the head on. A value is never null in a chain: `put`
-- takes and returns `void *` values as options. Allocation succeeds (the source does not test it).
pub mod Chain
pub mod Buckets
pub mod Laws
pub mod Reads
pub mod Keys
use bootstrap_agency_templat.Prelude.{
  ℕ, zero, suc, ◌+◌, ◌-◌, ◌%◌, ◌^◌, Bool, true, false, ◌&&◌, Option, none, some, List, [], ◌∷◌,
  ◌++◌, length, get_or, set, replicate, ◌==◌, if◌then◌else◌, map, ◌↔◌, ◌≡◌,
}
use mathlib.Core.List.{flatten}

-- `on_hash` (an `intptr_t`, as its 64-bit pattern) and `!on_cmp`, and the contract of the latter.
pub record Key (K : Type 0) : Type 0 where
  pub hash : K → ℕ
  pub equal : K → K → Bool
  pub equal_iff : (a b : K) → (equal a b ≡ true) ↔ (a ≡ b)

pub record Entry (K V : Type 0) : Type 0 where
  pub hc : ℕ
  pub key : K
  pub value : V

abbrev pub Chain : Type 0 → Type 0 → Type 0
Chain K V = List (Entry K V)

pub record Table (K V : Type 0) : Type 0 where
  pub num_keys : ℕ
  pub buckets : List (Chain K V)
  pub num_buckets : ℕ

-- What `ht_find` reports of a chain: the entries before `curr`, `curr`, and those after it.
pub record Found (K V : Type 0) : Type 0 where
  pub before : Chain K V
  pub curr : Entry K V
  pub after : Chain K V

abbrev pub num_buckets_at_start : ℕ
num_buckets_at_start = 3

-- `num_keys++` and `num_keys--` on a `size_t`.
abbrev pub up : ℕ → ℕ
up n = (n + 1) % 2 ^ 64

abbrev pub down : ℕ → ℕ
down n = (n + (2 ^ 64 - 1)) % 2 ^ 64

module _ {K V : Type 0} where
  unfoldable pub new : Table K V
  new = record {
    num_keys = 0;
    buckets = replicate num_buckets_at_start [];
    num_buckets = num_buckets_at_start;
  }

  unfoldable pub size : Table K V → ℕ
  size t = t.num_keys

  -- the inner loop of `ht_clear` counts each entry that it frees
  free_chain : Chain K V → ℕ → ℕ
  free_chain [] n = n
  free_chain (e ∷ c) n = free_chain c (down n)

  free_buckets : List (Chain K V) → ℕ → ℕ
  free_buckets [] n = n
  free_buckets (c ∷ cs) n = free_buckets cs (free_chain c n)

  empty_buckets : List (Chain K V) → List (Chain K V)
  empty_buckets [] = []
  empty_buckets (c ∷ cs) = [] ∷ empty_buckets cs

  unfoldable pub clear : Table K V → Table K V
  unfolding free_chain free_buckets empty_buckets
  clear t = record t {
    num_keys = free_buckets t.buckets t.num_keys;
    buckets = empty_buckets t.buckets;
  }

  -- The two uses of `ht_get_all`.
  unfoldable pub entries : Table K V → Chain K V
  entries t = flatten t.buckets

  unfoldable pub keys : Table K V → List K
  unfolding entries
  keys t = map (λ e. e.key) (entries t)

  unfoldable pub values : Table K V → List V
  unfolding entries
  values t = map (λ e. e.value) (entries t)

module _ {K V : Type 0} ⦃k : Key K⦄ where
  -- the test of the loop in `ht_find`
  abbrev pub matches : K → Entry K V → Bool
  matches key e = e.hc == k.hash key && k.equal e.key key

  -- the loop of `ht_find`, from `curr` on
  unfoldable pub walk : K → Chain K V → Option (Found K V)
  walk key [] = none
  walk key (e ∷ c) =
      if matches key e
      then some (record { before = []; curr = e; after = c })
      else elim (walk key c) [
        | none ↦ none
        | some f ↦ some (record { before = e ∷ f.before; curr = f.curr; after = f.after })
      ]

  abbrev pub slot : Table K V → K → ℕ
  slot t key = k.hash key % t.num_buckets

  abbrev pub chain_at : Table K V → K → Chain K V
  chain_at t key = get_or t.buckets (slot t key) []

  unfoldable pub find : Table K V → K → Option (Found K V)
  unfolding walk
  find t key = walk key (chain_at t key)

  -- the write through `head` or through `prev->next`
  abbrev pub relink : Table K V → K → Chain K V → Table K V
  relink t key c = record t { buckets = set t.buckets (slot t key) c }

  -- `prev` is not null
  abbrev pub has_prev : Found K V → Bool
  has_prev f = elim f.before [ [] ↦ false | _ ∷ _ ↦ true ]

  -- `ht_get`: the entry, moved to the front of its chain if it was not there
  unfoldable pub get : Table K V → K → Table K V × Option (Entry K V)
  unfolding find
  get t key = elim (find t key) [
    | none ↦ (t, none)
    | some f ↦
        (if has_prev f then relink t key (f.curr ∷ (f.before ++ f.after)) else t, some f.curr)
  ]

  unfoldable pub get_key : Table K V → K → Table K V × Option K
  get_key t key = let (t', r) = get t key in (t', elim r [ none ↦ none | some e ↦ some e.key ])

  unfoldable pub get_value : Table K V → K → Table K V × Option V
  get_value t key = let (t', r) = get t key in (t', elim r [ none ↦ none | some e ↦ some e.value ])

  -- take `curr` out of its chain, free it and count it
  abbrev pub unlink : Table K V → K → Found K V → Table K V
  unlink t key f = record t {
    buckets = set t.buckets (slot t key) (f.before ++ f.after);
    num_keys = down t.num_keys;
  }

  unfoldable pub remove : Table K V → K → Table K V × Option V
  unfolding find
  remove t key = elim (find t key) [
    | none ↦ (t, none)
    | some f ↦ (unlink t key f, some f.curr.value)
  ]

  -- `ht_put` where the key is there: write the value, or remove the entry if it is null
  unfoldable pub put_found : Table K V → K → Found K V → Option V → Table K V
  put_found t key f (some v) =
      relink t key (f.before ++ (record { hc = f.curr.hc; key = f.curr.key; value = v } ∷ f.after))
  put_found t key f none = unlink t key f

  -- where it is not there: a new entry at the head of its chain, if the value is not null
  unfoldable pub put_absent : Table K V → K → Option V → Table K V
  put_absent t key (some v) = record t {
    buckets =
        set t.buckets (slot t key)
          (record { hc = k.hash key; key = key; value = v } ∷ chain_at t key);
    num_keys = up t.num_keys;
  }
  put_absent t key none = t

  unfoldable pub put : Table K V → K → Option V → Table K V × Option V
  unfolding find put_found put_absent
  put t key v = elim (find t key) [
    | none ↦ (put_absent t key v, none)
    | some f ↦ (put_found t key f v, some f.curr.value)
  ]
