-- ===== src/Orderbook/Containers.antt =====
-- The two container packages that the book is built on: parameters, with the laws that their
-- documentation gives.
use mai3_broker.Base.{
  ℕ, ◌≡◌, ◌≢◌, String, true, Option, none, some, [], Dict, lookup, insert, erase, length,
}
use mai3_broker.Decimal.{Decimal, less_than}

-- github.com/cevaris/ordered_map: a map that keeps the order in which its keys were first set.
pub record OrderedMap (M V : Type 0) : Type 0 where
  pub new : M
  pub get : String → M → Option V
  pub set : String → V → M → M
  pub delete : String → M → M
  pub len : M → ℕ
  pub entries : M → Dict V
  pub entries-new : entries new ≡ []
  pub get-lookup : (k : String) (m : M) → get k m ≡ lookup k (entries m)
  pub entries-set : (k : String) (v : V) (m : M) → entries (set k v m) ≡ insert k v (entries m)
  pub entries-delete : (k : String) (m : M) → entries (delete k m) ≡ erase k (entries m)
  pub len-entries : (m : M) → len m ≡ length (entries m)

-- github.com/petar/GoLLRB: a search tree of items that `Less` orders, here by their price. `put`
-- is the insertion of an item with a new price, and what a write through the pointer to an item of
-- the tree does to the tree.
pub record PriceTree (T D L : Type 0) ⦃dec : Decimal D⦄ : Type 0 where
  pub new : T
  pub get : D → T → Option L
  pub put : D → L → T → T
  pub delete : D → T → T
  pub min_item : T → Option (D × L)
  pub max_item : T → Option (D × L)
  pub get-new : (p : D) → get p new ≡ none
  pub get-put_self : (p : D) (l : L) (t : T) → get p (put p l t) ≡ some l
  pub get-put_ne : (p q : D) (l : L) (t : T) → p ≢ q → get q (put p l t) ≡ get q t
  pub get-delete_self : (p : D) (t : T) → get p (delete p t) ≡ none
  pub get-delete_ne : (p q : D) (t : T) → p ≢ q → get q (delete p t) ≡ get q t
  pub min_item_none : (t : T) → min_item t ≡ none → (p : D) → get p t ≡ none
  pub min_item_some :
      (t : T) (p : D) (l : L)
      → min_item t ≡ some (p, l)
      → (get p t ≡ some l) × ((q : D) → less_than q p ≡ true → get q t ≡ none)
  pub max_item_none : (t : T) → max_item t ≡ none → (p : D) → get p t ≡ none
  pub max_item_some :
      (t : T) (p : D) (l : L)
      → max_item t ≡ some (p, l)
      → (get p t ≡ some l) × ((q : D) → less_than p q ≡ true → get q t ≡ none)
