-- ===== src/Orderbook/Prices/Sorted.antt =====
-- The order of the prices that the matcher walks.
use mai3_broker.Base.{
  ◌+◌, String, ◌≡◌, ◌↔◌, ◌⊎◌, refl, sym, ap, ◌∙◌, Bool, true, false, List, [], ◌∷◌, Dict, All, inl,
  inr, arith, Bool-cases, lookup, is_some, str_eq, eq_iff,
}
use mai3_broker.Decimal.{Decimal, digits, less_than, greater_than, to_string}
use mai3_broker.Orderbook.Containers.{OrderedMap, PriceTree}
use mai3_broker.Orderbook.Level.{MemoryOrder, PriceLevel}
use mai3_broker.Orderbook.Book.{Book}
use mai3_broker.Orderbook.Book.Consistency.{IsBook, IsSide}
use mai3_broker.Orderbook.Prices.{
  parse_price, parse_prices, insert_sorted, sort_slice, get_bid_prices_desc, get_ask_prices_asc,
}

-- No later price comes before an earlier one.
abbrev pub IsSorted : {D : Type 0} → (D → D → Bool) → List D → Type 0
IsSorted less [] = Unit {0}
IsSorted less (p ∷ ps) = All (λ q. less q p ≡ false) ps × IsSorted less ps

abbrev pub Occurs : {D : Type 0} → D → List D → Type 0
Occurs x [] = ⊥
Occurs x (p ∷ ps) = (x ≡ p) ⊎ Occurs x ps

-- What sorting needs of an order.
record IsOrder {D : Type 0} (less : D → D → Bool) : Type 0 where
  asym : (a b : D) → less a b ≡ true → less b a ≡ false
  trans : (a b c : D) → less b a ≡ false → less c b ≡ false → less c a ≡ false

module _ {D : Type 0} {less : D → D → Bool} (o : IsOrder less) where
  All-later :
      (p q : D) (ps : List D)
      → less q p ≡ false
      → All (λ r. less r q ≡ false) ps
      → All (λ r. less r p ≡ false) ps
  All-later p q [] h a = tt
  All-later p q (r ∷ ps) h a = (o.trans p q r h a.0, All-later p q ps h a.1)

  All-insert_sorted :
      (p q : D) (ps : List D)
      → less p q ≡ false
      → All (λ r. less r q ≡ false) ps
      → All (λ r. less r q ≡ false) (insert_sorted less p ps)
  unfolding insert_sorted
  All-insert_sorted p q [] h a = (h, tt)
  All-insert_sorted p q (r ∷ ps) h a = elim (Bool-cases (less r p)) [
    | inl e ↦ rw (e, insert_sorted) (a.0, All-insert_sorted p q ps h a.1)
    | inr e ↦ rw (e, insert_sorted) (h, (a.0, a.1))
  ]

  insert_sorted-IsSorted :
      (p : D) (ps : List D) → IsSorted less ps → IsSorted less (insert_sorted less p ps)
  unfolding insert_sorted
  insert_sorted-IsSorted p [] s = (tt, tt)
  insert_sorted-IsSorted p (q ∷ ps) s = elim (Bool-cases (less q p)) [
    | inl e ↦
        rw (e, insert_sorted)
          (All-insert_sorted p q ps (o.asym q p e) s.0, insert_sorted-IsSorted p ps s.1)
    | inr e ↦ rw (e, insert_sorted) ((e, All-later p q ps e s.0), s)
  ]

  sort_slice-IsSorted : (ps : List D) → IsSorted less (sort_slice less ps)
  unfolding sort_slice
  sort_slice-IsSorted [] = tt
  sort_slice-IsSorted (p ∷ ps) = insert_sorted-IsSorted p _ (sort_slice-IsSorted ps)

-- Every key of the map is a printed price.
abbrev IsPrinted : (D : Type 0) ⦃dec : Decimal D⦄ → Dict (Unit {0}) → Type 0
IsPrinted D m = (key : String) → is_some (lookup key m) ≡ true → (p : D) × (key ≡ to_string p)

module _ {D : Type 0} ⦃dec : Decimal D⦄ where
  less_than-IsOrder : IsOrder {D = D} less_than
  less_than-IsOrder = record {
    asym = λ a b h.
        let k = digits a + digits b in
        ground (
          arith,
          dec.less_than-units k a b (omega arith) (omega arith),
          dec.less_than-units k b a (omega arith) (omega arith),
        );
    trans = λ a b c h h'.
        let k = digits a + digits b + digits c in
        ground (
          arith,
          dec.less_than-units k b a (omega arith) (omega arith),
          dec.less_than-units k c b (omega arith) (omega arith),
          dec.less_than-units k c a (omega arith) (omega arith),
        );
  }

  greater_than-IsOrder : IsOrder {D = D} greater_than
  greater_than-IsOrder = record {
    asym = λ a b h. less_than-IsOrder.asym b a h;
    trans = λ a b c h h'. less_than-IsOrder.trans c b a h' h;
  }

  module _ (less : D → D → Bool) where
    Occurs-insert_sorted :
        (x p : D) (ps : List D) → Occurs x (insert_sorted less p ps) ↔ ((x ≡ p) ⊎ Occurs x ps)
    unfolding insert_sorted
    Occurs-insert_sorted x p [] = (λ h. h, λ h. h)
    Occurs-insert_sorted x p (q ∷ ps) =
        let ih = Occurs-insert_sorted x p ps in
        elim (Bool-cases (less q p)) [
          | inl e ↦
              rw (e, insert_sorted)
                (
                  (λ h. elim h [
                    | inl a ↦ inr (inl a)
                    | inr b ↦ elim (ih.0 b) [ inl c ↦ inl c | inr d ↦ inr (inr d) ]
                  ]),
                  λ h. elim h [
                    | inl a ↦ inr (ih.1 (inl a))
                    | inr b ↦ elim b [ inl c ↦ inl c | inr d ↦ inr (ih.1 (inr d)) ]
                  ],
                )
          | inr e ↦ rw (e, insert_sorted) (λ h. h, λ h. h)
        ]

    Occurs-sort_slice : (x : D) (ps : List D) → Occurs x (sort_slice less ps) ↔ Occurs x ps
    unfolding sort_slice
    Occurs-sort_slice x [] = (λ h. h, λ h. h)
    Occurs-sort_slice x (p ∷ ps) =
        let at = Occurs-insert_sorted x p (sort_slice less ps) in
        let ih = Occurs-sort_slice x ps in
        (
          (λ h. elim (at.0 h) [ inl a ↦ inl a | inr b ↦ inr (ih.0 b) ]),
          λ h. at.1 (elim h [ inl a ↦ inl a | inr b ↦ inr (ih.1 b) ]),
        )

  parse_price-to_string : (key : String) (p : D) → key ≡ to_string p → parse_price key ≡ p
  parse_price-to_string key p e = rw (e, parse_price, dec.of_string-to_string p)

  IsPrinted-tail :
      (key : String) (u : Unit {0}) (m : Dict (Unit {0}))
      → IsPrinted D ((key, u) ∷ m)
      → IsPrinted D m
  IsPrinted-tail key u m all key' h = all key' (ground arith)

  Occurs-parse_prices :
      (x : D) (m : Dict (Unit {0}))
      → IsPrinted D m
      → Occurs x (parse_prices m) ↔ (is_some (lookup (to_string x) m) ≡ true)
  Occurs-parse_prices x [] all = (λ h. absurd h, λ h. cc)
  Occurs-parse_prices x ((key, u) ∷ m) all =
      let ih = Occurs-parse_prices x m (IsPrinted-tail key u m all) in
      let (p, e) = all key (ground (arith, eq_iff key key)) in
      let back = parse_price-to_string key p e in
      (
        (λ h. elim h [
          | inl a ↦ rw ((eq_iff key (to_string x)).1 (e ∙ ap to_string (sym (a ∙ back)))) refl
          | inr b ↦ ground (arith, ih.0 b)
        ]),
        λ h. elim (Bool-cases (str_eq key (to_string x))) [
          | inl same ↦ inl (sym (parse_price-to_string key x ((eq_iff _ _).0 same)))
          | inr other ↦ inr (ih.1 (ground arith))
        ],
      )

module _ {D M T : Type 0} ⦃dec : Decimal D⦄ ⦃om : OrderedMap M (MemoryOrder D)⦄
    ⦃pt : PriceTree T D (PriceLevel D M)⦄ where
  side_prices :
      (less : D → D → Bool) (tree : T) (prices : Dict (Unit {0})) (x : D)
      → IsSide D M tree prices
      → Occurs x (sort_slice less (parse_prices prices)) ↔ (is_some (pt.get x tree) ≡ true)
  side_prices less tree prices x s =
      let sorted = Occurs-sort_slice less x (parse_prices prices) in
      let parsed = Occurs-parse_prices x prices s.printed in
      ((λ h. sym (s.listed x) ∙ parsed.0 (sorted.0 h)), λ h. sorted.1 (parsed.1 (s.listed x ∙ h)))

  -- The bid prices come from high to low, and are those that have a level of bids.
  pub get_bid_prices_desc_lem :
      (b : Book D M T)
      → IsBook b
      → IsSorted greater_than (get_bid_prices_desc b)
        × ((x : D) → Occurs x (get_bid_prices_desc b) ↔ (is_some (pt.get x b.bids_tree) ≡ true))
  unfolding get_bid_prices_desc
  get_bid_prices_desc_lem b v =
      (sort_slice-IsSorted greater_than-IsOrder _, λ x. side_prices _ _ _ x v.bids)

  -- The ask prices come from low to high, and are those that have a level of asks.
  pub get_ask_prices_asc_lem :
      (b : Book D M T)
      → IsBook b
      → IsSorted less_than (get_ask_prices_asc b)
        × ((x : D) → Occurs x (get_ask_prices_asc b) ↔ (is_some (pt.get x b.asks_tree) ≡ true))
  unfolding get_ask_prices_asc
  get_ask_prices_asc_lem b v =
      (sort_slice-IsSorted less_than-IsOrder _, λ x. side_prices _ _ _ x v.asks)
