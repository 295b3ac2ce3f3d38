-- ===== src/Orderbook/Book/Consistency.antt =====
-- The two views of a side of the book: the tree of price levels and the map of prices.
use mai3_broker.Base.{
  ◌<◌, String, ◌≡◌, refl, subst, sym, ap, ◌∙◌, Bool, true, false, none, some, inl, inr, ok, Dict,
  IsDict, lookup, insert, erase, [], >>=-eq-ok, ok-injective, or_fail-eq-ok, ◌==◌, arith,
  Bool-cases, Option-cases, str_eq, eq_iff, lookup-insert, lookup-erase, insert-IsDict,
  erase-IsDict, if◌then◌else◌, is_some,
}
use mai3_broker.Decimal.{Decimal, equal, equal→eq, equal_refl, is_negative, to_string, of_string}
use mai3_broker.Orderbook.Containers.{OrderedMap, PriceTree}
use mai3_broker.Orderbook.Level
use mai3_broker.Orderbook.Level.{MemoryOrder, PriceLevel, BookError}
use mai3_broker.Orderbook.Level.Total.{
  IsLevel, new_price_level-IsLevel, insert_order-IsLevel, remove_order-IsLevel,
  change_order-IsLevel, insert_order-price, remove_order-price, change_order-price,
}
use mai3_broker.Orderbook.Book.{
  Book, tree_of, prices_of, with_side, level_at, insert_order, remove_order, change_order,
  write_level, new_orderbook,
}

module _ {T D L : Type 0} ⦃dec : Decimal D⦄ ⦃pt : PriceTree T D L⦄ where
  pub get-put :
      (p q : D) (l : L) (t : T)
      → pt.get q (pt.put p l t) ≡ (if equal p q then some l else pt.get q t)
  get-put p q l t = elim (Bool-cases (equal p q)) [
    | inl e ↦
        rw e
          (subst (λ x. pt.get x (pt.put p l t) ≡ some l) (equal→eq p q e) (pt.get-put_self p l t))
    | inr n ↦ rw n (pt.get-put_ne p q l t λ e. cc (equal_refl q, ap (λ x. equal x q) e))
  ]

  pub get-delete :
      (p q : D) (t : T) → pt.get q (pt.delete p t) ≡ (if equal p q then none else pt.get q t)
  get-delete p q t = elim (Bool-cases (equal p q)) [
    | inl e ↦
        rw e
          (subst (λ x. pt.get x (pt.delete p t) ≡ none) (equal→eq p q e) (pt.get-delete_self p t))
    | inr n ↦ rw n (pt.get-delete_ne p q t λ e. cc (equal_refl q, ap (λ x. equal x q) e))
  ]

module _ {D : Type 0} ⦃dec : Decimal D⦄ where
  -- Prices are printed alike exactly if they are equal.
  pub to_string_iff : (p q : D) → str_eq (to_string p) (to_string q) ≡ equal p q
  to_string_iff p q = elim (Bool-cases (equal p q)) [
    | inl e ↦ rw (e, equal→eq p q e) ((eq_iff _ _).1 refl)
    | inr n ↦ elim (Bool-cases (str_eq (to_string p) (to_string q))) [
      | inl s ↦
          let printed = ap (of_string {D = D}) ((eq_iff _ _).0 s) in
          let same : p ≡ q = cc (printed, dec.of_string-to_string p, dec.of_string-to_string q) in
          absurd (cc (equal_refl q, ap (λ x. equal x q) same))
      | inr d ↦ rw (n, d)
    ]
  ]

-- One tree and its price map: each level is sound, has an order and stands at its price; the map
-- holds exactly the printed prices of the levels, none twice.
module _ (D M : Type 0) {T : Type 0} ⦃dec : Decimal D⦄ ⦃om : OrderedMap M (MemoryOrder D)⦄
    ⦃pt : PriceTree T D (PriceLevel D M)⦄ where
  pub record IsSide (tree : T) (prices : Dict (Unit {0})) : Type 0 where
    pub level : (p : D) (l : PriceLevel D M) → pt.get p tree ≡ some l → IsLevel l
    pub at_price : (p : D) (l : PriceLevel D M) → pt.get p tree ≡ some l → l.price ≡ p
    pub not_empty : (p : D) (l : PriceLevel D M) → pt.get p tree ≡ some l → 0 < Level.len l
    pub listed : (p : D) → is_some (lookup (to_string p) prices) ≡ is_some (pt.get p tree)
    pub printed :
        (key : String) → is_some (lookup key prices) ≡ true → (p : D) × (key ≡ to_string p)
    pub distinct : IsDict prices

module _ {D M T : Type 0} ⦃dec : Decimal D⦄ ⦃om : OrderedMap M (MemoryOrder D)⦄
    ⦃pt : PriceTree T D (PriceLevel D M)⦄ where
  pub record IsBook (b : Book D M T) : Type 0 where
    pub asks : IsSide D M b.asks_tree b.ask_prices
    pub bids : IsSide D M b.bids_tree b.bid_prices

  put-IsSide :
      (tree : T) (prices : Dict (Unit {0})) (p : D) (l : PriceLevel D M)
      → IsSide D M tree prices
      → IsLevel l
      → l.price ≡ p
      → 0 < Level.len l
      → IsSide D M (pt.put p l tree) (insert (to_string p) tt prices)
  put-IsSide tree prices p l s v e n = record {
    level = λ q m h. ground (arith, get-put p q l tree, s.level q m, v);
    at_price = λ q m h. ground (arith, get-put p q l tree, s.at_price q m, e, equal→eq p q);
    not_empty = λ q m h. ground (arith, get-put p q l tree, s.not_empty q m, n);
    listed = λ q. ground (
      arith,
      get-put p q l tree,
      s.listed q,
      lookup-insert (to_string p) (to_string q) tt prices,
      to_string_iff p q,
    );
    printed = λ key h. elim (Bool-cases (str_eq (to_string p) key)) [
      | inl same ↦ (p, sym ((eq_iff _ _).0 same))
      | inr other ↦ s.printed key (ground (arith, lookup-insert (to_string p) key tt prices))
    ];
    distinct = insert-IsDict (to_string p) tt prices s.distinct;
  }

  rewrite-IsSide :
      (tree : T) (prices : Dict (Unit {0})) (p : D) (l l' : PriceLevel D M)
      → IsSide D M tree prices
      → pt.get p tree ≡ some l
      → IsLevel l'
      → l'.price ≡ l.price
      → 0 < Level.len l'
      → IsSide D M (pt.put p l' tree) prices
  rewrite-IsSide tree prices p l l' s there v e n = record {
    level = λ q m h. ground (arith, get-put p q l' tree, s.level q m, v);
    at_price = λ q m h.
        ground (arith, get-put p q l' tree, s.at_price q m, s.at_price p l there, e, equal→eq p q);
    not_empty = λ q m h. ground (arith, get-put p q l' tree, s.not_empty q m, n);
    listed = λ q. ground (arith, get-put p q l' tree, s.listed q, there_too q);
    printed = s.printed;
    distinct = s.distinct;
  }
    where
      there_too : (q : D) → equal p q ≡ true → pt.get q tree ≡ some l
      there_too q same = subst (λ r. pt.get r tree ≡ some l) (equal→eq p q same) there

  delete-IsSide :
      (tree : T) (prices : Dict (Unit {0})) (p : D) (l : PriceLevel D M)
      → IsSide D M tree prices
      → IsSide D M (pt.delete p (pt.put p l tree)) (erase (to_string p) prices)
  delete-IsSide tree prices p l s = record {
    level = λ q m h. ground (
      arith,
      get-delete {L = PriceLevel D M} p q (pt.put p l tree),
      get-put p q l tree,
      s.level q m,
    );
    at_price = λ q m h. ground (
      arith,
      get-delete {L = PriceLevel D M} p q (pt.put p l tree),
      get-put p q l tree,
      s.at_price q m,
    );
    not_empty = λ q m h. ground (
      arith,
      get-delete {L = PriceLevel D M} p q (pt.put p l tree),
      get-put p q l tree,
      s.not_empty q m,
    );
    listed = λ q. ground (
      arith,
      get-delete {L = PriceLevel D M} p q (pt.put p l tree),
      get-put p q l tree,
      s.listed q,
      lookup-erase (to_string p) (to_string q) prices s.distinct,
      to_string_iff p q,
    );
    printed =
        λ key h. s.printed key (ground (arith, lookup-erase (to_string p) key prices s.distinct));
    distinct = erase-IsDict (to_string p) prices s.distinct;
  }

  with_side-IsBook :
      (is_ask : Bool) (tree : T) (prices : Dict (Unit {0})) (b : Book D M T)
      → IsBook b
      → IsSide D M tree prices
      → IsBook (with_side is_ask tree prices b)
  with_side-IsBook true tree prices b v s = record { asks = s; bids = v.bids }
  with_side-IsBook false tree prices b v s = record { asks = v.asks; bids = s }

  pub IsSide-of :
      (is_ask : Bool) (b : Book D M T)
      → IsBook b
      → IsSide D M (tree_of is_ask b) (prices_of is_ask b)
  IsSide-of true b v = v.asks
  IsSide-of false b v = v.bids

  pub new_orderbook-IsBook : (b : Book D M T) → b ≡ new_orderbook → IsBook b
  unfolding new_orderbook
  new_orderbook-IsBook b e = subst IsBook (sym e) (record { asks = empty; bids = empty })
    where
      empty : IsSide D M pt.new []
      empty = record {
        level = λ p l h. cc (pt.get-new p);
        at_price = λ p l h. cc (pt.get-new p);
        not_empty = λ p l h. absurd (cc (pt.get-new p));
        listed = λ p. ground (arith, pt.get-new p);
        printed = λ key h. absurd (ground arith);
        distinct = tt;
      }

  level_at-IsLevel :
      (tree : T) (prices : Dict (Unit {0})) (p : D)
      → IsSide D M tree prices
      → IsLevel (level_at {M = M} p tree) × ((level_at {M = M} p tree).price ≡ p)
  unfolding Level.new_price_level
  level_at-IsLevel tree prices p s = elim (Option-cases (pt.get p tree)) [
    | inl missing ↦ rw (missing, level_at) (new_price_level-IsLevel p, refl)
    | inr (l, there) ↦ rw (there, level_at) (s.level p l there, s.at_price p l there)
  ]

  -- Inserting an order keeps the book well formed: on both sides each level has its
  -- price as its key and the exact total of its orders, no level is empty, and the price map lists
  -- exactly the prices of the levels.
  pub insert_order-IsBook :
      (b b' : Book D M T) (o : MemoryOrder D) → IsBook b → insert_order b o ≡ ok b' → IsBook b'
  unfolding insert_order
  insert_order-IsBook b b' o v e =
      let (l, added, written) = >>=-eq-ok _ _ e in
      let s = IsSide-of (is_negative o.amount) b v in
      let old = level_at-IsLevel _ _ o.price s in
      let here = insert_order-price _ l o added in
      subst IsBook (ok-injective written) (
        with_side-IsBook (is_negative o.amount) _ _ b v (
          put-IsSide _ _ o.price l s (insert_order-IsLevel _ l o old.0 added) (here.0 ∙ old.1)
            here.1))

  write_level-IsBook :
      (is_ask : Bool) (p : D) (l l' : PriceLevel D M) (b : Book D M T)
      → IsBook b
      → pt.get p (tree_of is_ask b) ≡ some l
      → IsLevel l'
      → l'.price ≡ l.price
      → IsBook (write_level is_ask p l' b)
  unfolding write_level
  write_level-IsBook is_ask p l l' b v there ok' same = elim (Bool-cases (Level.len l' == 0)) [
    | inl empty ↦
        rw empty (with_side-IsBook is_ask _ _ b v (delete-IsSide _ _ p l' (IsSide-of is_ask b v)))
    | inr full ↦ rw full (
        with_side-IsBook is_ask _ _ b v
          (rewrite-IsSide _ _ p l l' (IsSide-of is_ask b v) there ok' same (ground arith)))
  ]

  -- Removing an order keeps the book well formed.
  pub remove_order-IsBook :
      (b b' : Book D M T) (o : MemoryOrder D) → IsBook b → remove_order b o ≡ ok b' → IsBook b'
  unfolding remove_order
  remove_order-IsBook b b' o v e =
      let (l, found, rest) = >>=-eq-ok _ _ e in
      let ((o', l'), removed, written) = >>=-eq-ok _ _ rest in
      let there = or_fail-eq-ok _ _ found in
      let s = IsSide-of (is_negative o.amount) b v in
      subst IsBook (ok-injective written) (
        write_level-IsBook (is_negative o.amount) o.price l l' b v there
          (remove_order-IsLevel l l' o.id o' (s.level o.price l there) removed)
          (remove_order-price l l' o.id o' removed))

  -- Changing the amount of an order keeps the book well formed, also when nothing of it is left.
  pub change_order-IsBook :
      (b b' : Book D M T) (o : MemoryOrder D) (change : D)
      → IsBook b
      → change_order b o change ≡ ok b'
      → IsBook b'
  unfolding change_order
  change_order-IsBook b b' o change v e =
      let (l, found, rest) = >>=-eq-ok _ _ e in
      let (l', changed, written) = >>=-eq-ok _ _ rest in
      let there = or_fail-eq-ok _ _ found in
      let s = IsSide-of (is_negative o.amount) b v in
      subst IsBook (ok-injective written) (
        write_level-IsBook (is_negative o.amount) o.price l l' b v there
          (change_order-IsLevel l l' o.id change (s.level o.price l there) changed)
          (change_order-price l l' o.id change changed))
