-- ===== src/Tests/Containers.antt =====
-- Lists that meet the laws of the container packages.
use mai3_broker.Base.{
  ◌+◌, ◌≡◌, ◌≢◌, refl, sym, ap, subst, ◌∙◌, Bool, true, false, Option, none, some, inl, inr, List,
  [], ◌∷◌, Dict, lookup, insert, erase, length, arith, Bool-cases, if◌then◌else◌,
}
use mai3_broker.Decimal.{Decimal, digits, less_than, greater_than, equal, equal→eq, equal_refl}
use mai3_broker.Orderbook.Containers.{OrderedMap, PriceTree}

instance abbrev pub ordered_list : {V : Type 0} → OrderedMap (Dict V) V
ordered_list = record {
  new = [];
  get = lookup;
  set = insert;
  delete = erase;
  len = length;
  entries = λ m. m;
  entries-new = refl;
  get-lookup = λ k m. refl;
  entries-set = λ k v m. refl;
  entries-delete = λ k m. refl;
  len-entries = λ m. refl;
}

module _ {D : Type 0} ⦃dec : Decimal D⦄ where
  equal_sym : (p q : D) → equal p q ≡ equal q p
  equal_sym p q = ground arith

  not_equal : (p q : D) → p ≢ q → equal p q ≡ false
  not_equal p q n = elim (Bool-cases (equal p q)) [
    | inl e ↦ absurd (n (equal→eq p q e))
    | inr e ↦ e
  ]

  -- What the search for the first item needs of its order.
  pub record IsBefore (before : D → D → Bool) : Type 0 where
    pub differs : (p q : D) → before p q ≡ true → equal p q ≡ false
    pub trans : (p q r : D) → before p q ≡ true → before q r ≡ true → before p r ≡ true
    pub total : (p q r : D) → before q r ≡ false → before p r ≡ true → before p q ≡ true

module _ {D L : Type 0} ⦃dec : Decimal D⦄ where
  unfoldable pub find : D → List (D × L) → Option L
  find p [] = none
  find p ((q, l) ∷ t) = if equal q p then some l else find p t

  unfoldable pub put : D → L → List (D × L) → List (D × L)
  put p l [] = (p, l) ∷ []
  put p l ((q, m) ∷ t) = if equal q p then (p, l) ∷ t else (q, m) ∷ put p l t

  unfoldable pub drop : D → List (D × L) → List (D × L)
  drop p [] = []
  drop p ((q, m) ∷ t) = let rest = drop p t in if equal q p then rest else (q, m) ∷ rest

  -- The first item that no other item comes before.
  unfoldable pub first : (D → D → Bool) → List (D × L) → Option (D × L)
  first before [] = none
  first before ((p, l) ∷ t) = elim (first before t) [
    | none ↦ some (p, l)
    | some (q, m) ↦ if before q p then some (q, m) else some (p, l)
  ]

  pub find-empty : (p : D) → find p [] ≡ none
  unfolding find
  find-empty p = refl

  pub find-put_self : (p : D) (l : L) (t : List (D × L)) → find p (put p l t) ≡ some l
  unfolding find put
  find-put_self p l [] = ground (arith, equal_refl p)
  find-put_self p l ((q, m) ∷ t) = elim (Bool-cases (equal q p)) [
    | inl e ↦ rw (e, equal_refl p) refl
    | inr n ↦ rw (n, n) (find-put_self p l t)
  ]

  pub find-put_ne : (p q : D) (l : L) (t : List (D × L)) → p ≢ q → find q (put p l t) ≡ find q t
  unfolding find put
  find-put_ne p q l [] n = rw (not_equal p q n) refl
  find-put_ne p q l ((r, m) ∷ t) n = elim (Bool-cases (equal r p)) [
    | inl e ↦ rw (e, equal→eq r p e, not_equal p q n) refl
    | inr d ↦ rw (d) (ap (λ o. if equal r q then some m else o) (find-put_ne p q l t n))
  ]

  pub find-drop_self : (p : D) (t : List (D × L)) → find p (drop p t) ≡ none
  unfolding find drop
  find-drop_self p [] = refl
  find-drop_self p ((r, m) ∷ t) = elim (Bool-cases (equal r p)) [
    | inl e ↦ rw e (find-drop_self p t)
    | inr d ↦ rw (d, d) (find-drop_self p t)
  ]

  pub find-drop_ne : (p q : D) (t : List (D × L)) → p ≢ q → find q (drop p t) ≡ find q t
  unfolding find drop
  find-drop_ne p q [] n = refl
  find-drop_ne p q ((r, m) ∷ t) n = elim (Bool-cases (equal r p)) [
    | inl e ↦ rw (e, equal→eq r p e, not_equal p q n) (find-drop_ne p q t n)
    | inr d ↦ rw d (ap (λ o. if equal r q then some m else o) (find-drop_ne p q t n))
  ]

  pub first-none :
      (before : D → D → Bool) (t : List (D × L)) → first before t ≡ none → (p : D) → find p t ≡ none
  unfolding first find
  first-none before [] e p = refl
  first-none before ((q, l) ∷ t) e p = absurd (ground arith)

  abbrev pub IsFirst : (D → D → Bool) → List (D × L) → D → L → Type 0
  IsFirst before t p l = (find p t ≡ some l) × ((q : D) → before q p ≡ true → find q t ≡ none)

  pub first-some :
      {before : D → D → Bool} (o : IsBefore before) (t : List (D × L)) (p : D) (l : L)
      → first before t ≡ some (p, l)
      → IsFirst before t p l
  unfolding first find
  first-some {before} o [] p l e = absurd (cc)
  first-some {before} o ((r, m) ∷ t) p l e =
      let after : (f : Option (D × L)) → first before t ≡ f → IsFirst before ((r, m) ∷ t) p l = λ f.
        elim f as (λ f. first before t ≡ f → IsFirst before ((r, m) ∷ t) p l) [
          | none ↦ λ h. here h (ground arith)
          | some x ↦ λ h. elim (Bool-cases (before x.0 r)) [
            | inl b ↦ later x.0 x.1 (first-some o t x.0 x.1 h) b (ground arith)
            | inr b ↦ kept x.0 x.1 (first-some o t x.0 x.1 h) b (ground arith)
          ]
        ] in
      after (first before t) refl
    where
      IsHead : Type 0
      IsHead = (r ≡ p) × (m ≡ l)

      here : first before t ≡ none → IsHead → IsFirst before ((r, m) ∷ t) p l
      here h (rp, ml) = (
        rw (rp, equal_refl p) (ap some ml),
        λ q b.
            rw (equal_sym r q ∙ o.differs q r (subst (λ x. before q x ≡ true) (sym rp) b))
              (first-none before t h q),
      )

      kept :
          (q : D) (n : L)
          → IsFirst before t q n
          → before q r ≡ false
          → IsHead
          → IsFirst before ((r, m) ∷ t) p l
      kept q n h b (rp, ml) = (
        rw (rp, equal_refl p) (ap some ml),
        λ x c.
            let d = subst (λ y. before x y ≡ true) (sym rp) c in
            rw (equal_sym r x ∙ o.differs x r d) (h.1 x (o.total x q r b d)),
      )

      later :
          (q : D) (n : L)
          → IsFirst before t q n
          → before q r ≡ true
          → (q ≡ p) × (n ≡ l)
          → IsFirst before ((r, m) ∷ t) p l
      later q n h b (qp, nl) =
          let (there, none_before) = h in
          let b' = subst (λ x. before x r ≡ true) qp b in
          (
            rw (equal_sym r p ∙ o.differs p r b')
                (subst (λ x. find x t ≡ some l) qp (there ∙ ap some nl)),
            λ x c.
                rw (equal_sym r x ∙ o.differs x r (o.trans x p r c b'))
                  (none_before x (subst (λ y. before x y ≡ true) (sym qp) c)),
          )

module _ {D : Type 0} ⦃dec : Decimal D⦄ where
  pub less_than-IsBefore : IsBefore {D = D} less_than
  less_than-IsBefore = record {
    differs = λ p q h. ground arith;
    trans = λ p q r h h'.
        let k = digits p + digits q + digits r in
        ground (
          arith,
          dec.less_than-units k p q (omega arith) (omega arith),
          dec.less_than-units k q r (omega arith) (omega arith),
          dec.less_than-units k p r (omega arith) (omega arith),
        );
    total = λ p q r h h'.
        let k = digits p + digits q + digits r in
        ground (
          arith,
          dec.less_than-units k p q (omega arith) (omega arith),
          dec.less_than-units k q r (omega arith) (omega arith),
          dec.less_than-units k p r (omega arith) (omega arith),
        );
  }

  pub greater_than-IsBefore : IsBefore {D = D} greater_than
  greater_than-IsBefore = record {
    differs = λ p q h. ground arith;
    trans = λ p q r h h'.
        let k = digits p + digits q + digits r in
        ground (
          arith,
          dec.less_than-units k q p (omega arith) (omega arith),
          dec.less_than-units k r q (omega arith) (omega arith),
          dec.less_than-units k r p (omega arith) (omega arith),
        );
    total = λ p q r h h'.
        let k = digits p + digits q + digits r in
        ground (
          arith,
          dec.less_than-units k q p (omega arith) (omega arith),
          dec.less_than-units k r q (omega arith) (omega arith),
          dec.less_than-units k r p (omega arith) (omega arith),
        );
  }

instance abbrev pub price_list : {D L : Type 0} → ⦃dec : Decimal D⦄ → PriceTree (List (D × L)) D L
price_list = record {
  new = [];
  get = find;
  put = put;
  delete = drop;
  min_item = first less_than;
  max_item = first greater_than;
  get-new = find-empty;
  get-put_self = find-put_self;
  get-put_ne = find-put_ne;
  get-delete_self = find-drop_self;
  get-delete_ne = find-drop_ne;
  min_item_none = first-none less_than;
  min_item_some = first-some less_than-IsBefore;
  max_item_none = first-none greater_than;
  max_item_some = first-some greater_than-IsBefore;
}
