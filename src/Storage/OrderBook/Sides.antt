-- ===== src/Storage/OrderBook/Sides.antt =====
-- One sorted list of the book under each change of the dict.
use lumendark.Common.{
  ℕ, ◌≡◌, ◌≢◌, refl, sym, ap, ◌∙◌, true, none, some, List, [], ◌∷◌, arith, ◌==◌, Each, Distinct,
  Each-map, Each-both, Bool-cases, inl, inr, ==→eq, eq→==,
}
use lumendark.Common.Dict.{
  Dict, IsDict, lookup, insert, erase, lookup-insert, lookup-erase_ne, lookup-insert-some,
  lookup-erase-some,
}
use lumendark.Models.Order.{Order, OrderSide}
use lumendark.Storage.OrderBook.{Key, key_eqb, sorted_add, sorted_discard}
use lumendark.Storage.OrderBook.Invariant.{
  Refers, IsSide, Each-sorted_add, Each-sorted_discard, Distinct-sorted_add,
  Distinct-sorted_discard, Lists-sorted_add, Lists-sorted_add_self, Lists-sorted_discard,
  IsSorted-sorted_add, IsSorted-sorted_discard,
}

key_eqb_refl : (k : Key) → key_eqb k k ≡ true
key_eqb_refl k = ground arith

module _ (key : Order → Key) (own : (o : Order) → (key o).id ≡ o.id) (side : OrderSide)
    (orders : Dict Order) where
  Refers-some :
      (k : Key) (o : Order)
      → lookup k.id orders ≡ some o
      → Refers key side orders k
      → (o.side ≡ side) × (key o ≡ k)
  Refers-some k o e r = rw e at r

  -- A key of an id that the dict lacks is in no list.
  ids_other_than_new :
      (id : ℕ) (ks : List Key)
      → lookup id orders ≡ none
      → Each (Refers key side orders) ks
      → Each (λ k. k.id ≢ id) ks
  ids_other_than_new id ks new =
      Each-map (Refers key side orders) (λ k. k.id ≢ id)
        (λ k r e.
          let e' : lookup k.id orders ≡ none = ap (λ (i : ℕ). lookup i orders) e ∙ new in
          rw e' at r)
        ks

  -- The list of the other side has no key of an order.
  ids_other_than_across :
      (o : Order) (ks : List Key)
      → lookup o.id orders ≡ some o
      → o.side ≢ side
      → Each (Refers key side orders) ks
      → Each (λ k. k.id ≢ o.id) ks
  ids_other_than_across o ks found across =
      Each-map (Refers key side orders) (λ k. k.id ≢ o.id)
        (λ k r e. across (Refers-some k o (ap (λ (i : ℕ). lookup i orders) e ∙ found) r).0) ks

  -- Once its key is discarded, no key of an order is left.
  ids_other_than_discarded :
      (o : Order) (ks : List Key)
      → lookup o.id orders ≡ some o
      → Each (Refers key side orders) ks
      → Distinct (λ k. k.id) ks
      → Each (λ k. k.id ≢ o.id) (sorted_discard (key o) ks)
  unfolding sorted_discard
  ids_other_than_discarded o [] found r d = tt
  ids_other_than_discarded o (j ∷ ks) found r d = elim (Bool-cases (key_eqb (key o) j)) [
    | inl same ↦ rw same (
        Each-map (λ k. k.id ≢ j.id) (λ k. k.id ≢ o.id)
          (λ k ne e. ne (e ∙ sym (own o) ∙ ground arith)) ks d.0)
    | inr differs ↦ rw differs (
      (λ e. cc (
        differs,
        key_eqb_refl j,
        (Refers-some j o (ap (λ (i : ℕ). lookup i orders) e ∙ found) r.0).1,
      )),
      ids_other_than_discarded o ks found r.1 d.1,
    )
  ]

  -- A list goes on to refer if the dict changes at an id that it does not list.
  Refers-agree :
      (orders' : Dict Order) (id : ℕ) (ks : List Key)
      → ((j : ℕ) → j ≢ id → lookup j orders' ≡ lookup j orders)
      → Each (λ k. k.id ≢ id) ks
      → Each (Refers key side orders) ks
      → Each (Refers key side orders') ks
  Refers-agree orders' id ks agree ne h =
      Each-map (λ k. Refers key side orders k × (k.id ≢ id)) (Refers key side orders')
        (λ k p. rw (agree k.id p.1) p.0) ks (Each-both _ _ ks h ne)

  lookup-insert_ne :
      (o : Order) (j : ℕ) → j ≢ o.id → lookup j (insert o.id o orders) ≡ lookup j orders
  lookup-insert_ne o j ne = ground (arith, lookup-insert j o.id o orders)

  pub IsSide-insert_across :
      (o : Order) (ks : List Key)
      → lookup o.id orders ≡ none
      → o.side ≢ side
      → IsSide key side orders ks
      → IsSide key side (insert o.id o orders) ks
  IsSide-insert_across o ks new across h = record {
    refers =
        Refers-agree (insert o.id o orders) o.id ks (lookup-insert_ne o)
          (ids_other_than_new o.id ks new h.refers) h.refers;
    distinct = h.distinct;
    sorted = h.sorted;
    complete = λ j p e same. elim (lookup-insert-some j o.id o p orders e) [
      | inl (_, it) ↦ absurd (across (ap (λ (q : Order). q.side) (sym it) ∙ same))
      | inr before ↦ h.complete j p before same
    ];
  }

  pub IsSide-erase_across :
      (o : Order) (ks : List Key)
      → IsDict orders
      → lookup o.id orders ≡ some o
      → o.side ≢ side
      → IsSide key side orders ks
      → IsSide key side (erase o.id orders) ks
  IsSide-erase_across o ks d found across h = record {
    refers =
        Refers-agree (erase o.id orders) o.id ks (λ j ne. lookup-erase_ne j o.id orders ne)
          (ids_other_than_across o ks found across h.refers) h.refers;
    distinct = h.distinct;
    sorted = h.sorted;
    complete = λ j p e same. h.complete j p (lookup-erase-some j o.id p orders d e).1 same;
  }

  pub IsSide-discard :
      (o : Order) (ks : List Key)
      → IsDict orders
      → ((j : ℕ) (p : Order) → lookup j orders ≡ some p → p.id ≡ j)
      → lookup o.id orders ≡ some o
      → IsSide key side orders ks
      → IsSide key side (erase o.id orders) (sorted_discard (key o) ks)
  IsSide-discard o ks d ids found h = record {
    refers =
        Refers-agree (erase o.id orders) o.id (sorted_discard (key o) ks)
          (λ j ne. lookup-erase_ne j o.id orders ne)
          (ids_other_than_discarded o ks found h.refers h.distinct)
          (Each-sorted_discard (Refers key side orders) (key o) ks h.refers);
    distinct = Distinct-sorted_discard (key o) ks h.distinct;
    sorted = IsSorted-sorted_discard (key o) ks h.sorted;
    complete = λ j p e same.
        let (ne, before) = lookup-erase-some j o.id p orders d e in
        Lists-sorted_discard (key p) (key o) ks
          (λ f. ne (sym (ids j p before) ∙ sym (own p) ∙ f ∙ own o)) (h.complete j p before same);
  }

  lookup-insert_own : (o : Order) → lookup (key o).id (insert o.id o orders) ≡ some o
  lookup-insert_own o = rw lookup-insert (rw (eq→== (key o).id o.id (own o)))

  pub IsSide-sorted_add :
      (o : Order) (ks : List Key)
      → lookup o.id orders ≡ none
      → o.side ≡ side
      → IsSide key side orders ks
      → IsSide key side (insert o.id o orders) (sorted_add (key o) ks)
  IsSide-sorted_add o ks new same h = record {
    refers =
        Each-sorted_add (Refers key side (insert o.id o orders)) (key o) ks
          (rw (lookup-insert_own o) (same, refl))
          (Refers-agree (insert o.id o orders) o.id ks (lookup-insert_ne o)
            (ids_other_than_new o.id ks new h.refers) h.refers);
    distinct =
        Distinct-sorted_add (key o) ks (rw (own o) (ids_other_than_new o.id ks new h.refers))
          h.distinct;
    sorted = IsSorted-sorted_add (key o) ks h.sorted;
    complete = λ j p e on_side. elim (lookup-insert-some j o.id o p orders e) [
      | inl (_, it) ↦ rw it (Lists-sorted_add_self (key o) ks)
      | inr before ↦ Lists-sorted_add (key p) (key o) ks (h.complete j p before on_side)
    ];
  }

  -- A new value with the old side and key.
  pub IsSide-insert_same :
      (o o' : Order) (ks : List Key)
      → lookup o'.id orders ≡ some o
      → o'.side ≡ o.side
      → key o' ≡ key o
      → IsSide key side orders ks
      → IsSide key side (insert o'.id o' orders) ks
  IsSide-insert_same o o' ks found same_side same_key h = record {
    distinct = h.distinct;
    sorted = h.sorted;
    refers =
        Each-map (Refers key side orders) (Refers key side (insert o'.id o' orders))
          (λ k r. elim (Bool-cases (k.id == o'.id)) [
            | inl t ↦
                let p =
                  Refers-some k o (ap (λ (i : ℕ). lookup i orders) (==→eq k.id o'.id t) ∙ found)
                    r in
                rw (lookup-insert k.id o'.id o' orders, t) (same_side ∙ p.0, same_key ∙ p.1)
            | inr f ↦ rw (lookup-insert k.id o'.id o' orders, f) r
          ])
          ks h.refers;
    complete = λ j p e on_side. elim (lookup-insert-some j o'.id o' p orders e) [
      | inl (_, it) ↦
          rw (it, same_key)
            (h.complete o'.id o found
              (sym same_side ∙ ap (λ (q : Order). q.side) (sym it) ∙ on_side))
      | inr before ↦ h.complete j p before on_side
    ];
  }
