-- ===== src/Trading/Fresh.antt =====
-- runtime/flatten.py and trading_execution.py: the catch-up leaves alone what was bought today.
use momentum_system.Prelude.{
  ℕ, ◌≡◌, refl, ◌∙◌, ap, String, str_eq, eq_iff, Bool, false, ◌&&◌, ◌||◌, not, Option, some, List,
  [], ◌∷◌, ◌++◌, filter, if◌then◌else◌, Bool-cases, inl, inr, arith,
}
use momentum_system.Prelude.Sets.{mem, add, mem-add}
use momentum_system.Float.{Float, Real}
use momentum_system.Exits.Data.{is_empty}
use momentum_system.Trading.Carries.{
  BuyFill, FilledOrder, OrderTree, Holding, CarryWorld, CarryResult, is_today, bought_today,
  find_overnight_carries, symbol_or, is_buy_fill, fills_of_legs, buy_fills_from_orders,
  open_symbols_of, close_carries, flatten_overnight_carries, no_carries,
}

pub mem-filter :
    (keep : String → Bool) (s : String) (xs : List String)
    → mem s (filter keep xs) ≡ (mem s xs && keep s)
mem-filter keep s [] = refl
mem-filter keep s (x ∷ xs) = elim (Bool-cases (str_eq x s)) [
  | inl e ↦ (let same : x ≡ s = (eq_iff x s).0 e in ground (arith, mem-filter keep s xs, e, same))
  | inr e ↦ ground (arith, mem-filter keep s xs, e)
]

module _ (date_of : String → Option ℕ) where
  -- a fill of the symbol on the day
  abbrev any_fill : ℕ → String → List BuyFill → Bool
  any_fill today s [] = false
  any_fill today s (f ∷ fs) = (is_today date_of today f && str_eq f.symbol s) || any_fill today s fs

  mem-bought_today :
      (today : ℕ) (s : String) (fs : List BuyFill) (seen : List String)
      → str_eq s "" ≡ false
      → mem s (bought_today date_of today fs seen) ≡ (mem s seen || any_fill today s fs)
  unfolding bought_today
  mem-bought_today today s [] seen h = ground arith
  mem-bought_today today s (f ∷ fs) seen h =
      let taken = is_today date_of today f && not (str_eq f.symbol "") in
      let next = if taken then add f.symbol seen else seen in
      ground
        (arith, h, eq_iff f.symbol s, mem-add s f.symbol seen, mem-bought_today today s fs next h)

  any_fill-append :
      (today : ℕ) (s : String) (xs ys : List BuyFill)
      → any_fill today s (xs ++ ys) ≡ (any_fill today s xs || any_fill today s ys)
  any_fill-append today s [] ys = refl
  any_fill-append today s (x ∷ xs) ys = ground (arith, any_fill-append today s xs ys)

  module _ ⦃n : Float⦄ where
    -- whether an order, or one of its legs, has bought shares of the symbol on the day
    abbrev pub leg_bought : ℕ → String → FilledOrder Real → List (FilledOrder Real) → Bool
    leg_bought today s o [] = false
    leg_bought today s o (x ∷ xs) =
        (is_buy_fill x
          && is_today date_of today (record { symbol = symbol_or o x; filled_at = x.filled_at })
          && str_eq (symbol_or o x) s)
        || leg_bought today s o xs

    abbrev pub was_bought : ℕ → String → List (OrderTree Real) → Bool
    was_bought today s [] = false
    was_bought today s (t ∷ ts) =
        leg_bought today s t.parent (t.parent ∷ t.legs) || was_bought today s ts

    fills_of_legs-bought :
        (today : ℕ) (s : String) (o : FilledOrder Real) (xs : List (FilledOrder Real))
        → any_fill today s (fills_of_legs o xs) ≡ leg_bought today s o xs
    unfolding fills_of_legs
    fills_of_legs-bought today s o [] = refl
    fills_of_legs-bought today s o (x ∷ xs) = elim (Bool-cases (is_buy_fill x)) [
      | inl e ↦ ground (arith, e, fills_of_legs-bought today s o xs)
      | inr e ↦ ground (arith, e, fills_of_legs-bought today s o xs)
    ]

    buy_fills-bought :
        (today : ℕ) (s : String) (ts : List (OrderTree Real))
        → any_fill today s (buy_fills_from_orders ts) ≡ was_bought today s ts
    unfolding buy_fills_from_orders
    buy_fills-bought today s [] = refl
    buy_fills-bought today s (t ∷ ts) =
        let fills = fills_of_legs t.parent (t.parent ∷ t.legs) in
        ground (
          arith,
          any_fill-append today s fills (buy_fills_from_orders ts),
          fills_of_legs-bought today s t.parent (t.parent ∷ t.legs),
          buy_fills-bought today s ts,
        )

    find_overnight_carries-mem :
        (sorted : List String → List String) (open_symbols : List String) (today : ℕ) (s : String)
        (orders : List (OrderTree Real))
        → ((x : String) (xs : List String) → mem x (sorted xs) ≡ mem x xs)
        → str_eq s "" ≡ false
        → mem s (
            find_overnight_carries date_of sorted open_symbols (buy_fills_from_orders orders) today)
          ≡ (mem s open_symbols && not (was_bought today s orders))
    unfolding find_overnight_carries
    find_overnight_carries-mem sorted open_symbols today s orders keeps h =
        let fills = buy_fills_from_orders orders in
        let bought = bought_today date_of today fills [] in
        let keep : String → Bool = λ x. not (str_eq x "") && not (mem x bought) in
        keeps s (filter keep open_symbols)
        ∙ ground (
          arith,
          h,
          mem-filter keep s open_symbols,
          mem-bought_today today s fills [] h,
          buy_fills-bought today s orders,
        )

    close_carries-closed :
        (w : CarryWorld Real) (s : String) (xs : List String) (res : CarryResult)
        → (mem s (close_carries w xs res).closed ≡ (mem s res.closed || (mem s xs && w.closes s)))
          × ((close_carries w xs res).carries ≡ res.carries)
    unfolding close_carries
    close_carries-closed w s [] res = (ground arith, refl)
    close_carries-closed w s (x ∷ xs) res =
        let next : CarryResult =
          if w.closes x
          then record res { closed = x ∷ res.closed }
          else record res { errors = x ∷ res.errors } in
        elim (Bool-cases (str_eq x s)) [
          | inl e ↦
              (let same : x ≡ s = (eq_iff x s).0 e in
                ground (arith, e, same, close_carries-closed w s xs next))
          | inr e ↦ ground (arith, e, close_carries-closed w s xs next)
        ]

    -- Where the positions and their orders can be read, the catch-up takes a symbol for a carry just
    -- if it is open and no order of it, nor a leg, has bought shares today, whatever the status of
    -- that order; and it closes just the carries that the broker closes. `sorted` keeps the members,
    -- and the symbol is not empty.
    pub flatten_overnight_carries-exact :
        (sorted : List String → List String) (w : CarryWorld Real) (today : ℕ) (s : String)
        (positions : List (Holding Real)) (orders : List (OrderTree Real))
        → ((x : String) (xs : List String) → mem x (sorted xs) ≡ mem x xs)
        → w.positions ≡ some positions
        → w.orders (sorted (open_symbols_of positions)) ≡ some orders
        → str_eq s "" ≡ false
        → let res = flatten_overnight_carries date_of sorted w today in
          (mem s res.carries
            ≡ (mem s (open_symbols_of positions) && not (was_bought today s orders)))
          × (mem s res.closed ≡ (mem s res.carries && w.closes s))
    unfolding flatten_overnight_carries close_carries
    flatten_overnight_carries-exact sorted w today s positions orders keeps read seen h =
        let open_syms = open_symbols_of positions in
        let carries =
          find_overnight_carries date_of sorted open_syms (buy_fills_from_orders orders) today in
        let exact = find_overnight_carries-mem sorted open_syms today s orders keeps h in
        let (closed, kept) =
          close_carries-closed w s carries (record no_carries { carries = carries }) in
        elim (Bool-cases (is_empty open_syms)) [
          | inl e ↦
              (let none_open : open_syms ≡ [] = ground (arith, e) in
                rw (read, e) (ground (arith, none_open), refl))
          | inr e ↦ rw (read, e, seen) (ap (mem s) kept ∙ exact, ground (arith, closed, kept))
        ]
