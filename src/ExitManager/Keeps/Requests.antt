-- ===== src/ExitManager/Keeps/Requests.antt =====
-- runtime/exit_manager.py: what the requests of a pass keep.
use momentum_system.Prelude.{
  true, ℕ, zero, suc, ◌≡◌, inl, inr, refl, String, Bool, false, Option, some, List, [], ◌∷◌,
  Option-cases, All, arith,
}
use momentum_system.Prelude.Int.{pos, ◌≤ℤ◌}
use momentum_system.Prelude.Dict.{Dict, lookup}
use momentum_system.Float.{Float, Real}
use momentum_system.Exits.Data.{ExitConfig}
use momentum_system.ExitManager.Warrants.{In, Held, shown, Warranted}
use momentum_system.ExitManager.Data.{
  Order, Bracket, BrokerPosition, ExitRule, Act, cancel_order, close_position, submit_stop, emitted,
  World, Manager,
}
use momentum_system.ExitManager.Desk.{
  is_reserving, request, cancel_leg, cancel_legs, cancel_protective, cancel_seen, try_close,
  cancel_protective_and_close, flatten, protective_price, whole_qty, rest_protective_stop,
}

-- each element of a list stands in it
each : {A : Type 0} (xs ys : List A) → ((x : A) → In x ys → In x xs) → All (λ x. In x xs) ys
each xs [] f = tt
each xs (y ∷ ys) f = (f y (inl refl), each xs ys (λ x i. f x (inr i)))

-- A property of the requests and of the counts of naked passes, which a warranted request keeps.
module _ ⦃n : Float⦄ (cfg : ExitConfig Real) (orders : Option (List (Bracket Real)))
    (is_open : Bool) (held : Dict (BrokerPosition Real)) (w : World Real) where
  abbrev Allowed : Act Real → Type 0
  Allowed = Warranted cfg orders is_open held w

  abbrev Holds : String → Type 0
  Holds = Held cfg orders is_open held w

  abbrev shown_for : String → List (Bracket Real)
  shown_for symbol = shown cfg orders is_open held w symbol orders

  module _ (Q : List (Act Real) → Dict ℕ → Type 0)
      (step : (a : Act Real) (j : List (Act Real)) (d : Dict ℕ)
        → Allowed a
        → Q j d
        → Q (a ∷ j) d) where
    abbrev Keeps : Manager Real → Type 0
    Keeps m = Q m.journal m.naked_passes

    cancel_leg-Keeps :
        (symbol : String) (b : Bracket Real) (o : Order Real) (m : Manager Real)
        → Holds symbol
        → In b (shown_for symbol)
        → In o (b.parent ∷ b.legs)
        → Keeps m
        → Keeps (cancel_leg w symbol b.parent o m)
    unfolding cancel_leg
    cancel_leg-Keeps symbol b o m at seen among h = elim (Option-cases o.id) [
      | inl e ↦ ground arith
      | inr (id, e) ↦
          (let frees : is_reserving symbol b.parent o ≡ true → Allowed (cancel_order id) = λ r.
              record {
                symbol = symbol;
                bracket = b;
                order = o;
                is_held = at;
                seen = seen;
                among = among;
                reserving = r;
                named = e;
              } in
            let asked : is_reserving symbol b.parent o ≡ true
                → Q (cancel_order id ∷ m.journal) m.naked_passes =
              λ r. step (cancel_order id) m.journal m.naked_passes (frees r) h in
            ground (arith, asked))
    ]

    cancel_legs-Keeps :
        (symbol : String) (b : Bracket Real) (os : List (Order Real)) (m : Manager Real)
        → Holds symbol
        → In b (shown_for symbol)
        → All (λ o. In o (b.parent ∷ b.legs)) os
        → Keeps m
        → Keeps (cancel_legs w symbol b.parent os m)
    unfolding cancel_legs
    cancel_legs-Keeps symbol b [] m at seen among h = h
    cancel_legs-Keeps symbol b (o ∷ os) m at seen among h =
        cancel_legs-Keeps symbol b os _ at seen among.1
          (cancel_leg-Keeps symbol b o m at seen among.0 h)

    cancel_protective-Keeps :
        (symbol : String) (bs : List (Bracket Real)) (m : Manager Real)
        → Holds symbol
        → All (λ b. In b (shown_for symbol)) bs
        → Keeps m
        → Keeps (cancel_protective w symbol bs m)
    unfolding cancel_protective
    cancel_protective-Keeps symbol [] m at seen h = h
    cancel_protective-Keeps symbol (b ∷ bs) m at seen h =
        let legs = b.parent ∷ b.legs in
        cancel_protective-Keeps symbol bs _ at seen.1
          (cancel_legs-Keeps symbol b legs m at seen.0 (each legs legs (λ x i. i)) h)

    try_close-Keeps :
        (symbol : String) (k : ℕ) (m : Manager Real)
        → Allowed (close_position symbol)
        → Keeps m
        → Keeps (try_close w symbol k m).1
    unfolding try_close
    try_close-Keeps symbol zero m c h = h
    try_close-Keeps symbol (suc k) m c h =
        let asked = step (close_position symbol) m.journal m.naked_passes c h in
        ground
          (arith, asked, try_close-Keeps symbol k (request w (close_position symbol) m).1 c asked)

    cancel_seen-Keeps :
        (symbol : String) (m : Manager Real)
        → Holds symbol
        → Keeps m
        → Keeps (cancel_seen w symbol orders m)
    unfolding cancel_seen
    cancel_seen-Keeps symbol m at h =
        let seen = shown_for symbol in
        let freed = cancel_protective-Keeps symbol seen m at (each seen seen (λ x i. i)) h in
        elim (Option-cases orders) [
          | inl e ↦ elim (Option-cases (w.open_orders symbol)) [
            | inl f ↦ ground (arith, e, f, h)
            | inr (bs, f) ↦ ground (arith, e, f, freed)
          ]
          | inr (bs, e) ↦ ground (arith, e, freed)
        ]

    pub flatten-Keeps :
        (symbol : String) (m : Manager Real)
        → Allowed (close_position symbol)
        → Keeps m
        → Keeps (flatten w symbol orders m).1
    unfolding flatten cancel_protective_and_close
    flatten-Keeps symbol m c h =
        try_close-Keeps symbol 4 (cancel_seen w symbol orders m) c
          (cancel_seen-Keeps symbol m c.0 h)

    pub rest_protective_stop-Keeps :
        (symbol : String) (p : BrokerPosition Real) (m : Manager Real)
        → lookup symbol held ≡ some p
        → is_open ≡ false
        → Keeps m
        → Keeps (rest_protective_stop w cfg symbol p p.avg_entry_price p.current_price m).1
    unfolding rest_protective_stop
    rest_protective_stop-Keeps symbol p m at shut h =
        let px = protective_price cfg p.avg_entry_price p.current_price in
        let asked : pos 1 ≤ℤ whole_qty p
            → Q (submit_stop symbol (whole_qty p) px ∷ m.journal) m.naked_passes =
          λ e. step _ _ _ ((p, at, refl, refl), shut, e) h in
        ground (arith, asked)

    pub emitted-Keeps :
        (rule : ExitRule) (symbol : String) (j : List (Act Real)) (d : Dict ℕ)
        → Q j d
        → Q (emitted rule symbol ∷ j) d
    emitted-Keeps rule symbol j d h = step (emitted rule symbol) j d tt h
