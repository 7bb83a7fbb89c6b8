-- ===== src/ExitManager/Passes.antt =====
-- runtime/exit_manager.py: whole passes, and what they request of the broker.
use momentum_system.Prelude.{
  ℕ, ◌≡◌, ◌⊎◌, inl, inr, refl, String, str_eq, eq_iff, Option, none, some, List, [], ◌∷◌,
  if◌then◌else◌, Option-cases, All, arith,
}
use momentum_system.Prelude.Dict.{Dict, lookup, insert, erase, NoDup, NoDup-insert}
use momentum_system.Prelude.Sets.{discard}
use momentum_system.Float.{Float, Real}
use momentum_system.Exits.Data.{ExitConfig}
use momentum_system.ExitManager.Data.{Bracket, BrokerPosition, Act, World, Manager}
use momentum_system.ExitManager.Desk.{market_open}
use momentum_system.ExitManager.Pass.{
  keys, held_of, drop_closed, manage_positions, manage_held, manage,
}
use momentum_system.ExitManager.Warrants.{Warranted}
use momentum_system.ExitManager.Keeps.Rounds.{manage_positions-Keeps}

module _ ⦃n : Float⦄ where
  -- the positions by symbol that a pass goes over, and its snapshot of their orders
  abbrev pub held_now : World Real → Dict (BrokerPosition Real)
  held_now w = elim w.positions [ none ↦ [] | some ps ↦ held_of ps [] ]

  abbrev pub orders_now : World Real → Option (List (Bracket Real))
  orders_now w = w.all_orders (keys (held_now w))

  abbrev pub Permitted : World Real → ExitConfig Real → Act Real → Type 0
  Permitted w cfg a = Warranted cfg (orders_now w) (market_open w) (held_now w) w a

  pub drop_closed-same :
      (held : Dict (BrokerPosition Real)) (symbols : List String) (m : Manager Real)
      → ((drop_closed held symbols m).journal ≡ m.journal)
        × ((drop_closed held symbols m).naked_passes ≡ m.naked_passes)
  unfolding drop_closed
  drop_closed-same held [] m = (refl, refl)
  drop_closed-same held (symbol ∷ symbols) m =
      let dropped : Manager Real = record m {
        tracked = erase symbol m.tracked;
        open_anchored = discard symbol m.open_anchored;
      } in
      ground (arith, drop_closed-same held symbols m, drop_closed-same held symbols dropped)

  held_of-NoDup :
      (ps : List (BrokerPosition Real)) (held : Dict (BrokerPosition Real))
      → NoDup held
      → NoDup (held_of ps held)
  unfolding held_of
  held_of-NoDup [] held h = h
  held_of-NoDup (p ∷ ps) held h =
      held_of-NoDup ps (if str_eq p.symbol "" then held else insert p.symbol p held)
        (ground (arith, h, NoDup-insert p.symbol p held h))

  -- what holds of each entry that a lookup finds holds of all entries
  pub entries :
      {A : Type 0} (P : String → A → Type 0) (d : Dict A)
      → NoDup d
      → ((k : String) (v : A) → lookup k d ≡ some v → P k v)
      → All (λ e. P e.0 e.1) d
  entries P [] u f = tt
  entries {A = A} P ((k, v) ∷ d) u f =
      let later : (j : String) (v' : A) → lookup j d ≡ some v' → P j v' =
        λ j v' e. f j v' (ground (arith, e, u.0, eq_iff k j)) in
      (f k v (ground (arith, eq_iff k k)), entries P d u.1 later)

  pub held_now-NoDup : (w : World Real) → NoDup (held_now w)
  held_now-NoDup w = elim (Option-cases w.positions) [
    | inl e ↦ ground arith
    | inr (ps, e) ↦ ground (arith, held_of-NoDup ps [] tt)
  ]

  abbrev pub emptied : Manager Real → Manager Real
  emptied m = record m { journal = []; actions = [] }

  abbrev pub started : World Real → ExitConfig Real → Manager Real → Manager Real
  started w cfg m = drop_closed (held_now w) (keys m.tracked) (emptied m)

  manage_held-cases :
      (w : World Real) (cfg : ExitConfig Real) (held : Dict (BrokerPosition Real))
      (m : Manager Real)
      → let start = drop_closed held (keys m.tracked) m in
        (((manage_held w cfg held m).journal ≡ m.journal)
          × ((manage_held w cfg held m).naked_passes ≡ m.naked_passes))
        ⊎ (manage_held w cfg held m
            ≡ manage_positions w cfg (w.all_orders (keys held)) (market_open w) held start)
  unfolding manage_held
  manage_held-cases w cfg [] m = inl (drop_closed-same [] (keys m.tracked) m)
  manage_held-cases w cfg (p ∷ held) m = inr refl

  -- A pass is the loop over the positions that are held, if it gets that far.
  manage-cases :
      (w : World Real) (cfg : ExitConfig Real) (m : Manager Real)
      → (((manage w cfg m).journal ≡ []) × ((manage w cfg m).naked_passes ≡ m.naked_passes))
        ⊎ (manage w cfg m
            ≡ manage_positions w cfg (orders_now w) (market_open w) (held_now w) (started w cfg m))
  unfolding manage
  manage-cases w cfg m = ground (arith, manage_held-cases w cfg (held_now w) (emptied m))

  module _ (w : World Real) (cfg : ExitConfig Real) (On : String → Type 0)
      (Q : List (Act Real) → Dict ℕ → Type 0)
      (step : (a : Act Real) (j : List (Act Real)) (d : Dict ℕ)
        → Permitted w cfg a
        → Q j d
        → Q (a ∷ j) d)
      (pops : (s : String) (j : List (Act Real)) (d : Dict ℕ) → On s → Q j d → Q j (erase s d))
      (counts : (s : String) (k : ℕ) (j : List (Act Real)) (d : Dict ℕ)
        → On s
        → Q j d
        → Q j (insert s k d)) where
    pub manage-Keeps :
        (m : Manager Real)
        → ((symbol : String) (p : BrokerPosition Real)
            → lookup symbol (held_now w) ≡ some p
            → On symbol)
        → Q [] m.naked_passes
        → Q (manage w cfg m).journal (manage w cfg m).naked_passes
    manage-Keeps m on h = elim (manage-cases w cfg m) [
      | inl (e, f) ↦ rw (e, f) h
      | inr e ↦
          (let start = started w cfg m in
            let each =
              entries (λ s p. (lookup s (held_now w) ≡ some p) × On s) (held_now w)
                (held_now-NoDup w) (λ s p a. (a, on s p a)) in
            let (j, d) = drop_closed-same (held_now w) (keys m.tracked) (emptied m) in
            let kept : Q start.journal start.naked_passes = rw (j, d) h in
            rw e (
              manage_positions-Keeps cfg (orders_now w) (market_open w) (held_now w) w On Q step
                pops counts (held_now w) start each kept))
    ]

  -- Whatever a pass asks of the broker is warranted. It cancels an order only if the orders that it
  -- looks at show it as a sell order of the symbol, in a state that reserves shares. It
  -- closes a position, in whole or in part, only while the market is open, and at least one share; it
  -- rests a stop only while the market is closed, for the whole shares of the position and at the
  -- price that `_rest_protective_stop` gives; and it moves a stop leg only while the market is open, to
  -- a rounded price more than a cent above the one it has, and below the last price, if that is known.
  -- All of this is for symbols that are held.
  pub manage-Permitted :
      (w : World Real) (cfg : ExitConfig Real) (m : Manager Real)
      → All (Permitted w cfg) (manage w cfg m).journal
  manage-Permitted w cfg m =
      manage-Keeps w cfg (λ _. Unit) (λ j _. All (Permitted w cfg) j) (λ a j d p h. (p, h))
        (λ s j d o h. h) (λ s k j d o h. h) m (λ s p at. tt) tt
