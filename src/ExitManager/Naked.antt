-- ===== src/ExitManager/Naked.antt =====
-- runtime/exit_manager.py: a position without a stop is closed within the grace.
use momentum_system.Prelude.{
  ℕ, suc, ◌+◌, ◌≤◌, ◌<◌, ◌≡◌, ◌⊎◌, inl, inr, refl, String, str_eq, eq_iff, true, false, Option,
  none, some, List, [], ◌∷◌, length, leb, Bool-cases, All, arith,
}
use momentum_system.Prelude.Dict.{
  Dict, lookup, insert, NoDup, NoDup-insert, NoDup-erase, lookup-insert, lookup-erase,
}
use momentum_system.Float.{Float, Real}
use momentum_system.Exits.Data.{ExitConfig}
use momentum_system.ExitManager.Data.{BrokerPosition, Act, close_position, World, Manager}
use momentum_system.ExitManager.Desk.{is_active, stop_leg, market_open}
use momentum_system.ExitManager.Steps.{catastrophe_hit, is_naked, passes_of, count_naked}
use momentum_system.ExitManager.Pass.{manage_position, manage}
use momentum_system.ExitManager.Passes.{held_now, orders_now, manage-Keeps}
use momentum_system.ExitManager.Enforced.{
  Has, Stable, Other, round, enforce_naked-closes, manage-reached,
}

module _ ⦃n : Float⦄ where
  -- A pass that sees the position without a stop leg, while the market is open.
  pub record SeenNaked (cfg : ExitConfig Real) (symbol : String) (w : World Real) : Type 0 where
    pub position : BrokerPosition Real
    pub is_held : lookup symbol (held_now w) ≡ some position
    pub no_hit : catastrophe_hit cfg position (stop_leg symbol (orders_now w)).1 ≡ false
    pub naked : is_naked cfg position (stop_leg symbol (orders_now w)).0 ≡ true
    pub opened : market_open w ≡ true

  -- the manager after each of some passes
  unfoldable pub passes : ExitConfig Real → List (World Real) → Manager Real → List (Manager Real)
  passes cfg [] m = []
  passes cfg (w ∷ ws) m = manage w cfg m ∷ passes cfg ws (manage w cfg m)

  -- One of the passes asks the broker to close the position.
  abbrev pub Closes : String → List (Manager Real) → Type 0
  Closes symbol [] = ⊥
  Closes symbol (m ∷ ms) = Has (close_position symbol) m.journal ⊎ Closes symbol ms

  abbrev seen_for : Option ℕ → ℕ
  seen_for o = elim o [ none ↦ 0 | some k ↦ k ]

  module _ (w : World Real) (cfg : ExitConfig Real) (symbol : String) (p : BrokerPosition Real)
      (c : ℕ) where
    -- the count of passes is `c`, in a dict
    abbrev Counted : List (Act Real) → Dict ℕ → Type 0
    Counted j d = NoDup d × (seen_for (lookup symbol d) ≡ c)

    -- the position is closed, or the count has grown, and is below the grace
    abbrev Next : List (Act Real) → Dict ℕ → Type 0
    Next j d =
        Has (close_position symbol) j
        ⊎ (NoDup d × (seen_for (lookup symbol d) ≡ suc c) × (suc c < cfg.enforce_stop_grace_passes))

    before-Counted : Stable w cfg (Other w cfg symbol p) Counted
    before-Counted = record {
      step = λ a j d t h. h;
      pops =
          λ s j d o h. (NoDup-erase s d h.0, ground (arith, h.1, o, lookup-erase s symbol d h.0));
      counts = λ s k j d o h.
          (NoDup-insert s k d h.0, ground (arith, h.1, o, lookup-insert s symbol k d));
    }

    after-Next : Stable w cfg (Other w cfg symbol p) Next
    after-Next = record {
      step = λ a j d t h. elim h [ inl e ↦ inl (inr e) | inr e ↦ inr e ];
      pops = λ s j d o h. elim h [
        | inl e ↦ inl e
        | inr (u, e, l) ↦
            inr (NoDup-erase s d u, ground (arith, e, o, lookup-erase s symbol d u), l)
      ];
      counts = λ s k j d o h. elim h [
        | inl e ↦ inl e
        | inr (u, e, l) ↦
            inr (NoDup-insert s k d u, ground (arith, e, o, lookup-insert s symbol k d), l)
      ];
    }

    count_naked-Next :
        (m : Manager Real)
        → Counted m.journal m.naked_passes
        → let after = count_naked w cfg (orders_now w) true symbol p m in
          Next after.journal after.naked_passes
    unfolding count_naked
    count_naked-Next m (u, e) =
        let k = suc (passes_of symbol m) in
        let counted : Manager Real = record m { naked_passes = insert symbol k m.naked_passes } in
        let closed = enforce_naked-closes w cfg (orders_now w) symbol p counted in
        elim (Bool-cases (leb cfg.enforce_stop_grace_passes k)) [
          | inl f ↦ rw f (inl closed)
          | inr f ↦ rw f (
              inr (
                NoDup-insert symbol k m.naked_passes u,
                ground
                    (arith, e, eq_iff symbol symbol, lookup-insert symbol symbol k m.naked_passes),
                ground (arith, e, f),
              ))
        ]

    naked_round :
        (m : Manager Real)
        → catastrophe_hit cfg p (stop_leg symbol (orders_now w)).1 ≡ false
        → is_naked cfg p (stop_leg symbol (orders_now w)).0 ≡ true
        → market_open w ≡ true
        → Counted m.journal m.naked_passes
        → Next
            (round w cfg symbol p symbol p m).journal
            (round w cfg symbol p symbol p m).naked_passes
    unfolding manage_position
    naked_round m no_hit naked is_open (u, e) =
        rw (no_hit, naked, is_open) (count_naked-Next m (u, e))

  naked-is_active :
      (cfg : ExitConfig Real) (p : BrokerPosition Real) (leg_id : Option String)
      → is_naked cfg p leg_id ≡ true
      → (is_active cfg ≡ true) × (0 < cfg.enforce_stop_grace_passes)
  unfolding is_naked is_active
  naked-is_active cfg p leg_id h = ground arith

  module _ (cfg : ExitConfig Real) (symbol : String) where
    -- what one pass does to a position that it sees naked
    naked_pass :
        (w : World Real) (m : Manager Real) (s : SeenNaked cfg symbol w)
        → NoDup m.naked_passes
        → Next w cfg symbol s.position
            (seen_for (lookup symbol m.naked_passes))
            (manage w cfg m).journal
            (manage w cfg m).naked_passes
    naked_pass w m s u =
        let p = s.position in
        let c = seen_for (lookup symbol m.naked_passes) in
        let active = naked-is_active cfg p (stop_leg symbol (orders_now w)).0 s.naked in
        manage-reached w cfg symbol p (Counted w cfg symbol p c) (Next w cfg symbol p c)
          (before-Counted w cfg symbol p c) (after-Next w cfg symbol p c)
          (λ k h. naked_round w cfg symbol p c k s.no_hit s.naked s.opened h) m active.0 s.is_held
          (u, refl)

    naked_passes-close :
        (ws : List (World Real)) (m : Manager Real)
        → NoDup m.naked_passes
        → All (SeenNaked cfg symbol) ws
        → seen_for (lookup symbol m.naked_passes) < cfg.enforce_stop_grace_passes
        → cfg.enforce_stop_grace_passes ≤ seen_for (lookup symbol m.naked_passes) + length ws
        → Closes symbol (passes cfg ws m)
    unfolding passes
    naked_passes-close [] m u h below enough = omega arith
    naked_passes-close (w ∷ ws) m u h below enough = elim (naked_pass w m h.0 u) [
      | inl c ↦ inl c
      | inr (v, e, l) ↦
          inr (naked_passes-close ws (manage w cfg m) v h.1 (omega arith) (omega arith))
    ]

    -- As many passes in a row as the grace, each of which sees the position without a stop leg while
    -- the market is open, and finds no hit of the hard backstop, request the broker to close it: one of
    -- them does. The counts of naked passes are a dict, and the grace is not zero.
    pub naked_stop_is_enforced :
        (ws : List (World Real)) (m : Manager Real)
        → NoDup m.naked_passes
        → 0 < cfg.enforce_stop_grace_passes
        → length ws ≡ cfg.enforce_stop_grace_passes
        → All (SeenNaked cfg symbol) ws
        → Closes symbol (passes cfg ws m)
    unfolding passes
    naked_stop_is_enforced [] m u pos long h = omega arith
    naked_stop_is_enforced (w ∷ ws) m u pos long h = elim (naked_pass w m h.0 u) [
      | inl c ↦ inl c
      | inr (v, e, l) ↦
          inr (naked_passes-close ws (manage w cfg m) v h.1 (omega arith) (omega arith))
    ]

    -- A pass leaves alone the count of naked passes of a name that is not held: the count is not
    -- cleared when a position is gone, and goes on when the name is bought again. The counts are a
    -- dict.
    pub manage-unheld :
        (w : World Real) (m : Manager Real)
        → NoDup m.naked_passes
        → lookup symbol (held_now w) ≡ none
        → lookup symbol (manage w cfg m).naked_passes ≡ lookup symbol m.naked_passes
    manage-unheld w m u gone =
        let was = lookup symbol m.naked_passes in
        (manage-Keeps w cfg (λ s. str_eq s symbol ≡ false)
          (λ j d. NoDup d × (lookup symbol d ≡ was)) (λ a j d t h. h)
          (λ s j d o h. (NoDup-erase s d h.0, ground (arith, h.1, o, lookup-erase s symbol d h.0)))
          (λ s k j d o h.
            (NoDup-insert s k d h.0, ground (arith, h.1, o, lookup-insert s symbol k d)))
          m (λ s p at. ground (arith, at, gone, eq_iff s symbol)) (u, refl)).1
