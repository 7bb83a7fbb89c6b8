-- ===== src/ExitManager/Enforced.antt =====
-- runtime/exit_manager.py: the two enforcements, the hard backstop and the naked stop.
use momentum_system.Prelude.{
  ℕ, zero, suc, ◌≡◌, ◌⊎◌, inl, inr, refl, String, str_eq, eq_iff, true, false, Option, some, List,
  [], ◌∷◌, Bool-cases, arith,
}
use momentum_system.Prelude.Dict.{Dict, lookup, insert, erase, NoDup}
use momentum_system.Float.{Float, Real}
use momentum_system.Exits.Data.{ExitConfig}
use momentum_system.ExitManager.Data.{Bracket, BrokerPosition, Act, close_position, World, Manager}
use momentum_system.ExitManager.Desk.{
  is_active, stop_leg, market_open, try_close, cancel_seen, cancel_protective_and_close, flatten,
  request,
}
use momentum_system.ExitManager.Steps.{catastrophe_hit, enforce_catastrophe, enforce_naked}
use momentum_system.ExitManager.Pass.{
  keys, drop_closed, manage_position, manage_positions, manage_held, manage,
}
use momentum_system.ExitManager.Keeps.Rounds.{manage_position-Keeps, manage_positions-Keeps}
use momentum_system.ExitManager.Passes.{
  held_now, orders_now, Permitted, entries, held_now-NoDup, drop_closed-same, emptied, started,
}

-- a request that stands in the journal
abbrev pub Has : {R : Type 0} → Act R → List (Act R) → Type 0
Has a [] = ⊥
Has a (b ∷ j) = (b ≡ a) ⊎ Has a j

module _ ⦃n : Float⦄ where
  try_close-Has :
      (w : World Real) (symbol : String) (k : ℕ) (a : Act Real) (m : Manager Real)
      → Has a m.journal
      → Has a (try_close w symbol k m).1.journal
  unfolding try_close
  try_close-Has w symbol zero a m h = h
  try_close-Has w symbol (suc k) a m h =
      let asked = (request w (close_position symbol) m).1 in
      ground (arith, try_close-Has w symbol k a asked (inr h))

  flatten-closes :
      (w : World Real) (symbol : String) (orders : Option (List (Bracket Real))) (m : Manager Real)
      → Has (close_position symbol) (flatten w symbol orders m).1.journal
  unfolding flatten cancel_protective_and_close try_close
  flatten-closes w symbol orders m =
      let freed = cancel_seen w symbol orders m in
      let asked = (request w (close_position symbol) freed).1 in
      ground (arith, try_close-Has w symbol 3 (close_position symbol) asked (inl refl))

  enforce_catastrophe-closes :
      (w : World Real) (cfg : ExitConfig Real) (orders : Option (List (Bracket Real)))
      (symbol : String) (p : BrokerPosition Real) (stop : Option Real) (m : Manager Real)
      → Has (close_position symbol) (enforce_catastrophe w cfg orders true symbol p stop m).journal
  unfolding enforce_catastrophe
  enforce_catastrophe-closes w cfg orders symbol p stop m =
      let closed = flatten-closes w symbol orders m in ground (arith, closed)

  pub enforce_naked-closes :
      (w : World Real) (cfg : ExitConfig Real) (orders : Option (List (Bracket Real)))
      (symbol : String) (p : BrokerPosition Real) (m : Manager Real)
      → Has (close_position symbol) (enforce_naked w cfg orders true symbol p m).journal
  unfolding enforce_naked
  enforce_naked-closes w cfg orders symbol p m =
      let closed = flatten-closes w symbol orders m in ground (arith, closed)

  -- what the requests and the changes of the counts for the symbols in `On` keep
  pub record Stable (w : World Real) (cfg : ExitConfig Real) (On : String → Type 0)
      (Q : List (Act Real) → Dict ℕ → Type 0) : Type 0 where
    pub step :
        (a : Act Real) (j : List (Act Real)) (d : Dict ℕ) → Permitted w cfg a → Q j d → Q (a ∷ j) d
    pub pops : (s : String) (j : List (Act Real)) (d : Dict ℕ) → On s → Q j d → Q j (erase s d)
    pub counts :
        (s : String) (k : ℕ) (j : List (Act Real)) (d : Dict ℕ) → On s → Q j d → Q j (insert s k d)

  module _ (w : World Real) (cfg : ExitConfig Real) (symbol : String)
      (p : BrokerPosition Real) where
    abbrev pub Other : String → Type 0
    Other s = str_eq s symbol ≡ false

    abbrev pub round : String → BrokerPosition Real → Manager Real → Manager Real
    round = manage_position w cfg (orders_now w) (market_open w)

    abbrev rounds : Dict (BrokerPosition Real) → Manager Real → Manager Real
    rounds = manage_positions w cfg (orders_now w) (market_open w)

    -- The loop comes to the position, in a state that the rounds before it keep, and the rounds
    -- after it keep what its own round makes hold.
    module _ (I J : List (Act Real) → Dict ℕ → Type 0) (before : Stable w cfg Other I)
        (after : Stable w cfg Other J)
        (here : (m : Manager Real)
          → I m.journal m.naked_passes
          → J (round symbol p m).journal (round symbol p m).naked_passes) where
      reached :
          (ps : Dict (BrokerPosition Real)) (m : Manager Real)
          → NoDup ps
          → ((s : String) (q : BrokerPosition Real)
              → lookup s ps ≡ some q
              → lookup s (held_now w) ≡ some q)
          → lookup symbol ps ≡ some p
          → I m.journal m.naked_passes
          → J (rounds ps m).journal (rounds ps m).naked_passes
      unfolding manage_positions
      reached [] m u sub at h = ground arith
      reached ((s, q) ∷ ps) m u sub at h =
          let sub' : (k : String) (v : BrokerPosition Real)
              → lookup k ps ≡ some v
              → lookup k (held_now w) ≡ some v =
            λ k v e. sub k v (ground (arith, e, u.0, eq_iff s k)) in
          let next = round s q m in
          elim (Bool-cases (str_eq s symbol)) [
            | inl e ↦
                (let s_eq : s ≡ symbol = ground (arith, eq_iff s symbol) in
                  let q_eq : q ≡ p = ground (arith, at, e) in
                  let other : (k : String) (v : BrokerPosition Real)
                      → lookup k ps ≡ some v
                      → Other k =
                    λ k v f. ground (arith, f, u.0, eq_iff k symbol, s_eq) in
                  let rest =
                    entries (λ k v. (lookup k (held_now w) ≡ some v) × Other k) ps u.1
                      (λ k v f. (sub' k v f, other k v f)) in
                  manage_positions-Keeps cfg (orders_now w) (market_open w) (held_now w) w Other J
                    after.step after.pops after.counts ps next rest (rw (s_eq, q_eq) (here m h)))
            | inr e ↦
                (let on = sub s q (ground (arith, eq_iff s s)) in
                  let kept =
                    manage_position-Keeps cfg (orders_now w) (market_open w) (held_now w) w Other I
                      before.step before.pops before.counts s q m on e h in
                  reached ps next u.1 sub' (ground (arith, at, e)) kept)
          ]

    manage_held-runs :
        (held : Dict (BrokerPosition Real)) (m : Manager Real)
        → lookup symbol held ≡ some p
        → manage_held w cfg held m
          ≡ manage_positions w cfg
              (w.all_orders (keys held))
              (market_open w)
              held
              (drop_closed held (keys m.tracked) m)
    unfolding manage_held
    manage_held-runs [] m at = ground arith
    manage_held-runs (q ∷ held) m at = refl

    manage-runs :
        (m : Manager Real)
        → is_active cfg ≡ true
        → lookup symbol (held_now w) ≡ some p
        → manage w cfg m ≡ rounds (held_now w) (started w cfg m)
    unfolding manage
    manage-runs m active at =
        ground (arith, active, at, manage_held-runs (held_now w) (emptied m) at)

    -- the pass over the positions, for what the round of one of them makes hold
    pub manage-reached :
        (I J : List (Act Real) → Dict ℕ → Type 0)
        → Stable w cfg Other I
        → Stable w cfg Other J
        → ((m : Manager Real)
            → I m.journal m.naked_passes
            → J (round symbol p m).journal (round symbol p m).naked_passes)
        → (m : Manager Real) → is_active cfg ≡ true
        → lookup symbol (held_now w) ≡ some p
        → I [] m.naked_passes
        → J (manage w cfg m).journal (manage w cfg m).naked_passes
    manage-reached I J before after here m active at h =
        let start = started w cfg m in
        let (j, d) = drop_closed-same (held_now w) (keys m.tracked) (emptied m) in
        let kept : I start.journal start.naked_passes = rw (j, d) h in
        rw (manage-runs m active at)
          (reached I J before after here (held_now w) start (held_now-NoDup w) (λ s q e. e) at kept)

    -- a request, once it is made, stays made
    pub stays : (a : Act Real) → Stable w cfg Other (λ j d. Has a j)
    stays a = record { step = λ b j d c h. inr h; pops = λ s j d c h. h; counts = λ s k j d c h. h }

    anything : Stable w cfg Other (λ j d. Unit)
    anything = record { step = λ b j d c h. tt; pops = λ s j d c h. tt; counts = λ s k j d c h. tt }

    catastrophe_hit-is_active :
        (stop : Option Real) → catastrophe_hit cfg p stop ≡ true → is_active cfg ≡ true
    unfolding catastrophe_hit is_active
    catastrophe_hit-is_active stop h = ground arith

    hit_round :
        catastrophe_hit cfg p (stop_leg symbol (orders_now w)).1 ≡ true
        → market_open w ≡ true
        → (m : Manager Real) → Has (close_position symbol) (round symbol p m).journal
    unfolding manage_position
    hit_round hit is_open m =
        let stop = (stop_leg symbol (orders_now w)).1 in
        rw (hit, is_open) (enforce_catastrophe-closes w cfg (orders_now w) symbol p stop m)

    -- While the market is open, a pass asks the broker to close each held position that the hard
    -- backstop hits, with whatever stop leg, bars and other positions there are.
    pub manage-catastrophe :
        (m : Manager Real)
        → lookup symbol (held_now w) ≡ some p
        → catastrophe_hit cfg p (stop_leg symbol (orders_now w)).1 ≡ true
        → market_open w ≡ true
        → Has (close_position symbol) (manage w cfg m).journal
    manage-catastrophe m at hit is_open =
        manage-reached (λ j d. Unit) (λ j d. Has (close_position symbol) j) anything
          (stays (close_position symbol)) (λ k h. hit_round hit is_open k) m
          (catastrophe_hit-is_active (stop_leg symbol (orders_now w)).1 hit) at tt
