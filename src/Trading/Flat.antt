-- ===== src/Trading/Flat.antt =====
-- trading_execution.py: what `close_session` and the flattening leave behind.
use momentum_system.Prelude.{
  ◌≡◌, refl, sym, ◌∙◌, String, str_eq, eq_iff, true, false, ◌||◌, inl, inr, none, some, List, [],
  ◌∷◌, All, Bool-cases, Option-cases, arith,
}
use momentum_system.Prelude.Dict.{Dict}
use momentum_system.Prelude.Sets.{mem}
use momentum_system.Float.{Float, Real}
use momentum_system.Trading.Data.{Armed, Position, Outside, Service}
use momentum_system.Trading.Breaker.{
  FlattenResult, held_symbols, cancel_armed, close_all, flatten_all, close_missed, close_session,
}
use momentum_system.Trading.Flags.{session_closed-flatten_all, session_closed-close_missed}

module _ ⦃n : Float⦄ where
  armed-cancel_armed :
      (d : Dict (Armed Real)) (s : Service Real) → s.armed ≡ d → (cancel_armed d s).armed ≡ []
  unfolding cancel_armed
  armed-cancel_armed [] s h = h
  armed-cancel_armed ((order_id, a) ∷ d) s h =
      armed-cancel_armed d _ (rw h (ground (arith, eq_iff order_id order_id)))

  armed-close_all :
      (o : Outside Real) (symbols : List String) (r : FlattenResult × Service Real)
      → (close_all o symbols r).1.armed ≡ r.1.armed
  unfolding close_all
  armed-close_all o [] r = refl
  armed-close_all o (symbol ∷ symbols) (res, s) = armed-close_all o symbols _ ∙ ground arith

  -- After a flattening no entry is tracked as armed.
  pub armed-flatten_all : (o : Outside Real) (s : Service Real) → (flatten_all o s).1.armed ≡ []
  unfolding flatten_all
  armed-flatten_all o s =
      armed-close_all o (o.in_order (held_symbols o)) _ ∙ armed-cancel_armed s.armed s refl

  armed-close_missed :
      (o : Outside Real) (positions : List (Position Real)) (r : FlattenResult × Service Real)
      → (close_missed o positions r).1.armed ≡ r.1.armed
  unfolding close_missed
  armed-close_missed o [] r = refl
  armed-close_missed o (p ∷ positions) (res, s) = armed-close_missed o positions _ ∙ ground arith

  -- A symbol that is listed as closed is one whose close the broker accepts.
  abbrev pub IsTrue : Outside Real → FlattenResult → Type 0
  IsTrue o res = (x : String) → mem x res.closed_positions ≡ true → o.closes x ≡ true

  -- A symbol whose close the broker accepts is listed as closed, any other among the errors.
  abbrev pub Told : Outside Real → FlattenResult → String → Type 0
  Told o res x =
      (mem x res.closed_positions ≡ o.closes x) × ((o.closes x || mem x res.errors) ≡ true)

  close_all-IsTrue :
      (o : Outside Real) (symbols : List String) (r : FlattenResult × Service Real)
      → IsTrue o r.0
      → IsTrue o (close_all o symbols r).0
  unfolding close_all
  close_all-IsTrue o [] r h = h
  close_all-IsTrue o (symbol ∷ symbols) (res, s) h =
      close_all-IsTrue o symbols _ (λ x e. ground (arith, h x, eq_iff symbol x))

  close_missed-IsTrue :
      (o : Outside Real) (positions : List (Position Real)) (r : FlattenResult × Service Real)
      → IsTrue o r.0
      → IsTrue o (close_missed o positions r).0
  unfolding close_missed
  close_missed-IsTrue o [] r h = h
  close_missed-IsTrue o (p ∷ positions) (res, s) h =
      close_missed-IsTrue o positions _ (λ x e. ground (arith, h x, eq_iff p.symbol x))

  -- what is listed stays listed
  close_missed-keeps :
      (o : Outside Real) (x : String) (positions : List (Position Real))
      (r : FlattenResult × Service Real)
      → (mem x r.0.closed_positions ≡ true
          → mem x (close_missed o positions r).0.closed_positions ≡ true)
        × (mem x r.0.errors ≡ true → mem x (close_missed o positions r).0.errors ≡ true)
  unfolding close_missed
  close_missed-keeps o x [] r = (λ h. h, λ h. h)
  close_missed-keeps o x (p ∷ positions) (res, s) =
      let later = close_missed-keeps o x positions (close_missed o (p ∷ []) (res, s)) in
      (λ h. later.0 (ground arith), λ h. later.1 (ground arith))

  close_missed-lists :
      (o : Outside Real) (p : Position Real) (r : FlattenResult × Service Real)
      → str_eq p.symbol "" ≡ false
      → let res = (close_missed o (p ∷ []) r).0 in
        (o.closes p.symbol ≡ true → mem p.symbol res.closed_positions ≡ true)
        × (o.closes p.symbol ≡ false
            → (mem p.symbol r.0.closed_positions || mem p.symbol res.errors) ≡ true)
  unfolding close_missed
  close_missed-lists o p (res, s) h =
      (λ e. ground (arith, eq_iff p.symbol p.symbol), λ e. ground (arith, eq_iff p.symbol p.symbol))

  close_missed-Told :
      (o : Outside Real) (positions : List (Position Real)) (r : FlattenResult × Service Real)
      → IsTrue o r.0
      → All
          (λ p. str_eq p.symbol "" ≡ false → Told o (close_missed o positions r).0 p.symbol)
          positions
  unfolding close_missed
  close_missed-Told o [] r h = tt
  close_missed-Told o (p ∷ positions) (res, s) h =
      let next = close_missed o (p ∷ []) (res, s) in
      let true_next = close_missed-IsTrue o (p ∷ []) (res, s) h in
      let true_last = close_missed-IsTrue o positions next true_next p.symbol in
      let kept = close_missed-keeps o p.symbol positions next in
      (
        λ named.
            let listed = close_missed-lists o p (res, s) named in
            let before = h p.symbol in
            elim (Bool-cases (o.closes p.symbol)) [
              | inl e ↦ (kept.0 (listed.0 e) ∙ sym e, ground (arith, e))
              | inr e ↦
                  (ground (arith, e, true_last), ground (arith, e, before, listed.1 e, kept.1))
            ],
        close_missed-Told o positions next true_next,
      )

  flatten_all-IsTrue : (o : Outside Real) (s : Service Real) → IsTrue o (flatten_all o s).0
  unfolding flatten_all
  flatten_all-IsTrue o s = close_all-IsTrue o (o.in_order (held_symbols o)) _ (λ x h. ground arith)

  abbrev pub reported : Outside Real → List (Position Real)
  reported o = elim o.positions [ none ↦ [] | some ps ↦ ps ]

  -- After `close_session` the session is closed, and no entry is tracked as armed. Every symbol that
  -- it lists as closed is one whose close the broker accepts; and each position that the broker
  -- reports under a symbol is listed as closed exactly if its close is accepted, and among the errors
  -- if not.
  pub close_session-flat :
      (o : Outside Real) (s : Service Real)
      → ((close_session o s).1.session_closed ≡ true)
        × ((close_session o s).1.armed ≡ [])
        × IsTrue o (close_session o s).0
        × All (λ p. str_eq p.symbol "" ≡ false → Told o (close_session o s).0 p.symbol) (reported o)
  unfolding close_session
  close_session-flat o s =
      let start = record s { session_closed = true } in
      let flat = flatten_all o start in
      let e = armed-flatten_all o start in
      let honest = flatten_all-IsTrue o start in
      elim (Option-cases o.positions) [
        | inl q ↦ rw (q, close_session) (session_closed-flatten_all o start, e, honest, tt)
        | inr (ps, q) ↦
            rw (q, close_session)
              (
                session_closed-close_missed o ps flat ∙ session_closed-flatten_all o start,
                armed-close_missed o ps flat ∙ e,
                close_missed-IsTrue o ps flat honest,
                close_missed-Told o ps flat honest,
              )
      ]
