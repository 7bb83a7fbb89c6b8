-- ===== src/Trading/Manual.antt =====
-- trading_execution.py: `submit_exit_order`; alpaca_paper/execution.py: `cancel_entry`.
use momentum_system.Prelude.{
  zero, ◌≡◌, refl, String, str_eq, Bool, true, false, ◌&&◌, not, Option, none, some, List, [], ◌∷◌,
  if◌then◌else◌, Bool-cases, Option-cases, inl, inr,
}
use momentum_system.Prelude.Int.{ℤ, pos}
use momentum_system.Float.{Float, Real, fabs}
use momentum_system.Trading.Executor.{cancellation, Execution}

-- A position of the latest snapshot; a symbol that is missing is "", a quantity 0.0.
pub record HeldRow (R : Type 0) : Type 0 where
  pub symbol : String
  pub quantity : R

-- The broker's answer to `close_position`; what is missing or empty is `none`.
pub record CloseAnswer : Type 0 where
  pub id : Option String
  pub status : Option String

-- `str(id)`, or the text "close-" and the symbol
pub data ExitId : Type 0 where
  broker_id close_of : String → ExitId

pub data ExitError : Type 0 where
  no_open_position close_raised : ExitError

-- The dict that is returned, and the symbols whose close is asked of the broker.
pub record ExitOrder : Type 0 where
  pub ok : Bool
  pub order_id : Option ExitId
  pub broker_order_id : Option String
  pub status : Option String
  pub error : Option ExitError
  pub asked : List String

-- What `cancel_entry` returns, and the order that it asks the broker to cancel.
pub record CancelledEntry (R : Type 0) : Type 0 where
  pub result : Execution R
  pub asked : Option String

unfoldable pub holds : String → List String → Bool
holds symbol [] = false
holds symbol (x ∷ xs) = if str_eq x symbol then true else holds symbol xs

abbrev pub is_nothing : ℤ → Bool
is_nothing (pos zero) = true
is_nothing _ = false

abbrev exit_id : Option String → String → ExitId
exit_id none symbol = close_of symbol
exit_id (some id) symbol = broker_id id

abbrev status_or : Option String → String
status_or none = "closing"
status_or (some status) = status

abbrev pub refused_exit : ExitOrder
refused_exit = record {
  ok = false;
  order_id = none;
  broker_order_id = none;
  status = none;
  error = some no_open_position;
  asked = [];
}

unfoldable pub close_answered : String → Option CloseAnswer → ExitOrder
close_answered symbol none = record {
  ok = false;
  order_id = none;
  broker_order_id = none;
  status = none;
  error = some close_raised;
  asked = symbol ∷ [];
}
close_answered symbol (some raw) = record {
  ok = true;
  order_id = some (exit_id raw.id symbol);
  broker_order_id = raw.id;
  status = some (status_or raw.status);
  error = none;
  asked = symbol ∷ [];
}

module _ ⦃n : Float⦄ where
  -- `int(abs(quantity))` of the last row of the symbol, or `none`
  unfoldable pub quantity_of : String → Option ℤ → List (HeldRow Real) → Option ℤ
  quantity_of symbol found [] = found
  quantity_of symbol found (p ∷ rows) =
      quantity_of symbol
        (if str_eq p.symbol symbol then some (n.trunc (fabs p.quantity)) else found) rows

  unfoldable pub names_of : List (HeldRow Real) → List String
  names_of [] = []
  names_of (p ∷ rows) = if str_eq p.symbol "" then names_of rows else p.symbol ∷ names_of rows

  abbrev pub is_sized : Option ℤ → Bool
  is_sized none = false
  is_sized (some q) = not (is_nothing q)

  -- The snapshot is that of the store, or no row if there is none; `closes` is `close_position`,
  -- `none` where it raises.
  unfoldable pub submit_exit_order :
      (String → Option CloseAnswer) → List (HeldRow Real) → String → ExitOrder
  submit_exit_order closes rows symbol =
      if holds symbol (names_of rows) && is_sized (quantity_of symbol none rows)
      then close_answered symbol (closes symbol)
      else refused_exit

  -- whether or not the broker's cancel raises, the cancellation is recorded
  unfoldable pub cancel_entry : String → Option String → CancelledEntry Real
  cancel_entry order_id broker_order_id = record {
    result = record {
      ok = true;
      order_id = order_id;
      broker_order_id = none;
      status = some "cancelled";
      events = cancellation order_id ∷ [];
    };
    asked = broker_order_id;
  }

  module _ (closes : String → Option CloseAnswer) (rows : List (HeldRow Real))
      (symbol : String) where
    -- The broker is asked to close the symbol, once, if the snapshot has it with a whole share or
    -- more, and nothing is asked otherwise; the order is reported as sent exactly when the broker is
    -- asked and answers.
    pub submit_exit_order-asked :
        let r = submit_exit_order closes rows symbol in
        let due = holds symbol (names_of rows) && is_sized (quantity_of symbol none rows) in
        (r.asked ≡ (if due then symbol ∷ [] else []))
        × (r.ok ≡ (due && elim (closes symbol) [ none ↦ false | some _ ↦ true ]))
    unfolding submit_exit_order close_answered
    submit_exit_order-asked =
        let due = holds symbol (names_of rows) && is_sized (quantity_of symbol none rows) in
        elim (Bool-cases due) [
          | inr e ↦ rw e (refl, refl)
          | inl e ↦ elim (Option-cases (closes symbol)) [
            | inl f ↦ rw (e, f, close_answered) (refl, refl)
            | inr f ↦ rw (e, f.1, close_answered) (refl, refl)
          ]
        ]
