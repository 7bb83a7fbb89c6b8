-- ===== src/Trading/Executor.antt =====
-- alpaca_paper/execution.py: `AlpacaPaperExecutor.execute`.
use momentum_system.Prelude.{
  ◌≡◌, refl, ◌≤◌, String, str_eq, Bool, true, false, not, ◌||◌, Option, none, some, List, [], ◌∷◌,
  count, if◌then◌else◌, Bool-cases, Option-cases, inl, inr, arith,
}
use momentum_system.Prelude.Int.{ℤ, pos, leb_ℤ}
use momentum_system.Prelude.Sets.{mem}
use momentum_system.Float.{Float, Real}
use momentum_system.Trading.Payload.{OrderRequest}

-- What the client is given; the id that it gets is cut to 48 characters.
pub record Submission (R : Type 0) : Type 0 where
  pub request : OrderRequest R
  pub limit_price : Option R

-- The broker's answer. An id that is missing or empty is `none`, a missing number 0.0.
pub record Raw (R : Type 0) : Type 0 where
  pub id : Option String
  pub status : Option String
  pub filled_qty : R
  pub filled_avg_price : R

-- The events that the executor gives to the store.
pub data Recorded (R : Type 0) : Type 0 where
  submission : OrderRequest R → String → Option String → Recorded R
  fill : String → R → ℤ → Recorded R
  cancellation : String → Recorded R

-- The result, and the events with the latest first.
pub record Execution (R : Type 0) : Type 0 where
  pub ok : Bool
  pub order_id : String
  pub broker_order_id : Option String
  pub status : Option String
  pub events : List (Recorded R)

abbrev pub terminal_states : List String
terminal_states =
    "rejected" ∷ "canceled" ∷ "cancelled" ∷ "expired" ∷ "done_for_day" ∷ "suspended" ∷ "stopped"
    ∷ []

abbrev pub is_terminal : Option String → Bool
is_terminal none = false
is_terminal (some s) = mem s terminal_states

module _ ⦃n : Float⦄ where
  abbrev pub submission_of : OrderRequest Real → Submission Real
  submission_of r = record {
    request = r;
    limit_price = if str_eq r.order_type "limit" then r.entry_price else none;
  }

  abbrev pub failed : OrderRequest Real → Option String → Execution Real
  failed r status = record {
    ok = false;
    order_id = r.order_id;
    broker_order_id = none;
    status = status;
    events = cancellation r.order_id ∷ [];
  }

  -- from the answer of the broker on, with its order id
  unfoldable pub settle : OrderRequest Real → Raw Real → String → Execution Real
  settle r raw broker_id =
      let placed : List (Recorded Real) = submission r broker_id raw.status ∷ [] in
      let filled_qty = n.trunc raw.filled_qty in
      let seen : List (Recorded Real) =
        if leb_ℤ (pos 1) filled_qty
        then fill r.order_id raw.filled_avg_price filled_qty ∷ placed
        else placed in
      if is_terminal raw.status
      then record {
        ok = false;
        order_id = r.order_id;
        broker_order_id = some broker_id;
        status = raw.status;
        events = cancellation r.order_id ∷ seen;
      }
      else record {
        ok = true;
        order_id = r.order_id;
        broker_order_id = some broker_id;
        status = raw.status;
        events = seen;
      }

  unfoldable pub accept : OrderRequest Real → Raw Real → Execution Real
  accept r raw = elim raw.id [ none ↦ failed r (some "error") | some id ↦ settle r raw id ]

  -- `execute`; `submit` is the client's `submit_order`, `none` where it raises
  unfoldable pub execute :
      (Submission Real → Option (Raw Real)) → OrderRequest Real → Execution Real
  execute submit r =
      if leb_ℤ r.quantity (pos 0)
      then record {
        ok = false;
        order_id = r.order_id;
        broker_order_id = none;
        status = none;
        events = [];
      }
      else elim (submit (submission_of r)) [ none ↦ failed r none | some raw ↦ accept r raw ]

  abbrev pub is_cancellation : Recorded Real → Bool
  is_cancellation (submission r id status) = false
  is_cancellation (fill id price qty) = false
  is_cancellation (cancellation id) = true

  abbrev pub is_submission : Recorded Real → Bool
  is_submission (submission r id status) = true
  is_submission (fill id price qty) = false
  is_submission (cancellation id) = false

  abbrev pub is_fill : Recorded Real → Bool
  is_fill (submission r id status) = false
  is_fill (fill id price qty) = true
  is_fill (cancellation id) = false

  -- The statuses of an order that is no longer at work, as they are spelled.
  abbrev pub has_ended : Option String → Bool
  has_ended none = false
  has_ended (some s) =
      str_eq "rejected" s
      || str_eq "canceled" s
      || str_eq "cancelled" s
      || str_eq "expired" s
      || str_eq "done_for_day" s
      || str_eq "suspended" s
      || str_eq "stopped" s

  -- What the broker answers, where the request is sent to it and is answered with an id.
  abbrev pub answered : Option (Raw Real) → ℤ → Option (String × Option String)
  answered none quantity = none
  answered (some raw) quantity = elim raw.id [
    | none ↦ none
    | some id ↦ if leb_ℤ quantity (pos 0) then none else some (id, raw.status)
  ]

  abbrev pub is_live : Option (String × Option String) → Bool
  is_live none = false
  is_live (some (id, status)) = not (has_ended status)

  abbrev pub id_of : Option (String × Option String) → Option String
  id_of none = none
  id_of (some (id, status)) = some id

  -- What the broker's answer, the result and the events of a request have to do with each other.
  pub record Accounted (r : OrderRequest Real) (answer : Option (String × Option String))
      (e : Execution Real) : Type 0 where
    pub cancelled :
        count is_cancellation e.events ≡ (if e.ok || leb_ℤ r.quantity (pos 0) then 0 else 1)
    pub submitted : count is_submission e.events ≡ elim answer [ none ↦ 0 | some _ ↦ 1 ]
    pub filled : count is_fill e.events ≤ count is_submission e.events
    pub identified : e.broker_order_id ≡ id_of answer
    pub live : e.ok ≡ is_live answer

  settle-Accounted :
      (r : OrderRequest Real) (raw : Raw Real) (id : String)
      → leb_ℤ r.quantity (pos 0) ≡ false
      → Accounted r (some (id, raw.status)) (settle r raw id)
  unfolding settle
  settle-Accounted r raw id h = record {
    cancelled = ground arith;
    submitted = ground arith;
    filled = ground arith;
    identified = ground arith;
    live = ground (arith, ended_live raw.status);
  }
    where
      ended_live : (status : Option String) → is_terminal status ≡ has_ended status
      ended_live none = refl
      ended_live (some s) = ground arith

  failed-Accounted :
      (r : OrderRequest Real) (status : Option String)
      → leb_ℤ r.quantity (pos 0) ≡ false
      → Accounted r none (failed r status)
  failed-Accounted r status h = record {
    cancelled = ground arith;
    submitted = refl;
    filled = omega arith;
    identified = refl;
    live = refl;
  }

  accept-Accounted :
      (r : OrderRequest Real) (raw : Raw Real)
      → leb_ℤ r.quantity (pos 0) ≡ false
      → Accounted r (answered (some raw) r.quantity) (accept r raw)
  unfolding accept
  accept-Accounted r raw h = elim (Option-cases raw.id) [
    | inl e ↦ rw e (failed-Accounted r (some "error") h)
    | inr (id, e) ↦ rw (e, h) (settle-Accounted r (record raw { id = some id }) id h)
  ]

  -- Whatever the client does with a request, the result and the events account for it. The result is
  -- ok exactly when the quantity is positive, the client answers with an order id, and the status of
  -- the answer is none of the seven of an order that has ended; it has the id just if there is one. A
  -- submission is recorded, once, just if there is one too, and a fill only with a submission; and an
  -- order of a positive quantity that is not ok is recorded as cancelled, once, and no other is.
  pub execute-Accounted :
      (submit : Submission Real → Option (Raw Real)) (r : OrderRequest Real)
      → Accounted r (answered (submit (submission_of r)) r.quantity) (execute submit r)
  unfolding execute
  execute-Accounted submit r = elim (Bool-cases (leb_ℤ r.quantity (pos 0))) [
    | inl e ↦
        let none_sent = unanswered r (submit (submission_of r)) e in
        rw (e, none_sent)
          (record {
            cancelled = ground (arith, e);
            submitted = refl;
            filled = omega arith;
            identified = refl;
            live = refl;
          })
    | inr e ↦ elim (Option-cases (submit (submission_of r))) [
      | inl f ↦ rw (e, f) (failed-Accounted r none e)
      | inr (raw, f) ↦ rw (e, f) (accept-Accounted r raw e)
    ]
  ]
    where
      unanswered :
          (r : OrderRequest Real) (o : Option (Raw Real))
          → leb_ℤ r.quantity (pos 0) ≡ true
          → answered o r.quantity ≡ none
      unanswered r none h = refl
      unanswered r (some raw) h = elim (Option-cases raw.id) [
        | inl e ↦ rw e refl
        | inr (id, e) ↦ rw (e, h) refl
      ]
