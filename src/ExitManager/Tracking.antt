-- ===== src/ExitManager/Tracking.antt =====
-- runtime/exit_manager.py: from where a position is trailed.
use momentum_system.Prelude.{
  ℕ, suc, ◌-◌, String, false, not, ◌&&◌, Option, none, some, List, [], ◌∷◌, map, take, filter,
  length, ltb, leb, if◌then◌else◌,
}
use momentum_system.Prelude.Dict.{lookup, insert}
use momentum_system.Prelude.Sets.{mem, add}
use momentum_system.Float.{Float, Real, nought, one, ◌⊖◌, ◌⊗◌, ◌≤?◌, fmax, fmin}
use momentum_system.Exits.Data.{Bar, ExitConfig, truthy, is_empty}
use momentum_system.ExitManager.Data.{Timestamp, Bracket, Minute, Tracked, Manager}
use momentum_system.ExitManager.Desk.{entry_time}

-- where a trail starts from: the reference price, the stop, and the time
pub record Anchor (R : Type 0) : Type 0 where
  pub ref : R
  pub init : R
  pub open_ts : Timestamp

module _ ⦃n : Float⦄ where
  -- the high and the low of the rows after the first, with those of the rows before
  abbrev pub highest : Real → List (Minute Real) → Real
  highest hi [] = hi
  highest hi (b ∷ bs) = highest (fmax hi b.bar.high) bs

  abbrev pub lowest : Real → List (Minute Real) → Real
  lowest lo [] = lo
  lowest lo (b ∷ bs) = lowest (fmin lo b.bar.low) bs

  -- `_open_range_anchor`
  unfoldable pub open_range_anchor : List (Minute Real) → ℕ → Option (Anchor Real)
  open_range_anchor [] orb_bars = none
  open_range_anchor (o ∷ bars) orb_bars =
      let first = take (orb_bars - 1) bars in
      let r = highest o.bar.high first ⊖ lowest o.bar.low first in
      if ltb (suc (length bars)) orb_bars
      then none
      else if r ≤? nought
      then none
      else some
          (record { ref = o.bar.open_price; init = o.bar.open_price ⊖ r; open_ts = o.timestamp })

  -- `_last_ts`
  unfoldable pub last_ts : List (Minute Real) → Option Timestamp
  last_ts [] = none
  last_ts (b ∷ []) = some b.timestamp
  last_ts (b ∷ c ∷ bs) = last_ts (c ∷ bs)

  -- `_bars_since`, and all the bars where it leaves none
  unfoldable pub bars_since : List (Minute Real) → Option Timestamp → List (Minute Real)
  bars_since bars none = bars
  bars_since bars (some ts) = filter (λ b. leb ts b.timestamp) bars

  unfoldable pub since_entry : List (Minute Real) → Tracked Real → List (Bar Real)
  since_entry bars tr =
      let since = bars_since bars tr.entry_ts in
      map (λ b. b.bar) (if is_empty since then bars else since)

  abbrev anchored : String → Anchor Real → Manager Real → Tracked Real × Manager Real
  anchored symbol a m =
      let tr : Tracked Real = record {
        entry_price = a.ref;
        init_stop = a.init;
        entry_ts = some a.open_ts;
        scaled = false;
      } in
      (
        tr,
        record m {
          tracked = insert symbol tr m.tracked;
          open_anchored = add symbol m.open_anchored;
        },
      )

  abbrev tracked_from :
      String → Real → Real → Option Timestamp → Manager Real → Tracked Real × Manager Real
  tracked_from symbol entry init ts m =
      let tr : Tracked Real = record {
        entry_price = entry;
        init_stop = init;
        entry_ts = ts;
        scaled = false;
      } in
      (tr, record m { tracked = insert symbol tr m.tracked })

  -- the first sight of a position whose stop is `stop`; `none` leaves it alone
  unfoldable pub track_new :
      ExitConfig Real
      → Option (List (Bracket Real))
      → String
      → Real
      → Real
      → List (Minute Real)
      → Manager Real
      → Option (Tracked Real × Manager Real)
  track_new cfg orders symbol entry stop bars m =
      let ts : Option Timestamp = elim (entry_time symbol orders) [
        | some t ↦ some t
        | none ↦ last_ts bars
      ] in
      if entry ≤? stop
      then (if truthy cfg.default_trail_r_pct
          then some (elim (open_range_anchor bars 5) [
            | some a ↦ anchored symbol a m
            | none ↦ tracked_from symbol entry (entry ⊗ (one ⊖ cfg.default_trail_r_pct)) ts m
          ])
          else none)
      else some (tracked_from symbol entry stop ts m)

  -- a position that is tracked on a synthetic risk moves to the opening range once that has formed
  unfoldable pub track_again :
      ExitConfig Real
      → String
      → Real
      → Option Real
      → List (Minute Real)
      → Tracked Real
      → Manager Real
      → Tracked Real × Manager Real
  track_again cfg symbol entry none bars tr m = (tr, m)
  track_again cfg symbol entry (some stop) bars tr m =
      if not (mem symbol m.open_anchored) && (entry ≤? stop) && truthy cfg.default_trail_r_pct
      then elim (open_range_anchor bars 5) [ some a ↦ anchored symbol a m | none ↦ (tr, m) ]
      else (tr, m)

  unfoldable pub track :
      ExitConfig Real
      → Option (List (Bracket Real))
      → String
      → Real
      → Option Real
      → List (Minute Real)
      → Manager Real
      → Option (Tracked Real × Manager Real)
  track cfg orders symbol entry stop bars m = elim (lookup symbol m.tracked) [
    | some tr ↦ some (track_again cfg symbol entry stop bars tr m)
    | none ↦ elim stop [ none ↦ none | some s ↦ track_new cfg orders symbol entry s bars m ]
  ]
