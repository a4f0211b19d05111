-- ===== src/Monitor/Lifecycle/Transitions.antt =====
-- What an automatic resolution does to each alert.
use api_ops.Common.{
  ℕ, ◌≡◌, refl, Bool, true, false, ◌&&◌, ◌||◌, Option, none, some, List, [], ◌∷◌, codes, arith,
  Bool-cases, inl, inr, ◌==◌, if◌then◌else◌,
}
use api_ops.Monitor.Lifecycle.{
  Alert, to_resolved, apply_status, update_status, Metrics, Readings, check_resolved, listed,
  resolve_each, resolve_fired,
}

-- The alert with the id.
abbrev pub find : ℕ → List Alert → Option Alert
find id [] = none
find id (a ∷ more) = if a.id == id then some a else find id more

-- The alert as the resolver leaves it.
abbrev pub marked : ℕ → Option Alert → Option Alert
marked now none = none
marked now (some a) = some (apply_status to_resolved (codes "auto-resolver") now a)

find-update_status :
    (works : Bool) (id j now : ℕ) (table : List Alert)
    → find id (update_status works j to_resolved (codes "auto-resolver") now table)
      ≡ (if works && j == id then marked now (find id table) else find id table)
unfolding update_status apply_status
find-update_status works id j now [] = ground arith
find-update_status works id j now (a ∷ table) =
    ground (arith, find-update_status works id j now table)

marked_twice : (now : ℕ) (a : Option Alert) → marked now (marked now a) ≡ marked now a
unfolding apply_status
marked_twice now none = refl
marked_twice now (some a) = refl

module _ (me : Metrics) where
  -- Some listed alert with the id has recovered, and its update works.
  abbrev pub due : (ℕ → Bool) → Readings me → ℕ → ℕ → List Alert → Bool
  due works rd now id [] = false
  due works rd now id (a ∷ more) =
      (check_resolved me rd now a && (works a.id && a.id == id)) || due works rd now id more

  find-resolve_each :
      (works : ℕ → Bool) (rd : Readings me) (now id : ℕ) (alerts table : List Alert)
      → find id (resolve_each me works rd now alerts table)
        ≡ (if due works rd now id alerts then marked now (find id table) else find id table)
  unfolding resolve_each
  find-resolve_each works rd now id [] table = refl
  find-resolve_each works rd now id (a ∷ more) table =
      elim (Bool-cases (check_resolved me rd now a)) [
        | inr e ↦ rw e (find-resolve_each works rd now id more table)
        | inl e ↦
            let u = update_status (works a.id) a.id to_resolved (codes "auto-resolver") now table in
            rw e (
              ground (
                arith,
                find-resolve_each works rd now id more u,
                find-update_status (works a.id) id a.id now table,
                marked_twice now (find id table),
              ))
      ]

  -- An automatic resolution marks exactly the alerts that are among the first 500 firing ones, whose
  -- check finds them recovered and whose update works, and leaves every other alert as it is; it adds
  -- and removes none.
  pub resolve_fired_exact :
      (works : ℕ → Bool) (rd : Readings me) (now id : ℕ) (table : List Alert)
      → find id (resolve_fired me true works rd now table) ≡ (
          if due works rd now id (listed me 500 table)
          then marked now (find id table)
          else find id table)
  unfolding resolve_fired
  resolve_fired_exact works rd now id table =
      find-resolve_each works rd now id (listed me 500 table) table
