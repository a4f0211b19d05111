-- ===== src/Billing/Cached/Rounds.antt =====
-- The round robin of the ticks.
use native.Mathlib.Nat.{mod-eq_of_lt, mod_self, mod-eq-sub-mod}
use mathlib.Core.Path.{subst}
use api_ops.Common.{
  ℕ, zero, suc, ◌+◌, ◌-◌, ◌*◌, ◌%◌, ◌<◌, ◌≡◌, refl, ap, ◌∙◌, none, some, List, [], ◌∷◌, ◌++◌,
  String, length, drop, arith,
}
use api_ops.Billing.Cached.Rows.{current_month, last_month}
use api_ops.Billing.Cached.Ticks.{
  Months, UpstreamVendor, TickState, Pick, at_index, advance, period_of, pick_next_tick,
}

-- The vendors and periods of a tick at each of the times, with the state after them.
unfoldable pub visits :
    Months → List UpstreamVendor → List ℕ → TickState → List (String × String) × TickState
visits ms vs [] st = ([], st)
visits ms vs (now ∷ nows) st = elim (pick_next_tick ms now (some vs) st) [
  | none ↦ ([], st)
  | some p ↦
      let rest = visits ms vs nows p.1 in ((p.0.vendor_code, p.0.period_label) ∷ rest.0, rest.1)
]

-- Vendor `a` of `count` is next, of period `p`, which is 0 or 1.
abbrev pub at_place : ℕ → ℕ → ℕ → TickState
at_place count a p = record { vendor_idx = a + p * count; period_idx = p }

abbrev pub label_of : ℕ → String
label_of zero = current_month
label_of (suc p) = last_month

mod-place : (count a p : ℕ) → a < count → p < 2 → (a + p * count) % count ≡ a
mod-place count a zero h l = ap (λ n. n % count) (omega arith) ∙ mod-eq_of_lt h
mod-place count a (suc zero) h l =
    mod-eq-sub-mod (omega arith) ∙ ap (λ n. n % count) (omega arith) ∙ mod-eq_of_lt h
mod-place count a (suc (suc p)) h l = absurd (omega (arith, l))

-- The next index is below twice the number of vendors.
mod-next :
    (count a p : ℕ) → suc a < count → p < 2 → (a + p * count + 1) % (count * 2) ≡ suc a + p * count
mod-next count a zero h l = mod-eq_of_lt (omega (arith, h)) ∙ omega arith
mod-next count a (suc zero) h l = mod-eq_of_lt (omega (arith, h)) ∙ omega arith
mod-next count a (suc (suc p)) h l = absurd (omega (arith, l))

advance-inner :
    (count a p : ℕ)
    → suc a < count
    → p < 2
    → advance count (at_place count a p) ≡ at_place count (suc a) p
unfolding advance
advance-inner count a p h l =
    rw (mod-next count a p h l) (rw (mod-place count (suc a) p h l) (ground (arith, h)))

advance-last :
    (a p : ℕ) → p < 2 → advance (a + 1) (at_place (a + 1) a p) ≡ at_place (a + 1) 0 (1 - p)
unfolding advance
advance-last a zero l =
    let e : (a + 0 * (a + 1) + 1) % ((a + 1) * 2) ≡ a + 1 =
      mod-eq_of_lt (omega arith) ∙ omega arith in
    rw e (rw (mod_self (a + 1)) (ground arith))
advance-last a (suc zero) l =
    let e : (a + 1 * (a + 1) + 1) % ((a + 1) * 2) ≡ 0 =
      ap (λ n. n % ((a + 1) * 2)) (omega arith) ∙ mod_self ((a + 1) * 2) in
    rw e (ground (arith, mod-eq_of_lt {n = 0} {m = a + 1} (omega arith)))
advance-last a (suc (suc p)) l = absurd (omega (arith, l))

advance-end :
    (count a p : ℕ)
    → count ≡ a + 1
    → p < 2
    → advance count (at_place count a p) ≡ at_place count 0 (1 - p)
advance-end count a p e l = rw e (advance-last a p l)

-- The vendors and the label of a period.
abbrev pub labelled : ℕ → List UpstreamVendor → List (String × String)
labelled p [] = []
labelled p (v ∷ vs) = (v.code, label_of p) ∷ labelled p vs

period_of-label :
    (ms : Months) (now p : ℕ) (code : String)
    → p < 2
    → ((period_of ms now code p).vendor_code ≡ code)
      × ((period_of ms now code p).period_label ≡ label_of p)
unfolding period_of
period_of-label ms now zero code l = (refl, refl)
period_of-label ms now (suc zero) code l = (refl, refl)
period_of-label ms now (suc (suc p)) code l = absurd (omega (arith, l))

-- A tick at a place: whom it picks, and where the state goes.
pick-at :
    (ms : Months) (now a p : ℕ) (v w : UpstreamVendor) (vs : List UpstreamVendor)
    → p < 2
    → a < length (v ∷ vs)
    → at_index v (v ∷ vs) a ≡ w
    → (q : Pick) × (pick_next_tick ms now (some (v ∷ vs)) (at_place (length (v ∷ vs)) a p)
        ≡ some (q, advance (length (v ∷ vs)) (at_place (length (v ∷ vs)) a p)))
      × (q.vendor_code ≡ w.code)
      × (q.period_label ≡ label_of p)
unfolding pick_next_tick
pick-at ms now a p v w vs l h e =
    let at = at_index v (v ∷ vs) ((a + p * length (v ∷ vs)) % length (v ∷ vs)) in
    let place : at ≡ w = rw (mod-place (length (v ∷ vs)) a p h l) e in
    let (c, d) = period_of-label ms now p at.code l in
    (period_of ms now at.code p, refl, c ∙ ap (λ (u : UpstreamVendor). u.code) place, d)

-- What stands at an index and behind it.
at_index-drop :
    {A : Type 0} (v w : A) (a : ℕ) (vs suf : List A)
    → drop a vs ≡ w ∷ suf
    → (at_index v vs a ≡ w) × (drop (suc a) vs ≡ suf) × (length vs ≡ a + suc (length suf))
unfolding at_index
at_index-drop v w zero vs suf e = rw e (refl, refl, omega arith)
at_index-drop v w (suc a) [] suf e =
    (ap (λ l. at_index v l 0) e, ap (drop 1) e, absurd (omega (arith, ap length e)))
at_index-drop v w (suc a) (x ∷ vs) suf e =
    let (i, d, l) = at_index-drop v w a vs suf e in (i, d, omega (arith, l))

module _ (ms : Months) (v : UpstreamVendor) (vs : List UpstreamVendor) where
  abbrev count : ℕ
  count = length (v ∷ vs)

  visits-step :
      (now a p : ℕ) (nows : List ℕ) (w : UpstreamVendor) (l : List (String × String))
      (st st' : TickState)
      → p < 2
      → a < count
      → at_index v (v ∷ vs) a ≡ w
      → advance count (at_place count a p) ≡ st
      → visits ms (v ∷ vs) nows st ≡ (l, st')
      → visits ms (v ∷ vs) (now ∷ nows) (at_place count a p) ≡ ((w.code, label_of p) ∷ l, st')
  unfolding visits
  visits-step now a p nows w l st st' h b i s r =
      let (q, e, c, d) = pick-at ms now a p v w vs h b i in
      rw (e, visits) (rw s (rw r (rw c (rw d refl))))

  -- The rest of a half round.
  visits-half :
      (p a : ℕ) (nows : List ℕ) (w : UpstreamVendor) (suf : List UpstreamVendor)
      → p < 2
      → drop a (v ∷ vs) ≡ w ∷ suf
      → length nows ≡ suc (length suf)
      → visits ms (v ∷ vs) nows (at_place count a p)
        ≡ (labelled p (w ∷ suf), at_place count 0 (1 - p))
  unfolding visits
  visits-half p a [] w suf l e h = absurd (omega (arith, h))
  visits-half p a (now ∷ n ∷ nows) w [] l e h = absurd (omega (arith, h))
  visits-half p a (now ∷ []) w [] l e h =
      let (i, d, n) = at_index-drop v w a (v ∷ vs) [] e in
      visits-step now a p [] w [] (at_place count 0 (1 - p)) (at_place count 0 (1 - p)) l
        (omega (arith, n)) i (advance-end count a p (omega (arith, n)) l) refl
  visits-half p a (now ∷ nows) w (x ∷ suf) l e h =
      let (i, d, n) = at_index-drop v w a (v ∷ vs) (x ∷ suf) e in
      visits-step now a p nows w (labelled p (x ∷ suf)) (at_place count (suc a) p)
        (at_place count 0 (1 - p)) l (omega (arith, n)) i
        (advance-inner count a p (omega (arith, n)) l)
        (visits-half p (suc a) nows x suf l d (omega (arith, h)))

  visits-append :
      (first second : List ℕ) (st : TickState)
      → visits ms (v ∷ vs) (first ++ second) st ≡ (
        (visits ms (v ∷ vs) first st).0
            ++ (visits ms (v ∷ vs) second (visits ms (v ∷ vs) first st).1).0,
        (visits ms (v ∷ vs) second (visits ms (v ∷ vs) first st).1).1,
      )
  unfolding visits pick_next_tick
  visits-append [] second st = refl
  visits-append (now ∷ first) second st = rw (visits-append first second (advance count st)) refl

  start_place : at_place count 0 0 ≡ record { vendor_idx = 0; period_idx = 0 }
  start_place = ground arith

  -- From the start, as many ticks as there are vendors and as many again, at any times, pick every vendor
  -- once for the present month and then every vendor once for the last month, in the order of the list,
  -- and lead back to the start, while the list of vendors stays the same.
  pub round_visits_all :
      (first second : List ℕ)
      → length first ≡ length (v ∷ vs)
      → length second ≡ length (v ∷ vs)
      → visits ms (v ∷ vs) (first ++ second) (record { vendor_idx = 0; period_idx = 0 })
        ≡ (labelled 0 (v ∷ vs) ++ labelled 1 (v ∷ vs), record { vendor_idx = 0; period_idx = 0 })
  round_visits_all first second h k =
      let goes = λ (st : TickState).
        visits ms (v ∷ vs) (first ++ second) st
        ≡ (labelled 0 (v ∷ vs) ++ labelled 1 (v ∷ vs), st) in
      subst goes start_place (
        visits-append first second (at_place count 0 0)
        ∙ rw (visits-half 0 0 first v vs (omega arith) refl h)
            (rw (visits-half 1 0 second v vs (omega arith) refl k) refl))
