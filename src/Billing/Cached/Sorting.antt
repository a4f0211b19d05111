-- ===== src/Billing/Cached/Sorting.antt =====
-- The exchange sort of the overview.
use mathlib.Core.List.{Perm}
use mathlib.Core.List.Perm
use api_ops.Common.{
  ℕ, zero, suc, ◌≤◌, ◌≡◌, refl, ap, inl, inr, List, [], ◌∷◌, ltb, length, arith, All, Bool-cases,
}
use api_ops.Billing.Upstream.Amounts.{Amounts}
use api_ops.Billing.Cached.Overview.{
  OverviewVendor, exchange, exchange_all, sort_vendors_by_request_count,
}

module _ (am : Amounts) where
  -- Each has at least as many requests as the later ones.
  abbrev pub Descending : List (OverviewVendor am) → Type 0
  Descending [] = Unit
  Descending (v ∷ vs) = All (λ w. w.request_count ≤ v.request_count) vs × Descending vs

  -- What an inner loop does: the largest comes to the front, and nothing is lost.
  record Front (x : OverviewVendor am) (ys : List (OverviewVendor am)) (m : OverviewVendor am)
      (r : List (OverviewVendor am)) : Type 1 where
    least : x.request_count ≤ m.request_count
    largest : All (λ w. w.request_count ≤ m.request_count) r
    same_length : length r ≡ length ys
    perm : Perm (m ∷ r) (x ∷ ys)
    kept : (P : OverviewVendor am → Type 0) → P x → All P ys → P m × All P r

  exchange-Front :
      (x : OverviewVendor am) (ys : List (OverviewVendor am))
      → Front x ys (exchange am x ys).0 (exchange am x ys).1
  unfolding exchange
  exchange-Front x [] = record {
    least = omega arith;
    largest = tt;
    same_length = refl;
    perm = Perm.rfl;
    kept = λ P p a. (p, tt);
  }
  exchange-Front x (y ∷ ys) = elim (Bool-cases (ltb x.request_count y.request_count)) [
    | inl t ↦
        let f = exchange-Front y ys in
        rw t (record {
          least = ground (arith, t, f.least);
          largest = (ground (arith, t, f.least), f.largest);
          same_length = ap suc f.same_length;
          perm =
              Perm.trans (Perm.swap x (exchange am y ys).0 (exchange am y ys).1)
                (Perm.cons x f.perm);
          kept = λ P p a. let (q, b) = f.kept P a.0 a.1 in (q, (p, b));
        })
    | inr n ↦
        let f = exchange-Front x ys in
        rw n (record {
          least = f.least;
          largest = (ground (arith, n, f.least), f.largest);
          same_length = ap suc f.same_length;
          perm =
              Perm.trans (Perm.swap y (exchange am x ys).0 (exchange am x ys).1)
                (Perm.trans (Perm.cons y f.perm) (Perm.swap x y ys));
          kept = λ P p a. let (q, b) = f.kept P p a.1 in (q, (a.0, b));
        })
  ]

  exchange_all-perm : (n : ℕ) (vs : List (OverviewVendor am)) → Perm (exchange_all am n vs) vs
  unfolding exchange_all
  exchange_all-perm zero vs = Perm.rfl
  exchange_all-perm (suc n) [] = Perm.rfl
  exchange_all-perm (suc n) (x ∷ xs) =
      let f = exchange-Front x xs in
      Perm.trans (Perm.cons (exchange am x xs).0 (exchange_all-perm n (exchange am x xs).1)) f.perm

  exchange_all-kept :
      (n : ℕ) (vs : List (OverviewVendor am)) (P : OverviewVendor am → Type 0)
      → All P vs
      → All P (exchange_all am n vs)
  unfolding exchange_all
  exchange_all-kept zero vs P a = a
  exchange_all-kept (suc n) [] P a = tt
  exchange_all-kept (suc n) (x ∷ xs) P a =
      let f = exchange-Front x xs in
      let (q, b) = f.kept P a.0 a.1 in (q, exchange_all-kept n (exchange am x xs).1 P b)

  exchange_all-Descending :
      (n : ℕ) (vs : List (OverviewVendor am)) → length vs ≤ n → Descending (exchange_all am n vs)
  unfolding exchange_all
  exchange_all-Descending zero [] h = tt
  exchange_all-Descending zero (x ∷ xs) h = absurd (omega (arith, h))
  exchange_all-Descending (suc n) [] h = tt
  exchange_all-Descending (suc n) (x ∷ xs) h =
      let f = exchange-Front x xs in
      (
        exchange_all-kept n (exchange am x xs).1 _ f.largest,
        exchange_all-Descending n (exchange am x xs).1 (omega (arith, h, f.same_length)),
      )

  -- The sort of the overview puts the vendors into descending order of their requests and neither loses
  -- nor doubles one.
  pub sort_vendors_sorts :
      (vs : List (OverviewVendor am))
      → Descending (sort_vendors_by_request_count am vs)
        × Perm (sort_vendors_by_request_count am vs) vs
  unfolding sort_vendors_by_request_count
  sort_vendors_sorts vs =
      (exchange_all-Descending (length vs) vs (omega arith), exchange_all-perm (length vs) vs)
