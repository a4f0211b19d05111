-- ===== src/Billing/Cached/Freshness.antt =====
-- How long the cached rows serve the overview.
use api_ops.Common.{
  ℕ, ◌+◌, ◌≤◌, ◌<◌, ◌≡◌, ◌≢◌, refl, sym, ◌∙◌, ◌⊎◌, inl, inr, Bool, true, false, Option, none, some,
  List, [], ◌∷◌, String, String_discrete, if_pos, if_neg, arith, All, insert,
}
use api_ops.Billing.Upstream.Amounts.{Amounts}
use api_ops.Billing.Upstream.{Statement}
use api_ops.Billing.Cached.Rows.{
  current_month, RowKey, row_key_discrete, compute_upstream_bucket, UpstreamSummary, Table,
  upsert_upstream_summary, newest, fresh_rows, listed_summary,
}
use api_ops.Billing.Cached.Ticks.{
  Months, UpstreamVendor, TickState, Pick, pick_next_tick, Calc, row_of, store_statement,
  after_pick, run_once, run_loop,
}
use api_ops.Billing.Cached.Overview.{
  Gathered, gather_one, gather, Overview, Calls, cached_row_of, overview_of,
  get_upstream_overview_cached,
}

insert-All :
    {K V : Type 0} (dec : Discrete K) (P : K × V → Type 0) (k : K) (v : V) (m : List (K × V))
    → P (k, v)
    → All P m
    → All P (insert dec k v m)
unfolding insert
insert-All dec P k v [] p a = (p, tt)
insert-All dec P k v ((j, w) ∷ m) p a = elim (dec k j) [
  | yes q ↦ rw (if_pos _ q) (p, a.1)
  | no q ↦ rw (if_neg _ q) (a.0, insert-All dec P k v m p a.1)
]

All-map :
    {A : Type 0} (P Q : A → Type 0) (xs : List A) → ((x : A) → P x → Q x) → All P xs → All Q xs
All-map P Q [] f a = tt
All-map P Q (x ∷ xs) f a = (f x a.0, All-map P Q xs f a.1)

module _ (am : Amounts) where
  -- Every row is at least five minutes older than the bucket of `t`.
  abbrev Aged : ℕ → Table am → Type 0
  Aged t table =
      All (λ (e : RowKey × UpstreamSummary am). e.0.1.1 + 300 ≤ compute_upstream_bucket t) table

  -- After a tick at `t`: the rows of its bucket are the vendor's that was picked.
  abbrev Ticked : ℕ → String → Table am → Type 0
  Ticked t code table =
      All
        (λ (e : RowKey × UpstreamSummary am).
          (e.0.1.1 + 300 ≤ compute_upstream_bucket t)
          ⊎ ((e.0.0 ≡ code) × (e.0.1.1 ≡ compute_upstream_bucket t)))
        table

  row_of-key :
      (p : Pick) (t : ℕ) (s : Statement am)
      → ((row_of am p t s).vendor_code ≡ p.vendor_code)
        × ((row_of am p t s).ts_bucket ≡ compute_upstream_bucket t)
  unfolding row_of
  row_of-key p t s = (refl, refl)

  store-Ticked :
      (writes : Bool) (p : Pick) (t : ℕ) (o : Option (Statement am)) (table : Table am)
      → Aged t table
      → Ticked t p.vendor_code (store_statement am writes p t o table)
  unfolding store_statement upsert_upstream_summary
  store-Ticked writes p t none table a = All-map _ _ table (λ e q. inl q) a
  store-Ticked false p t (some s) table a = All-map _ _ table (λ e q. inl q) a
  store-Ticked true p t (some s) table a =
      insert-All row_key_discrete _ _ _ table (inr (row_of-key p t s))
        (All-map _ _ table (λ e q. inl q) a)

  after-Ticked :
      (calc : Calc am) (writes : Bool) (t : ℕ) (o : Option (Pick × TickState))
      (s : TickState × Table am)
      → Aged t s.1
      → (code : String) × Ticked t code (after_pick am calc writes t o s).1
  unfolding after_pick
  after-Ticked calc writes t none s a = ("", All-map _ _ s.1 (λ e q. inl q) a)
  after-Ticked calc writes t (some (p, st)) s a = (
    p.vendor_code,
    store-Ticked writes p t (calc p.vendor_code p.period_start p.period_end) s.1 a,
  )

  tick-Ticked :
      (ms : Months) (calc : Calc am) (writes : Bool) (start t : ℕ)
      (vendors : Option (List UpstreamVendor)) (s : TickState × Table am)
      → Aged t s.1
      → (code : String) × Ticked t code (run_once am ms calc writes start t vendors s).1
  unfolding run_once
  tick-Ticked ms calc writes start t vendors s a =
      after-Ticked calc writes t (pick_next_tick ms start vendors s.0) s a

  bucket-le : (t : ℕ) → compute_upstream_bucket t ≤ t
  unfolding compute_upstream_bucket
  bucket-le t = omega arith

  bucket-step :
      (t u : ℕ) → t + 300 ≤ u → compute_upstream_bucket t + 300 ≤ compute_upstream_bucket u
  unfolding compute_upstream_bucket
  bucket-step t u h = omega (arith, h)

  Ticked-Aged :
      (t u : ℕ) (code : String) (table : Table am)
      → t + 300 ≤ u
      → Ticked t code table
      → Aged u table
  Ticked-Aged t u code table h a =
      All-map _ _ table
        (λ e q. elim q [
          | inl old ↦ omega (arith, old, bucket-step t u h)
          | inr new ↦ omega (arith, new.1, bucket-step t u h)
        ])
        a

  -- Of another vendor than the one that was picked nothing is fresh after the tick.
  unpicked :
      (t now : ℕ) (code vendor label : String) (table : Table am)
      → t < now
      → vendor ≢ code
      → Ticked t code table
      → fresh_rows am vendor label 300 now table ≡ []
  unfolding fresh_rows
  unpicked t now code vendor label [] h n a = refl
  unpicked t now code vendor label ((k, r) ∷ table) h n a = elim a.0 [
    | inl old ↦ ground (arith, unpicked t now code vendor label table h n a.1, old, bucket-le t, h)
    | inr new ↦
        rw (if_neg (String_discrete vendor k.0) (λ e. n (e ∙ new.0)) true false)
          (ground (arith, unpicked t now code vendor label table h n a.1))
  ]

  no-cached_row :
      (calls : Calls am) (t now : ℕ) (code vendor : String) (table : Table am)
      → t < now
      → vendor ≢ code
      → Ticked t code table
      → cached_row_of am calls now table vendor ≡ none
  unfolding cached_row_of listed_summary newest
  no-cached_row calls t now code vendor table h n a =
      ground (arith, unpicked t now code vendor current_month table h n a)

  -- A statement that was made stays noted.
  gather_one-stale :
      (v : UpstreamVendor) (o : Option (UpstreamSummary am)) (l : Option (Statement am))
      (g : Gathered am)
      → g.stale ≡ true
      → (gather_one am v o l g).stale ≡ true
  unfolding gather_one
  gather_one-stale v (some r) l g h = h
  gather_one-stale v none none g h = h
  gather_one-stale v none (some s) g h = refl

  gather_one-live :
      (v : UpstreamVendor) (o : Option (UpstreamSummary am)) (l : Option (Statement am))
      (g : Gathered am) (s : Statement am)
      → o ≡ none
      → l ≡ some s
      → (gather_one am v o l g).stale ≡ true
  unfolding gather_one
  gather_one-live v o l g s e f = rw e (rw f refl)

  -- The buckets of the ticks are read five minutes apart at least, and the overview is made after the last.
  abbrev pub Spaced : ℕ × ℕ → List (ℕ × ℕ) → ℕ → Type 0
  Spaced t [] now = t.1 < now
  Spaced t (u ∷ us) now = (t.1 + 300 ≤ u.1) × Spaced u us now

  -- After the ticks, only one vendor can have a fresh row.
  loop-rows :
      (ms : Months) (calc : Calc am) (writes : Bool) (t : ℕ × ℕ) (ts : List (ℕ × ℕ)) (now : ℕ)
      (vendors : Option (List UpstreamVendor)) (s : TickState × Table am)
      → Spaced t ts now
      → Aged t.1 s.1
      → (last : ℕ) × (code : String) × (last < now)
        × Ticked last code (run_loop am ms calc writes (t ∷ ts) vendors s).1
  unfolding run_loop
  loop-rows ms calc writes t [] now vendors s h a =
      let (code, k) = tick-Ticked ms calc writes t.0 t.1 vendors s a in (t.1, code, h, k)
  loop-rows ms calc writes t (u ∷ us) now vendors s h a =
      let (code, k) = tick-Ticked ms calc writes t.0 t.1 vendors s a in
      loop-rows ms calc writes u us now vendors (run_once am ms calc writes t.0 t.1 vendors s) h.1
        (Ticked-Aged t.1 u.1 code _ h.0 k)

  gathers-stale :
      (cached : String → Option (UpstreamSummary am)) (live : String → Option (Statement am))
      (code : String) (v w : UpstreamVendor) (rest : List UpstreamVendor)
      → v.code ≢ w.code
      → ((c : String) → c ≢ code → cached c ≡ none)
      → ((c : String) → (s : Statement am) × (live c ≡ some s))
      → (gather am cached live (v ∷ w ∷ rest)).stale ≡ true
  unfolding gather
  gathers-stale cached live code v w rest n h l = elim (String_discrete v.code code) [
    | no p ↦
        gather_one-live v (cached v.code) (live v.code) (gather am cached live (w ∷ rest))
          (l v.code).0 (h v.code p) (l v.code).1
    | yes p ↦ gather_one-stale v (cached v.code) (live v.code) (gather am cached live (w ∷ rest)) (
        gather_one-live w (cached w.code) (live w.code) (gather am cached live rest) (l w.code).0
          (h w.code (λ e. n (p ∙ sym e))) (l w.code).1)
  ]

  -- Two vendors or more, whose statements can be made, and ticks of the loop that read their buckets five
  -- minutes or more apart and begin with an empty table: every overview after the last tick and before
  -- another is stale and gives the present time, whatever calls of the cache succeed.
  pub overview_stays_stale :
      (ms : Months) (calc : Calc am) (writes : Bool) (calls : Calls am) (v w : UpstreamVendor)
      (rest : List UpstreamVendor) (t : ℕ × ℕ) (ts : List (ℕ × ℕ)) (now : ℕ) (st : TickState)
      → v.code ≢ w.code
      → ((code : String) (a b : ℕ) → (s : Statement am) × (calc code a b ≡ some s))
      → Spaced t ts now
      → (o : Overview am) × (get_upstream_overview_cached am true ms calc calls now
            (some (v ∷ w ∷ rest))
            (run_loop am ms calc writes (t ∷ ts) (some (v ∷ w ∷ rest)) (st, [])).1
          ≡ some o)
        × (o.stale ≡ true)
        × (o.generated_at ≡ now)
  unfolding get_upstream_overview_cached overview_of
  overview_stays_stale ms calc writes calls v w rest t ts now st n l h =
      let vs = v ∷ w ∷ rest in
      let table = (run_loop am ms calc writes (t ∷ ts) (some vs) (st, [])).1 in
      let (last, code, b, k) = loop-rows ms calc writes t ts now (some vs) (st, []) h tt in
      let stale =
        gathers-stale (cached_row_of am calls now table)
          (λ c. calc c (ms.current_bounds now).0 (ms.current_bounds now).1) code v w rest n
          (λ c p. no-cached_row calls last now code c table b p k)
          (λ c. l c (ms.current_bounds now).0 (ms.current_bounds now).1) in
      (_, refl, stale, ground (arith, stale))
