-- ===== src/Audit/Requests/Recorded.antt =====
-- Which requests the middleware records, and how much of the body.
use api_ops.Common.{
  ℕ, zero, suc, ◌+◌, ◌-◌, ◌/◌, ◌%◌, ◌≤◌, ◌<◌, ◌≡◌, ◌⊎◌, inl, inr, refl, ap, ◌∙◌, Bool, true, false,
  Option, none, some, List, [], ◌∷◌, ◌++◌, ltb, leb, codes, length, take, arith, Bool-cases,
}
use api_ops.Audit.Numbers.Printing.{value, value-snoc}
use api_ops.Audit.Requests.{
  Request, Outcome, AuditLog, same_text, decimal, truncate_body, is_write, middleware, entry,
  read_all, put_back, audited, write_entry, write_audit,
}

same_text_refl : (s : List ℕ) → same_text s s ≡ true
unfolding same_text
same_text_refl [] = refl
same_text_refl (c ∷ s) = ground (arith, same_text_refl s)

same_text-eq : (s t : List ℕ) → same_text s t ≡ true → s ≡ t
unfolding same_text
same_text-eq [] [] h = refl
same_text-eq [] (d ∷ t) h = cc h
same_text-eq (c ∷ s) [] h = cc h
same_text-eq (c ∷ s) (d ∷ t) h = ground (arith, same_text-eq s t)

-- The methods that write.
abbrev pub Writes : List ℕ → Type 0
Writes m = (m ≡ codes "POST") ⊎ (m ≡ codes "PUT") ⊎ (m ≡ codes "DELETE") ⊎ (m ≡ codes "PATCH")

is_write-Writes : (m : List ℕ) → is_write m ≡ true → Writes m
unfolding is_write
is_write-Writes m h = ground (
  arith,
  same_text-eq m (codes "POST"),
  same_text-eq m (codes "PUT"),
  same_text-eq m (codes "DELETE"),
  same_text-eq m (codes "PATCH"),
)

Writes-is_write : (m : List ℕ) → Writes m → is_write m ≡ true
unfolding is_write
Writes-is_write m h = ground (arith, same_text_refl m)

decimal_reads : (fuel n : ℕ) → n < fuel → value 0 (decimal fuel n) ≡ n
unfolding decimal
decimal_reads zero n h = absurd (omega arith)
decimal_reads (suc fuel) n h = elim (Bool-cases (ltb n 10)) [
  | inl e ↦ rw e (omega arith)
  | inr e ↦
      let big : 9 < n = ground arith in
      rw e (
        value-snoc 0 (decimal fuel (n / 10)) (b'0' + n % 10)
        ∙ omega (arith, decimal_reads fuel (n / 10) (omega arith)))
]

audited_sound :
    (next : Request → Outcome) (r : Request) (e : AuditLog)
    → (middleware next r).1 ≡ some e
    → Writes r.method × ((middleware next r).0.status < 400)
unfolding middleware
audited_sound next r e h = elim (Bool-cases (is_write r.method)) [
  | inr n ↦ cc (rw n at h)
  | inl w ↦
      let o = next (record r { body = put_back r.body }) in
      elim (Bool-cases (leb 400 o.status)) [
        | inl big ↦ ground (arith, w)
        | inr small ↦ (is_write-Writes r.method w, ground (arith, w))
      ]
]

same_request :
    (r : Request)
    → (r.body ≡ none)
      ⊎ ((bytes : List ℕ) × (r.body ≡ some (record { bytes = bytes; fails = false })))
    → record r { body = put_back r.body } ≡ r
unfolding put_back
same_request r (inl e) = ground arith
same_request r (inr (bytes, e)) = ground arith

-- A request whose body can be read, or that has none, reaches the handlers as it came, and their
-- answer is returned.
middleware_passes_on :
    (next : Request → Outcome) (r : Request)
    → (r.body ≡ none)
      ⊎ ((bytes : List ℕ) × (r.body ≡ some (record { bytes = bytes; fails = false })))
    → (middleware next r).0 ≡ next r
unfolding middleware
middleware_passes_on next r h = elim (Bool-cases (is_write r.method)) [
  | inr e ↦ ground (arith, e)
  | inl e ↦ ground (arith, e, same_request r h)
]

recorded_is_entry :
    (next : Request → Outcome) (r : Request) (e : AuditLog)
    → (middleware next r).1 ≡ some e
    → truncate_body (read_all r.body) 1024 ≡ e.request_body
unfolding middleware entry
recorded_is_entry next r e h = ground arith

truncate_splits :
    (b : List ℕ)
    → ((length b ≤ 1024) × (truncate_body b 1024 ≡ b))
      ⊎ ((1024 < length b)
          × ((ds : List ℕ) × (truncate_body b 1024
                ≡ take 1024 b ++ (codes "...(truncated " ++ (ds ++ codes " bytes)")))
              × (1024 + value 0 ds ≡ length b)))
unfolding truncate_body
truncate_splits b = elim (Bool-cases (leb (length b) 1024)) [
  | inl e ↦ rw e (inl (ground arith, refl))
  | inr e ↦
      let big : 1024 < length b = ground arith in
      rw e (
        inr (
          big,
          (
            decimal (suc (length b - 1024)) (length b - 1024),
            refl,
            omega (arith, decimal_reads (suc (length b - 1024)) (length b - 1024)),
          ),
        ))
]

-- The body of a recorded request is kept whole up to 1024 bytes; of a longer one the first 1024 are
-- kept, with a notice that says how many were left out.
recorded_body :
    (next : Request → Outcome) (r : Request) (e : AuditLog)
    → (middleware next r).1 ≡ some e
    → ((length (read_all r.body) ≤ 1024) × (e.request_body ≡ read_all r.body))
      ⊎ ((1024 < length (read_all r.body))
          × ((ds : List ℕ) × (e.request_body
                ≡ take 1024 (read_all r.body)
                  ++ (codes "...(truncated " ++ (ds ++ codes " bytes)")))
              × (1024 + value 0 ds ≡ length (read_all r.body))))
recorded_body next r e h = rw (← recorded_is_entry next r e h) (truncate_splits (read_all r.body))

-- The row tells of the request and of its answer: the body is whole up to 1024 bytes, and of a longer one
-- the first 1024 are there with a notice that says how many were left out.
pub record Tells (r : Request) (o : Outcome) (e : AuditLog) : Type 0 where
  pub method : e.method ≡ r.method
  pub path : e.path ≡ r.path
  pub ip : e.ip ≡ r.client_ip
  pub user_agent : e.user_agent ≡ r.user_agent
  pub response_status : e.response_status ≡ o.status
  pub duration_ms : e.duration_ms ≡ o.millis
  pub request_body :
      ((length (read_all r.body) ≤ 1024) × (e.request_body ≡ read_all r.body))
      ⊎ ((1024 < length (read_all r.body))
          × ((ds : List ℕ) × (e.request_body
                ≡ take 1024 (read_all r.body)
                  ++ (codes "...(truncated " ++ (ds ++ codes " bytes)")))
              × (1024 + value 0 ds ≡ length (read_all r.body))))

entry-Tells : (r : Request) (o : Outcome) → Tells r o (entry r (read_all r.body) o)
unfolding entry
entry-Tells r o = record {
  method = refl;
  path = refl;
  ip = refl;
  user_agent = refl;
  response_status = refl;
  duration_ms = refl;
  request_body = truncate_splits (read_all r.body);
}

entry_made :
    (next : Request → Outcome) (r : Request)
    → Writes r.method
    → (middleware next r).0.status < 400
    → (middleware next r).1 ≡ some (entry r (read_all r.body) (middleware next r).0)
unfolding middleware
entry_made next r w h =
    let t = Writes-is_write r.method w in
    let o = next (record r { body = put_back r.body }) in
    let small : leb 400 o.status ≡ false = ground (arith, t) in ground (arith, t, small)

written_by :
    (next : Request → Outcome) (creates : Bool) (r : Request) (rows : List AuditLog)
    (o : Option AuditLog)
    → (middleware next r).1 ≡ o
    → (audited next creates r (some rows)).1 ≡ write_entry creates o (some rows)
unfolding audited
written_by next creates r rows o e = ap (λ x. write_entry creates x (some rows)) e

-- The request is recorded: it writes, succeeds, and so does the insertion.
abbrev IsRecorded : (Request → Outcome) → Bool → Request → Type 0
IsRecorded next creates r =
    Writes r.method × ((middleware next r).0.status < 400) × (creates ≡ true)

audited_cases :
    (next : Request → Outcome) (creates : Bool) (r : Request) (rows : List AuditLog)
    (o : Option AuditLog)
    → (middleware next r).1 ≡ o
    → (IsRecorded next creates r
        × ((e : AuditLog) × ((audited next creates r (some rows)).1 ≡ some (rows ++ e ∷ []))
            × Tells r (middleware next r).0 e))
      ⊎ (¬ (IsRecorded next creates r) × ((audited next creates r (some rows)).1 ≡ some rows))
unfolding write_entry write_audit
audited_cases next creates r rows none h =
    inr (λ w. ground (arith, h, entry_made next r w.0 w.1), written_by next creates r rows none h)
audited_cases next false r rows (some row) h =
    inr (λ w. cc (w.2), written_by next false r rows (some row) h)
audited_cases next true r rows (some row) h =
    let (w, small) = audited_sound next r row h in
    let made = entry_made next r w small in
    inl (
      (w, small, refl),
      (
        entry r (read_all r.body) (middleware next r).0,
        written_by next true r rows (some (entry r (read_all r.body) (middleware next r).0)) made,
        entry-Tells r (middleware next r).0,
      ),
    )

-- With a table, a request and its goroutine append one row to it, which tells of the request and of its
-- answer, where the method is POST, PUT, DELETE or PATCH, the handlers answer with a status below 400 and the
-- insertion succeeds; in every other case the table is left as it was.
pub audited_exact :
    (next : Request → Outcome) (creates : Bool) (r : Request) (rows : List AuditLog)
    → let a = audited next creates r (some rows) in
      ((Writes r.method × (a.0.status < 400) × (creates ≡ true))
        × ((e : AuditLog) × (a.1 ≡ some (rows ++ e ∷ [])) × Tells r a.0 e))
      ⊎ (¬ (Writes r.method × (a.0.status < 400) × (creates ≡ true)) × (a.1 ≡ some rows))
unfolding audited
audited_exact next creates r rows = audited_cases next creates r rows (middleware next r).1 refl
