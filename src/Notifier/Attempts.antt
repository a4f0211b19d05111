-- ===== src/Notifier/Attempts.antt =====
-- How the attempts of a push end.
use mathlib.Core.Path.{subst}
use api_ops.Common.{
  ℕ, suc, ◌+◌, ◌≤◌, ◌<◌, ◌≡◌, refl, sym, ◌⊎◌, inl, inr, List, [], ◌∷◌, String, length, arith,
  dec_lt,
}
use api_ops.Notifier.Sending.{
  FeishuConfig, Reply, Outside, full_url, Outcome, Attempts, ends, goes_on, after_post, attempts,
  backoff,
}

-- Three kinds of replies.
abbrev pub IsAccepted : Reply → Type 0
IsAccepted Reply.broken = ⊥
IsAccepted (Reply.answered s) = (200 ≤ s) × (s < 300)

abbrev pub IsRefused : Reply → Type 0
IsRefused Reply.broken = ⊥
IsRefused (Reply.answered s) = (400 ≤ s) × (s < 500)

abbrev pub IsRetried : Reply → Type 0
IsRetried Reply.broken = Unit
IsRetried (Reply.answered s) = ((s < 200) ⊎ (300 ≤ s)) × ((s < 400) ⊎ (500 ≤ s))

reply_kinds : (r : Reply) → IsAccepted r ⊎ (IsRefused r ⊎ IsRetried r)
reply_kinds Reply.broken = inr (inr tt)
reply_kinds (Reply.answered s) = elim (dec_lt s 200) [
  | yes a ↦ inr (inr (inl a, inl (omega (arith, a))))
  | no a ↦ elim (dec_lt s 300) [
    | yes b ↦ inl (omega (arith, a), b)
    | no b ↦ elim (dec_lt s 400) [
      | yes c ↦ inr (inr (inr (omega (arith, b)), inl c))
      | no c ↦ elim (dec_lt s 500) [
        | yes d ↦ inr (inl (omega (arith, c), d))
        | no d ↦ inr (inr (inr (omega (arith, b)), inr (omega (arith, d))))
      ]
    ]
  ]
]

-- The end of the attempts from number `i` on, of which there are `n`: attempt `k` is the last, those
-- before it are retried.
pub record Ended (out : Outside) (i n : ℕ) (a : Attempts) : Type 0 where
  pub k : ℕ
  pub from : i ≤ k
  pub below : k < i + n
  pub before : (j : ℕ) → i ≤ j → j < k → IsRetried (out.reply j)
  pub count : i + length a.posts ≡ suc k
  pub end :
      (IsAccepted (out.reply k) × (a.outcome ≡ Outcome.delivered))
      ⊎ ((IsRefused (out.reply k) × ((s : ℕ) × (a.outcome ≡ Outcome.refused s)))
          ⊎ (IsRetried (out.reply k) × (suc k ≡ i + n) × (a.outcome ≡ Outcome.exhausted)))

module _ (post : String × String) (sleep : ℕ) (rest : Attempts) where
  post-accepted :
      (r : Reply) → IsAccepted r → after_post r post sleep rest ≡ ends post sleep Outcome.delivered
  unfolding after_post
  post-accepted Reply.broken h = absurd h
  post-accepted (Reply.answered s) h = ground (arith, h)

  post-refused :
      (r : Reply)
      → IsRefused r
      → (s : ℕ) × (after_post r post sleep rest ≡ ends post sleep (Outcome.refused s))
  unfolding after_post
  post-refused Reply.broken h = absurd h
  post-refused (Reply.answered s) h = (s, ground (arith, h))

  post-retried : (r : Reply) → IsRetried r → after_post r post sleep rest ≡ goes_on post sleep rest
  unfolding after_post
  post-retried Reply.broken h = refl
  post-retried (Reply.answered s) h = ground (arith, h)

module _ (out : Outside) (i : ℕ) (post : String × String) (sleep : ℕ) where
  accepted-Ended :
      (n : ℕ) → IsAccepted (out.reply i) → Ended out i (suc n) (ends post sleep Outcome.delivered)
  accepted-Ended n a = record {
    k = i;
    from = omega arith;
    below = omega arith;
    before = λ j h l. absurd (omega (arith, h, l));
    count = omega arith;
    end = inl (a, refl);
  }

  refused-Ended :
      (n s : ℕ)
      → IsRefused (out.reply i)
      → Ended out i (suc n) (ends post sleep (Outcome.refused s))
  refused-Ended n s b = record {
    k = i;
    from = omega arith;
    below = omega arith;
    before = λ j h l. absurd (omega (arith, h, l));
    count = omega arith;
    end = inr (inl (b, (s, refl)));
  }

  last-Ended :
      IsRetried (out.reply i)
      → Ended out i 1
          (goes_on post sleep (record { posts = []; slept = 0; outcome = Outcome.exhausted }))
  last-Ended r = record {
    k = i;
    from = omega arith;
    below = omega arith;
    before = λ j h l. absurd (omega (arith, h, l));
    count = omega arith;
    end = inr (inr (r, omega arith, refl));
  }

  later-Ended :
      (n : ℕ) (rest : Attempts)
      → IsRetried (out.reply i)
      → Ended out (suc i) n rest
      → Ended out i (suc n) (goes_on post sleep rest)
  later-Ended n rest r e = record {
    k = e.k;
    from = omega (arith, e.from);
    below = omega (arith, e.below);
    before = λ j h l. elim (dec_lt i j) [
      | yes m ↦ e.before j m l
      | no m ↦ subst (λ x. IsRetried (out.reply x)) (omega (arith, h, m)) r
    ];
    count = omega (arith, e.count);
    end = elim e.end [
      | inl a ↦ inl a
      | inr (inl b) ↦ inr (inl b)
      | inr (inr d) ↦ inr (inr (d.0, omega (arith, d.1), d.2))
    ];
  }

module _ (out : Outside) (c : FeishuConfig) (body : String) where
  -- By the kind of the first reply; `later` is for one that is retried.
  first-Ended :
      (i sleep : ℕ) (sleeps : List ℕ)
      → (IsRetried (out.reply i)
          → Ended out i (suc (length sleeps)) (
              goes_on
                (full_url out c (out.clock i), body)
                sleep
                (attempts out c body (suc i) sleeps)))
      → Ended out i (suc (length sleeps)) (attempts out c body i (sleep ∷ sleeps))
  unfolding attempts
  first-Ended i sleep sleeps later =
      let post : String × String = (full_url out c (out.clock i), body) in
      let rest = attempts out c body (suc i) sleeps in
      let ended = Ended out i (suc (length sleeps)) in
      elim (reply_kinds (out.reply i)) [
        | inl a ↦
            subst ended (sym (post-accepted post sleep rest (out.reply i) a))
              (accepted-Ended out i post sleep (length sleeps) a)
        | inr (inl b) ↦
            let (s, e) = post-refused post sleep rest (out.reply i) b in
            subst ended (sym e) (refused-Ended out i post sleep (length sleeps) s b)
        | inr (inr r) ↦ subst ended (sym (post-retried post sleep rest (out.reply i) r)) (later r)
      ]

  attempts-Ended :
      (i sleep : ℕ) (sleeps : List ℕ)
      → Ended out i (suc (length sleeps)) (attempts out c body i (sleep ∷ sleeps))
  unfolding attempts
  attempts-Ended i sleep [] =
      first-Ended i sleep [] (λ r. last-Ended out i (full_url out c (out.clock i), body) sleep r)
  attempts-Ended i sleep (next ∷ sleeps) = first-Ended i sleep (next ∷ sleeps) (λ r.
      later-Ended out i (full_url out c (out.clock i), body) sleep (suc (length sleeps))
        (attempts out c body (suc i) (next ∷ sleeps)) r (attempts-Ended (suc i) next sleeps))

  -- A push makes one to four posts and ends with the first reply that is not retried: a status of
  -- 200 to 299 delivers it, one of 400 to 499 refuses it; if the fourth is to be retried too, it is
  -- exhausted. Every other status and a post that breaks off are retried.
  pub attempts_end :
      (k : ℕ) × (k < 4)
      × ((j : ℕ) → j < k → IsRetried (out.reply j))
      × (length (attempts out c body 0 backoff).posts ≡ suc k)
      × ((IsAccepted (out.reply k) × ((attempts out c body 0 backoff).outcome ≡ Outcome.delivered))
          ⊎ ((IsRefused (out.reply k)
                × ((s : ℕ) × ((attempts out c body 0 backoff).outcome ≡ Outcome.refused s)))
              ⊎ (IsRetried (out.reply k)
                  × (k ≡ 3)
                  × ((attempts out c body 0 backoff).outcome ≡ Outcome.exhausted))))
  attempts_end =
      let e = attempts-Ended 0 0 (1 ∷ 3 ∷ 10 ∷ []) in
      (
        e.k,
        omega (arith, e.below),
        λ j l. e.before j (omega arith) l,
        omega (arith, e.count),
        elim e.end [
          | inl a ↦ inl a
          | inr (inl b) ↦ inr (inl b)
          | inr (inr d) ↦ inr (inr (d.0, omega (arith, d.1), d.2))
        ],
      )
