-- ===== src/Monitor/Conditions/Reading.antt =====
-- Which conditions parseThreshold reads, and as what.
use api_ops.Common.{
  ℕ, ◌≡◌, ◌≢◌, ◌⊎◌, inl, inr, false, none, some, List, [], ◌∷◌, ◌++◌, arith, Bool-cases,
  Option-cases, split_first, split_first_sound, strip, trim_space, codes,
}
use api_ops.Monitor.Conditions.{
  Numbers, Op, op_text, all_ops, Threshold, threshold, bad_multiplier, bad_value, number_part,
  refused, with_value, is_nil, try_ops, parse_threshold,
}

not_nil : (b : List ℕ) → is_nil b ≡ false → b ≢ []
unfolding is_nil
not_nil [] h z = cc h
not_nil (c ∷ b) h z = cc z

module _ (nu : Numbers) where
  open nu use {Float, parse_float}

  -- How a condition stands for a threshold: something, its operator, and a number.
  pub record Reads (cond : List ℕ) (t : Threshold nu) : Type 0 where
    pub before : List ℕ
    pub behind : List ℕ
    pub parts : cond ≡ before ++ (op_text t.op ++ behind)
    pub some_before : before ≢ []
    pub metric_is : t.metric ≡ trim_space before
    pub number : parse_float (number_part nu (trim_space behind)) ≡ some t.value

  not_refused : (v : List ℕ) (t : Threshold nu) → refused nu v ≡ threshold t → ⊥
  unfolding refused
  not_refused v t h = ground arith

  with_value_sound :
      (metric v : List ℕ) (op : Op) (t : Threshold nu)
      → with_value nu metric op v ≡ threshold t
      → (t.metric ≡ metric) × (t.op ≡ op) × (parse_float (number_part nu v) ≡ some t.value)
  unfolding with_value
  with_value_sound metric v op t h = elim (Option-cases (parse_float (number_part nu v))) [
    | inl e ↦ absurd (not_refused v t (rw (e, with_value) at h))
    | inr (x, e) ↦ ground (arith, e)
  ]

  try_ops_sound :
      (ops : List Op) (cond : List ℕ) (t : Threshold nu)
      → try_ops nu ops cond ≡ threshold t
      → Reads cond t
  unfolding try_ops
  try_ops_sound [] cond t h = cc h
  try_ops_sound (op ∷ ops) cond t h = elim (Option-cases (split_first (op_text op) cond)) [
    | inl e ↦ try_ops_sound ops cond t (ground (arith, e))
    | inr (p, e) ↦ elim (Bool-cases (is_nil p.0)) [
      | inl n ↦ try_ops_sound ops cond t (ground (arith, e, n))
      | inr n ↦
          let w = with_value_sound (trim_space p.0) (trim_space p.1) op t (ground (arith, e, n)) in
          record {
            before = p.0;
            behind = p.1;
            parts = rw w.1 (split_first_sound (op_text op) cond p.0 p.1 e);
            some_before = λ z. not_nil p.0 n z;
            metric_is = w.0;
            number = w.2;
          }
    ]
  ]

  -- A condition that is read consists of a text before the operator, which without the white space
  -- around it is the metric, of the operator, and of a text that, without the white space around it and
  -- a leading "baseline*", is as a whole the number that ParseFloat gives.
  threshold-Reads :
      (cond : List ℕ) (t : Threshold nu) → parse_threshold nu cond ≡ threshold t → Reads cond t
  unfolding parse_threshold
  threshold-Reads cond t h = try_ops_sound all_ops cond t h

-- ParseFloat takes no text with a space in it.
pub record RejectsSpaces (nu : Numbers) : Type 0 where
  pub rejects : (v w : List ℕ) → nu.parse_float (v ++ b' ' ∷ w) ≡ none

-- The operator that the loop stops at: it is the first, in the order of trial, with a place in the
-- condition that is found and is not the very beginning.
pub data FirstOp (cond : List ℕ) : List Op → Op → List ℕ → List ℕ → Type 0 where
  found :
      (ops : List Op) (op : Op) (c : ℕ) (before behind : List ℕ)
      → split_first (op_text op) cond ≡ some (c ∷ before, behind)
      → FirstOp cond (op ∷ ops) op (c ∷ before) behind
  absent :
      (ops : List Op) (o op : Op) (before behind : List ℕ)
      → split_first (op_text o) cond ≡ none
      → FirstOp cond ops op before behind
      → FirstOp cond (o ∷ ops) op before behind
  leading :
      (ops : List Op) (o op : Op) (before behind rest : List ℕ)
      → split_first (op_text o) cond ≡ some ([], rest)
      → FirstOp cond ops op before behind
      → FirstOp cond (o ∷ ops) op before behind

module _ (nu : Numbers) where
  try_ops-FirstOp :
      (cond : List ℕ) (ops : List Op) (op : Op) (before behind : List ℕ)
      → FirstOp cond ops op before behind
      → try_ops nu ops cond ≡ with_value nu (trim_space before) op (trim_space behind)
  unfolding try_ops
  try_ops-FirstOp cond _ _ _ _ (found ops op c before behind e) = ground (arith, e)
  try_ops-FirstOp cond _ _ _ _ (absent ops o op before behind e f) =
      ground (arith, e, try_ops-FirstOp cond ops op before behind f)
  try_ops-FirstOp cond _ _ _ _ (leading ops o op before behind rest e f) =
      ground (arith, e, try_ops-FirstOp cond ops op before behind f)

  refused_cases : (v : List ℕ) → (refused nu v ≡ bad_value) ⊎ (refused nu v ≡ bad_multiplier)
  unfolding refused
  refused_cases v = elim (Option-cases (strip (codes "baseline*") v)) [
    | inl e ↦ inl (ground (arith, e))
    | inr (m, e) ↦ inr (ground (arith, e))
  ]

  -- A condition with a space inside the text behind the operator that the loop stops at, such as
  -- "error_rate>0.20 window=5m", is refused as a bad value or a bad multiplier.
  pub options_are_refused :
      (cond : List ℕ) (op : Op) (before behind v w : List ℕ)
      → RejectsSpaces nu
      → FirstOp cond all_ops op before behind
      → number_part nu (trim_space behind) ≡ v ++ b' ' ∷ w
      → (parse_threshold nu cond ≡ bad_value) ⊎ (parse_threshold nu cond ≡ bad_multiplier)
  unfolding parse_threshold with_value
  options_are_refused cond op before behind v w r f e =
      let p = try_ops-FirstOp cond all_ops op before behind f in
      let n : nu.parse_float (number_part nu (trim_space behind)) ≡ none = rw e (r.rejects v w) in
      rw p (rw (n, with_value) (refused_cases (trim_space behind)))
