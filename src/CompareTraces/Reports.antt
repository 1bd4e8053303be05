-- ===== src/CompareTraces/Reports.antt =====
-- The mismatches that compare_traces.py prints, against the list of all mismatches.
use rv32im_so_c_performance.Base.{
  ℕ, zero, suc, ◌+◌, ◌≡◌, refl, ap, Bool, true, false, List, [], ◌∷◌, List-cases, take, max, inl,
  inr, arith,
}
use rv32im_so_c_performance.Base.Int.{ℤ, pos, negsuc, leb_ℤ}
use rv32im_so_c_performance.Trace.{Retirement}
use rv32im_so_c_performance.CompareTraces.{Field, Mismatch, fields_of, compare_from, compare_traces}

abbrev pub cons_mismatch : ℕ → List Field → List Mismatch → List Mismatch
cons_mismatch i [] rest = rest
cons_mismatch i (f ∷ fs) rest = record { number = i + 1; fields = f ∷ fs } ∷ rest

-- Every mismatch of the common part, with no limit.
unfoldable pub all_mismatches : Bool → ℕ → List Retirement → List Retirement → List Mismatch
all_mismatches c i [] rtl = []
all_mismatches c i (m ∷ model) [] = []
all_mismatches c i (m ∷ model) (r ∷ rtl) =
    cons_mismatch i (fields_of c m r) (all_mismatches c (i + 1) model rtl)

-- How many mismatches a limit lets through: the first one always is.
abbrev pub limit : ℤ → ℕ
limit (pos n) = max 1 n
limit (negsuc n) = 1

stops-last : (cap : ℤ) (k : ℕ) → k + 1 ≡ limit cap → leb_ℤ cap (pos (k + 1)) ≡ true
stops-last (pos n) k h = ground arith
stops-last (negsuc n) k h = ground arith

stops-more :
    (cap : ℤ) (k room : ℕ) → k + suc (suc room) ≡ limit cap → leb_ℤ cap (pos (k + 1)) ≡ false
stops-more (pos n) k room h = ground arith
stops-more (negsuc n) k room h = absurd (omega arith)

take-nil {ℓ} : {A : Type ℓ} (n : ℕ) → ◌≡◌ {A = List A} [] (take n [])
take-nil zero = refl
take-nil (suc n) = refl

compare_from-printed :
    (c : Bool) (cap : ℤ) (i k room : ℕ) (model rtl : List Retirement)
    → k + suc room ≡ limit cap
    → (compare_from c cap i k model rtl).printed ≡ take (suc room) (all_mismatches c i model rtl)
unfolding compare_from all_mismatches
compare_from-printed c cap i k room [] rtl h = refl
compare_from-printed c cap i k room (m ∷ model) [] h = refl
compare_from-printed c cap i k zero (m ∷ model) (r ∷ rtl) h = elim (List-cases (fields_of c m r)) [
  | inl same ↦ rw (same, compare_from) (compare_from-printed c cap (i + 1) k zero model rtl h)
  | inr (f, fs, differ) ↦ rw (differ, compare_from) (rw (stops-last cap k (omega arith)))
]
compare_from-printed c cap i k (suc room) (m ∷ model) (r ∷ rtl) h =
    elim (List-cases (fields_of c m r)) [
      | inl same ↦
          rw (same, compare_from) (compare_from-printed c cap (i + 1) k (suc room) model rtl h)
      | inr (f, fs, differ) ↦
          rw (differ, compare_from)
            (rw (stops-more cap k room h) (
              ap (λ rest. record { number = i + 1; fields = f ∷ fs } ∷ rest)
                (compare_from-printed c cap (i + 1) (k + 1) room model rtl (omega arith))))
    ]

-- The printed mismatches are the first ones of the whole list; a limit below 1 still prints one.
pub compare_traces-printed :
    (c : Bool) (cap : ℤ) (model rtl : List Retirement)
    → (compare_traces c cap model rtl).printed ≡ take (limit cap) (all_mismatches c 0 model rtl)
unfolding compare_traces
compare_traces-printed c (pos zero) model rtl =
    compare_from-printed c (pos zero) 0 0 0 model rtl (omega arith)
compare_traces-printed c (pos (suc n)) model rtl =
    rw (max_one n) (compare_from-printed c (pos (suc n)) 0 0 n model rtl (omega arith))
  where
    max_one : (n : ℕ) → max 1 (suc n) ≡ suc n
    max_one n = omega arith
compare_traces-printed c (negsuc n) model rtl =
    compare_from-printed c (negsuc n) 0 0 0 model rtl (omega arith)
