-- ===== src/FetchReports/Repeated.antt =====
-- What the reports call re-fetched: each address that occurs more than once, with how often.
use rv32im_so_c_performance.Base.{
  ℕ, zero, suc, ◌+◌, ◌<◌, ◌≡◌, ◌↔◌, refl, sym, subst, ap, inl, inr, true, false, List, [], ◌∷◌, leb,
  if◌then◌else◌, keep_if, Bool-cases, All, arith,
}
use rv32im_so_c_performance.Base.Int.{ℤ, pos, negsuc, ◌==ℤ◌, ==ℤ_iff, leb_ℤ}
use rv32im_so_c_performance.Dominance.{In, here, there}
use rv32im_so_c_performance.Dominance.Frontier.{keep_if-In, In-keep_if, All-keep_if}
use rv32im_so_c_performance.Sorting.{IsSorted, sorted-IsSorted, sorted-In, In-sorted}
use rv32im_so_c_performance.FetchReports.{add_one, count_from, is_repeated, repeated, pair_le}

-- How often an address occurs.
abbrev pub occurrences : ℤ → List ℤ → ℕ
occurrences pc [] = 0
occurrences pc (q ∷ pcs) = if q ==ℤ pc then suc (occurrences pc pcs) else occurrences pc pcs

-- The count of an address, 0 where it has none.
abbrev count_of : ℤ → List (ℤ × ℕ) → ℕ
count_of pc [] = 0
count_of pc ((q, n) ∷ counts) = if q ==ℤ pc then n else count_of pc counts

-- No address has two counts, and none is 0.
abbrev Distinct : List (ℤ × ℕ) → Type 0
Distinct [] = Unit
Distinct ((q, n) ∷ counts) = (0 < n) × (count_of q counts ≡ 0) × Distinct counts

count_of-add_one :
    (pc q : ℤ) (counts : List (ℤ × ℕ))
    → count_of q (add_one pc counts)
      ≡ (if pc ==ℤ q then suc (count_of q counts) else count_of q counts)
unfolding add_one
count_of-add_one pc q [] = ground arith
count_of-add_one pc q ((p, n) ∷ counts) =
    ground (arith, count_of-add_one pc q counts, ==ℤ_iff p pc, ==ℤ_iff p q, ==ℤ_iff pc q)

add_one-Distinct : (pc : ℤ) (counts : List (ℤ × ℕ)) → Distinct counts → Distinct (add_one pc counts)
unfolding add_one
add_one-Distinct pc [] h = (omega arith, refl, tt)
add_one-Distinct pc ((p, n) ∷ counts) h = elim (Bool-cases (p ==ℤ pc)) [
  | inl e ↦ rw (e) (omega arith, h.1, h.2)
  | inr e ↦ rw (e) (
    h.0,
    ground (arith, count_of-add_one pc p counts, ==ℤ_iff p pc, ==ℤ_iff pc p, h.1),
    add_one-Distinct pc counts h.2,
  )
]

count_from-occurrences :
    (pc : ℤ) (counts : List (ℤ × ℕ)) (pcs : List ℤ)
    → count_of pc (count_from counts pcs) ≡ count_of pc counts + occurrences pc pcs
unfolding count_from
count_from-occurrences pc counts [] = omega arith
count_from-occurrences pc counts (q ∷ pcs) =
    ground (arith, count_from-occurrences pc (add_one q counts) pcs, count_of-add_one q pc counts)

count_from-Distinct :
    (counts : List (ℤ × ℕ)) (pcs : List ℤ) → Distinct counts → Distinct (count_from counts pcs)
unfolding count_from
count_from-Distinct counts [] h = h
count_from-Distinct counts (pc ∷ pcs) h =
    count_from-Distinct (add_one pc counts) pcs (add_one-Distinct pc counts h)

-- The pairs of a dict are its addresses with their counts.
In-count_of :
    (pc : ℤ) (n : ℕ) (counts : List (ℤ × ℕ))
    → Distinct counts
    → In (pc, n) counts
    → (count_of pc counts ≡ n) × (0 < n)
In-count_of pc n [] h x = elim x [ ]
In-count_of pc n ((q, m) ∷ counts) h (here e) =
    let same : pc ≡ q = ap (λ p. p.0) e in
    let count : n ≡ m = ap (λ p. p.1) e in
    let found : (q ==ℤ pc) ≡ true = (==ℤ_iff q pc).1 (sym same) in
    (rw (found) (sym count), rw (count) h.0)
In-count_of pc n ((q, m) ∷ counts) h (there i) =
    let (count, positive) = In-count_of pc n counts h.2 i in
    elim (Bool-cases (q ==ℤ pc)) [
      | inl same ↦
          let gone : count_of pc counts ≡ 0 =
            subst (λ x. count_of x counts ≡ 0) ((==ℤ_iff q pc).0 same) h.1 in
          absurd (omega (arith, count, gone, positive))
      | inr other ↦ (rw (other) count, positive)
    ]

count_of-In :
    (pc : ℤ) (n : ℕ) (counts : List (ℤ × ℕ)) → count_of pc counts ≡ suc n → In (pc, suc n) counts
count_of-In pc n [] e = absurd (omega (arith, e))
count_of-In pc n ((q, m) ∷ counts) e = elim (Bool-cases (q ==ℤ pc)) [
  | inl same ↦
      let address : q ≡ pc = (==ℤ_iff q pc).0 same in
      let count : m ≡ suc n = rw (same) at e in here cc
  | inr other ↦ there (count_of-In pc n counts (rw (other) at e))
]

All-In : {A : Type 0} (P : A → Type 0) (x : A) (xs : List A) → All P xs → In x xs → P x
All-In P x [] h m = elim m [ ]
All-In P x (y ∷ ys) h (here e) = subst P (sym e) h.0
All-In P x (y ∷ ys) h (there m) = All-In P x ys h.1 m

pair_le-total : (x y : ℤ × ℕ) → pair_le x y ≡ false → pair_le y x ≡ true
pair_le-total (p, m) (q, n) h = ground (arith, ==ℤ_iff p q, ==ℤ_iff q p)

leb_ℤ_antisym : (a b : ℤ) → leb_ℤ a b ≡ true → leb_ℤ b a ≡ true → (a ==ℤ b) ≡ true
unfolding ◌==ℤ◌
leb_ℤ_antisym (pos a) (pos b) h k = ground arith
leb_ℤ_antisym (pos a) (negsuc b) h k = ground arith
leb_ℤ_antisym (negsuc a) (pos b) h k = ground arith
leb_ℤ_antisym (negsuc a) (negsuc b) h k = ground arith

leb_ℤ_trans : (a b c : ℤ) → leb_ℤ a b ≡ true → leb_ℤ b c ≡ true → leb_ℤ a c ≡ true
leb_ℤ_trans a b c h k = ground arith

pair_le_trans : (x y z : ℤ × ℕ) → pair_le x y ≡ true → pair_le y z ≡ true → pair_le x z ≡ true
pair_le_trans (p, l) (q, m) (r, n) h k = elim (Bool-cases (p ==ℤ q)) [
  | inl same ↦
      let address : p ≡ q = (==ℤ_iff p q).0 same in
      subst (λ x. pair_le (x, l) (r, n) ≡ true) (sym address) (behind (rw (same) at h) k)
  | inr other ↦
      ground (arith, h, k, other, leb_ℤ_trans p q r, leb_ℤ_antisym p q, ==ℤ_iff q r, ==ℤ_iff p r)
]
  where
    behind : leb l m ≡ true → pair_le (q, m) (r, n) ≡ true → pair_le (q, l) (r, n) ≡ true
    behind e f = ground arith

counted-occurrences :
    (pc : ℤ) (n : ℕ) (pcs : List ℤ) → In (pc, n) (count_from [] pcs) → n ≡ occurrences pc pcs
counted-occurrences pc n pcs m =
    let count = In-count_of pc n (count_from [] pcs) (count_from-Distinct [] pcs tt) m in
    omega (arith, count.0, count_from-occurrences pc [] pcs)

counted_complete :
    (pc : ℤ) (n : ℕ) (pcs : List ℤ)
    → n ≡ occurrences pc pcs
    → 1 < n
    → In (pc, n) (count_from [] pcs)
counted_complete pc zero pcs e h = absurd (omega arith)
counted_complete pc (suc n) pcs e h =
    count_of-In pc n (count_from [] pcs) (omega (arith, count_from-occurrences pc [] pcs))

-- The re-fetched addresses of a report are sorted, and an address is among them with a number exactly
-- when that is how often it was fetched, and it was fetched more than once.
pub repeated-occurrences :
    (pcs : List ℤ)
    → IsSorted pair_le (repeated pcs)
      × ((pc : ℤ) (n : ℕ) → In (pc, n) (repeated pcs) ↔ ((n ≡ occurrences pc pcs) × (1 < n)))
unfolding repeated
repeated-occurrences pcs =
    let counted = count_from [] pcs in
    let kept = keep_if is_repeated counted in
    (
      sorted-IsSorted pair_le pair_le-total pair_le_trans kept,
      λ pc n. (
        λ m.
            let there = sorted-In pair_le (pc, n) kept m in
            let twice = All-In _ (pc, n) kept (All-keep_if is_repeated counted) there in
            (
              counted-occurrences pc n pcs (In-keep_if is_repeated (pc, n) counted there),
              ground (arith, twice),
            ),
        λ (e, twice).
            In-sorted pair_le (pc, n) kept
              (keep_if-In is_repeated (pc, n) counted (counted_complete pc n pcs e twice)
                (ground arith)),
      ),
    )
