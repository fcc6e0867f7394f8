-- ===== src/Address/Spans.antt =====
-- The run of zeros that the text form leaves out.
use mm.Shared.{
  ℕ, zero, suc, ◌+◌, ◌≤◌, ◌<◌, ◌≡◌, refl, ap, sym, List, [], ◌∷◌, ◌++◌, take, drop, replicate,
  get_elem?, some, arith, ltb, ◌==◌, Bool-cases, inl, inr, ℕ_discrete,
}
use Prim.Native.Nat.add
use native.Mathlib.Nat.{add-zero, add-suc, suc-add}
use mm.Address.{Span, longer, spans_loop, best_span}

-- From the start on there stand as many zeros as the span is long.
abbrev pub IsZeros : List ℕ → Span → Type 0
IsZeros ds s = (i : ℕ) → s.start ≤ i → i < s.start + s.len → get_elem? ds i ≡ some 0

longer-IsZeros : (ds : List ℕ) (s t : Span) → IsZeros ds s → IsZeros ds t → IsZeros ds (longer s t)
longer-IsZeros ds s t hs ht = elim (Bool-cases (ltb t.len s.len)) [
  | inl e ↦ rw e hs
  | inr e ↦ rw e ht
]

-- `rest` is what stands in `ds` from `idx` on.
abbrev Stands : List ℕ → ℕ → List ℕ → Type 0
Stands ds idx rest = (i : ℕ) → get_elem? ds (idx + i) ≡ get_elem? rest i

extend-IsZeros :
    (ds : List ℕ) (idx : ℕ) (s : Span)
    → s.start + s.len ≡ idx
    → get_elem? ds idx ≡ some 0
    → IsZeros ds s
    → IsZeros ds (record s { len = s.len + 1 })
extend-IsZeros ds idx s e z h i lo hi = elim (ℕ_discrete i idx) [
  | yes p ↦ rw p z
  | no p ↦ h i lo (omega arith)
]

spans_loop-IsZeros :
    (ds : List ℕ) (idx : ℕ) (this best : Span) (rest : List ℕ)
    → this.start + this.len ≡ idx
    → Stands ds idx rest
    → IsZeros ds this
    → IsZeros ds best
    → IsZeros ds (spans_loop idx this best rest)
unfolding spans_loop
spans_loop-IsZeros ds idx this best [] e st ht hb = longer-IsZeros ds this best ht hb
spans_loop-IsZeros ds idx this best (d ∷ rest) e st ht hb =
    let st' : Stands ds (suc idx) rest = λ i. rw (suc-add, ← add-suc) (st (suc i)) in
    elim (Bool-cases (d == 0)) [
      | inl z ↦
          let zero_here : get_elem? ds idx ≡ some 0 = ground (arith, st 0, add-zero idx) in
          rw (z, spans_loop)
            (spans_loop-IsZeros ds (suc idx) (record this { len = this.len + 1 }) best rest
              (omega arith) st' (extend-IsZeros ds idx this e zero_here ht) hb)
      | inr z ↦
          rw (z, spans_loop)
            (spans_loop-IsZeros ds (suc idx) (record { start = idx + 1; len = 0 })
              (longer this best) rest (omega arith) st' (λ i lo hi. absurd (omega arith))
              (longer-IsZeros ds this best ht hb))
    ]

-- The span that `to_chars` picks is made of zeros.
pub best_span-IsZeros : (ds : List ℕ) → IsZeros ds (best_span ds)
unfolding best_span
best_span-IsZeros ds =
    spans_loop-IsZeros ds 0 (record { start = 0; len = 0 }) (record { start = 0; len = 0 }) ds refl
      (λ i. rw add.zero refl) (λ i lo hi. absurd (omega arith)) (λ i lo hi. absurd (omega arith))

zeros_first :
    (l : ℕ) (ds : List ℕ)
    → ((i : ℕ) → i < l → get_elem? ds i ≡ some 0)
    → ds ≡ replicate l 0 ++ drop l ds
zeros_first zero ds h = refl
zeros_first (suc l) [] h = absurd (cc (h 0 (omega arith)))
zeros_first (suc l) (d ∷ ds) h =
    ground (arith, h 0, zeros_first l ds (λ i lt. h (suc i) (omega arith)))

drop-nil : (n : ℕ) → ◌≡◌ {A = List ℕ} (drop n []) []
drop-nil zero = refl
drop-nil (suc n) = refl

-- A list is what stands before a run of zeros, the run, and what stands behind it.
pub split_zeros :
    (s l : ℕ) (ds : List ℕ)
    → IsZeros ds (record { start = s; len = l })
    → ds ≡ take s ds ++ (replicate l 0 ++ drop (s + l) ds)
split_zeros zero l ds h = rw add.zero (zeros_first l ds (λ i lt. h i (omega arith) (omega arith)))
split_zeros (suc s) zero [] h = sym (drop-nil (suc s + 0))
split_zeros (suc s) (suc l) [] h = absurd (cc (h (suc s) (omega arith) (omega arith)))
split_zeros (suc s) l (d ∷ ds) h =
    rw suc-add
      (ap (λ r. d ∷ r) (split_zeros s l ds (λ i lo hi. h (suc i) (omega arith) (omega arith))))
