-- ===== src/Server/Lifecycle/Counted.antt =====
-- Sums over the servers, by which their goroutines are counted.
use locaccel.Prelude.{
  ℕ, zero, suc, ◌+◌, ◌*◌, ◌≤◌, ◌<◌, true, false, ◌≡◌, ap, inl, inr, eqb, ltb, ltb→lt, Bool-cases,
  arith,
}
use locaccel.Server.Lifecycle.{put_at, Closer, received, closed, closing, idle}

module _ {ℓ} {A : Type ℓ} (w : A → ℕ) where
  pub weight : (ℕ → A) → ℕ → ℕ
  weight f zero = 0
  weight f (suc n) = w (f n) + weight f n

  weight-put_at_beyond :
      (n : ℕ) (f : ℕ → A) (i : ℕ) (a : A) → n ≤ i → weight (put_at i a f) n ≡ weight f n
  unfolding weight
  weight-put_at_beyond zero f i a h = omega arith
  weight-put_at_beyond (suc n) f i a h = ground (arith, weight-put_at_beyond n f i a)

  pub weight-put_at :
      (n : ℕ) (f : ℕ → A) (i : ℕ) (a : A)
      → i < n
      → weight (put_at i a f) n + w (f i) ≡ weight f n + w a
  unfolding weight
  weight-put_at zero f i a h = elim h [ ]
  weight-put_at (suc n) f i a h = elim (Bool-cases (eqb i n)) [
    | inl same ↦ ground (arith, weight-put_at_beyond n f i a)
    | inr other ↦ ground (arith, weight-put_at n f i a)
  ]

  -- The sum if all are alike.
  pub weight_const : (n : ℕ) (f : ℕ → A) (a : A) → ((i : ℕ) → f i ≡ a) → weight f n ≡ n * w a
  unfolding weight
  weight_const zero f a h = omega arith
  weight_const (suc n) f a h = grind (arith, weight_const n f a h, ap w (h n))

  pub member-le-weight : (n : ℕ) (f : ℕ → A) (i : ℕ) → i < n → w (f i) ≤ weight f n
  unfolding weight
  member-le-weight zero f i h = elim h [ ]
  member-le-weight (suc n) f i h = elim (Bool-cases (eqb i n)) [
    | inl same ↦ ground arith
    | inr other ↦ ground (arith, member-le-weight n f i)
  ]

  pub weight_member : (n : ℕ) (f : ℕ → A) → 0 < weight f n → (i : ℕ) × (i < n) × (0 < w (f i))
  unfolding weight
  weight_member zero f h = absurd (omega arith)
  weight_member (suc n) f h = elim (Bool-cases (ltb 0 (w (f n)))) [
    | inl here ↦ (n, omega arith, ltb→lt _ _ here)
    | inr below ↦ let (i, lt, pos) = weight_member n f (ground arith) in (i, omega arith, pos)
  ]

  module _ (small : (a : A) → w a ≤ 1) where
    pub weight_bound : (n : ℕ) (f : ℕ → A) → weight f n ≤ n
    unfolding weight
    weight_bound zero f = omega arith
    weight_bound (suc n) f = omega (arith, small (f n), weight_bound n f)

    pub weight_room : (n : ℕ) (f : ℕ → A) → weight f n < n → (i : ℕ) × (i < n) × (w (f i) ≡ 0)
    unfolding weight
    weight_room zero f h = absurd (omega arith)
    weight_room (suc n) f h = elim (Bool-cases (ltb 0 (w (f n)))) [
      | inl here ↦
          let p = small (f n) in
          let (i, lt, z) = weight_room n f (ground arith) in (i, omega arith, z)
      | inr room ↦ (n, omega arith, ground arith)
    ]

    pub weight_full : (n : ℕ) (f : ℕ → A) (i : ℕ) → i < n → weight f n ≡ n → w (f i) ≡ 1
    unfolding weight
    weight_full zero f i h e = elim h [ ]
    weight_full (suc n) f i h e = elim (Bool-cases (eqb i n)) [
      | inl same ↦ ground (arith, small (f n), weight_bound n f)
      | inr other ↦ ground (arith, small (f n), weight_bound n f, weight_full n f i)
    ]

-- Whether a closer's result was taken, and whether it was an error.
unfoldable pub taken : Closer → ℕ
taken (received err) = 1
taken (closed err) = 0
taken closing = 0
taken idle = 0

unfoldable pub erred : Closer → ℕ
erred (received true) = 1
erred (received false) = 0
erred (closed err) = 0
erred closing = 0
erred idle = 0

pub taken-le : (c : Closer) → taken c ≤ 1
unfolding taken
taken-le idle = omega arith
taken-le closing = omega arith
taken-le (closed err) = omega arith
taken-le (received err) = omega arith
