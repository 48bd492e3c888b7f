-- ===== src/Common/Memory.antt =====
-- A block of memory as the list of its bytes. `memcpy` from it and into it faults, with `none`,
-- where the range leaves the block.
use docker_applications.Common.{
  ℕ, zero, suc, ◌+◌, ◌≤◌, ◌≡◌, refl, ap, subst, ◌∙◌, Option, none, some, List, [], ◌∷◌, ◌++◌,
  length, set, drop, length-append, take, leb, if◌then◌else◌, arith,
}

module _ {ℓ} {A : Type ℓ} where
  -- `n` items from index `start` on
  abbrev pub slice : ℕ → ℕ → List A → List A
  slice zero n xs = take n xs
  slice (suc start) n [] = []
  slice (suc start) n (x ∷ xs) = slice start n xs

  abbrev pub overwrite : List A → List A → List A
  overwrite [] xs = xs
  overwrite (b ∷ bs) [] = []
  overwrite (b ∷ bs) (x ∷ xs) = b ∷ overwrite bs xs

  abbrev pub splice : ℕ → List A → List A → List A
  splice zero bs xs = overwrite bs xs
  splice (suc start) bs [] = []
  splice (suc start) bs (x ∷ xs) = x ∷ splice start bs xs

module _ {ℓ} {A : Type ℓ} where
  -- `memcpy(…, block + start, n)`
  unfoldable pub read_at : List A → ℕ → ℕ → Option (List A)
  read_at xs start n = if leb (start + n) (length xs) then some (slice start n xs) else none

  -- `memcpy(block + start, bytes, length bytes)`
  unfoldable pub write_at : List A → ℕ → List A → Option (List A)
  write_at xs start bs =
      if leb (start + length bs) (length xs) then some (splice start bs xs) else none

  pub splice-nil : (s : ℕ) (xs : List A) → splice s [] xs ≡ xs
  splice-nil zero xs = refl
  splice-nil (suc s) [] = refl
  splice-nil (suc s) (x ∷ xs) = ap (λ t. x ∷ t) (splice-nil s xs)

  -- Writing at the start replaces as many items.
  pub splice-prefix :
      (bs xs : List A) → length bs ≤ length xs → splice 0 bs xs ≡ bs ++ drop (length bs) xs
  splice-prefix [] xs h = refl
  splice-prefix (b ∷ bs) [] h = elim h [ ]
  splice-prefix (b ∷ bs) (x ∷ xs) h = ap (λ t. b ∷ t) (splice-prefix bs xs (omega arith))

  pub set-eq-splice : (xs : List A) (i : ℕ) (v : A) → set xs i v ≡ splice i (v ∷ []) xs
  set-eq-splice [] zero v = refl
  set-eq-splice [] (suc i) v = refl
  set-eq-splice (x ∷ xs) zero v = refl
  set-eq-splice (x ∷ xs) (suc i) v = ap (λ t. x ∷ t) (set-eq-splice xs i v)

  length-overwrite : (bs xs : List A) → length (overwrite bs xs) ≡ length xs
  length-overwrite [] xs = refl
  length-overwrite (b ∷ bs) [] = refl
  length-overwrite (b ∷ bs) (x ∷ xs) = ap suc (length-overwrite bs xs)

  pub length-splice : (s : ℕ) (bs xs : List A) → length (splice s bs xs) ≡ length xs
  length-splice zero bs xs = length-overwrite bs xs
  length-splice (suc s) bs [] = refl
  length-splice (suc s) bs (x ∷ xs) = ap suc (length-splice s bs xs)

  take-overwrite :
      (bs xs : List A) → length bs ≤ length xs → take (length bs) (overwrite bs xs) ≡ bs
  take-overwrite [] xs h = refl
  take-overwrite (b ∷ bs) [] h = elim h [ ]
  take-overwrite (b ∷ bs) (x ∷ xs) h = ap (λ t. b ∷ t) (take-overwrite bs xs (omega arith))

  -- What is written is read back.
  pub slice-splice_self :
      (s : ℕ) (bs xs : List A)
      → s + length bs ≤ length xs
      → slice s (length bs) (splice s bs xs) ≡ bs
  slice-splice_self zero bs xs h = take-overwrite bs xs (omega arith)
  slice-splice_self (suc s) bs [] h = absurd (omega arith)
  slice-splice_self (suc s) bs (x ∷ xs) h = slice-splice_self s bs xs (omega arith)

  pub slice-splice_same :
      (s n : ℕ) (bs xs : List A)
      → length bs ≡ n
      → s + n ≤ length xs
      → slice s n (splice s bs xs) ≡ bs
  slice-splice_same s n bs xs e h =
      subst (λ k. slice s k (splice s bs xs) ≡ bs) e (slice-splice_self s bs xs (omega arith))

  take-append_left : (n : ℕ) (xs ys : List A) → n ≤ length xs → take n (xs ++ ys) ≡ take n xs
  take-append_left zero xs ys h = refl
  take-append_left (suc n) [] ys h = elim h [ ]
  take-append_left (suc n) (x ∷ xs) ys h = ap (λ t. x ∷ t) (take-append_left n xs ys (omega arith))

  -- The start of what is written at the start.
  pub take-splice_prefix :
      (n : ℕ) (bs xs : List A)
      → n ≤ length bs
      → length bs ≤ length xs
      → slice 0 n (splice 0 bs xs) ≡ slice 0 n bs
  take-splice_prefix n bs xs hn h =
      ap (slice 0 n) (splice-prefix bs xs h) ∙ take-append_left n bs (drop (length bs) xs) hn

  take-splice : (n s : ℕ) (bs xs : List A) → n ≤ s → take n (splice s bs xs) ≡ take n xs
  take-splice zero s bs xs h = refl
  take-splice (suc n) zero bs xs h = elim h [ ]
  take-splice (suc n) (suc s) bs [] h = refl
  take-splice (suc n) (suc s) bs (x ∷ xs) h = ap (λ t. x ∷ t) (take-splice n s bs xs (omega arith))

  -- A range below the one written is unchanged.
  pub slice-splice_below :
      (r n s : ℕ) (bs xs : List A) → r + n ≤ s → slice r n (splice s bs xs) ≡ slice r n xs
  slice-splice_below zero n s bs xs h = take-splice n s bs xs (omega arith)
  slice-splice_below (suc r) n zero bs xs h = absurd (omega arith)
  slice-splice_below (suc r) n (suc s) bs [] h = refl
  slice-splice_below (suc r) n (suc s) bs (x ∷ xs) h = slice-splice_below r n s bs xs (omega arith)

  slice-overwrite :
      (r n : ℕ) (bs xs : List A) → length bs ≤ r → slice r n (overwrite bs xs) ≡ slice r n xs
  slice-overwrite r n [] xs h = refl
  slice-overwrite zero n (b ∷ bs) xs h = elim h [ ]
  slice-overwrite (suc r) n (b ∷ bs) [] h = refl
  slice-overwrite (suc r) n (b ∷ bs) (x ∷ xs) h = slice-overwrite r n bs xs (omega arith)

  -- A range above the one written is unchanged.
  pub slice-splice_above :
      (r n s : ℕ) (bs xs : List A) → s + length bs ≤ r → slice r n (splice s bs xs) ≡ slice r n xs
  slice-splice_above r n zero bs xs h = slice-overwrite r n bs xs (omega arith)
  slice-splice_above zero n (suc s) bs xs h = absurd (omega arith)
  slice-splice_above (suc r) n (suc s) bs [] h = refl
  slice-splice_above (suc r) n (suc s) bs (x ∷ xs) h = slice-splice_above r n s bs xs (omega arith)

  take-length : (xs : List A) → take (length xs) xs ≡ xs
  take-length [] = refl
  take-length (x ∷ xs) = ap (λ t. x ∷ t) (take-length xs)

  overwrite_all : (bs xs : List A) → length bs ≡ length xs → overwrite bs xs ≡ bs
  overwrite_all [] [] h = refl
  overwrite_all [] (x ∷ xs) h = absurd (omega arith)
  overwrite_all (b ∷ bs) [] h = absurd (omega arith)
  overwrite_all (b ∷ bs) (x ∷ xs) h = ap (λ t. b ∷ t) (overwrite_all bs xs (omega arith))

  -- A whole block is read, and is replaced by as many bytes.
  pub read_at_all : (xs : List A) (n : ℕ) → n ≡ length xs → read_at xs 0 n ≡ some xs
  unfolding read_at
  read_at_all xs n h = rw h (ground (arith, take-length xs))

  take-append : (xs ys : List A) → take (length xs) (xs ++ ys) ≡ xs
  take-append [] ys = refl
  take-append (x ∷ xs) ys = ap (λ t. x ∷ t) (take-append xs ys)

  -- The start of a block is read, whatever follows it.
  pub read_at_prefix : (xs ys : List A) → read_at (xs ++ ys) 0 (length xs) ≡ some xs
  unfolding read_at
  read_at_prefix xs ys = ground (arith, take-append xs ys, length-append xs ys)

  pub write_at_all : (bs xs : List A) → length bs ≡ length xs → write_at xs 0 bs ≡ some bs
  unfolding write_at
  write_at_all bs xs h = ground (arith, overwrite_all bs xs)

  pub length-take : (n : ℕ) (xs : List A) → n ≤ length xs → length (take n xs) ≡ n
  length-take zero xs h = refl
  length-take (suc n) [] h = elim h [ ]
  length-take (suc n) (x ∷ xs) h = ap suc (length-take n xs (omega arith))

  pub length-slice : (s n : ℕ) (xs : List A) → s + n ≤ length xs → length (slice s n xs) ≡ n
  length-slice zero n xs h = length-take n xs (omega arith)
  length-slice (suc s) n [] h = absurd (omega arith)
  length-slice (suc s) n (x ∷ xs) h = length-slice s n xs (omega arith)

  -- A range of the start of a block.
  pub slice-append_left :
      (s n : ℕ) (xs ys : List A) → s + n ≤ length xs → slice s n (xs ++ ys) ≡ slice s n xs
  slice-append_left zero n xs ys h = take-append_left n xs ys (omega arith)
  slice-append_left (suc s) n [] ys h = absurd (omega arith)
  slice-append_left (suc s) n (x ∷ xs) ys h = slice-append_left s n xs ys (omega arith)
