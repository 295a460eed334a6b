-- ===== src/StackEffect/Insertion.antt =====
-- What is left of a list's two ends when an entry is inserted.
use Prim.Native.Nat.add
use tails.Prelude.{
  ℕ, zero, suc, ◌+◌, ◌≤◌, ◌≡◌, refl, ap, List, [], ◌∷◌, ◌++◌, arith, length, take, drop,
  length-append, length-take, length-drop,
}

module _ {A : Type 0} where
  pub take_all : (xs : List A) (n : ℕ) → length xs ≤ n → take n xs ≡ xs
  take_all [] zero h = refl
  take_all [] (suc n) h = refl
  take_all (x ∷ xs) zero h = absurd (omega arith)
  take_all (x ∷ xs) (suc n) h = ap (λ l. x ∷ l) (take_all xs n (omega arith))

  pub take-append_left : (xs ys : List A) → take (length xs) (xs ++ ys) ≡ xs
  take-append_left [] ys = refl
  take-append_left (x ∷ xs) ys = ap (λ l. x ∷ l) (take-append_left xs ys)

  pub drop-append_left : (xs ys : List A) → drop (length xs) (xs ++ ys) ≡ ys
  drop-append_left [] ys = refl
  drop-append_left (x ∷ xs) ys = drop-append_left xs ys

  -- An entry put in at `i` ends the part before `suc i` and leaves the part behind it.
  pub take-insert :
      (i : ℕ) (xs : List A) (a : A)
      → i ≤ length xs
      → take (suc i) (take i xs ++ a ∷ drop i xs) ≡ take i xs ++ a ∷ []
  take-insert zero xs a h = refl
  take-insert (suc i) [] a h = absurd (omega arith)
  take-insert (suc i) (x ∷ xs) a h = ap (λ l. x ∷ l) (take-insert i xs a (omega arith))

  pub drop-insert :
      (i : ℕ) (xs : List A) (a : A)
      → i ≤ length xs
      → drop (suc i) (take i xs ++ a ∷ drop i xs) ≡ drop i xs
  drop-insert zero xs a h = refl
  drop-insert (suc i) [] a h = absurd (omega arith)
  drop-insert (suc i) (x ∷ xs) a h = drop-insert i xs a (omega arith)

  pub take-insert_self :
      (i : ℕ) (xs : List A) (a : A)
      → i ≤ length xs
      → take i (take i xs ++ a ∷ drop i xs) ≡ take i xs
  take-insert_self zero xs a h = refl
  take-insert_self (suc i) [] a h = absurd (omega arith)
  take-insert_self (suc i) (x ∷ xs) a h = ap (λ l. x ∷ l) (take-insert_self i xs a (omega arith))

  pub drop-insert_self :
      (i : ℕ) (xs : List A) (a : A)
      → i ≤ length xs
      → drop i (take i xs ++ a ∷ drop i xs) ≡ a ∷ drop i xs
  drop-insert_self zero xs a h = refl
  drop-insert_self (suc i) [] a h = absurd (omega arith)
  drop-insert_self (suc i) (x ∷ xs) a h = drop-insert_self i xs a (omega arith)

  -- The part before `i` does not see an entry that is put in `j` places further on.
  pub take-insert_before :
      (i j : ℕ) (xs : List A) (a : A)
      → i ≤ length xs
      → take i (take (i + j) xs ++ a ∷ drop (i + j) xs) ≡ take i xs
  take-insert_before zero j xs a h = refl
  take-insert_before (suc i) j [] a h = absurd (omega arith)
  take-insert_before (suc i) j (x ∷ xs) a h =
      rw add.suc (ap (λ l. x ∷ l) (take-insert_before i j xs a (omega arith)))

  pub drop-insert_before :
      (i j : ℕ) (xs : List A) (a : A)
      → i ≤ length xs
      → drop i (take (i + j) xs ++ a ∷ drop (i + j) xs)
        ≡ take j (drop i xs) ++ a ∷ drop j (drop i xs)
  drop-insert_before zero j xs a h = rw add.zero
  drop-insert_before (suc i) j [] a h = absurd (omega arith)
  drop-insert_before (suc i) j (x ∷ xs) a h = rw add.suc (drop-insert_before i j xs a (omega arith))

  pub length-insert :
      (i : ℕ) (xs : List A) (a : A) → length (take i xs ++ a ∷ drop i xs) ≡ suc (length xs)
  length-insert i xs a =
      omega (arith, length-append (take i xs) (a ∷ drop i xs), length-take i xs, length-drop i xs)
