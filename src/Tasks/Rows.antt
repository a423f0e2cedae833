-- ===== src/Tasks/Rows.antt =====
-- Rows that a statement finds, counts and updates.
use gin_bear.Base.{
  ◌≡◌, refl, Bool, true, false, Bool-cases, inl, inr, some, List, [], ◌∷◌, ◌++◌, arith, any, All,
  eqb,
}
use gin_bear.Tasks.Sql.{find, count, update}

module _ {ℓ κ} {A : Type ℓ} (Q : A → Type κ) (p : A → Bool) where
  pub All-update :
      (f : A → A) (xs : List A)
      → ((x : A) → Q x → p x ≡ true → Q (f x))
      → All Q xs
      → All Q (update p f xs)
  All-update f [] keep h = tt
  All-update f (x ∷ xs) keep (h, hs) = elim (Bool-cases (p x)) [
    | inl hit ↦ rw hit (keep x h hit, All-update f xs keep hs)
    | inr miss ↦ rw miss (h, All-update f xs keep hs)
  ]

  pub All-find : (xs : List A) {x : A} → find p xs ≡ some x → All Q xs → Q x × (p x ≡ true)
  All-find [] e h = absurd (cc)
  All-find (y ∷ ys) {x} e (h, hs) = elim (Bool-cases (p y)) [
    | inl hit ↦ let same : y ≡ x = ground arith in rw (← same) (h, hit)
    | inr miss ↦ All-find ys (ground arith) hs
  ]

module _ {ℓ} {A : Type ℓ} (p : A → Bool) where
  pub find-fits : (xs : List A) {x : A} → find p xs ≡ some x → p x ≡ true
  find-fits [] e = absurd (cc)
  find-fits (y ∷ ys) {x} e = elim (Bool-cases (p y)) [
    | inl hit ↦ let same : y ≡ x = ground arith in rw (← same) hit
    | inr miss ↦ find-fits ys (ground arith)
  ]

  -- A row is affected only if one fits.
  pub find_of_count : (xs : List A) → eqb (count p xs) 1 ≡ true → (x : A) × (find p xs ≡ some x)
  find_of_count [] e = absurd (cc)
  find_of_count (x ∷ xs) e = elim (Bool-cases (p x)) [
    | inl hit ↦ (x, rw hit)
    | inr miss ↦ let (y, found) = find_of_count xs (ground arith) in (y, rw miss found)
  ]

  pub any-update :
      (q : A → Bool) (f : A → A) (xs : List A)
      → ((x : A) → p (f x) ≡ p x)
      → any p (update q f xs) ≡ any p xs
  any-update q f [] same = refl
  any-update q f (x ∷ xs) same = elim (Bool-cases (q x)) [
    | inl hit ↦ rw (hit, same x, any-update q f xs same)
    | inr miss ↦ rw (miss, any-update q f xs same)
  ]

  -- Nothing is written where no row fits.
  pub update-miss : (f : A → A) (xs : List A) → any p xs ≡ false → update p f xs ≡ xs
  update-miss f [] h = refl
  update-miss f (x ∷ xs) h = elim (Bool-cases (p x)) [
    | inl hit ↦ absurd (ground arith)
    | inr miss ↦ rw (miss, update-miss f xs (ground arith))
  ]

  pub count-miss : (xs : List A) → any p xs ≡ false → count p xs ≡ 0
  count-miss [] h = refl
  count-miss (x ∷ xs) h = ground (arith, count-miss xs)

module _ {ℓ κ} {A : Type ℓ} (Q : A → Type κ) where
  pub All-append : (xs ys : List A) → All Q xs → All Q ys → All Q (xs ++ ys)
  All-append [] ys h k = k
  All-append (x ∷ xs) ys (h, hs) k = (h, All-append xs ys hs k)

  pub All-any :
      (p : A → Bool) (xs : List A) → ((x : A) → Q x → p x ≡ false) → All Q xs → any p xs ≡ false
  All-any p [] miss h = refl
  All-any p (x ∷ xs) miss (h, hs) = rw (miss x h, All-any p xs miss hs)
