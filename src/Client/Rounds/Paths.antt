-- ===== src/Client/Rounds/Paths.antt =====
-- Lists of paths.
use remote_backup_m.Prelude.{
  ◌≡◌, sym, Bool, true, false, List, [], ◌∷◌, ◌++◌, Eq, ◌=?◌, Bool-cases, inl, inr,
}

module _ {K : Type 0} ⦃e : Eq K⦄ where
  abbrev pub NotIn : K → List K → Type 0
  NotIn k [] = Unit {0}
  NotIn k (j ∷ js) = ((k =? j) ≡ false) × NotIn k js

  abbrev pub Distinct : List K → Type 0
  Distinct [] = Unit {0}
  Distinct (k ∷ ks) = NotIn k ks × Distinct ks

  -- No path of the first list is in the second.
  abbrev pub Apart : List K → List K → Type 0
  Apart [] ys = Unit {0}
  Apart (x ∷ xs) ys = NotIn x ys × Apart xs ys

  pub differ : (k j : K) → ((k ≡ j) → ⊥) → (k =? j) ≡ false
  differ k j n = elim (Bool-cases (k =? j)) [ inl b ↦ absurd (n ((e.beq_iff k j).0 b)) | inr b ↦ b ]

  pub differ_sym : (k j : K) → (k =? j) ≡ false → (j =? k) ≡ false
  differ_sym k j h = differ j k λ p. not_both (k =? j) ((e.beq_iff k j).1 (sym p)) h
    where
      not_both : (b : Bool) → b ≡ true → b ≡ false → ⊥
      not_both b p q = cc

  pub NotIn-append : (k : K) (xs ys : List K) → NotIn k xs → NotIn k ys → NotIn k (xs ++ ys)
  NotIn-append k [] ys a b = b
  NotIn-append k (x ∷ xs) ys (n, a) b = (n, NotIn-append k xs ys a b)

  pub Distinct-append :
      (xs ys : List K) → Distinct xs → Distinct ys → Apart xs ys → Distinct (xs ++ ys)
  Distinct-append [] ys a b c = b
  Distinct-append (x ∷ xs) ys (n, a) b (m, c) =
      (NotIn-append x xs ys n m, Distinct-append xs ys a b c)

  NotIn-middle :
      (k y : K) (xs ys : List K)
      → NotIn k (xs ++ (y ∷ ys))
      → ((k =? y) ≡ false) × NotIn k (xs ++ ys)
  NotIn-middle k y [] ys (n, a) = (n, a)
  NotIn-middle k y (x ∷ xs) ys (n, a) = let (m, b) = NotIn-middle k y xs ys a in (m, (n, b))

  -- One path of a list is taken out.
  pub Distinct-middle :
      (y : K) (xs ys : List K)
      → Distinct (xs ++ (y ∷ ys))
      → NotIn y (xs ++ ys) × Distinct (xs ++ ys)
  Distinct-middle y [] ys (n, a) = (n, a)
  Distinct-middle y (x ∷ xs) ys (n, a) =
      let (m, b) = Distinct-middle y xs ys a in
      let (o, q) = NotIn-middle x y xs ys n in ((differ_sym x y o, m), (q, b))

  pub NotIn-left : (k : K) (xs ys : List K) → NotIn k (xs ++ ys) → NotIn k xs
  NotIn-left k [] ys h = tt
  NotIn-left k (x ∷ xs) ys (n, h) = (n, NotIn-left k xs ys h)
