-- ===== src/Tests/Greedy.antt =====
-- The toy platform's `regex_match` is as greedy as the pattern's first group has to be.
use remote_backup_m.Prelude.{
  ◌≤◌, ◌≡◌, inl, inr, refl, ◌==◌, [], ◌∷◌, ◌++◌, Bytes, length, none, some, arith, Bool-cases,
}
use remote_backup_m.Shared.Tools.Sign.{IsGreedy, NoZero, NoZero-append}
use remote_backup_m.Tests.Toy.{toy, last_zero}

-- The text has no zero byte, or it is split at its last one.
data Splits (s : Bytes) : Type 0 where
  nowhere : last_zero s ≡ none → NoZero s → Splits s
  somewhere :
      (a b : Bytes) → last_zero s ≡ some (a ∷ b ∷ []) → s ≡ a ++ (0 ∷ b) → NoZero b → Splits s

last_zero-Splits : (s : Bytes) → Splits s
last_zero-Splits [] = nowhere refl tt
last_zero-Splits (c ∷ cs) = elim (last_zero-Splits cs) [
  | somewhere a b e p z ↦ somewhere (c ∷ a) b (rw e) (λ i. c ∷ p i) z
  | nowhere e z ↦ elim (Bool-cases (c == 0)) [
    | inl zero_byte ↦
        let q : c ≡ 0 = ground arith in somewhere [] cs (rw (e, zero_byte)) (λ i. q i ∷ cs) z
    | inr other ↦ nowhere (rw (e, other)) (ground arith, z)
  ]
]

last-longest :
    (a b a' b' : Bytes) → a ++ (0 ∷ b) ≡ a' ++ (0 ∷ b') → NoZero b' → length a ≤ length a'
last-longest [] b a' b' e z = omega arith
last-longest (x ∷ a) b [] b' e z =
    let p : a ++ (0 ∷ b) ≡ b' = cc in absurd (NoZero-append a b (rw (← p) at z))
last-longest (x ∷ a) b (y ∷ a') b' e z =
    let p : a ++ (0 ∷ b) ≡ a' ++ (0 ∷ b') = cc in omega (arith, last-longest a b a' b' p z)

pub toy-IsGreedy : IsGreedy toy
toy-IsGreedy = record {
  found = λ a b. elim (last_zero-Splits (a ++ (0 ∷ b))) [
    | nowhere e z ↦ absurd (NoZero-append a b z)
    | somewhere a' b' e p z ↦ (a', b', e, p, last-longest a b a' b' p z)
  ];
  absent =
      λ s h. elim (last_zero-Splits s) [ nowhere e z ↦ e | somewhere a b e p z ↦ absurd (h a b p) ];
}
