-- ===== src/Shared/Tools/Sign.antt =====
-- A sign is split into the path and the digest that it was made of.
use remote_backup_m.Prelude.{
  ◌≤◌, ◌≡◌, ◌≢◌, refl, [], ◌∷◌, ◌++◌, Bytes, All, length, none, some, ok, err, runtime_error, arith,
}
use remote_backup_m.Shared.Platform.{Platform}
use remote_backup_m.Shared.Tools.{sign_regex, create_sign, split_sign}

-- What the code relies on of `regex_match` with this pattern, in which `.` stands for any byte: a
-- match is a split at a zero byte, one is found where there is one, the first group is as long as
-- can be, and a text with no zero byte does not match.
pub record IsGreedy (P : Platform) : Type 0 where
  pub found :
      (a b : Bytes)
      → (a' : Bytes) × (b' : Bytes) × (P.regex_match sign_regex (a ++ (0 ∷ b))
          ≡ some (a' ∷ b' ∷ []))
        × (a ++ (0 ∷ b) ≡ a' ++ (0 ∷ b'))
        × (length a ≤ length a')
  pub absent : (s : Bytes) → ((a b : Bytes) → s ≢ a ++ (0 ∷ b)) → P.regex_match sign_regex s ≡ none

abbrev pub NoZero : Bytes → Type 0
NoZero = All (λ c. c ≢ 0)

pub NoZero-append : (a b : Bytes) → ¬ NoZero (a ++ (0 ∷ b))
NoZero-append [] b h = h.0 refl
NoZero-append (x ∷ a) b h = NoZero-append a b h.1

split_unique :
    (a b a' b' : Bytes)
    → NoZero b
    → a ++ (0 ∷ b) ≡ a' ++ (0 ∷ b')
    → length a ≤ length a'
    → (a ≡ a') × (b ≡ b')
split_unique [] b [] b' z e h = (refl, cc)
split_unique [] b (x ∷ a') b' z e h =
    let p : b ≡ a' ++ (0 ∷ b') = cc in absurd (NoZero-append a' b' (rw p at z))
split_unique (x ∷ a) b [] b' z e h = absurd (omega arith)
split_unique (x ∷ a) b (y ∷ a') b' z e h =
    let p : a ++ (0 ∷ b) ≡ a' ++ (0 ∷ b') = cc in
    let q : x ≡ y = cc in
    let r = split_unique a b a' b' z p (omega arith) in ((λ i. q i ∷ r.0 i), r.1)

-- Where the regular expression matches greedily, the sign of a path and of a digest without zero
-- bytes is split into both again, also where the path's text has zero bytes.
pub split_sign-create_sign :
    (P : Platform) (p : P.FsPath) (digest : Bytes)
    → IsGreedy P
    → NoZero digest
    → split_sign P (create_sign P p digest) ≡ ok (P.path (P.string p), digest)
unfolding split_sign create_sign
split_sign-create_sign P p digest G z =
    let (a, b, matches, e, longest) = G.found (P.string p) digest in
    let (pa, pb) = split_unique (P.string p) digest a b z e longest in ground arith

-- Where the regular expression matches only texts with a zero byte, splitting a sign without one
-- ends in a std::runtime_error.
pub split_sign-NoZero :
    (P : Platform) (sign : Bytes) → IsGreedy P → NoZero sign → split_sign P sign ≡ err runtime_error
unfolding split_sign
split_sign-NoZero P sign G z =
    let none_found = G.absent sign (λ a b e. NoZero-append a b (rw e at z)) in ground arith
