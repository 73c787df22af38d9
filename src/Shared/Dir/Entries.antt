-- ===== src/Shared/Dir/Entries.antt =====
-- What the methods do to the entry of each path.
use remote_backup_m.Prelude.{
  ◌≡◌, refl, true, false, not, List, [], ◌∷◌, none, some, Eq, ◌=?◌, arith, if◌then◌else◌,
}
use remote_backup_m.Shared.Dir.{
  Dir, find, put, without, rsrc, contains, is_some, insert_or_assign, erase,
}

pub beq_refl {ℓ} : {K : Type ℓ} ⦃e : Eq K⦄ (k : K) → (k =? k) ≡ true
beq_refl ⦃e⦄ k = (e.beq_iff k k).1 refl

module _ {K R : Type 0} ⦃e : Eq K⦄ where
  -- No path has two entries.
  abbrev pub NodupKeys : List (K × R) → Type 0
  NodupKeys [] = Unit {0}
  NodupKeys ((j, r) ∷ m) = (find j m ≡ none) × NodupKeys m

  find-nil : (k : K) → find {R = R} k [] ≡ none
  unfolding find
  find-nil k = refl

  pub find-put :
      (k j : K) (r : R) (m : List (K × R))
      → find j (put k r m) ≡ (if k =? j then some r else find j m)
  unfolding find put
  find-put k j r [] = refl
  find-put k j r ((i, s) ∷ m) =
      ground (arith, e.beq_iff k j, e.beq_iff i k, e.beq_iff i j, find-put k j r m)

  pub find-without :
      (k j : K) (m : List (K × R))
      → NodupKeys m
      → find j (without k m) ≡ (if k =? j then none else find j m)
  unfolding find without
  find-without k j [] u = ground arith
  find-without k j ((i, s) ∷ m) u =
      ground (arith, e.beq_iff k j, e.beq_iff i k, e.beq_iff i j, find-without k j m u.1, u.0)

  -- An entry for another key, also where a key has several.
  pub find-without_other :
      (k j : K) (m : List (K × R)) → (k =? j) ≡ false → find j (without k m) ≡ find j m
  unfolding find without
  find-without_other k j [] h = refl
  find-without_other k j ((i, s) ∷ m) h =
      ground (arith, e.beq_iff k j, e.beq_iff i k, e.beq_iff i j, find-without_other k j m h)

  pub put-NodupKeys : (k : K) (r : R) (m : List (K × R)) → NodupKeys m → NodupKeys (put k r m)
  unfolding put
  put-NodupKeys k r [] u = (find-nil k, tt)
  put-NodupKeys k r ((i, s) ∷ m) u =
      ground (arith, put-NodupKeys k r m u.1, find-put k i r m, e.beq_iff k i, e.beq_iff i k)

  pub without-NodupKeys : (k : K) (m : List (K × R)) → NodupKeys m → NodupKeys (without k m)
  unfolding without
  without-NodupKeys k [] u = tt
  without-NodupKeys k ((i, s) ∷ m) u =
      ground (arith, without-NodupKeys k m u.1, find-without k i m u.1)

  -- On a directory in which no path has two entries, `insert_or_assign` makes the resource the entry
  -- of its path, leaves the entry of every other path as it was, returns whether there was none
  -- before, and keeps the paths distinct.
  pub insert_or_assign_lem :
      (k j : K) (r : R) (d : Dir K R)
      → NodupKeys d.content
      → (rsrc j (insert_or_assign k r d).0 ≡ (if k =? j then some r else rsrc j d))
        × ((insert_or_assign k r d).1 ≡ not (contains k d))
        × NodupKeys (insert_or_assign k r d).0.content
  unfolding insert_or_assign rsrc
  insert_or_assign_lem k j r d u = (find-put k j r d.content, refl, put-NodupKeys k r d.content u)

  -- On a directory in which no path has two entries, `erase` leaves a path without an entry and every
  -- other path with the one that it had, returns whether there was one, and keeps the paths distinct.
  pub erase_lem :
      (k j : K) (d : Dir K R)
      → NodupKeys d.content
      → (rsrc j (erase k d).0 ≡ (if k =? j then none else rsrc j d))
        × ((erase k d).1 ≡ is_some (rsrc k d))
        × NodupKeys (erase k d).0.content
  unfolding erase rsrc
  erase_lem k j d u = (find-without k j d.content u, refl, without-NodupKeys k d.content u)
