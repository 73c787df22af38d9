-- ===== src/Shared/Dir.antt =====
-- shared/directory/dir.cpp: the entries of a directory, by relative path. The mutex makes each
-- method atomic, so a method is one step. An `unordered_map` lists its entries in an order that is
-- not specified; the order of the list stands for it.
pub mod Entries
use remote_backup_m.Prelude.{
  ℕ, Bool, true, false, not, ◌&&◌, List, [], ◌∷◌, Option, none, some, Eq, ◌=?◌, if◌then◌else◌,
}

abbrev pub is_some {ℓ} : {A : Type ℓ} → Option A → Bool
is_some none = false
is_some (some a) = true

pub record Dir (K R : Type 0) : Type 0 where
  pub path : K
  pub content : List (K × R)
  pub concurrent_accessed : Bool

module _ {K R : Type 0} where
  unfoldable pub get_instance : K → Bool → Dir K R
  get_instance path concurrent = record {
    path = path;
    content = [];
    concurrent_accessed = concurrent;
  }

module _ {K R : Type 0} ⦃e : Eq K⦄ where
  unfoldable pub find : K → List (K × R) → Option R
  find k [] = none
  find k ((j, r) ∷ m) = if j =? k then some r else find k m

  unfoldable pub put : K → R → List (K × R) → List (K × R)
  put k r [] = (k, r) ∷ []
  put k r ((j, s) ∷ m) = if j =? k then (j, r) ∷ m else (j, s) ∷ put k r m

  unfoldable pub without : K → List (K × R) → List (K × R)
  without k [] = []
  without k ((j, s) ∷ m) = if j =? k then m else (j, s) ∷ without k m

  unfoldable pub rsrc : K → Dir K R → Option R
  unfolding find
  rsrc k d = find k d.content

  unfoldable pub contains : K → Dir K R → Bool
  unfolding find
  contains k d = is_some (find k d.content)

  -- True where an entry was inserted, false where one was assigned.
  unfoldable pub insert_or_assign : K → R → Dir K R → Dir K R × Bool
  unfolding put contains
  insert_or_assign k r d = (record d { content = put k r d.content }, not (contains k d))

  -- True where an entry was erased.
  unfoldable pub erase : K → Dir K R → Dir K R × Bool
  unfolding without contains
  erase k d = (record d { content = without k d.content }, contains k d)

  abbrev pub each {ℓ} : {S : Type ℓ} → (K × R → S → S) → List (K × R) → S → S
  each fn [] s = s
  each fn (p ∷ m) s = each fn m (fn p s)

  -- For a function with a state.
  unfoldable pub for_each {ℓ} : {S : Type ℓ} → (K × R → S → S) → Dir K R → S → S
  for_each fn d = each fn d.content

  unfoldable pub clear : Dir K R → Dir K R
  clear d = record d { content = [] }
