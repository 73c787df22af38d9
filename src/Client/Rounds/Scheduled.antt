-- ===== src/Client/Rounds/Scheduled.antt =====
-- The tasks that `sync` schedules: one at most for each path.
use remote_backup_m.Prelude.{
  ◌≡◌, refl, sym, ◌∙◌, Bool, true, false, List, [], ◌∷◌, Bytes, Option, none, some, Eq, ◌=?◌,
  bytes_eq, Bool-cases, inl, inr, if◌then◌else◌, subst,
}
use remote_backup_m.Shared.Platform.{Platform}
use remote_backup_m.Shared.Dir.Entries.{beq_refl}
use remote_backup_m.Client.Resource.{CResource}
use remote_backup_m.Client.Tasks.{Task}
use remote_backup_m.Client.Watcher.Pending.{path_of}
use remote_backup_m.Client.Sync.Compared.{tasks_for}
use remote_backup_m.Client.Sync.Decided.{scheduled}
use remote_backup_m.Client.Rounds.Paths.{NotIn, Distinct, differ_sym}
use remote_backup_m.Client.Rounds.Passed.{paths}

abbrev pub AtMostOne : {A : Type 0} → List A → Type 0
AtMostOne [] = Unit {0}
AtMostOne (x ∷ []) = Unit {0}
AtMostOne (x ∷ y ∷ xs) = ⊥

-- The rest of a list with one element at most is empty.
AtMostOne-cons : {A : Type 0} (x : A) (xs : List A) → AtMostOne (x ∷ xs) → xs ≡ []
AtMostOne-cons x [] h = refl
AtMostOne-cons x (y ∷ xs) h = absurd h

AtMostOne-if :
    {A : Type 0} (b : Bool) (x : A) (xs : List A)
    → AtMostOne (if b then x ∷ xs else xs)
    → AtMostOne xs
AtMostOne-if true x [] h = tt
AtMostOne-if true x (y ∷ xs) h = absurd h
AtMostOne-if false x xs h = h

module _ (P : Platform) ⦃e : Eq P.FsPath⦄ where
  tasks_for-NotIn :
      (k : P.FsPath) (ts : List (Task P.FsPath)) → tasks_for P k ts ≡ [] → NotIn k (paths P ts)
  unfolding tasks_for
  tasks_for-NotIn k [] h = tt
  tasks_for-NotIn k (t ∷ ts) h = elim (Bool-cases (path_of P t =? k)) [
    | inl b ↦ absurd (full (sym (rw b) ∙ h))
    | inr b ↦ (differ_sym (path_of P t) k b, tasks_for-NotIn k ts (sym (rw b) ∙ h))
  ]
    where
      full : t ∷ tasks_for P k ts ≡ [] → ⊥
      full p = cc

  pub tasks_for-Distinct :
      (ts : List (Task P.FsPath))
      → ((k : P.FsPath) → AtMostOne (tasks_for P k ts))
      → Distinct (paths P ts)
  unfolding tasks_for
  tasks_for-Distinct [] h = tt
  tasks_for-Distinct (t ∷ ts) h =
      let k = path_of P t in
      let same : (k =? k) ≡ true = beq_refl k in
      (
        tasks_for-NotIn k ts (
            AtMostOne-cons t (tasks_for P k ts) (
              subst (λ b. AtMostOne (if b then t ∷ tasks_for P k ts else tasks_for P k ts)) same
                (h k))),
        tasks_for-Distinct ts λ j. AtMostOne-if (path_of P t =? j) t (tasks_for P j ts) (h j),
      )

  pub scheduled-AtMostOne :
      (k : P.FsPath) (x : Option Bytes) (r : Option CResource) → AtMostOne (scheduled P k x r)
  scheduled-AtMostOne k none none = tt
  scheduled-AtMostOne k none (some r) = tt
  scheduled-AtMostOne k (some x) none = tt
  scheduled-AtMostOne k (some x) (some r) = elim (Bool-cases (r.digest =? x)) [
    | inl b ↦ rw b tt
    | inr b ↦ rw b tt
  ]
