-- ===== src/Jobs/Invariant.antt =====
-- src/storage.rs: the invariant of the directories of a store, and the change of one directory.
use troute.Prelude.{
  ℕ, ◌≤◌, Bool, true, false, not, Option, none, some, Bool-cases, List, [], ◌∷◌, ◌≡◌, ◌⊎◌, inl, inr,
  refl, ap₂, subst, sym, arith,
}
use troute.Prelude.Options.{is_some}
use troute.Jobs.{JobStatus, is_active, JobState, StoredJobError}
use troute.Jobs.Store.{
  JobDirectory, FileJobStore, bytes_eq, find_directory, put_directory, job_dir, or_empty,
}

-- A completed job has a result and is at 100, a failed one has an error.
abbrev pub Evidence : JobStatus → ℕ → Option (List ℕ) → Option StoredJobError → Type 0
Evidence JobStatus.pending progress result error = progress ≤ 100
Evidence JobStatus.running progress result error = progress ≤ 100
Evidence JobStatus.completed progress result error = (is_some result ≡ true) × (progress ≡ 100)
Evidence JobStatus.failed progress result error = (is_some error ≡ true) × (progress ≤ 100)
Evidence JobStatus.cancelled progress result error = progress ≤ 100

-- A directory bears the name of the job in it, and the job has what its status tells of.
abbrev pub GoodState : List ℕ → Option JobState → Option (List ℕ) → Option StoredJobError → Type 0
GoodState name none result error = Unit
GoodState name (some state) result error =
    (job_dir state.job_id ≡ name) × Evidence state.status state.progress result error

abbrev pub Good : List ℕ → JobDirectory → Type 0
Good name d = GoodState name d.state d.result d.error

abbrev pub AllGood : List (List ℕ × JobDirectory) → Type 0
AllGood [] = Unit
AllGood (entry ∷ entries) = Good entry.0 entry.1 × AllGood entries

-- The state that the store has under a name.
abbrev pub state_of : List (List ℕ × JobDirectory) → List ℕ → Option JobState
state_of entries name = (or_empty (find_directory entries name)).state

bytes_eq-eq : (xs ys : List ℕ) → bytes_eq xs ys ≡ true → xs ≡ ys
bytes_eq-eq [] [] h = refl
bytes_eq-eq [] (y ∷ ys) h = ground arith
bytes_eq-eq (x ∷ xs) [] h = ground arith
bytes_eq-eq (x ∷ xs) (y ∷ ys) h =
    ap₂ (λ b bs. b ∷ bs) (ground arith) (bytes_eq-eq xs ys (ground arith))

bytes_eq_refl : (xs : List ℕ) → bytes_eq xs xs ≡ true
bytes_eq_refl [] = refl
bytes_eq_refl (x ∷ xs) = ground (arith, bytes_eq_refl xs)

pub find-put_self :
    (entries : List (List ℕ × JobDirectory)) (name : List ℕ) (d : JobDirectory)
    → find_directory (put_directory entries name d) name ≡ some d
unfolding find_directory put_directory
find-put_self [] name d = ground (arith, bytes_eq_refl name)
find-put_self (entry ∷ entries) name d = ground (arith, find-put_self entries name d)

find-put_other :
    (entries : List (List ℕ × JobDirectory)) (name other : List ℕ) (d : JobDirectory)
    → bytes_eq name other ≡ false
    → find_directory (put_directory entries name d) other ≡ find_directory entries other
unfolding find_directory put_directory
find-put_other [] name other d h = ground arith
find-put_other (entry ∷ entries) name other d h =
    ground (arith, find-put_other entries name other d h, bytes_eq-eq entry.0 name)

pub AllGood-put :
    (entries : List (List ℕ × JobDirectory)) (name : List ℕ) (d : JobDirectory)
    → AllGood entries
    → Good name d
    → AllGood (put_directory entries name d)
unfolding put_directory
AllGood-put [] name d h g = (g, tt)
AllGood-put (entry ∷ entries) name d h g = elim (Bool-cases (bytes_eq entry.0 name)) [
  | inl e ↦ rw e (subst (λ n. Good n d) (sym (bytes_eq-eq entry.0 name e)) g, h.1)
  | inr e ↦ rw e (h.0, AllGood-put entries name d h.1 g)
]

pub Good-find :
    (entries : List (List ℕ × JobDirectory)) (name : List ℕ)
    → AllGood entries
    → Good name (or_empty (find_directory entries name))
unfolding find_directory or_empty
Good-find [] name h = tt
Good-find (entry ∷ entries) name h = elim (Bool-cases (bytes_eq entry.0 name)) [
  | inl e ↦ rw e (subst (λ n. Good n entry.1) (bytes_eq-eq entry.0 name e) h.0)
  | inr e ↦ rw e (Good-find entries name h.1)
]

-- Whether there is a job that is over.
abbrev pub finished : Option JobState → Bool
finished none = false
finished (some state) = not (is_active state.status)

-- A state that is kept: with `some (name, state)`, the state under that name, which is of a job
-- that is over. With none, nothing is asked.
abbrev pub Kept : Option (List ℕ × JobState) → List (List ℕ × JobDirectory) → Type 0
Kept none entries = Unit
Kept (some (name, state)) entries =
    (is_active state.status ≡ false) × (state_of entries name ≡ some state)

abbrev pub Invariant : Option (List ℕ × JobState) → FileJobStore → Type 0
Invariant kept store = AllGood store.directories × Kept kept store.directories

-- A change of a directory that leaves its state, or finds no job that is over.
abbrev pub Leaves : JobDirectory → JobDirectory → Type 0
Leaves d d' = (d'.state ≡ d.state) ⊎ (finished d.state ≡ false)

pub Kept-put :
    (kept : Option (List ℕ × JobState)) (entries : List (List ℕ × JobDirectory)) (name : List ℕ)
    (d : JobDirectory)
    → Kept kept entries
    → Leaves (or_empty (find_directory entries name)) d
    → Kept kept (put_directory entries name d)
unfolding or_empty is_active
Kept-put none entries name d k l = tt
Kept-put (some (other, state)) entries name d k l = elim (Bool-cases (bytes_eq name other)) [
  | inl e ↦ ground (arith, bytes_eq-eq name other e, find-put_self entries name d)
  | inr e ↦ ground (arith, find-put_other entries name other d e)
]
