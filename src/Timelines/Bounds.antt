-- ===== src/Timelines/Bounds.antt =====
-- src/observation.rs: how much a store keeps, and the queue of its jobs.
use text.Mathlib.Text.{◌==◌}
use troute.Prelude.{
  ℕ, ◌≤◌, ◌<◌, max, leb, ◌≡◌, refl, sym, ap, ◌∙◌, subst, inl, inr, false, not, Bool-cases,
  Option-cases, String, List, [], ◌∷◌, ◌++◌, length, length-append, arith,
}
use troute.Prelude.Loops.{All, All-append, All-retain, retain}
use troute.Timelines.{
  TimelineStore, Use, appended, cleared, get, remove, update, trim, evict, open_timeline, append,
  clear, new, run,
}
use troute.Timelines.Keys.{
  has, Distinct, keys, Distinct-retain, Distinct-snoc, keys-remove, keys-update, keys-append,
  has-get, remove_first, length-remove, length-update,
}

module _ {ℓ} {E : Type ℓ} where
  pub length-trim : (n : ℕ) (es : List E) → length (trim n es) ≤ n
  unfolding trim
  length-trim n [] = omega arith
  length-trim n (e ∷ es) = ground (arith, length-trim n es)

  -- The store keeps no more than it was made for, and its queue lists its jobs, each once.
  pub record IsBounded (s : TimelineStore E) : Type ℓ where
    pub room : 1 ≤ s.max_jobs
    pub few : length s.jobs ≤ s.max_jobs
    pub short : All (λ (j : String × List E). length j.1 ≤ s.max_entries_per_job) s.jobs
    pub queued : keys s.jobs ≡ s.job_order
    pub distinct : Distinct s.job_order

  module _ (n : ℕ) (pos : 1 ≤ n) where
    -- The evictions leave room, and the queue in step with the jobs.
    record IsEvicted (limit : ℕ) (kept : List String × List (String × List E)) : Type ℓ where
      spare : length kept.1 < n
      queued : keys kept.1 ≡ kept.0
      distinct : Distinct kept.0
      short : All (λ (j : String × List E). length j.1 ≤ limit) kept.1

    evict-IsEvicted :
        (limit : ℕ) (jobs : List (String × List E))
        → Distinct (keys jobs)
        → All (λ (j : String × List E). length j.1 ≤ limit) jobs
        → IsEvicted limit (evict n (keys jobs) jobs)
    unfolding evict
    evict-IsEvicted limit [] d h = record {
      spare = omega arith;
      queued = refl;
      distinct = tt;
      short = tt;
    }
    evict-IsEvicted limit ((k, v) ∷ jobs) d h =
        let rest = evict-IsEvicted limit jobs d.1 h.1 in
        let gone : remove k ((k, v) ∷ jobs) ≡ jobs = remove_first k v jobs d.0 in
        elim (Bool-cases (leb n (length ((k, v) ∷ jobs)))) [
          | inl full ↦
              rw (full) (subst (λ m. IsEvicted limit (evict n (keys jobs) m)) (sym gone) rest)
          | inr roomy ↦
              rw roomy (record { spare = ground arith; queued = refl; distinct = d; short = h })
        ]

  evict-has :
      (n : ℕ) (k : String) (order : List String) (jobs : List (String × List E))
      → has k order ≡ false
      → has k (evict n order jobs).0 ≡ false
  unfolding evict
  evict-has n k [] jobs h = refl
  evict-has n k (o ∷ order) jobs h = elim (Bool-cases (leb n (length jobs))) [
    | inr roomy ↦ rw roomy h
    | inl full ↦ rw full (evict-has n k order (remove o jobs) (ground arith))
  ]

  All-update :
      (k : String) (n : ℕ) (f : List E → List E) (m : List (String × List E))
      → ((es : List E) → length (f es) ≤ n)
      → All (λ (j : String × List E). length j.1 ≤ n) m
      → All (λ (j : String × List E). length j.1 ≤ n) (update k f m)
  All-update k n f [] g h = tt
  All-update k n f ((j, v) ∷ m) g h = elim (Bool-cases (j == k)) [
    | inl same ↦ rw same (g v, h.1)
    | inr other ↦ rw other (h.0, All-update k n f m g h.1)
  ]

  new-IsBounded : (max_jobs max_entries : ℕ) → IsBounded (new {E = E} max_jobs max_entries)
  unfolding new
  new-IsBounded max_jobs max_entries = record {
    room = omega arith;
    few = omega arith;
    short = tt;
    queued = refl;
    distinct = tt;
  }

  open_timeline-IsBounded :
      (job : String) {s : TimelineStore E} → IsBounded s → IsBounded (open_timeline job s)
  unfolding open_timeline
  open_timeline-IsBounded job {s} b = elim (Option-cases (get job s.jobs)) [
    | inr (es, found) ↦ rw found b
    | inl missing ↦ rw missing (
        let kept = evict s.max_jobs s.job_order s.jobs in
        let fresh : has job s.job_order ≡ false =
          subst (λ o. has job o ≡ false) b.queued (has-get job s.jobs missing) in
        let e : IsEvicted s.max_jobs b.room s.max_entries_per_job kept =
          subst (λ o. IsEvicted s.max_jobs b.room s.max_entries_per_job (evict s.max_jobs o s.jobs))
            b.queued
            (evict-IsEvicted s.max_jobs b.room s.max_entries_per_job s.jobs
              (subst Distinct (sym b.queued) b.distinct) b.short) in
        record {
          room = b.room;
          few = omega (arith, length-append kept.1 ((job, []) ∷ []), e.spare);
          short = All-append _ kept.1 ((job, []) ∷ []) e.short (omega arith, tt);
          queued = keys-append kept.1 ((job, []) ∷ []) ∙ ap (λ o. o ++ (job ∷ [])) e.queued;
          distinct =
              Distinct-snoc kept.0 job e.distinct
                (evict-has s.max_jobs job s.job_order s.jobs fresh);
        })
  ]

  append-IsBounded :
      (job : String) (entry : E) {s : TimelineStore E}
      → IsBounded s
      → IsBounded (append job entry s)
  unfolding append
  append-IsBounded job entry {s} b =
      let o = open_timeline-IsBounded job b in
      let same =
        keys-update job (λ es. trim (open_timeline job s).max_entries_per_job (es ++ (entry ∷ [])))
          (open_timeline job s).jobs in
      record {
        room = o.room;
        few =
            subst (λ k. k ≤ (open_timeline job s).max_jobs)
              (sym (length-update job _ (open_timeline job s).jobs)) o.few;
        short =
            All-update job (open_timeline job s).max_entries_per_job _ (open_timeline job s).jobs
              (λ es. length-trim (open_timeline job s).max_entries_per_job (es ++ (entry ∷ [])))
              o.short;
        queued = same ∙ o.queued;
        distinct = o.distinct;
      }

  clear-IsBounded : (job : String) {s : TimelineStore E} → IsBounded s → IsBounded (clear job s)
  unfolding clear
  clear-IsBounded job {s} b =
      let less = length-remove job s.jobs in
      let few = b.few in
      record {
        room = b.room;
        few = omega arith;
        short = All-retain _ (λ (e : String × List E). not (e.0 == job)) s.jobs b.short;
        queued = keys-remove job s.jobs ∙ ap (retain (λ j. not (j == job))) b.queued;
        distinct = Distinct-retain (λ j. not (j == job)) s.job_order b.distinct;
      }

  run_from-IsBounded :
      (uses : List (Use E)) {s : TimelineStore E} → IsBounded s → IsBounded (run uses s)
  unfolding run
  run_from-IsBounded [] b = b
  run_from-IsBounded (appended job entry ∷ uses) b =
      run_from-IsBounded uses (append-IsBounded job entry b)
  run_from-IsBounded (cleared job ∷ uses) b = run_from-IsBounded uses (clear-IsBounded job b)

  run_limits :
      (uses : List (Use E)) (s : TimelineStore E)
      → ((run uses s).max_jobs ≡ s.max_jobs)
        × ((run uses s).max_entries_per_job ≡ s.max_entries_per_job)
  unfolding run append clear open_timeline
  run_limits [] s = (refl, refl)
  run_limits (appended job entry ∷ uses) s =
      let rest = run_limits uses (append job entry s) in ground arith
  run_limits (cleared job ∷ uses) s = let rest = run_limits uses (clear job s) in ground arith

  -- Whatever is appended to a new store and cleared, in any order: it keeps at most as many jobs and
  -- entries of each as it was made for (or one, where that was zero), and its queue lists its jobs,
  -- each once.
  pub run-IsBounded :
      (max_jobs max_entries : ℕ) (uses : List (Use E))
      → IsBounded (run uses (new max_jobs max_entries))
        × ((run uses (new {E = E} max_jobs max_entries)).max_jobs ≡ max max_jobs 1)
        × ((run uses (new {E = E} max_jobs max_entries)).max_entries_per_job ≡ max max_entries 1)
  unfolding new
  run-IsBounded max_jobs max_entries uses =
      let (a, b) = run_limits uses (new {E = E} max_jobs max_entries) in
      (run_from-IsBounded uses (new-IsBounded max_jobs max_entries), a, b)
