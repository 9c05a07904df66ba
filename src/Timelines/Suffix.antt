-- ===== src/Timelines/Suffix.antt =====
-- src/observation.rs: what the timeline of a job shows of the entries that were appended to it.
use text.Mathlib.Text.{◌==◌}
use text.Mathlib.TextEquality.{eq_iff}
use troute.Prelude.{
  ℕ, ◌+◌, ◌<◌, min, length-append, ◌≡◌, ◌⊎◌, refl, sym, ap, ◌∙◌, subst, inl, inr, true, false, leb,
  ltb, Bool-cases, Option-cases, if◌then◌else◌, String, none, some, List, [], ◌∷◌, ◌++◌, length,
  arith,
}
use mathlib.Core.List.{append_assoc}
use troute.Timelines.{
  TimelineStore, Use, appended, cleared, get, remove, update, trim, or_empty, evict, open_timeline,
  append, list, clear, new, run,
}

module _ {ℓ} {V : Type ℓ} where
  get-remove :
      (k j : String) (m : List (String × V))
      → get k (remove j m) ≡ (if j == k then none else get k m)
  get-remove k j [] = elim (Bool-cases (j == k)) [ inl e ↦ rw e refl | inr e ↦ rw e refl ]
  get-remove k j ((i, v) ∷ m) = ground (arith, eq_iff i j, eq_iff j k, eq_iff i k, get-remove k j m)

  get-update :
      (k j : String) (f : V → V) (m : List (String × V)) {v : V}
      → get k m ≡ some v
      → get k (update j f m) ≡ some (if j == k then f v else v)
  get-update k j f [] h = cc
  get-update k j f ((i, w) ∷ m) {v} h =
      ground (arith, eq_iff i j, eq_iff j k, eq_iff i k, get-update k j f m {v = v})

  get-update_other :
      (k j : String) (f : V → V) (m : List (String × V))
      → (j == k) ≡ false
      → get k (update j f m) ≡ get k m
  get-update_other k j f [] h = refl
  get-update_other k j f ((i, w) ∷ m) h =
      ground (arith, eq_iff i j, eq_iff j k, eq_iff i k, get-update_other k j f m)

  get-snoc_none :
      (k j : String) (v : V) (m : List (String × V))
      → get k m ≡ none
      → get k (m ++ ((j, v) ∷ [])) ≡ (if j == k then some v else none)
  get-snoc_none k j v [] h = elim (Bool-cases (j == k)) [ inl e ↦ rw e refl | inr e ↦ rw e refl ]
  get-snoc_none k j v ((i, u) ∷ m) h = ground (arith, get-snoc_none k j v m)

  get-snoc_other :
      (k j : String) (v : V) (m : List (String × V))
      → (j == k) ≡ false
      → get k (m ++ ((j, v) ∷ [])) ≡ get k m
  get-snoc_other k j v [] h = rw h refl
  get-snoc_other k j v ((i, u) ∷ m) h = ground (arith, get-snoc_other k j v m)

module _ {ℓ} {E : Type ℓ} where
  -- Evictions leave a timeline as it is or remove it.
  get-evict :
      (n : ℕ) (k : String) (order : List String) (jobs : List (String × List E))
      → (get k (evict n order jobs).1 ≡ get k jobs) ⊎ (get k (evict n order jobs).1 ≡ none)
  unfolding evict
  get-evict n k [] jobs = inl refl
  get-evict n k (o ∷ order) jobs = elim (Bool-cases (leb n (length jobs))) [
    | inr roomy ↦ rw roomy (inl refl)
    | inl full ↦ rw full (elim (get-evict n k order (remove o jobs)) [
      | inr gone ↦ inr gone
      | inl kept ↦ elim (Bool-cases (o == k)) [
        | inl same ↦ inr (kept ∙ get-remove k o jobs ∙ rw same refl)
        | inr other ↦ inl (kept ∙ get-remove k o jobs ∙ rw other refl)
      ]
    ])
  ]

  -- The last part of a list.
  abbrev pub IsSuffix : List E → List E → Type ℓ
  IsSuffix xs ys = (dropped : List E) × (dropped ++ xs ≡ ys)

  IsSuffix-none : (ys : List E) → IsSuffix [] ys
  IsSuffix-none ys = (ys, append_nil ys)
    where
      append_nil : (zs : List E) → zs ++ [] ≡ zs
      append_nil [] = refl
      append_nil (z ∷ zs) = ap (λ t. z ∷ t) (append_nil zs)

  IsSuffix-trim : (n : ℕ) (es : List E) → IsSuffix (trim n es) es
  unfolding trim
  IsSuffix-trim n [] = ([], refl)
  IsSuffix-trim n (e ∷ es) = elim (Bool-cases (ltb n (length (e ∷ es)))) [
    | inr fits ↦ rw fits ([], refl)
    | inl over ↦ let (dropped, h) = IsSuffix-trim n es in rw over (e ∷ dropped, ap (λ t. e ∷ t) h)
  ]

  IsSuffix-trans : (xs ys zs : List E) → IsSuffix xs ys → IsSuffix ys zs → IsSuffix xs zs
  IsSuffix-trans xs ys zs p q = (q.0 ++ p.0, append_assoc q.0 p.0 xs ∙ ap (λ t. q.0 ++ t) p.1 ∙ q.1)

  IsSuffix-snoc :
      (xs ys : List E) (e : E) → IsSuffix xs ys → IsSuffix (xs ++ (e ∷ [])) (ys ++ (e ∷ []))
  IsSuffix-snoc xs ys e p = (p.0, sym (append_assoc p.0 xs (e ∷ [])) ∙ ap (λ t. t ++ (e ∷ [])) p.1)

  open_timeline_self :
      (job : String) (s : TimelineStore E)
      → (get job (open_timeline job s).jobs ≡ some (list job s))
        × ((open_timeline job s).max_entries_per_job ≡ s.max_entries_per_job)
  unfolding open_timeline list
  open_timeline_self job s =
      let same : (job == job) ≡ true = (eq_iff job job).1 refl in
      elim (Option-cases (get job s.jobs)) [
        | inr (es, found) ↦ rw found (found, refl)
        | inl missing ↦
            let kept = evict s.max_jobs s.job_order s.jobs in
            let gone : get job kept.1 ≡ none = elim (get-evict s.max_jobs job s.job_order s.jobs) [
              | inl e ↦ e ∙ missing
              | inr e ↦ e
            ] in
            rw missing (get-snoc_none job job [] kept.1 gone ∙ rw same refl, refl)
      ]

  open_timeline_other :
      (job other : String) (s : TimelineStore E)
      → (job == other) ≡ false
      → (list other (open_timeline job s) ≡ list other s) ⊎ (list other (open_timeline job s) ≡ [])
  unfolding open_timeline list
  open_timeline_other job other s differ = elim (Option-cases (get job s.jobs)) [
    | inr (es, found) ↦ rw found (inl refl)
    | inl missing ↦ rw missing (
        let kept = evict s.max_jobs s.job_order s.jobs in
        let more = get-snoc_other other job [] kept.1 differ in
        elim (get-evict s.max_jobs other s.job_order s.jobs) [
          | inl e ↦ inl (ap or_empty (more ∙ e))
          | inr e ↦ inr (ap or_empty (more ∙ e))
        ])
  ]

  list-append-trim :
      (job : String) (entry : E) (s : TimelineStore E)
      → list job (append job entry s) ≡ trim s.max_entries_per_job (list job s ++ (entry ∷ []))
  unfolding list append
  list-append-trim job entry s =
      let same : (job == job) ≡ true = (eq_iff job job).1 refl in
      let (opened, limit) = open_timeline_self job s in
      let updated =
        get-update job job
          (λ es. trim (open_timeline job s).max_entries_per_job (es ++ (entry ∷ [])))
          (open_timeline job s).jobs opened in
      ap or_empty updated ∙ rw same (ap (λ n. trim n (list job s ++ (entry ∷ []))) limit)

  -- What is kept of a list with a new last entry.
  abbrev pub IsExtended : (limit : ℕ) → List E → E → List E → Type ℓ
  IsExtended limit old entry kept =
      (dropped : List E) × (older : List E) × (kept ≡ older ++ (entry ∷ []))
      × (dropped ++ older ≡ old)
      × (length kept ≡ min (length old + 1) limit)

  trim-IsExtended :
      (limit : ℕ) (es : List E) (e : E)
      → 0 < limit
      → IsExtended limit es e (trim limit (es ++ (e ∷ [])))
  unfolding trim
  trim-IsExtended limit [] e pos =
      let room : ltb limit 1 ≡ false = ground arith in rw room ([], [], refl, refl, ground arith)
  trim-IsExtended limit (x ∷ es) e pos =
      let size = length-append es (e ∷ []) in
      elim (Bool-cases (ltb limit (length (x ∷ (es ++ (e ∷ [])))))) [
        | inr fits ↦ rw fits ([], x ∷ es, refl, refl, ground arith)
        | inl over ↦
            let (dropped, older, last, split, many) = trim-IsExtended limit es e pos in
            rw over (x ∷ dropped, older, last, ap (λ t. x ∷ t) split, ground arith)
      ]

  -- Where a timeline may have an entry: after an append the new entry is the last of its job's
  -- timeline, what stands before it is the last part of the old timeline, and the whole is as long as
  -- the old timeline and the new entry are, or as the limit where that is less.
  pub list-append :
      (job : String) (entry : E) (s : TimelineStore E)
      → 0 < s.max_entries_per_job
      → IsExtended s.max_entries_per_job (list job s) entry (list job (append job entry s))
  list-append job entry s pos =
      subst (IsExtended s.max_entries_per_job (list job s) entry)
        (sym (list-append-trim job entry s))
        (trim-IsExtended s.max_entries_per_job (list job s) entry pos)

  -- The timeline of another job stays, or the job was evicted.
  list-append_other :
      (job other : String) (entry : E) (s : TimelineStore E)
      → (job == other) ≡ false
      → (list other (append job entry s) ≡ list other s) ⊎ (list other (append job entry s) ≡ [])
  unfolding list append
  list-append_other job other entry s differ =
      let same = ap or_empty (
        get-update_other other job
          (λ es. trim (open_timeline job s).max_entries_per_job (es ++ (entry ∷ [])))
          (open_timeline job s).jobs differ) in
      elim (open_timeline_other job other s differ) [
        | inl e ↦ inl (same ∙ e)
        | inr e ↦ inr (same ∙ e)
      ]

  list-clear :
      (job other : String) (s : TimelineStore E)
      → list other (clear job s) ≡ (if job == other then [] else list other s)
  unfolding list clear
  list-clear job other s =
      ap or_empty (get-remove other job s.jobs)
      ∙ elim (Bool-cases (job == other)) [ inl e ↦ rw e refl | inr e ↦ rw e refl ]

  -- The entries appended to a job after it was last cleared, after `before`.
  abbrev pub appended_since_clear : String → List (Use E) → List E → List E
  appended_since_clear job [] before = before
  appended_since_clear job (appended j entry ∷ uses) before =
      appended_since_clear job uses (if j == job then before ++ (entry ∷ []) else before)
  appended_since_clear job (cleared j ∷ uses) before =
      appended_since_clear job uses (if j == job then [] else before)

  run_from-IsSuffix :
      (job : String) (uses : List (Use E)) (s : TimelineStore E) (before : List E)
      → IsSuffix (list job s) before
      → IsSuffix (list job (run uses s)) (appended_since_clear job uses before)
  unfolding run
  run_from-IsSuffix job [] s before h = h
  run_from-IsSuffix job (appended j entry ∷ uses) s before h =
      run_from-IsSuffix job uses (append j entry s)
        (if j == job then before ++ (entry ∷ []) else before)
        (elim (Bool-cases (j == job)) [
          | inl same ↦
              let eq : j ≡ job = (eq_iff j job).0 same in
              let grown =
                IsSuffix-trans _ _ _
                  (IsSuffix-trim s.max_entries_per_job (list job s ++ (entry ∷ [])))
                  (IsSuffix-snoc (list job s) before entry h) in
              rw same (
                subst (λ k. IsSuffix (list job (append k entry s)) (before ++ (entry ∷ [])))
                  (sym eq)
                  (subst (λ es. IsSuffix es (before ++ (entry ∷ [])))
                    (sym (list-append-trim job entry s)) grown))
          | inr differ ↦ rw differ (elim (list-append_other j job entry s differ) [
            | inl kept ↦ subst (λ es. IsSuffix es before) (sym kept) h
            | inr gone ↦ subst (λ es. IsSuffix es before) (sym gone) (IsSuffix-none before)
          ])
        ])
  run_from-IsSuffix job (cleared j ∷ uses) s before h =
      run_from-IsSuffix job uses (clear j s) (if j == job then [] else before)
        (elim (Bool-cases (j == job)) [
          | inl same ↦
              rw same
                (subst (λ es. IsSuffix es []) (sym (list-clear j job s ∙ rw same refl)) ([], refl))
          | inr differ ↦
              rw differ
                (subst (λ es. IsSuffix es before) (sym (list-clear j job s ∙ rw differ refl)) h)
        ])

  -- Whatever is appended to a new store and cleared, in any order: the timeline of a job is the last
  -- part of the entries appended to that job after it was last cleared.
  pub run-IsSuffix :
      (job : String) (max_jobs max_entries : ℕ) (uses : List (Use E))
      → IsSuffix (list job (run uses (new max_jobs max_entries))) (appended_since_clear job uses [])
  unfolding new list
  run-IsSuffix job max_jobs max_entries uses =
      run_from-IsSuffix job uses (new max_jobs max_entries) [] ([], refl)
