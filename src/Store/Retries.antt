-- ===== src/Store/Retries.antt =====
-- store.py: the search for the id of a retry ends.
use scooling_lab.Base.{
  ℕ, zero, suc, ◌+◌, ◌≤◌, ◌<◌, String, Bool, true, false, ◌≡◌, refl, sym, ap, ◌∙◌, subst, arith, [],
  ◌∷◌, none, some, is_some, lookup, length, Dict, str_eq, eq_iff, if◌then◌else◌, Bool-cases,
  Option-cases, inl, inr,
}
use scooling_lab.Platform.{Platform}
use scooling_lab.Store.Records.{TrainingJobRecord}
use scooling_lab.Store.State.{TrainingJobStore}
use scooling_lab.Store.Queue.{retry_id, next_retry_id}

module _ {V : Type 0} where
  erase : String → Dict V → Dict V
  erase k [] = []
  erase k ((j, v) ∷ d) = let rest = erase k d in if str_eq j k then d else (j, v) ∷ rest

  lookup-erase :
      (k j : String) (d : Dict V) → str_eq k j ≡ false → lookup j (erase k d) ≡ lookup j d
  unfolding lookup erase
  lookup-erase k j [] h = refl
  lookup-erase k j ((i, v) ∷ d) h =
      ground (arith, lookup-erase k j d h, eq_iff i k, eq_iff i j, eq_iff k j)

  length-erase :
      (k : String) (d : Dict V) → is_some (lookup k d) ≡ true → suc (length (erase k d)) ≡ length d
  unfolding lookup erase
  length-erase k [] h = cc h
  length-erase k ((i, v) ∷ d) h = ground (arith, length-erase k d)

  -- As many different keys as are found in a dictionary are no more than its entries.
  pigeonhole :
      (g : ℕ → String) (n : ℕ) (d : Dict V)
      → ((i j : ℕ) → i < n → j < n → g i ≡ g j → i ≡ j)
      → ((i : ℕ) → i < n → is_some (lookup (g i) d) ≡ true)
      → n ≤ length d
  pigeonhole g zero d apart found = omega arith
  pigeonhole g (suc n) d apart found =
      let first = length-erase (g 0) d (found 0 (omega arith)) in
      let distinct : (i : ℕ) → i < n → str_eq (g 0) (g (suc i)) ≡ false = λ i h.
        elim (Bool-cases (str_eq (g 0) (g (suc i)))) [
          | inr e ↦ e
          | inl e ↦
              let clash =
                apart 0 (suc i) (omega arith) (omega arith) ((eq_iff (g 0) (g (suc i))).0 e) in
              absurd (omega (arith, clash))
        ] in
      let rest =
        pigeonhole (λ i. g (suc i)) n (erase (g 0) d)
          (λ i j hi hj e.
            let next = apart (suc i) (suc j) (omega arith) (omega arith) e in omega (arith, next))
          (λ i h.
            rw (lookup-erase (g 0) (g (suc i)) d (distinct i h)) (found (suc i) (omega arith))) in
      omega (arith, first, rest)

module _ ⦃p : Platform⦄ where
  search_fails :
      (fuel attempt : ℕ) (original : String) (s : TrainingJobStore)
      → next_retry_id fuel attempt original s ≡ none
      → (i : ℕ) → i < fuel
      → is_some (lookup (retry_id original (attempt + i)) s.jobs) ≡ true
  unfolding next_retry_id
  search_fails zero attempt original s h i small = absurd (omega (arith, small))
  search_fails (suc fuel) attempt original s h i small =
      elim (Option-cases (lookup (retry_id original attempt) s.jobs)) [
        | inl free ↦
            let bad : some (retry_id original attempt) ≡ none = rw (free, next_retry_id) at h in
            cc bad
        | inr (job, taken) ↦
            let later : next_retry_id fuel (attempt + 1) original s ≡ none =
              rw (taken, next_retry_id) at h in
            step job taken (search_fails fuel (attempt + 1) original s later) i small
      ]
    where
      at : ℕ → Bool
      at m = is_some (lookup (retry_id original m) s.jobs)

      step :
          (job : TrainingJobRecord)
          → lookup (retry_id original attempt) s.jobs ≡ some job
          → ((j : ℕ) → j < fuel → at (attempt + 1 + j) ≡ true)
          → (i : ℕ) → i < suc fuel
          → at (attempt + i) ≡ true
      step job taken later zero small =
          let same : attempt ≡ attempt + 0 = omega arith in
          subst (λ m. at m ≡ true) same (rw taken refl)
      step job taken later (suc j) small =
          let same : attempt + 1 + j ≡ attempt + suc j = omega arith in
          subst (λ m. at m ≡ true) same (later j (omega arith))

  -- What the search returns is the id of one of its attempts, and free.
  search_free :
      (fuel attempt : ℕ) (original k : String) (s : TrainingJobStore)
      → next_retry_id fuel attempt original s ≡ some k
      → (n : ℕ) × (n < fuel) × (k ≡ retry_id original (attempt + n)) × (lookup k s.jobs ≡ none)
  unfolding next_retry_id
  search_free zero attempt original k s h = cc h
  search_free (suc fuel) attempt original k s h =
      elim (Option-cases (lookup (retry_id original attempt) s.jobs)) [
        | inl free ↦
            let found : some (retry_id original attempt) ≡ some k = rw (free, next_retry_id) at h in
            let same : retry_id original attempt ≡ k = cc found in
            let first : attempt ≡ attempt + 0 = omega arith in
            (
              0,
              omega arith,
              sym same ∙ ap (retry_id original) first,
              subst (λ j. lookup j s.jobs ≡ none) same free,
            )
        | inr (job, taken) ↦
            let later : next_retry_id fuel (attempt + 1) original s ≡ some k =
              rw (taken, next_retry_id) at h in
            let (n, small, same, free) = search_free fuel (attempt + 1) original k s later in
            let next : attempt + 1 + n ≡ attempt + suc n = omega arith in
            (suc n, omega (arith, small), same ∙ ap (retry_id original) next, free)
      ]

  -- The search for the id of a retry returns, within one attempt more than there are jobs, the
  -- id of one of these attempts, under which the store has no job, if the ids of that many
  -- attempts differ.
  pub next_retry_id_found :
      (original : String) (s : TrainingJobStore)
      → ((m n : ℕ)
          → m ≤ length s.jobs
          → n ≤ length s.jobs
          → retry_id original (1 + m) ≡ retry_id original (1 + n)
          → m ≡ n)
      → (k : String) × (n : ℕ) × (next_retry_id (suc (length s.jobs)) 1 original s ≡ some k)
        × (lookup k s.jobs ≡ none)
        × (k ≡ retry_id original (1 + n))
        × (n ≤ length s.jobs)
  next_retry_id_found original s apart =
      elim (Option-cases (next_retry_id (suc (length s.jobs)) 1 original s)) [
        | inr (k, e) ↦
            let (n, small, same, free) = search_free (suc (length s.jobs)) 1 original k s e in
            (k, n, e, free, same, omega (arith, small))
        | inl e ↦
            let all_taken = search_fails (suc (length s.jobs)) 1 original s e in
            let crowded =
              pigeonhole (λ i. retry_id original (1 + i)) (suc (length s.jobs)) s.jobs
                (λ i j hi hj same. apart i j (omega arith) (omega arith) same) all_taken in
            absurd (omega (arith, crowded))
      ]
