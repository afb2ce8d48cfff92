-- ===== src/Creds/Passwords/Retries.antt =====
-- How a retrieval of the passwords ends.
use remote_console.Prelude.{
  ℕ, zero, suc, ◌+◌, ◌≤◌, ◌<◌, ◌≡◌, refl, ◌⊎◌, inl, inr, true, false, Option, none, some, List,
  Error, arith, Bool-cases, ap, ◌∙◌,
}
use mathlib.Core.Path.{subst}
use native.Mathlib.Decide.{ℕ_discrete}
use remote_console.Prelude.Text.{Str}
use remote_console.Prelude.Map.{Map}
use remote_console.Conman.Entries.{CompCredentials}
use remote_console.Creds.Config.{CredsConfig}
use remote_console.Creds.Storage.{Passwords}
use remote_console.Creds.Passwords.{
  CredsService, Attempt, found_all, Retrieved, finished, canceled, answer, retry, store_retrieved,
  get_passwords_with_retries,
}

module _ (config : CredsConfig) (names : List Str) (attempt : ℕ → Attempt) where
  abbrev pub Misses : ℕ → Type 0
  Misses k = found_all (answer config names attempt k).0 names ≡ false

  -- The answer to the last of the tries, or what was there before the first.
  abbrev pub last_answer : ℕ → ℕ → Passwords → Passwords
  last_answer zero i last = last
  last_answer (suc n) i last = answer config names attempt (i + n)

  -- The three ways in which the tries from `i` on end.
  pub data Ends (i n : ℕ) (last : Passwords) : Retrieved → Type 0 where
    complete :
        (j : ℕ)
        → i ≤ j
        → j < i + n
        → found_all (answer config names attempt j).0 names ≡ true
        → ((k : ℕ) → i ≤ k → k < j → Misses k)
        → Ends i n last (finished (answer config names attempt j))
    exhausted :
        ((k : ℕ) → i ≤ k → k < i + n → Misses k)
        → (final : Passwords) → final ≡ last_answer n i last
        → Ends i n last (finished final)
    stopped :
        (j : ℕ)
        → i ≤ j
        → j < i + n
        → ((attempt j).done_before ≡ true) ⊎ ((attempt j).done_in_wait ≡ true)
        → (passwords : Option (Map CompCredentials)) → Ends i n last (canceled passwords)

  Misses-from : (i k : ℕ) → Misses i → (i + 1 ≤ k → Misses k) → i ≤ k → Misses k
  Misses-from i k missed later low = elim (ℕ_discrete i k) [
    | yes e ↦ subst Misses e missed
    | no ne ↦ later (omega arith)
  ]

  last_answer-next :
      (n i : ℕ) (last : Passwords)
      → last_answer n (i + 1) (answer config names attempt i) ≡ last_answer (suc n) i last
  last_answer-next zero i last = ap (answer config names attempt) (omega arith)
  last_answer-next (suc n) i last = ap (answer config names attempt) (omega arith)

  from_next :
      {i n : ℕ} {last : Passwords} {r : Retrieved}
      → Misses i
      → Ends (i + 1) n (answer config names attempt i) r
      → Ends i (suc n) last r
  from_next {i} {n} missed (complete j low high found before) =
      complete j (omega arith) (omega arith) found
        (λ k at below. Misses-from i k missed (λ l. before k l below) at)
  from_next {i} {n} {last} missed (exhausted all final e) =
      exhausted (λ k at below. Misses-from i k missed (λ l. all k l (omega arith)) at) final
        (e ∙ last_answer-next n i last)
  from_next {i} {n} missed (stopped j low high done passwords) =
      stopped j (omega arith) (omega arith) done passwords

  retry-Ends : (n i : ℕ) (last : Passwords) → Ends i n last (retry config names attempt n i last)
  unfolding retry
  retry-Ends zero i last = exhausted (λ k low high. absurd (omega arith)) last refl
  retry-Ends (suc n) i last = elim (Bool-cases (attempt i).done_before) [
    | inl done ↦ rw (done, retry) (stopped i (omega arith) (omega arith) (inl done) last.0)
    | inr going ↦ elim (Bool-cases (found_all (answer config names attempt i).0 names)) [
      | inl found ↦
          rw (going, found, retry)
            (complete i (omega arith) (omega arith) found (λ k low high. absurd (omega arith)))
      | inr missed ↦ elim (Bool-cases (attempt i).done_in_wait) [
        | inl done ↦
            rw (going, missed, done, retry) (stopped i (omega arith) (omega arith) (inr done) _)
        | inr waited ↦
            rw (going, missed, waited, retry)
              (from_next missed (retry-Ends n (i + 1) (answer config names attempt i)))
      ]
    ]
  ]

abbrev first_answer : Passwords
first_answer = (none, none)

-- The first answer with credentials for every node was returned and kept; or the last answer was,
-- when all of them lack some; or the context was done, and what the service had is kept.
abbrev pub RetrievalEnds :
    CredsService → Error → List Str → ℕ → (ℕ → Attempt) → CredsService × Passwords → Type 0
RetrievalEnds cs ctx_err names max_tries attempt (after, result) =
    ((j : ℕ) × (j < max_tries)
      × (result ≡ answer cs.config names attempt j)
      × (found_all result.0 names ≡ true)
      × ((k : ℕ) → k < j → Misses cs.config names attempt k)
      × (after ≡ record cs { previous_passwords = result.0 }))
    ⊎ (((k : ℕ) → k < max_tries → Misses cs.config names attempt k)
        × (result ≡ last_answer cs.config names attempt max_tries 0 first_answer)
        × (after ≡ record cs { previous_passwords = result.0 }))
    ⊎ ((j : ℕ) × (j < max_tries)
        × (((attempt j).done_before ≡ true) ⊎ ((attempt j).done_in_wait ≡ true))
        × (result.1 ≡ some ctx_err)
        × (after ≡ cs))

RetrievalEnds-of_Ends :
    (cs : CredsService) (ctx_err : Error) (names : List Str) (max_tries : ℕ) (attempt : ℕ → Attempt)
    (r : Retrieved)
    → Ends cs.config names attempt 0 max_tries first_answer r
    → RetrievalEnds cs ctx_err names max_tries attempt (store_retrieved cs ctx_err r)
RetrievalEnds-of_Ends cs ctx_err names max_tries attempt _ (complete j low high found before) =
    inl (j, omega arith, refl, found, (λ k below. before k (omega arith) below), refl)
RetrievalEnds-of_Ends cs ctx_err names max_tries attempt _ (exhausted all final e) =
    inr (inl ((λ k below. all k (omega arith) (omega arith)), e, refl))
RetrievalEnds-of_Ends cs ctx_err names max_tries attempt _ (stopped j low high done passwords) =
    inr (inr (j, omega arith, done, refl, refl))

-- A retrieval makes at most `max_tries` queries, and ends in one of three ways. It returns and keeps
-- the first answer with credentials for every node; or, when all the answers lack some, the last of
-- them; or, only when the context is done, it returns the context's error and keeps what it had.
pub get_passwords_with_retries_ends :
    (cs : CredsService) (ctx_err : Error) (names : List Str) (max_tries : ℕ) (attempt : ℕ → Attempt)
    → RetrievalEnds cs ctx_err names max_tries attempt
        (get_passwords_with_retries cs ctx_err names max_tries attempt)
unfolding get_passwords_with_retries
get_passwords_with_retries_ends cs ctx_err names max_tries attempt =
    RetrievalEnds-of_Ends cs ctx_err names max_tries attempt _
      (retry-Ends cs.config names attempt max_tries 0 first_answer)
