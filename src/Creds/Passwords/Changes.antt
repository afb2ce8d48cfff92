-- ===== src/Creds/Passwords/Changes.antt =====
-- When a check of the passwords reports a change.
use remote_console.Prelude.{
  ◌≡◌, ◌≢◌, ◌↔◌, refl, inl, inr, true, false, Option, none, some, List, [], ◌∷◌, ok, arith, In,
  Bool-cases, Option-cases,
}
use remote_console.Prelude.Text.{Str, ==_iff, ==-refl}
use remote_console.Prelude.Map.{Map, get}
use remote_console.Conman.Entries.{CompCredentials}
use remote_console.Creds.Storage.{Secrets, get_passwords}
use remote_console.Creds.Passwords.{
  CredsService, previous_creds, differs, lookup_creds, name_changed, any_changed,
  check_if_passwords_changed,
}

differs_iff : (a b : CompCredentials) → (differs a b ≡ true) ↔ (a ≢ b)
differs_iff a b = (
  λ h e. ground (arith, ==_iff a.username b.username, ==_iff a.password b.password),
  λ ne. elim (Bool-cases (differs a b)) [
    | inl h ↦ h
    | inr same ↦
        absurd (ne (ground (arith, ==_iff a.username b.username, ==_iff a.password b.password)))
  ],
)

-- The name has credentials now, and they are not the previous ones.
abbrev pub IsChanged : Option (Map CompCredentials) → Map CompCredentials → Str → Type 0
IsChanged current previous name =
    (creds : CompCredentials) × (lookup_creds current name ≡ some creds)
    × (creds ≢ previous_creds previous name)

IsChanged_iff :
    (found : Option CompCredentials) (previous : CompCredentials)
    → (name_changed found previous ≡ true)
      ↔ ((creds : CompCredentials) × (found ≡ some creds) × (creds ≢ previous))
IsChanged_iff none previous = ((λ h. absurd (cc)), λ (creds, e, ne). absurd (cc))
IsChanged_iff (some c) previous = (
  λ h. (c, refl, (differs_iff c previous).0 h),
  λ (creds, e, ne). (differs_iff c previous).1 (λ same. ne (ground (arith, e, same))),
)

any_changed_sound :
    (current : Option (Map CompCredentials)) (previous : Map CompCredentials) (names : List Str)
    → any_changed current previous names ≡ true
    → (name : Str) × In name names × IsChanged current previous name
unfolding any_changed
any_changed_sound current previous [] h = absurd (ground arith)
any_changed_sound current previous (name ∷ names) h =
    elim (Bool-cases (name_changed (lookup_creds current name) (previous_creds previous name))) [
      | inl here ↦ (name, inl refl, (IsChanged_iff _ _).0 here)
      | inr other ↦
          let (n, at, c) = any_changed_sound current previous names (simp other at h) in
          (n, inr at, c)
    ]

any_changed_complete :
    (current : Option (Map CompCredentials)) (previous : Map CompCredentials) (names : List Str)
    (name : Str)
    → In name names
    → IsChanged current previous name
    → any_changed current previous names ≡ true
unfolding any_changed
any_changed_complete current previous [] name i c = absurd i
any_changed_complete current previous (n ∷ names) name (inl e) c =
    let here : name_changed (lookup_creds current n) (previous_creds previous n) ≡ true =
      rw (← e) ((IsChanged_iff _ _).1 c) in
    simp here
any_changed_complete current previous (n ∷ names) name (inr i) c =
    ground (arith, any_changed_complete current previous names name i c)

-- With passwords retrieved before and a store that answers, a check reports a change exactly when
-- some node has credentials now that are not its previous ones (empty ones, if it had none).
pub check_if_passwords_changed_iff :
    (cs : CredsService) (secrets : Secrets) (names : List Str) (previous : Map CompCredentials)
    (current : Option (Map CompCredentials))
    → cs.previous_passwords ≡ some previous
    → get_passwords secrets cs.config names ≡ (current, none)
    → (check_if_passwords_changed cs secrets names ≡ ok true)
      ↔ ((name : Str) × In name names × IsChanged current previous name)
unfolding check_if_passwords_changed
check_if_passwords_changed_iff cs secrets names previous current before now = (
  λ h. any_changed_sound current previous names (ground arith),
  λ (name, i, c). ground (arith, any_changed_complete current previous names name i c),
)

any_changed-same :
    (m : Map CompCredentials) (names : List Str) → any_changed (some m) m names ≡ false
unfolding any_changed
any_changed-same m [] = refl
any_changed-same m (name ∷ names) = elim (Option-cases (get m name)) [
  | inl e ↦ ground (arith, any_changed-same m names)
  | inr (c, e) ↦ ground (arith, any_changed-same m names, ==-refl c.username, ==-refl c.password)
]

-- A store that answers what was retrieved before is no change, however many nodes it leaves out.
check_if_passwords_changed_same :
    (cs : CredsService) (secrets : Secrets) (names : List Str)
    → get_passwords secrets cs.config names ≡ (cs.previous_passwords, none)
    → check_if_passwords_changed cs secrets names ≡ ok false
unfolding check_if_passwords_changed
check_if_passwords_changed_same cs secrets names same = elim (Option-cases cs.previous_passwords) [
  | inl e ↦ ground arith
  | inr (m, e) ↦ ground (arith, any_changed-same m names)
]
