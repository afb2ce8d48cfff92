-- ===== src/Conman/Zombies/Found.antt =====
-- Which processes a scan finds.
use remote_console.Prelude.{
  sym, ap, ◌∙◌, ◌⊎◌, ◌≡◌, refl, ◌↔◌, inl, inr, Option, none, some, List, [], ◌∷◌, arith, All, In,
  Bool-cases,
}
use remote_console.Prelude.Text.{Str, str, ◌==◌, ==-sound, ==-refl}
use remote_console.Prelude.Int.{ℤ}
use remote_console.Prelude.Strings.{fields, atoi}
use remote_console.Prelude.Lines.{IsLine, text_of, with_newlines, complete_lines-text_of}
use remote_console.Conman.Zombies.{
  add_zombie, zombie_pid, zombies_of, find_zombies, ProcessIo, cleaned_up, kill_zombie, kill_all,
  watch_for_zombies,
}

-- The line's first column is the pid and its second is Z.
abbrev pub IsZombieLine : ℤ → Str → Type 0
IsZombieLine pid line =
    (column : Str) × (rest : List Str) × (fields line ≡ column ∷ str "Z" ∷ rest)
    × (atoi column ≡ some pid)

columns_of :
    (pid : ℤ) (line : Str) (columns : List Str)
    → fields line ≡ columns
    → zombie_pid line ≡ some pid
    → IsZombieLine pid line
unfolding zombie_pid
columns_of pid line [] e h = absurd (ground (arith, e))
columns_of pid line (c ∷ []) e h = absurd (ground (arith, e))
columns_of pid line (c ∷ stat ∷ rest) e h = elim (Bool-cases (stat == str "Z")) [
  | inl z ↦ (c, rest, e ∙ ap (λ s. c ∷ s ∷ rest) (==-sound stat (str "Z") z), ground (arith, e, z))
  | inr other ↦ absurd (ground (arith, e, other))
]

In-add_zombie :
    (pid : ℤ) (found : Option ℤ) (zombies : List ℤ)
    → In pid (add_zombie found zombies)
    → (found ≡ some pid) ⊎ In pid zombies
In-add_zombie pid none zombies i = inr i
In-add_zombie pid (some z) zombies (inl e) = inl (ap some (sym e))
In-add_zombie pid (some z) zombies (inr i) = inr i

zombies_of_sound :
    (pid : ℤ) (lines : List Str)
    → In pid (zombies_of lines)
    → (line : Str) × In line lines × (zombie_pid line ≡ some pid)
unfolding zombies_of
zombies_of_sound pid [] i = absurd i
zombies_of_sound pid (line ∷ lines) i =
    elim (In-add_zombie pid (zombie_pid line) (zombies_of lines) i) [
      | inl here ↦ (line, inl refl, here)
      | inr later ↦ let (l, at, e) = zombies_of_sound pid lines later in (l, inr at, e)
    ]

zombies_of_complete :
    (pid : ℤ) (lines : List Str) (line : Str)
    → In line lines
    → zombie_pid line ≡ some pid
    → In pid (zombies_of lines)
unfolding zombies_of
zombies_of_complete pid [] line i h = absurd i
zombies_of_complete pid (l ∷ lines) line (inl e) h =
    let found : zombie_pid l ≡ some pid = ap zombie_pid (sym e) ∙ h in rw found (inl refl)
zombies_of_complete pid (l ∷ lines) line (inr i) h =
    ground (arith, zombies_of_complete pid lines line i h)

-- A scan finds exactly the pids of the complete lines whose second column is Z and whose first reads
-- as a number; a last line without its newline is not looked at.
find_zombies_iff :
    (pid : ℤ) (lines : List Str) (tail : Str)
    → All IsLine lines
    → IsLine tail
    → In pid (find_zombies (text_of lines tail))
      ↔ ((line : Str) × In line (with_newlines lines) × IsZombieLine pid line)
unfolding find_zombies
find_zombies_iff pid lines tail h t = rw (complete_lines-text_of lines tail h t) (
  λ i.
      let (line, at, e) = zombies_of_sound pid (with_newlines lines) i in
      (line, at, columns_of pid line (fields line) refl e),
  λ (line, at, (column, rest, e, n)).
      zombies_of_complete pid (with_newlines lines) line at
        (unfold zombie_pid in ground (arith, e, n, ==-refl (str "Z"))),
)

kill_zombie_iff :
    (io : ProcessIo) (pid : ℤ)
    → (kill_zombie io pid ≡ cleaned_up) ↔ ((io.find_process pid ≡ none) × (io.wait pid ≡ none))
unfolding kill_zombie
kill_zombie_iff io pid = ground arith

kill_all_iff :
    (io : ProcessIo) (pid : ℤ) (zombies : List ℤ)
    → In (pid, cleaned_up) (kill_all io zombies)
      ↔ (In pid zombies × (io.find_process pid ≡ none) × (io.wait pid ≡ none))
unfolding kill_all kill_zombie
kill_all_iff io pid [] = (λ i. absurd i, λ h. absurd h.0)
kill_all_iff io pid (z ∷ zombies) =
    let rest = kill_all_iff io pid zombies in
    (
      λ i. elim i [
        | inl e ↦
            let same : pid ≡ z = ap (λ k. k.0) e in
            let killed : kill_zombie io pid ≡ cleaned_up =
              ap (kill_zombie io) same ∙ sym (ap (λ k. k.1) e) in
            let (found, waited) = (kill_zombie_iff io pid).0 killed in (inl same, found, waited)
        | inr later ↦ let (at, found, waited) = rest.0 later in (inr at, found, waited)
      ],
      λ (at, found, waited). elim at [
        | inl e ↦ inl (
            sym (ap (λ k. (pid, k)) ((kill_zombie_iff io pid).1 (found, waited)))
            ∙ ap (λ q. (q, kill_zombie io q)) e)
        | inr later ↦ inr (rest.1 (later, found, waited))
      ],
    )

-- In a turn of WatchForZombies, the processes that are cleaned up are exactly those that are found
-- and waited for without an error and whose pid stands in a complete line of ps whose second column
-- is Z.
pub watch_for_zombies_iff :
    (io : ProcessIo) (pid : ℤ) (lines : List Str) (tail : Str)
    → All IsLine lines
    → IsLine tail
    → In (pid, cleaned_up) (watch_for_zombies io (text_of lines tail)) ↔ (
        ((line : Str) × In line (with_newlines lines) × IsZombieLine pid line)
        × (io.find_process pid ≡ none)
        × (io.wait pid ≡ none))
unfolding watch_for_zombies
watch_for_zombies_iff io pid lines tail h t =
    let all = kill_all_iff io pid (find_zombies (text_of lines tail)) in
    let found = find_zombies_iff pid lines tail h t in
    (
      λ i. let (at, ok, waited) = all.0 i in (found.0 at, ok, waited),
      λ (zombie, ok, waited). all.1 (found.1 zombie, ok, waited),
    )
