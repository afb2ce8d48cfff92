-- ===== src/Logs/Rotation/Stamps.antt =====
-- What reading the state file makes of the stamps and of the two flags.
use remote_console.Prelude.{
  ◌≡◌, refl, ap, ◌↔◌, inl, inr, ◌≢◌, Bool, true, false, ◌&&◌, ◌||◌, not, Option, none, some, List,
  [], ◌∷◌, ok, In, All, arith, Option-cases, Bool-cases,
}
use remote_console.Prelude.Text.{Str, ==_iff}
use remote_console.Prelude.Int.{ℤ, int_eq_iff}
use remote_console.Prelude.Lines.{complete_lines}
use remote_console.Prelude.Map.{Map, get, put, Distinct, get-put}
use remote_console.Logs.Rotation.{
  Civil, Source, console, aggregation, Parsed, skipped, stamped, panicked, parse_timestamp, Reading,
  is_stamp, stamp, read_lines, behind_version, unread, read_log_rot_timestamps,
}

-- The files that a state names, with their times.
abbrev pub Entries : Type 0
Entries = Map (ℤ × Source)

abbrev entry_of : Parsed → Option Entries → Option Entries
entry_of skipped es = es
entry_of panicked es = none
entry_of (stamped name fd source) none = none
entry_of (stamped name fd source) (some es) = some ((name, (fd, source)) ∷ es)

abbrev parse_lines : (Civil → ℤ) → Str → Str → List Str → Option Entries
parse_lines date path agg [] = some []
parse_lines date path agg (line ∷ lines) =
    entry_of (parse_timestamp date path agg line) (parse_lines date path agg lines)

abbrev behind_first : List Str → List Str
behind_first [] = []
behind_first (version ∷ lines) = lines

abbrev pub entries : (Civil → ℤ) → Str → Str → Str → Option Entries
entries date path agg content = parse_lines date path agg (behind_first (complete_lines content))

abbrev pub stamp_all : Reading → Entries → Reading
stamp_all r [] = r
stamp_all r ((name, (fd, source)) ∷ es) = stamp_all (stamp r name fd source) es

module _ (date : Civil → ℤ) (path agg : Str) where
  parsed_line :
      (lines : List Str) (p : Parsed) (es : Entries) (r : Reading)
      → ((rest : Entries) (q : Reading)
          → parse_lines date path agg lines ≡ some rest
          → read_lines date path agg lines q ≡ some (stamp_all q rest))
      → entry_of p (parse_lines date path agg lines) ≡ some es
      → (elim p [
        | skipped ↦ read_lines date path agg lines r
        | stamped name fd source ↦ read_lines date path agg lines (stamp r name fd source)
        | panicked ↦ none
      ])
        ≡ some (stamp_all r es)
  parsed_line lines skipped es r ih h = ih es r h
  parsed_line lines (stamped name fd source) es r ih h =
      elim (Option-cases (parse_lines date path agg lines)) [
        | inl bad ↦ absurd (ground (arith, bad, h))
        | inr (rest, e) ↦ ground (arith, ih rest (stamp r name fd source) e, e, h)
      ]
  parsed_line lines panicked es r ih h = cc

  read_lines-entries :
      (lines : List Str) (es : Entries) (r : Reading)
      → parse_lines date path agg lines ≡ some es
      → read_lines date path agg lines r ≡ some (stamp_all r es)
  unfolding read_lines
  read_lines-entries [] es r h = ground arith
  read_lines-entries (line ∷ lines) es r h =
      parsed_line lines (parse_timestamp date path agg line) es r (read_lines-entries lines) h

  behind_version-entries :
      (lines : List Str) (es : Entries) (stamps : Map ℤ)
      → parse_lines date path agg (behind_first lines) ≡ some es
      → behind_version date path agg lines (unread stamps) ≡ some (stamp_all (unread stamps) es)
  behind_version-entries [] es stamps h = ground arith
  behind_version-entries (version ∷ lines) es stamps h =
      read_lines-entries lines es (unread stamps) h

  pub read-entries :
      (content : Str) (es : Entries) (stamps : Map ℤ)
      → entries date path agg content ≡ some es
      → read_log_rot_timestamps date (ok content) path agg stamps
        ≡ some (stamp_all (unread stamps) es)
  unfolding read_log_rot_timestamps
  read-entries content es stamps h = behind_version-entries (complete_lines content) es stamps h

is_stamp_iff : (o : Option ℤ) (fd : ℤ) → (is_stamp o fd ≡ true) ↔ (o ≡ some fd)
is_stamp_iff none fd = ground arith
is_stamp_iff (some old) fd = ground (arith, int_eq_iff old fd)

-- The stamps afterwards: each named file has its time, the others have what they had.
abbrev pub time_of : Option (ℤ × Source) → Option ℤ → Option ℤ
time_of none old = old
time_of (some (fd, source)) old = some fd

pub stamp_all-get :
    (es : Entries) (r : Reading) (k : Str)
    → Distinct es
    → get (stamp_all r es).file_stamp k ≡ time_of (get es k) (get r.file_stamp k)
unfolding stamp get
stamp_all-get [] r k d = refl
stamp_all-get ((name, (fd, source)) ∷ es) r k d = ground (
  arith,
  stamp_all-get es (stamp r name fd source) k d.1,
  get-put r.file_stamp name k fd,
  ==_iff name k,
  is_stamp_iff (get r.file_stamp name) fd,
  d.0,
)

abbrev is_console : Source → Bool
is_console console = true
is_console aggregation = false

abbrev any_moved : Entries → Map ℤ → Bool
any_moved [] stamps = false
any_moved ((name, (fd, source)) ∷ es) stamps =
    (is_console source && not (is_stamp (get stamps name) fd)) || any_moved es stamps

any_moved-put :
    (es : Entries) (stamps : Map ℤ) (name : Str) (fd : ℤ)
    → get es name ≡ none
    → any_moved es (put stamps name fd) ≡ any_moved es stamps
unfolding get
any_moved-put [] stamps name fd h = refl
any_moved-put ((n, (t, source)) ∷ es) stamps name fd h =
    ground (
      arith,
      any_moved-put es stamps name fd,
      get-put stamps name n fd,
      ==_iff name n,
      ==_iff n name,
    )

stamp_all-con_changed :
    (es : Entries) (r : Reading)
    → Distinct es
    → (stamp_all r es).con_changed ≡ r.con_changed || any_moved es r.file_stamp
unfolding stamp
stamp_all-con_changed [] r d = ground arith
stamp_all-con_changed ((name, (fd, source)) ∷ es) r d = ground (
  arith,
  stamp_all-con_changed es (stamp r name fd source) d.1,
  any_moved-put es r.file_stamp name fd d.0,
)

any_moved-found :
    (es : Entries) (stamps : Map ℤ)
    → any_moved es stamps ≡ true
    → (name : Str) × (fd : ℤ) × In (name, (fd, console)) es × (get stamps name ≢ some fd)
any_moved-found [] stamps h = absurd (cc)
any_moved-found ((name, (fd, aggregation)) ∷ es) stamps h =
    let (n, t, i, m) = any_moved-found es stamps h in (n, t, inr i, m)
any_moved-found ((name, (fd, console)) ∷ es) stamps h =
    elim (Bool-cases (is_stamp (get stamps name) fd)) [
      | inl same ↦
          let (n, t, i, m) = any_moved-found es stamps (ground (arith, same, h)) in (n, t, inr i, m)
      | inr other ↦
          (name, fd, inl refl, λ e. ground (arith, other, is_stamp_iff (get stamps name) fd, e))
    ]

any_moved_of :
    (es : Entries) (stamps : Map ℤ)
    → ((name : Str) × (fd : ℤ) × In (name, (fd, console)) es × (get stamps name ≢ some fd))
    → any_moved es stamps ≡ true
any_moved_of [] stamps (n, t, i, m) = absurd i
any_moved_of ((name, (fd, source)) ∷ es) stamps (n, t, inl e, m) =
    let same_name : n ≡ name = ap (λ p. p.0) e in
    let same_time : t ≡ fd = ap (λ p. p.1.0) e in
    let same_source : console ≡ source = ap (λ p. p.1.1) e in
    rw (← same_name, ← same_time, ← same_source) (ground (arith, m, is_stamp_iff (get stamps n) t))
any_moved_of ((name, (fd, source)) ∷ es) stamps (n, t, inr i, m) =
    ground (arith, any_moved_of es stamps (n, t, i, m))

any_moved_iff :
    (es : Entries) (stamps : Map ℤ)
    → (any_moved es stamps ≡ true)
      ↔ ((name : Str) × (fd : ℤ) × In (name, (fd, console)) es × (get stamps name ≢ some fd))
any_moved_iff es stamps = (any_moved-found es stamps, any_moved_of es stamps)

-- Reading a state that names each file once changes the flag of the console logs exactly when it
-- names a console log with a time that is not its stamp.
pub con_changed_iff :
    (es : Entries) (stamps : Map ℤ)
    → Distinct es
    → ((stamp_all (unread stamps) es).con_changed ≡ true)
      ↔ ((name : Str) × (fd : ℤ) × In (name, (fd, console)) es × (get stamps name ≢ some fd))
con_changed_iff es stamps d =
    rw (stamp_all-con_changed es (unread stamps) d) (any_moved_iff es stamps)

-- Entries that are all in the stamps change nothing.
pub stamp_all_same :
    (es : Entries) (r : Reading)
    → All (λ e. get r.file_stamp e.0 ≡ some e.1.0) es
    → stamp_all r es ≡ r
unfolding stamp
stamp_all_same [] r h = refl
stamp_all_same ((name, (fd, source)) ∷ es) r h =
    ground (arith, is_stamp_iff (get r.file_stamp name) fd, h.0, stamp_all_same es r h.1)
