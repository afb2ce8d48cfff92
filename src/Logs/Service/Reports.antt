-- ===== src/Logs/Service/Reports.antt =====
-- What a rotation check reports.
use remote_console.Prelude.{
  ◌≡◌, refl, sym, ◌∙◌, ◌↔◌, ◌≢◌, Bool, true, some, ok, if◌then◌else◌, In, All-of_In,
}
use remote_console.Prelude.Text.{Str}
use remote_console.Prelude.Int.{ℤ}
use remote_console.Prelude.Map.{Map, get, Distinct, get_of_In}
use remote_console.Logs.Rotation.{Civil, console, Reading, read_log_rot_timestamps, unread}
use remote_console.Logs.Rotation.Stamps.{
  Entries, entries, stamp_all, read-entries, stamp_all-get, con_changed_iff, time_of,
  stamp_all_same,
}
use remote_console.Logs.Service.{
  LogsService, Rotate, log_rotate, rotate_logs_once, stamps_of, with_stamps, reopened,
}

-- When rotation is on and the state file can be read before and after logrotate, each time naming
-- a file once, the check reports a change exactly when the later state names a console log with a
-- time other than the earlier state gives it, or, where that does not name it, than its stamp.
pub log_rotate_iff :
    (s : LogsService) (path : Str) (io : Rotate) (pre post : Str) (es fs : Entries)
    → s.config.log_rotate_enabled ≡ true
    → io.before ≡ ok pre
    → io.after ≡ ok post
    → entries io.date path s.agg_log.con_agg_log_file pre ≡ some es
    → entries io.date path s.agg_log.con_agg_log_file post ≡ some fs
    → Distinct es
    → Distinct fs
    → (t : LogsService) × (flag : Bool) × (log_rotate s path io ≡ some (t, flag))
      × ((flag ≡ true) ↔ (
          (name : Str) × (fd : ℤ) × In (name, (fd, console)) fs
          × (time_of (get es name) (get (stamps_of s.log_rotate_file_stamp) name) ≢ some fd)))
unfolding log_rotate rotate_logs_once
log_rotate_iff s path io pre post es fs on before after pre_entries post_entries d e =
    let old = stamps_of s.log_rotate_file_stamp in
    let r = stamp_all (unread old) es in
    let q = stamp_all (unread r.file_stamp) fs in
    let t = with_stamps (with_stamps s r.file_stamp) q.file_stamp in
    let kept = λ (name : Str). stamp_all-get es (unread old) name d in
    (
      if q.agg_changed then reopened t io.agg_io else t,
      q.con_changed,
      rw
          (
            before,
            read-entries io.date path s.agg_log.con_agg_log_file pre es old pre_entries,
            on,
            rotate_logs_once,
            after,
            read-entries io.date path s.agg_log.con_agg_log_file post fs r.file_stamp post_entries,
          )
          refl,
      (
        λ changed.
            let (name, fd, i, m) = (con_changed_iff fs r.file_stamp e).0 changed in
            (name, fd, i, λ k. m (kept name ∙ k)),
        λ (name, fd, i, m).
            (con_changed_iff fs r.file_stamp e).1 (name, fd, i, λ k. m (sym (kept name) ∙ k)),
      ),
    )

-- Reading a state that names each file once a second time changes neither the stamps nor a flag.
read_log_rot_timestamps_again :
    (date : Civil → ℤ) (path agg content : Str) (es : Entries) (stamps : Map ℤ)
    → entries date path agg content ≡ some es
    → Distinct es
    → (r : Reading) × (read_log_rot_timestamps date (ok content) path agg stamps ≡ some r)
      × (read_log_rot_timestamps date (ok content) path agg r.file_stamp
          ≡ some (unread r.file_stamp))
read_log_rot_timestamps_again date path agg content es stamps named d =
    let r = stamp_all (unread stamps) es in
    let known =
      All-of_In (λ e. get r.file_stamp e.0 ≡ some e.1.0) es
        (λ e i. rw (stamp_all-get es (unread stamps) e.0 d, get_of_In es e.0 e.1 d i) refl) in
    (
      r,
      read-entries date path agg content es stamps named,
      rw
          (
            read-entries date path agg content es r.file_stamp named,
            stamp_all_same es (unread r.file_stamp) known,
          )
          refl,
    )
