-- ===== src/Logs/RotateConf/Complete.antt =====
-- What the configuration file of logrotate holds when it was written without an error.
use remote_console.Prelude.{
  ◌≡◌, ap, ◌∙◌, inl, inr, none, some, [], ◌∷◌, ◌++◌, if◌then◌else◌, arith, Option-cases, Bool-cases,
}
use remote_console.Prelude.Text.{Str, ◌==◌, ==_iff}
use remote_console.Prelude.Filepath.{dir, dir-nonempty}
use remote_console.Nodes.Registry.{NodeMap}
use remote_console.Logs.Config.{LogConfig}
use remote_console.Logs.RotateConf.{
  ConfFile, returned, header, line, node_entry, agg_entry, write_nodes, write_agg,
  update_log_rotate_conf,
}
use mathlib.Core.List.{append_assoc}

-- A write without an error appends.
abbrev pub Appends : ConfFile → Type 0
Appends io =
    (content text : Str)
    → (io.write content text).1 ≡ none
    → (io.write content text).0 ≡ content ++ text

-- One entry for each node, in the order of the map.
abbrev pub node_entries : LogConfig → Str → NodeMap → Str
node_entries config console_logs_path [] = []
node_entries config console_logs_path ((k, none) ∷ nodes) =
    node_entries config console_logs_path nodes
node_entries config console_logs_path ((k, some cni) ∷ nodes) =
    node_entry config console_logs_path cni ++ node_entries config console_logs_path nodes

abbrev pub agg_entries : LogConfig → Str → Str
agg_entries config con_agg_log_file =
    if con_agg_log_file == [] then [] else agg_entry config con_agg_log_file

module _ (io : ConfFile) (config : LogConfig) (path : Str) (appends : Appends io) where
  write_nodes_complete :
      (nodes : NodeMap) (content written : Str)
      → write_nodes io config path nodes content ≡ returned written none
      → written ≡ content ++ (node_entries config path nodes ++ b'\n' ∷ [])
  unfolding write_nodes
  write_nodes_complete [] content written h = ground (arith, appends content (b'\n' ∷ []))
  write_nodes_complete ((k, none) ∷ nodes) content written h = absurd (cc)
  write_nodes_complete ((k, some cni) ∷ nodes) content written h =
      let entry = node_entry config path cni in
      elim (Option-cases (io.write content entry).1) [
        | inr (e, failed) ↦ absurd (ground (arith, failed, h))
        | inl fine ↦
            let rest =
              write_nodes_complete nodes (io.write content entry).0 written
                (ground (arith, fine, h)) in
            ground (
              arith,
              rest,
              appends content entry fine,
              append_assoc content entry (node_entries config path nodes ++ b'\n' ∷ []),
              append_assoc entry (node_entries config path nodes) (b'\n' ∷ []),
            )
      ]

  write_agg_complete :
      (nodes : NodeMap) (con_agg_log_file content written : Str)
      → write_agg io config path nodes con_agg_log_file content ≡ returned written none
      → written
        ≡ content
          ++ (agg_entries config con_agg_log_file ++ (node_entries config path nodes ++ b'\n' ∷ []))
  write_agg_complete nodes con_agg_log_file content written h =
      let entry = agg_entry config con_agg_log_file in
      let tail = node_entries config path nodes ++ b'\n' ∷ [] in
      let stepped = append_assoc content entry tail in
      elim (Bool-cases (con_agg_log_file == [])) [
        | inl unnamed ↦
            rw unnamed (write_nodes_complete nodes content written (ground (arith, unnamed, h)))
        | inr named ↦ elim (Option-cases (io.write content entry).1) [
          | inr (e, failed) ↦ absurd (
              ground (
                arith,
                named,
                ==_iff (dir con_agg_log_file) [],
                dir-nonempty con_agg_log_file,
                failed,
                h,
              ))
          | inl fine ↦
              let rest = write_nodes_complete nodes (io.write content entry).0 written (
                ground (
                  arith,
                  named,
                  ==_iff (dir con_agg_log_file) [],
                  dir-nonempty con_agg_log_file,
                  fine,
                  h,
                )) in
              ground (arith, named, rest, appends content entry fine, stepped)
        ]
      ]

  -- When writes append and the update returns no error, the file holds the header, the entry of the
  -- aggregation log if that has a name, an entry for each node, and an empty line.
  pub update_log_rotate_conf_complete :
      (nodes : NodeMap) (con_agg_log_file file written : Str)
      → update_log_rotate_conf io config path nodes con_agg_log_file file ≡ returned written none
      → written
        ≡ line header []
          ++ (agg_entries config con_agg_log_file ++ (node_entries config path nodes ++ b'\n' ∷ []))
  unfolding update_log_rotate_conf
  update_log_rotate_conf_complete nodes con_agg_log_file file written h =
      let head = line header [] in
      elim (Option-cases (io.create config.log_rotate_file_path)) [
        | inr (e, failed) ↦ absurd (ground (arith, failed, h))
        | inl fine ↦ elim (Option-cases (io.write [] head).1) [
          | inr (e, failed) ↦ absurd (ground (arith, fine, failed, h))
          | inl began ↦
              write_agg_complete nodes con_agg_log_file (io.write [] head).0 written
                (ground (arith, fine, began, h))
              ∙ ap
                  (λ (content : Str).
                    content
                    ++ (agg_entries config con_agg_log_file
                        ++ (node_entries config path nodes ++ b'\n' ∷ [])))
                  (appends [] head began)
        ]
      ]
