-- ===== src/Conman/ConfigFile/Complete.antt =====
-- What a successful update leaves in the configuration file.
use remote_console.Prelude.{
  ◌≡◌, refl, sym, ap, ◌∙◌, inl, inr, Bool, Option, none, some, List, [], ◌∷◌, ◌++◌, ok, arith,
  length, ltb, In, Option-cases, Result-cases,
}
use mathlib.Core.List.{append_assoc, append-nil}
use remote_console.Prelude.Text.{Str, ◌==◌}
use remote_console.Prelude.Map.{Map}
use remote_console.Nodes.Info.{NodeConsoleInfo, ipmi, ssh}
use remote_console.Nodes.Registry.{NodeMap}
use remote_console.Conman.Config.{ConmanConfig}
use remote_console.Conman.Entries.{
  CompCredentials, generate_ipmi_console_config, generate_ssh_console_config,
}
use remote_console.Conman.Sort.{sort_strings, In-sort_strings}
use remote_console.Conman.ConfigFile.{
  ConfigIo, credentials_of, console_entry, console_entries, add_entry, write_entries, finish,
  has_nodes, after_base, generate_base_config, configure_conman, returned,
}

-- os.File: a write without an error has put all its bytes at the end.
pub record Appends (io : ConfigIo) : Type 0 where
  pub appended :
      (content output content' : Str)
      → io.write content output ≡ (content', none)
      → content' ≡ content ++ output

abbrev pub concat : List Str → Str
concat [] = []
concat (s ∷ ss) = s ++ concat ss

write_entries-content :
    (io : ConfigIo) (content : Str) (cs : List Str) (content' : Str)
    → Appends io
    → write_entries io content cs ≡ (content', none)
    → content' ≡ content ++ concat cs
unfolding write_entries
write_entries-content io content [] content' a h = ap (λ p. p.0) (sym h) ∙ sym (append-nil content)
write_entries-content io content (output ∷ cs) content' a h =
    elim (Option-cases (io.write content output).1) [
      | inr (e, failed) ↦ absurd (ground arith)
      | inl written ↦
          write_entries-content io (io.write content output).0 cs content' a (ground arith)
          ∙ rw
              (a.appended content output (io.write content output).0
                (λ i. ((io.write content output).0, written i)))
              (append_assoc content output (concat cs))
    ]

In-add_entry :
    (a : Str) (output : Option Str) (cs : List Str) → In a cs → In a (add_entry output cs)
In-add_entry a none cs i = i
In-add_entry a (some o) cs i = inr i

-- Every node of a supported type has its entry in the list.
In-console_entries :
    (config : ConmanConfig) (passwords : Map CompCredentials) (key_path k : Str) (nodes : NodeMap)
    (nci : NodeConsoleInfo) (output : Str) (cs : List Str)
    → console_entries config passwords key_path nodes ≡ some cs
    → In (k, some nci) nodes
    → console_entry config passwords key_path nci ≡ some output
    → In output cs
unfolding console_entries
In-console_entries config passwords key_path k [] nci output cs h i e = absurd i
In-console_entries config passwords key_path k ((j, none) ∷ nodes) nci output cs h i e = cc
In-console_entries config passwords key_path k ((j, some n) ∷ nodes) nci output cs h (inl same) e =
    elim (Option-cases (console_entries config passwords key_path nodes)) [
      | inl crashed ↦ absurd (ground arith)
      | inr (ds, rest) ↦
          let added : cs ≡ output ∷ ds = ground (arith, ap (λ p. p.1) same) in rw added (inl refl)
    ]
In-console_entries config passwords key_path k ((j, some n) ∷ nodes) nci output cs h (inr later) e =
    elim (Option-cases (console_entries config passwords key_path nodes)) [
      | inl crashed ↦ absurd (ground arith)
      | inr (ds, rest) ↦
          let added : cs ≡ add_entry (console_entry config passwords key_path n) ds =
            ground arith in
          rw added (
            In-add_entry output (console_entry config passwords key_path n) ds
              (In-console_entries config passwords key_path k nodes nci output ds rest later e))
    ]

console_entry-ipmi :
    (config : ConmanConfig) (passwords : Map CompCredentials) (key_path : Str)
    (nci : NodeConsoleInfo)
    → nci.connection_type ≡ ipmi
    → console_entry config passwords key_path nci
      ≡ some (generate_ipmi_console_config nci (credentials_of passwords nci.id))
unfolding console_entry ◌==◌
console_entry-ipmi config passwords key_path nci e = rw e refl

console_entry-ssh :
    (config : ConmanConfig) (passwords : Map CompCredentials) (key_path : Str)
    (nci : NodeConsoleInfo)
    → nci.connection_type ≡ ssh
    → console_entry config passwords key_path nci
      ≡ some (generate_ssh_console_config config nci (credentials_of passwords nci.id) key_path)
unfolding console_entry ◌==◌
console_entry-ssh config passwords key_path nci e = rw e refl

-- The file of a successful update, and the result.
pub record IsWritten (io : ConfigIo) (config : ConmanConfig) (nodes : NodeMap)
    (passwords : Map CompCredentials) (key_path content : Str) (found : Bool) : Type 0 where
  pub base : Str
  pub entries : List Str
  pub templated : generate_base_config io config ≡ ok base
  pub holds : content ≡ base ++ concat entries
  pub ipmi_listed :
      (k : Str) (nci : NodeConsoleInfo)
      → In (k, some nci) nodes
      → nci.connection_type ≡ ipmi
      → In (generate_ipmi_console_config nci (credentials_of passwords nci.id)) entries
  pub ssh_listed :
      (k : Str) (nci : NodeConsoleInfo)
      → In (k, some nci) nodes
      → nci.connection_type ≡ ssh
      → In
          (generate_ssh_console_config config nci (credentials_of passwords nci.id) key_path)
          entries
  pub reports : found ≡ ltb 0 (length nodes)

module _ (io : ConfigIo) (config : ConmanConfig) (nodes : NodeMap) (passwords : Map CompCredentials)
    (key_path content bs : Str) (found : Bool) (a : Appends io)
    (templated : generate_base_config io config ≡ ok bs) where
  listed_entry :
      (cs : List Str)
      → console_entries config passwords key_path nodes ≡ some cs
      → (k : Str) (nci : NodeConsoleInfo) (output : Str) → In (k, some nci) nodes
      → console_entry config passwords key_path nci ≡ some output
      → In output (sort_strings cs)
  listed_entry cs listed k nci output i e =
      In-sort_strings output cs
        (In-console_entries config passwords key_path k nodes nci output cs listed i e)

  finish-IsWritten :
      (start : Str) (cs : List Str)
      → start ≡ bs
      → console_entries config passwords key_path nodes ≡ some cs
      → finish (has_nodes nodes) (write_entries io start (sort_strings cs))
        ≡ returned content (ok found)
      → IsWritten io config nodes passwords key_path content found
  finish-IsWritten start cs at_base listed h =
      elim (Option-cases (write_entries io start (sort_strings cs)).1) [
        | inr (e, failed) ↦ absurd (ground arith)
        | inl whole ↦ record {
          base = bs;
          entries = sort_strings cs;
          templated = templated;
          holds =
              write_entries-content io start (sort_strings cs) content a (ground arith)
              ∙ ap (λ (s : Str). s ++ concat (sort_strings cs)) at_base;
          ipmi_listed = λ k nci i e.
              listed_entry cs listed k nci _ i (console_entry-ipmi config passwords key_path nci e);
          ssh_listed = λ k nci i e.
              listed_entry cs listed k nci _ i (console_entry-ssh config passwords key_path nci e);
          reports = ground arith;
        }
      ]

  after_base-IsWritten :
      after_base io config nodes passwords key_path (io.write [] bs) ≡ returned content (ok found)
      → IsWritten io config nodes passwords key_path content found
  after_base-IsWritten h = elim (Option-cases (io.write [] bs).1) [
    | inr (e, failed) ↦ absurd (ground arith)
    | inl written ↦ elim (Option-cases (console_entries config passwords key_path nodes)) [
      | inl crashed ↦ absurd (ground arith)
      | inr (cs, listed) ↦
          finish-IsWritten (io.write [] bs).0 cs
            (a.appended [] bs (io.write [] bs).0 (λ i. ((io.write [] bs).0, written i))) listed
            (ground arith)
    ]
  ]

-- When writes append and a configuration returns without an error, the file holds the base
-- configuration and then entries, among which each IPMI and each SSH node has the one that is
-- generated from it and its credentials. The result says whether there is a node at all.
pub configure_conman-IsWritten :
    (io : ConfigIo) (config : ConmanConfig) (nodes : NodeMap) (passwords : Map CompCredentials)
    (key_path file content : Str) (found : Bool)
    → Appends io
    → configure_conman io config nodes passwords key_path file ≡ returned content (ok found)
    → IsWritten io config nodes passwords key_path content found
unfolding configure_conman
configure_conman-IsWritten io config nodes passwords key_path file content found a h =
    elim (Result-cases (generate_base_config io config)) [
      | inr (e, failed) ↦ absurd (ground arith)
      | inl (bs, templated) ↦ elim (Option-cases (io.open_file config.conf_file_path)) [
        | inr (e, closed) ↦ absurd (ground arith)
        | inl open_ok ↦
            after_base-IsWritten io config nodes passwords key_path content bs found a templated
              (ground arith)
      ]
    ]
