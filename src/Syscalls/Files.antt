-- ===== src/Syscalls/Files.antt =====
-- The system calls on paths, against the map of paths, and what the current process may pass.
use shade_os.Base.{ℕ, ◌≡◌, ◌≢◌, ap, ◌∙◌, some, List, if◌then◌else◌, ℤ, pos, eq_ℤ, ◌||◌, ne→not_==}
use shade_os.Vfs.{FileEntry, Fs, regular, directory, create_file, create_directory, delete_file}
use shade_os.Vfs.Files.{parts}
use shade_os.Vfs.Entries.{Paths, paths, creates, deletes, Refines}
use shade_os.Vfs.Refine.{create_file-Refines, create_directory-Refines, delete_file-Refines}
use shade_os.Vfs.Tree.{IsTree}
use shade_os.Syscalls.{Machine, Reply, sys_mkdir, sys_unlink, sys_creat, eexist, enoent, eacces}

-- How a call's answer follows from that of the file system.
abbrev pub mkdir_answer : ℤ → ℤ
mkdir_answer r = if eq_ℤ r (pos 0) then pos 0 else eexist

abbrev pub unlink_answer : ℤ → ℤ
unlink_answer r = if eq_ℤ r (pos 0) then pos 0 else enoent

abbrev pub creat_answer : ℤ → ℤ
creat_answer r = if eq_ℤ r (pos 0) || eq_ℤ r eexist then pos 3 else eacces

-- The file system and the answer of a reply; a specification whose answer is translated.
abbrev pub outcome : Reply → Fs × ℤ
outcome r = (r.machine.fs, r.answer)

abbrev pub translated : (ℤ → ℤ) → Paths × ℤ → Paths × ℤ
translated f w = (w.0, f w.1)

module _ (string_at : ℕ → List ℕ) (m : Machine) (a : ℕ) (root : FileEntry)
    (set_up : m.fs ≡ some root) (pathname : a ≢ 0) where
  -- With a path and a file system, `sys_mkdir` does what creating a directory does to the map of
  -- paths, and answers 0 for success and -17 for every error, a missing parent included.
  pub sys_mkdir-Refines :
      Refines
        (outcome (sys_mkdir string_at m a))
        (translated mkdir_answer (creates directory (parts (some (string_at a))) (paths root)))
  unfolding sys_mkdir
  sys_mkdir-Refines =
      let path = some (string_at a) in
      let r = create_directory-Refines path root in
      rw (ne→not_== a 0 pathname) (record {
        root' = r.root';
        run =
            ap
              (λ (fs : Fs).
                ((create_directory path fs).0, mkdir_answer (create_directory path fs).1))
              set_up
            ∙ ap (λ (x : Fs × ℤ). (x.0, mkdir_answer x.1)) r.run;
        seen = r.seen;
      })

  -- With a path and a well-formed file system, `sys_unlink` does what deleting does to the map of
  -- paths, and answers 0 for success and -2 for every error.
  pub sys_unlink-Refines :
      IsTree root
      → Refines
          (outcome (sys_unlink string_at m a))
          (translated unlink_answer (deletes (parts (some (string_at a))) (paths root)))
  unfolding sys_unlink
  sys_unlink-Refines tree =
      let path = some (string_at a) in
      let r = delete_file-Refines path root tree in
      rw (ne→not_== a 0 pathname) (record {
        root' = r.root';
        run =
            ap (λ (fs : Fs). ((delete_file path fs).0, unlink_answer (delete_file path fs).1))
              set_up
            ∙ ap (λ (x : Fs × ℤ). (x.0, unlink_answer x.1)) r.run;
        seen = r.seen;
      })

  -- With a path and a file system, `sys_creat` does what creating a file does to the map of paths,
  -- and answers 3 for success and for a path that shows something, and -13 for a missing parent.
  pub sys_creat-Refines :
      Refines
        (outcome (sys_creat string_at m a))
        (translated creat_answer (creates regular (parts (some (string_at a))) (paths root)))
  unfolding sys_creat
  sys_creat-Refines =
      let path = some (string_at a) in
      let r = create_file-Refines path root in
      rw (ne→not_== a 0 pathname) (record {
        root' = r.root';
        run =
            ap (λ (fs : Fs). ((create_file path fs).0, creat_answer (create_file path fs).1)) set_up
            ∙ ap (λ (x : Fs × ℤ). (x.0, creat_answer x.1)) r.run;
        seen = r.seen;
      })
