-- ===== src/Egsi/Teacher/Cache/Written.antt =====
-- A write that returns was read back.
use iclr.Base.{ℕ, ◌≡◌, some, List, ok}
use iclr.Base.Exec
use iclr.Egsi.Teacher.Cache.Entry.{Entry, read_entry_at}
use iclr.Egsi.Teacher.Cache.Run.{Info, System, Run, opening, call}
use iclr.Egsi.Teacher.Cache.Write.{
  accept_temporary, install, fresh_token, temporary_name, atomic_write_at,
}
use iclr.Egsi.Teacher.Responses.{Text}

module _ {W : Type 0} (sys : System W) (directory_fd : ℕ) where
  -- The replacement of the entry in a write from `run`: what it went through, and that it returned.
  pub record IsReplaced (name : Text) (raw : List ℕ) (run after : Run W) : Type 0 where
    pub previous : Entry
    pub token : Text
    pub fd : ℕ
    pub before : Run W
    pub read_first : read_entry_at sys directory_fd name run ≡ (ok previous, before)
    pub accepted : Run W
    pub opened :
        (opening
          (sys.create_at directory_fd (temporary_name name token))
          (fresh_token sys directory_fd before).1).0
        ≡ ok fd
    pub tested :
        accept_temporary sys directory_fd
          (temporary_name name token)
          fd
          (opening
            (sys.create_at directory_fd (temporary_name name token))
            (fresh_token sys directory_fd before).1).1
        ≡ (ok tt, accepted)
    pub replaced :
        install sys directory_fd name (temporary_name name token) raw previous fd accepted
        ≡ (ok tt, after)

  -- The write from `run` replaced the entry; the first that it did then was to read it, which gave the
  -- bytes, and the last was to synchronise the directory from the state that the read left.
  pub record IsReadBack (name : Text) (raw : List ℕ) (run : Run W) : Type 0 where
    pub after : Run W
    pub replacement : IsReplaced name raw run after
    pub token : Info
    pub read : (read_entry_at sys directory_fd name after).0 ≡ ok (some (raw, token))
    pub synchronised :
        (atomic_write_at sys directory_fd name raw run).1
        ≡ (call (sys.fsync directory_fd) (read_entry_at sys directory_fd name after).1).1
