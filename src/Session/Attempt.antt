-- ===== src/Session/Attempt.antt =====
-- `appendLine` and `rollbackAppend` on every answer of the operating system.
use mathlib.Core.Path.{subst}
use notch.Prelude.{
  sym, if_split, arith, take, ◌≡◌, Bool, true, false, not, ◌||◌, none, some, ◌++◌, length,
  take-append_exact, Option,
}
use notch.Go.Bytes.{Bytes}
use notch.Session.{Loaded}
use notch.Session.Append.{
  Session, Io, AppendError, session_closed, stat_failed, write_failed, sync_failed, rollback_failed,
  write_all, disable, rollback_append, append_line,
}
use notch.Session.Crash.{write_all-prefix, write_all-all}

-- The line was not made durable, for the reason `e`, and a first part of it was in the file.
pub data Failed (io : Io) (line : Bytes) : AppendError → Type 0 where
  unwritten : (write_all io.writes line).1 ≡ false → Failed io line write_failed
  unsynced : (write_all io.writes line).1 ≡ true → io.sync_ok ≡ false → Failed io line sync_failed

-- What one append comes to.
pub data Attempt (io : Io) (line : Bytes) (f : Loaded → Loaded) (s : Session)
    : Session × Option AppendError → Type 0 where
  refused : (s.closed || not s.has_file) ≡ true → Attempt io line f s (s, some session_closed)
  unknown_size :
      (s.closed || not s.has_file) ≡ false
      → io.stat_ok ≡ false
      → Attempt io line f s (s, some stat_failed)
  committed :
      (s.closed || not s.has_file) ≡ false
      → io.stat_ok ≡ true
      → (write_all io.writes line).1 ≡ true
      → io.sync_ok ≡ true
      → Attempt io line f s (record s { disk = s.disk ++ line; loaded = f s.loaded }, none)
  rolled_back :
      {e : AppendError}
      → Failed io line e
      → io.truncate_ok ≡ true
      → io.rollback_sync_ok ≡ true
      → Attempt io line f s (s, some e)
  disabled :
      {e : AppendError}
      → Failed io line e
      → io.truncate_ok ≡ true
      → io.rollback_sync_ok ≡ false
      → Attempt io line f s (disable s, some (rollback_failed e))
  left_behind :
      {e : AppendError} (p q : Bytes)
      → Failed io line e
      → io.truncate_ok ≡ false
      → p ++ q ≡ line
      → Attempt io line f s (disable (record s { disk = s.disk ++ p }), some (rollback_failed e))

not-true : (b : Bool) → not b ≡ true → b ≡ false
not-true b h = ground arith

not-false : (b : Bool) → not b ≡ false → b ≡ true
not-false b h = ground arith

rollback_append-Attempt :
    (io : Io) (line p q : Bytes) (f : Loaded → Loaded) (s : Session) {e : AppendError}
    → Failed io line e
    → p ++ q ≡ line
    → Attempt io line f s (rollback_append io (length s.disk) e (record s { disk = s.disk ++ p }))
unfolding rollback_append
rollback_append-Attempt io line p q f s {e} failed split =
    let wrote : Session = record s { disk = s.disk ++ p } in
    let cut : take (length s.disk) (s.disk ++ p) ≡ s.disk = take-append_exact s.disk p in
    let P : Session × Option AppendError → Type 0 = Attempt io line f s in
    if_split P (not io.truncate_ok) _ _
      (λ kept. left_behind p q failed (not-true io.truncate_ok kept) split)
      (λ done.
        let truncated = not-false io.truncate_ok done in
        if_split P (not io.rollback_sync_ok) _ _
          (λ lost.
            subst (λ d. P (disable (record s { disk = d }), some (rollback_failed e))) (sym cut)
              (disabled failed truncated (not-true io.rollback_sync_ok lost)))
          (λ synced.
            subst (λ d. P (record s { disk = d }, some e)) (sym cut)
              (rolled_back failed truncated (not-false io.rollback_sync_ok synced))))

-- `appendLine` does one of six things. It refuses a session that is closed or has no file. It
-- fails where the size of the file is unknown. It writes the whole line, syncs and commits it.
-- Or the write or the sync fails, and it leaves the session and the bytes of its file as they
-- were, where the truncation and its sync succeed; it closes the session, with those bytes,
-- where that sync fails; and it closes the session, with a first part of the line behind those
-- bytes, where the truncation fails.
pub append_line-Attempt :
    (io : Io) (line : Bytes) (f : Loaded → Loaded) (s : Session)
    → Attempt io line f s (append_line io line f s)
unfolding append_line
append_line-Attempt io line f s =
    let (q, split) = write_all-prefix io.writes line in
    let (part, all) = write_all io.writes line in
    let P : Session × Option AppendError → Type 0 = Attempt io line f s in
    if_split P (s.closed || not s.has_file) _ _ refused (λ usable.
      if_split P (not io.stat_ok) _ _ (λ bad. unknown_size usable (not-true io.stat_ok bad))
        (λ known.
          let sized = not-false io.stat_ok known in
          if_split P (not all) _ _
            (λ short.
              rollback_append-Attempt io line part q f s (unwritten (not-true all short)) split)
            (λ whole.
              let written = not-false all whole in
              if_split P (not io.sync_ok) _ _
                (λ bad.
                  rollback_append-Attempt io line part q f s
                    (unsynced written (not-true io.sync_ok bad)) split)
                (λ synced.
                  subst (λ d. P (record s { disk = s.disk ++ d; loaded = f s.loaded }, none))
                    (sym (write_all-all io.writes line written))
                    (committed usable sized written (not-false io.sync_ok synced))))))
