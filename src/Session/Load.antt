-- ===== src/Session/Load.antt =====
-- `Load` with `readRecoverableSession` and `finalRecordStart` (internal/session/session.go).
pub mod Start
pub mod Torn
use notch.Prelude.{
  ℕ, zero, suc, ◌+◌, ◌-◌, ◌*◌, Bool, not, ◌&&◌, Option, none, some, [], ◌∷◌, ◌++◌, ◌==◌,
  if◌then◌else◌, length, take, drop, get_or,
}
use notch.Go.Bytes.{Bytes}
use notch.Go.Space.{trim_space}
use notch.Go.Json.{valid}
use notch.Session.{Result, err, ok, Codec, Loaded}
use notch.Session.Decode.{DecodeError, decode}

-- bytes.LastIndexByte for a newline; -1 is `none`.
unfoldable pub last_newline : Bytes → Option ℕ
last_newline [] = none
last_newline (c ∷ s) = elim (last_newline s) [
  | some i ↦ some (suc i)
  | none ↦ if c == 10 then some 0 else none
]

abbrev pub block_size : ℕ
block_size = 32 * 1024

-- The loop: `end` is where the block ends, and each round brings it down. The fuel is the size.
unfoldable pub record_start_from : ℕ → Bytes → ℕ → ℕ
unfolding last_newline
record_start_from zero f end = 0
record_start_from (suc fuel) f end =
    let start = end - block_size in
    let before = record_start_from fuel f start in
    if end == 0 then 0 else elim (last_newline (take (end - start) (drop start f))) [
      | some i ↦ start + i + 1
      | none ↦ before
    ]

unfoldable pub final_record_start : Bytes → ℕ
unfolding record_start_from
final_record_start f = record_start_from (length f) f (length f)

pub data Recovery : Type 0 where
  recovery_none recovery_newline : Recovery
  recovery_truncate : ℕ → Recovery

unfoldable pub is_unterminated : Bytes → Bool
is_unterminated f = not (length f == 0) && not (get_or f (length f - 1) 0 == 10)

unfoldable pub with_recovery :
    Recovery → Result DecodeError Loaded → Result DecodeError (Loaded × Recovery)
with_recovery r (err e) = err e
with_recovery r (ok st) = ok (st, r)

unfoldable pub read_recoverable_session : Codec → Bytes → Result DecodeError (Loaded × Recovery)
unfolding final_record_start is_unterminated with_recovery decode
read_recoverable_session c f =
    let start = final_record_start f in
    if not (is_unterminated f)
    then with_recovery recovery_none (decode c f)
    else if valid (trim_space (drop start f))
    then with_recovery recovery_newline (decode c f)
    else with_recovery (recovery_truncate start) (decode c (take start f))

-- The file as `Load` leaves it.
unfoldable pub recovered : Recovery → Bytes → Bytes
recovered recovery_none f = f
recovered recovery_newline f = f ++ 10 ∷ []
recovered (recovery_truncate size) f = take size f

-- What `Load` returns where no file operation fails, and the file behind it.
unfoldable pub load : Codec → Bytes → Result DecodeError (Loaded × Bytes)
unfolding read_recoverable_session recovered
load c f = elim (read_recoverable_session c f) [
  | err e ↦ err e
  | ok (st, r) ↦ ok (st, recovered r f)
]
