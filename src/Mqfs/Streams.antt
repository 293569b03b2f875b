-- ===== src/Mqfs/Streams.antt =====
-- The streams of a mounted file system and their locks, mqfs/filemap_compat.c: get_free_stream and
-- put_stream.
pub mod Laws
use ccnvme.Prelude.{
  ℕ, zero, suc, ◌+◌, ◌-◌, ◌%◌, Bool, true, false, Option, none, some, set, get_or, leb,
  if◌then◌else◌,
}
use ccnvme.Mqfs.{Sbi}

-- What get_free_stream does: it returns a stream with its lock taken, or waits for a lock.
pub data Attempt : Type 0 where
  took : ℕ → Sbi → Attempt
  waits_for : ℕ → Attempt

-- `mutex_trylock(&sbi->stream_lock[s])` succeeds
abbrev pub lock_is_held : Sbi → ℕ → Bool
lock_is_held sbi s = get_or sbi.stream_lock s true

abbrev pub with_lock : Sbi → ℕ → Bool → Sbi
with_lock sbi s b = record sbi { stream_lock = set sbi.stream_lock s b }

-- a free lock `s` is taken, and its stream returned
abbrev pub taken : ℕ → Sbi → Attempt
taken s sbi = took (get_or sbi.streams s 0) (with_lock sbi s true)

-- `while (--loop)`, for as many rounds, behind the lock `s`
unfoldable pub try_others : ℕ → ℕ → Sbi → Option ℕ
try_others zero s sbi = none
try_others (suc loop) s sbi =
    let s' = (s + 1) % sbi.nr_streams in
    let rest = try_others loop s' sbi in if lock_is_held sbi s' then rest else some s'

abbrev pub found : ℕ → Sbi → Option ℕ → Attempt
found s sbi (some s') = taken s' sbi
found s sbi none = if lock_is_held sbi s then waits_for s else taken s sbi

-- The processor's own lock, then the others in a circle, then the own one until it is free.
unfoldable pub get_free_stream : ℕ → Sbi → Attempt
unfolding try_others
get_free_stream cpu sbi =
    let s = cpu % sbi.nr_streams in
    if lock_is_held sbi s then found s sbi (try_others (sbi.nr_streams - 1) s sbi) else taken s sbi

-- The lock that put_stream gives back for a stream, and the state behind it.
unfoldable pub lock_index : Sbi → ℕ → ℕ
lock_index sbi stream = if leb sbi.nr_streams stream then stream % sbi.nr_streams else stream

unfoldable pub put_stream : Sbi → ℕ → Sbi
unfolding lock_index
put_stream sbi stream = with_lock sbi (lock_index sbi stream) false
