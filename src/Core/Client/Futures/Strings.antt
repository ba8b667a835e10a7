-- ===== src/Core/Client/Futures/Strings.antt =====
-- The commands of `client` on strings that give a future (sources/core/client.cpp).
use cpp_redis.Prelude.{Bytes, List, ℤ}
use cpp_redis.Core.Client.Commands.Strings.{
  append, bitcount, bitcount_start_end, bitop, bitpos, bitpos_start, bitpos_start_end, decr, decrby,
  get, getbit, getrange, getset, incr, incrby, mget, psetex, set, setbit_, setex, setnx, setrange,
  strlen,
}
use cpp_redis.Core.Client.Futures.{Promised, exec_cmd}

module _ {S : Type 0} where
  abbrev pub append_future : Bytes → Bytes → Promised S
  append_future key value = exec_cmd (append key value)

  abbrev pub bitcount_future : Bytes → Promised S
  bitcount_future key = exec_cmd (bitcount key)

  abbrev pub bitcount_start_end_future : Bytes → ℤ → ℤ → Promised S
  bitcount_start_end_future key start end = exec_cmd (bitcount_start_end key start end)

  abbrev pub bitop_future : Bytes → Bytes → List Bytes → Promised S
  bitop_future operation destkey keys = exec_cmd (bitop operation destkey keys)

  abbrev pub bitpos_future : Bytes → ℤ → Promised S
  bitpos_future key bit = exec_cmd (bitpos key bit)

  abbrev pub bitpos_start_future : Bytes → ℤ → ℤ → Promised S
  bitpos_start_future key bit start = exec_cmd (bitpos_start key bit start)

  abbrev pub bitpos_start_end_future : Bytes → ℤ → ℤ → ℤ → Promised S
  bitpos_start_end_future key bit start end = exec_cmd (bitpos_start_end key bit start end)

  abbrev pub decr_future : Bytes → Promised S
  decr_future key = exec_cmd (decr key)

  abbrev pub decrby_future : Bytes → ℤ → Promised S
  decrby_future key val = exec_cmd (decrby key val)

  abbrev pub get_future : Bytes → Promised S
  get_future key = exec_cmd (get key)

  abbrev pub getbit_future : Bytes → ℤ → Promised S
  getbit_future key offset = exec_cmd (getbit key offset)

  abbrev pub getrange_future : Bytes → ℤ → ℤ → Promised S
  getrange_future key start end = exec_cmd (getrange key start end)

  abbrev pub getset_future : Bytes → Bytes → Promised S
  getset_future key val = exec_cmd (getset key val)

  abbrev pub incr_future : Bytes → Promised S
  incr_future key = exec_cmd (incr key)

  abbrev pub incrby_future : Bytes → ℤ → Promised S
  incrby_future key incr = exec_cmd (incrby key incr)

  abbrev pub mget_future : List Bytes → Promised S
  mget_future keys = exec_cmd (mget keys)

  abbrev pub psetex_future : Bytes → ℤ → Bytes → Promised S
  psetex_future key milliseconds val = exec_cmd (psetex key milliseconds val)

  abbrev pub set_future : Bytes → Bytes → Promised S
  set_future key value = exec_cmd (set key value)

  abbrev pub setbit__future : Bytes → ℤ → Bytes → Promised S
  setbit__future key offset value = exec_cmd (setbit_ key offset value)

  abbrev pub setex_future : Bytes → ℤ → Bytes → Promised S
  setex_future key seconds value = exec_cmd (setex key seconds value)

  abbrev pub setnx_future : Bytes → Bytes → Promised S
  setnx_future key value = exec_cmd (setnx key value)

  abbrev pub setrange_future : Bytes → ℤ → Bytes → Promised S
  setrange_future key offset value = exec_cmd (setrange key offset value)

  abbrev pub strlen_future : Bytes → Promised S
  strlen_future key = exec_cmd (strlen key)
