-- ===== src/Stream.antt =====
-- The reassembly of packages from a TCP stream: the first half of `_read_content_process` in
-- Communication/core/comm_core.cpp, over the cache of `comm_tcp_t` in core/comm_res.h.
pub mod Decodes
pub mod Reassembly
pub mod Faults
use udpboardcast.Base.{
  ℕ, zero, suc, ◌+◌, ◌-◌, List, [], ◌∷◌, ◌++◌, ltb, ◌==◌, if◌then◌else◌, length, take, drop,
}
use udpboardcast.Proto.{
  CommPkg, incomplete, parsed, moves_back, require_len, proto_parse_package, proto_check_pkg,
}

-- The cache fields of `comm_tcp_t`. `cache` is the allocated buffer, of `maxlength` bytes, of
-- which the first `length` are kept.
pub record CommTcp : Type 0 where
  pub cache : List ℕ
  pub maxlength : ℕ
  pub length : ℕ

-- `init_tcp_conn` leaves no cache.
abbrev pub fresh_tcp : CommTcp
fresh_tcp = record { cache = []; maxlength = 0; length = 0 }

-- The bytes that wait for the rest of their package.
abbrev pub pending : CommTcp → List ℕ
pending t = take t.length t.cache

-- The outcome of the parse loop: the packages pushed on `taskList` with the bytes left, a use of
-- memory outside of the buffer, or a loop that used up its fuel.
pub data Batch : Type 0 where
  batch : List CommPkg → List ℕ → Batch
  runs_away : Batch
  hangs : Batch

-- A package that fails the check is reported and dropped.
unfoldable pub kept : CommPkg → List CommPkg → List CommPkg
kept p ts = if proto_check_pkg p == 0 then p ∷ ts else ts

abbrev pub collect : CommPkg → Batch → Batch
collect p (batch ts rest) = batch (kept p ts) rest
collect p runs_away = runs_away
collect p hangs = hangs

-- A package whose `requireLen` is negative claims more bytes than there are: if it passes the check,
-- its payload is copied from outside of the buffer.
abbrev pub collect_back : CommPkg → Batch → Batch
collect_back p (batch ts rest) = if proto_check_pkg p == 0 then runs_away else batch ts rest
collect_back p runs_away = runs_away
collect_back p hangs = hangs

-- `while (1) { pkg = proto_parse_package(...); ... }`, on fuel, with the bytes in front of the
-- cursor and those from it on.
unfoldable pub parse_all : ℕ → List ℕ → List ℕ → Batch
unfolding require_len
parse_all zero before buf = hangs
parse_all (suc fuel) before buf = elim (proto_parse_package buf) [
  | incomplete ↦ batch [] buf
  | parsed p rest ↦ collect p (parse_all fuel (before ++ take (require_len p) buf) rest)
  | moves_back p n ↦
      let kept_back = length before - n in
      let again = parse_all fuel (take kept_back before) (drop kept_back before ++ buf) in
      if ltb (length before) n then runs_away else collect_back p again
]

-- The remainder goes to the front of the cache, which is allocated anew if it is too small.
unfoldable pub store_rest : CommTcp → List ℕ → CommTcp
store_rest t rest =
    if ltb t.maxlength (length rest)
    then record { cache = rest; maxlength = length rest; length = length rest }
    else record t { cache = rest ++ drop (length rest) t.cache; length = length rest }

-- What one read gives: the packages for the loop and the connection with its new cache.
pub data Received : Type 0 where
  received : List CommPkg → CommTcp → Received
  out_of_bounds : Received
  never_returns : Received

abbrev pub stored : CommTcp → Batch → Received
stored t (batch ts rest) = received ts (store_rest t rest)
stored t runs_away = out_of_bounds
stored t hangs = never_returns

-- One call with the bytes of one read. What the loop does depends on its cursor only, which has at
-- most one place more than there are bytes: a loop that goes on longer comes to one of them again.
unfoldable pub receive : CommTcp → List ℕ → Received
receive t content =
    stored t (parse_all (length (pending t ++ content) + 1) [] (pending t ++ content))

abbrev pub prepend : List CommPkg → Received → Received
prepend ts (received us t) = received (ts ++ us) t
prepend ts out_of_bounds = out_of_bounds
prepend ts never_returns = never_returns

-- The reads of a connection, one after another.
unfoldable pub receive_each : CommTcp → List (List ℕ) → Received
receive_each t [] = received [] t
receive_each t (c ∷ cs) = elim (receive t c) [
  | received ts t' ↦ prepend ts (receive_each t' cs)
  | out_of_bounds ↦ out_of_bounds
  | never_returns ↦ never_returns
]
