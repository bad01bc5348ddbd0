-- ===== src/Stream/Faults.antt =====
-- Bytes of a peer that the parse loop does not survive.
use udpboardcast.Base.{
  ℕ, zero, suc, ◌+◌, ◌-◌, ◌≤◌, ◌<◌, ◌^◌, ◌≡◌, refl, ap, List, [], ◌++◌, arith, length,
}
use udpboardcast.Proto.{CommPkg, header_size, moves_back, view, proto_parse_package}
use udpboardcast.Proto.Parse.{zero_length, negative_length}
use udpboardcast.Stream.{
  CommTcp, pending, hangs, runs_away, parse_all, never_returns, out_of_bounds, receive, stored,
  collect,
}

-- A length of 2^32 - 18 makes `requireLen` zero: the loop takes the same package again and again,
-- and no number of rounds ends it.
pub parse_all-hangs :
    (fuel : ℕ) (before buf : List ℕ)
    → header_size ≤ length buf
    → (view buf).length ≡ 2 ^ 32 - header_size
    → parse_all fuel before buf ≡ hangs
unfolding parse_all
parse_all-hangs zero before buf header claimed = refl
parse_all-hangs (suc fuel) before buf header claimed =
    rw (zero_length buf header claimed, parse_all)
      (ap (collect (view buf)) (parse_all-hangs fuel _ buf header claimed))

-- A cursor that moves back at the front of the buffer leaves it.
parse_all-runs_away :
    (fuel n : ℕ) (buf : List ℕ) {p : CommPkg}
    → 0 < fuel
    → 0 < n
    → proto_parse_package buf ≡ moves_back p n
    → parse_all fuel [] buf ≡ runs_away
unfolding parse_all
parse_all-runs_away zero n buf h back e = absurd (omega arith)
parse_all-runs_away (suc fuel) n buf h back e = rw (e, parse_all) (ground (arith, back))

-- If the kept bytes and a read together begin with a package whose length is 2^31 - 18 or more, below
-- 2^32 - 18, `requireLen` is negative, and the cursor leaves the buffer at its front.
pub receive-out_of_bounds :
    (t : CommTcp) (content : List ℕ)
    → header_size ≤ length (pending t ++ content)
    → 2 ^ 31 - header_size ≤ (view (pending t ++ content)).length
    → (view (pending t ++ content)).length < 2 ^ 32 - header_size
    → receive t content ≡ out_of_bounds
unfolding receive
receive-out_of_bounds t content header low high =
    let (n, back, e) = negative_length (pending t ++ content) header low high in
    ap (stored t) (parse_all-runs_away (length (pending t ++ content) + 1) n _ (omega arith) back e)

-- So one read that brings such a header keeps the loop in this call for good.
pub receive-never_returns :
    (t : CommTcp) (content : List ℕ)
    → header_size ≤ length (pending t ++ content)
    → (view (pending t ++ content)).length ≡ 2 ^ 32 - header_size
    → receive t content ≡ never_returns
unfolding receive
receive-never_returns t content header claimed =
    ap (stored t)
      (parse_all-hangs (length (pending t ++ content) + 1) [] (pending t ++ content) header claimed)
