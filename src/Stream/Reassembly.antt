-- ===== src/Stream/Reassembly.antt =====
-- The cache of a connection, and its reads against the stream that they cut into pieces.
use udpboardcast.Base.{
  ℕ, ◌+◌, ◌≤◌, ◌<◌, ◌^◌, ◌≡◌, refl, sym, ap, List, [], ◌∷◌, ◌++◌, append_assoc, append-nil, arith,
  ltb, inl, inr, Bool-cases, length, drop, concat, All, take-length, take_all, length-append,
  length-drop,
}
use udpboardcast.Proto.{
  CommPkg, incomplete, encode, proto_parse_package, proto_check_pkg, proto_build_package,
  header_size,
}
use udpboardcast.Proto.Parse.{IsWire, proto_parse_package-encode, parsed-Taken, nil_incomplete}
use udpboardcast.Stream.{
  CommTcp, fresh_tcp, pending, kept, store_rest, received, receive, receive_each,
}
use udpboardcast.Stream.Decodes.{
  Decodes, stop, step, parse_all-Decodes, Decodes-incomplete, Decodes-at_rest, Decodes-Cut,
}

-- Between two reads: the kept bytes lie in the buffer, and they are not a whole package.
pub record IsCache (t : CommTcp) : Type 0 where
  pub kept : t.length ≤ t.maxlength
  pub allocated : length t.cache ≡ t.maxlength
  pub settled : proto_parse_package (pending t) ≡ incomplete

pub fresh_tcp-IsCache : IsCache fresh_tcp
fresh_tcp-IsCache = record { kept = omega arith; allocated = refl; settled = nil_incomplete }

pending-store_rest : (t : CommTcp) (rest : List ℕ) → pending (store_rest t rest) ≡ rest
unfolding store_rest
pending-store_rest t rest = elim (Bool-cases (ltb t.maxlength (length rest))) [
  | inl grow ↦ rw grow (take_all rest)
  | inr fits ↦ rw fits (take-length rest _)
]

store_rest-IsCache :
    (t : CommTcp) (rest : List ℕ)
    → IsCache t
    → proto_parse_package rest ≡ incomplete
    → IsCache (store_rest t rest)
unfolding store_rest
store_rest-IsCache t rest v e = record {
  kept = ground arith;
  allocated = ground (
    arith,
    length-append rest (drop (length rest) t.cache),
    length-drop (length rest) t.cache,
    v.allocated,
  );
  settled = rw (pending-store_rest t rest) e;
}

-- One read of a stream that decodes: the packages, and the remainder in the cache.
pub record Reads (t : CommTcp) (content : List ℕ) (ts : List CommPkg) (r : List ℕ) : Type 0 where
  pub next : CommTcp
  pub result : receive t content ≡ received ts next
  pub left : pending next ≡ r
  pub valid : IsCache next

pub receive-Reads :
    (t : CommTcp) (content : List ℕ) {ts : List CommPkg} {r : List ℕ}
    → IsCache t
    → Decodes (pending t ++ content) ts r
    → Reads t content ts r
unfolding receive
receive-Reads t content {r} v d = record {
  next = store_rest t r;
  result = rw (parse_all-Decodes (length (pending t ++ content) + 1) [] d (omega arith));
  left = pending-store_rest t r;
  valid = store_rest-IsCache t r v (Decodes-incomplete d);
}

pub record ReadsAll (t : CommTcp) (cs : List (List ℕ)) (ts : List CommPkg) (r : List ℕ)
    : Type 0 where
  pub next : CommTcp
  pub result : receive_each t cs ≡ received ts next
  pub left : pending next ≡ r
  pub valid : IsCache next

-- However the network cuts a stream into reads, they give its packages, each once and in order,
-- and the cache ends with its remainder.
pub receive_each-Decodes :
    (t : CommTcp) (cs : List (List ℕ)) {ts : List CommPkg} {r : List ℕ}
    → IsCache t
    → Decodes (pending t ++ concat cs) ts r
    → ReadsAll t cs ts r
unfolding receive_each
receive_each-Decodes t [] v d =
    let (nothing, same) = Decodes-at_rest (rw append-nil at d) v.settled in
    record { next = t; result = rw nothing; left = sym same; valid = v }
receive_each-Decodes t (c ∷ cs) v d =
    let cut = Decodes-Cut d (pending t ++ c) (concat cs) (sym (append_assoc _ c _)) in
    let read = receive-Reads t c v cut.before in
    let later =
      receive_each-Decodes read.next cs {ts = cut.second} read.valid (rw read.left cut.after) in
    record {
      next = later.next;
      result =
          rw (read.result, receive_each)
            (rw later.result (ap (λ us. received us later.next) (sym cut.joined)));
      left = later.left;
      valid = later.valid;
    }

-- The bytes of packages sent one after another.
abbrev pub encode_each : List CommPkg → List ℕ
encode_each [] = []
encode_each (p ∷ ps) = encode p ++ encode_each ps

-- A package that an honest peer sends.
pub record IsSent (p : CommPkg) : Type 0 where
  pub wire : IsWire p
  pub checked : proto_check_pkg p ≡ 0

pub encode_each-Decodes : (ps : List CommPkg) → All IsSent ps → Decodes (encode_each ps) ps []
unfolding kept
encode_each-Decodes [] h = stop nil_incomplete refl refl
encode_each-Decodes (p ∷ ps) h =
    step (parsed-Taken _ (proto_parse_package-encode p (encode_each ps) h.0.wire) h.0.wire.fits)
      h.0.wire.fits (encode_each-Decodes ps h.1) (rw h.0.checked)

-- The library's own packages are such, for payloads that an `int` can measure.
pub proto_build_package-IsSent :
    (buf : List ℕ) (pkg_type task_id : ℕ)
    → length buf + header_size < 2 ^ 31
    → pkg_type < 2 ^ 8
    → task_id < 2 ^ 64
    → IsSent (proto_build_package buf pkg_type task_id)
unfolding proto_build_package proto_check_pkg
proto_build_package-IsSent buf pkg_type task_id fits known numbered = record {
  wire = record {
    version = omega arith;
    magic = omega arith;
    task_id = numbered;
    pkg_type = known;
    length = omega arith;
    fits = omega arith;
  };
  checked = refl;
}

-- Packages sent one after another arrive, each once and in order, however the bytes are cut
-- into reads, and leave nothing in the cache.
pub receive_each-encode_each :
    (ps : List CommPkg) (cs : List (List ℕ))
    → All IsSent ps
    → concat cs ≡ encode_each ps
    → ReadsAll fresh_tcp cs ps []
receive_each-encode_each ps cs sent same =
    receive_each-Decodes fresh_tcp cs fresh_tcp-IsCache (rw same (encode_each-Decodes ps sent))
