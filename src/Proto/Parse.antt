-- ===== src/Proto/Parse.antt =====
-- The parser of comm_protocol.cpp on whole packages, on longer buffers, and on bad lengths.
use udpboardcast.Base.{
  ◌-◌, ℕ, ◌+◌, ◌%◌, ◌^◌, ◌≤◌, ◌<◌, ◌≡◌, refl, sym, ap, ◌∙◌, List, [], ◌++◌, arith, ltb, ltb→lt,
  ltb→le, Bool-cases, inl, inr, ◌⊎◌, lt→ltb, le→ltb, length, take, drop, length-append, length-drop,
  take-append, drop-append, take-length, drop-length,
}
use udpboardcast.Proto.Bytes.{
  le_bytes, le_value, le_value-le_bytes_one, le_value-le_bytes_four, le_value-le_bytes_eight,
}
use udpboardcast.Proto.{
  CommPkg, header_size, encode, field, view, take_package, require_len, moves_back, incomplete,
  parsed, proto_parse_package,
}

-- Every field fits its type, the length is that of the payload, and `requireLen` fits an `int`.
pub record IsWire (p : CommPkg) : Type 0 where
  pub version : p.version < 2 ^ 8
  pub magic : p.magic < 2 ^ 32
  pub task_id : p.task_id < 2 ^ 64
  pub pkg_type : p.pkg_type < 2 ^ 8
  pub length : p.length ≡ length p.payload
  pub fits : p.length + header_size < 2 ^ 31

length-encode : (p : CommPkg) → length (encode p) ≡ header_size + length p.payload
unfolding encode
length-encode p = omega arith

view-encode : (p : CommPkg) (rest : List ℕ) → IsWire p → view (encode p ++ rest) ≡ p
unfolding view encode
view-encode p rest w = λ i. record {
  version = le_value-le_bytes_one p.version w.version i;
  magic = le_value-le_bytes_four p.magic w.magic i;
  task_id = le_value-le_bytes_eight p.task_id w.task_id i;
  pkg_type = le_value-le_bytes_one p.pkg_type w.pkg_type i;
  length = claimed i;
  payload =
      (ap (λ n. take n (p.payload ++ rest)) (claimed ∙ w.length) ∙ take-length p.payload rest) i;
}
  where
    claimed : le_value (le_bytes 4 p.length) ≡ p.length
    claimed = le_value-le_bytes_four p.length (omega (arith, w.fits))

field-append : (o n : ℕ) (b c : List ℕ) → o + n ≤ length b → field o n (b ++ c) ≡ field o n b
unfolding field
field-append o n b c h =
    rw
      (drop-append o b c (omega arith), take-append n (drop o b) c (omega (arith, length-drop o b)))

-- A package whose `requireLen` is an `int` is taken as soon as its bytes are there.
take_package-parsed :
    (p : CommPkg) (buf : List ℕ)
    → p.length + header_size < 2 ^ 31
    → p.length + header_size ≤ length buf
    → take_package p buf ≡ parsed p (drop (p.length + header_size) buf)
unfolding take_package
take_package-parsed p buf fits there = ground (arith, mod_self)
  where
    mod_self : (p.length + header_size) % 2 ^ 32 ≡ p.length + header_size
    mod_self = omega arith

take_package-incomplete :
    (p : CommPkg) (buf : List ℕ)
    → p.length + header_size < 2 ^ 31
    → length buf < p.length + header_size
    → take_package p buf ≡ incomplete
unfolding take_package
take_package-incomplete p buf fits short = ground arith

short_incomplete : (b : List ℕ) → length b < header_size → proto_parse_package b ≡ incomplete
unfolding proto_parse_package
short_incomplete b h = rw (lt→ltb _ _ h)

whole_header :
    (b : List ℕ) → header_size ≤ length b → proto_parse_package b ≡ take_package (view b) b
unfolding proto_parse_package
whole_header b h = rw (le→ltb _ _ h)

pub proto_parse_package-encode :
    (p : CommPkg) (rest : List ℕ)
    → IsWire p
    → proto_parse_package (encode p ++ rest) ≡ parsed p rest
proto_parse_package-encode p rest w =
    whole_header _ (omega (arith, size))
    ∙ ap (λ q. take_package q (encode p ++ rest)) (view-encode p rest w)
    ∙ take_package-parsed p _ w.fits (omega (arith, size, w.length))
    ∙ ap (parsed p) (ap (λ n. drop n (encode p ++ rest)) whole ∙ drop-length (encode p) rest)
  where
    size : length (encode p ++ rest) ≡ header_size + length p.payload + length rest
    size = omega (arith, length-append (encode p) rest, length-encode p)

    whole : p.length + header_size ≡ length (encode p)
    whole = omega (arith, length-encode p, w.length)

-- What a successful parse of a package of sane length tells of the buffer.
pub record Taken (b : List ℕ) (p : CommPkg) (r : List ℕ) : Type 0 where
  pub header : header_size ≤ length b
  pub whole : p.length + header_size ≤ length b
  pub seen : view b ≡ p
  pub rest : r ≡ drop (p.length + header_size) b

pub parsed-Taken :
    (b : List ℕ) {p : CommPkg} {r : List ℕ}
    → proto_parse_package b ≡ parsed p r
    → p.length + header_size < 2 ^ 31
    → Taken b p r
unfolding proto_parse_package take_package
parsed-Taken b e fits = record {
  header = ground arith;
  whole = ground arith;
  seen = ground arith;
  rest = ground arith;
}

pub Taken-parsed :
    (b : List ℕ) {p : CommPkg} {r : List ℕ}
    → Taken b p r
    → p.length + header_size < 2 ^ 31
    → proto_parse_package b ≡ parsed p r
Taken-parsed b {p} t fits =
    whole_header b t.header
    ∙ ap (λ q. take_package q b) t.seen
    ∙ take_package-parsed p b fits t.whole
    ∙ ap (parsed p) (sym t.rest)

length-view-append :
    (b c : List ℕ) → header_size ≤ length b → (view (b ++ c)).length ≡ (view b).length
unfolding view
length-view-append b c h = field-append 14 4 b c h

view-append :
    (b c : List ℕ)
    → header_size ≤ length b
    → (view b).length + header_size ≤ length b
    → view (b ++ c) ≡ view b
unfolding view
view-append b c h whole = λ i. record {
  version = field-append 0 1 b c (omega arith) i;
  magic = field-append 1 4 b c (omega arith) i;
  task_id = field-append 5 8 b c (omega arith) i;
  pkg_type = field-append 13 1 b c (omega arith) i;
  length = field-append 14 4 b c (omega arith) i;
  payload = held i;
}
  where
    held :
        take (field 14 4 (b ++ c)) (drop header_size (b ++ c))
        ≡ take (field 14 4 b) (drop header_size b)
    held =
        rw (field-append 14 4 b c (omega arith), drop-append header_size b c h)
          (take-append _ (drop header_size b) c (omega (arith, length-drop header_size b)))

pub Taken-append :
    (b c : List ℕ) {p : CommPkg} {r : List ℕ} → Taken b p r → Taken (b ++ c) p (r ++ c)
Taken-append b c {p} {r} t = record {
  header = omega (arith, length-append b c, t.header);
  whole = omega (arith, length-append b c, t.whole);
  seen = view-append b c t.header (rw t.seen t.whole) ∙ t.seen;
  rest = rw t.rest (sym (drop-append _ b c t.whole));
}

pub Taken-shorter :
    (b : List ℕ) {p : CommPkg} {r : List ℕ} → Taken b p r → length r + header_size ≤ length b
Taken-shorter b {p} t =
    omega (arith, ap length t.rest, length-drop (p.length + header_size) b, t.whole)

-- A buffer whose extension starts with a package of sane length is cut short, or starts with it.
pub Taken-split :
    (b c : List ℕ) {p : CommPkg} {r : List ℕ}
    → Taken (b ++ c) p r
    → p.length + header_size < 2 ^ 31
    → (proto_parse_package b ≡ incomplete) ⊎ ((r1 : List ℕ) × Taken b p r1 × (r ≡ r1 ++ c))
Taken-split b c {p} {r} t fits = elim (Bool-cases (ltb (length b) header_size)) [
  | inl short ↦ inl (short_incomplete b (ltb→lt _ _ short))
  | inr long ↦ decide_length (ltb→le _ _ long)
]
  where
    decide_length :
        header_size ≤ length b
        → (proto_parse_package b ≡ incomplete) ⊎ ((r1 : List ℕ) × Taken b p r1 × (r ≡ r1 ++ c))
    decide_length header =
        let claimed : (view b).length ≡ p.length =
          sym (length-view-append b c header) ∙ ap (λ q. q.length) t.seen in
        elim (Bool-cases (ltb (length b) (p.length + header_size))) [
          | inl cut ↦ inl (
              whole_header b header
              ∙ take_package-incomplete (view b) b (omega (arith, claimed, fits))
                  (omega (arith, claimed, ltb→lt _ _ cut)))
          | inr there ↦
              let whole = ltb→le _ _ there in
              inr (
                drop (p.length + header_size) b,
                record {
                  header = header;
                  whole = whole;
                  seen = sym (view-append b c header (omega (arith, claimed, whole))) ∙ t.seen;
                  rest = refl;
                },
                t.rest ∙ drop-append _ b c whole,
              )
        ]

take_package-incomplete_prefix :
    (p q : CommPkg) (b c : List ℕ)
    → q.length ≡ p.length
    → take_package q (b ++ c) ≡ incomplete
    → take_package p b ≡ incomplete
unfolding take_package
take_package-incomplete_prefix p q b c same e = ground (arith, length-append b c)

pub incomplete-prefix :
    (b c : List ℕ) → proto_parse_package (b ++ c) ≡ incomplete → proto_parse_package b ≡ incomplete
incomplete-prefix b c e = elim (Bool-cases (ltb (length b) header_size)) [
  | inl short ↦ short_incomplete b (ltb→lt _ _ short)
  | inr long ↦
      let header = ltb→le _ _ long in
      let header' : header_size ≤ length (b ++ c) = omega (arith, length-append b c) in
      whole_header b header
      ∙ take_package-incomplete_prefix (view b) (view (b ++ c)) b c (length-view-append b c header)
          (sym (whole_header (b ++ c) header') ∙ e)
]

pub nil_incomplete : proto_parse_package [] ≡ incomplete
nil_incomplete = short_incomplete [] (omega arith)

-- The lengths at which `requireLen` is zero, and at which it is negative.
pub zero_length :
    (b : List ℕ)
    → header_size ≤ length b
    → (view b).length ≡ 2 ^ 32 - header_size
    → proto_parse_package b ≡ parsed (view b) b
unfolding take_package
zero_length b h claimed = whole_header b h ∙ ground arith

pub negative_length :
    (b : List ℕ)
    → header_size ≤ length b
    → 2 ^ 31 - header_size ≤ (view b).length
    → (view b).length < 2 ^ 32 - header_size
    → (n : ℕ) × (0 < n) × (proto_parse_package b ≡ moves_back (view b) n)
unfolding take_package require_len
negative_length b h low high =
    (2 ^ 32 - require_len (view b), omega (arith, low, high), whole_header b h ∙ ground arith)
