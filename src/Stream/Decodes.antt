-- ===== src/Stream/Decodes.antt =====
-- What a byte stream stands for, as a relation, and the parse loop against it.
use udpboardcast.Base.{
  ℕ, zero, suc, ◌+◌, ◌^◌, ◌<◌, ◌≡◌, refl, ap, ◌∙◌, inl, inr, List, [], ◌++◌, arith, length,
}
use udpboardcast.Proto.{CommPkg, header_size, incomplete, proto_parse_package}
use udpboardcast.Proto.Parse.{Taken, Taken-parsed, Taken-split, Taken-shorter, incomplete-prefix}
use udpboardcast.Stream.{batch, kept, parse_all}

-- `Decodes b ts r`: the bytes `b` are packages of sane length, of which those that pass the check
-- are `ts`, and then the start `r` of a package that is cut short.
pub data Decodes : List ℕ → List CommPkg → List ℕ → Type 0 where
  stop :
      {b r : List ℕ} {ts : List CommPkg}
      → proto_parse_package b ≡ incomplete
      → ts ≡ []
      → r ≡ b
      → Decodes b ts r
  step :
      {b rest r : List ℕ} {p : CommPkg} {ts us : List CommPkg}
      → Taken b p rest
      → p.length + header_size < 2 ^ 31
      → Decodes rest ts r
      → us ≡ kept p ts
      → Decodes b us r

-- With more fuel than bytes the loop ends, with the packages and the remainder.
pub parse_all-Decodes :
    (fuel : ℕ) (before : List ℕ) {b r : List ℕ} {ts : List CommPkg}
    → Decodes b ts r
    → length b < fuel
    → parse_all fuel before b ≡ batch ts r
unfolding parse_all
parse_all-Decodes zero before d h = absurd (omega arith)
parse_all-Decodes (suc fuel) before (stop e none_left same) h = rw (e, parse_all, none_left, same)
parse_all-Decodes (suc fuel) before (step {b} t fits d e) h =
    rw (Taken-parsed b t fits, parse_all)
      (rw (parse_all-Decodes fuel _ d (omega (arith, Taken-shorter b t)), e))

-- The remainder is cut short.
pub Decodes-incomplete :
    {b r : List ℕ} {ts : List CommPkg} → Decodes b ts r → proto_parse_package r ≡ incomplete
Decodes-incomplete (stop e none_left same) = rw same e
Decodes-incomplete (step t fits d e) = Decodes-incomplete d

pub Decodes-at_rest :
    {b r : List ℕ} {ts : List CommPkg}
    → Decodes b ts r
    → proto_parse_package b ≡ incomplete
    → (ts ≡ []) × (r ≡ b)
Decodes-at_rest (stop e none_left same) h = (none_left, same)
Decodes-at_rest (step {b} t fits d e) h = cc (h, Taken-parsed b t fits)

-- A stream may be cut anywhere: the first part decodes, and its remainder before the second part
-- decodes to the other packages.
pub record Cut (b c : List ℕ) (ts : List CommPkg) (r : List ℕ) : Type 0 where
  pub first : List CommPkg
  pub between : List ℕ
  pub second : List CommPkg
  pub before : Decodes b first between
  pub after : Decodes (between ++ c) second r
  pub joined : ts ≡ first ++ second

Cut-here :
    (b c : List ℕ) {r : List ℕ} {ts : List CommPkg}
    → proto_parse_package b ≡ incomplete
    → Decodes (b ++ c) ts r
    → Cut b c ts r
Cut-here b c {ts} e d = record {
  first = [];
  between = b;
  second = ts;
  before = stop e refl refl;
  after = d;
  joined = refl;
}

kept-append : (p : CommPkg) (ts us : List CommPkg) → kept p (ts ++ us) ≡ kept p ts ++ us
unfolding kept
kept-append p ts us = ground arith

Cut-step :
    {p : CommPkg} {b c rest r : List ℕ} {ts us : List CommPkg}
    → Taken b p rest
    → p.length + header_size < 2 ^ 31
    → us ≡ kept p ts
    → Cut rest c ts r
    → Cut b c us r
Cut-step {p} t fits e cut = record {
  first = kept p cut.first;
  between = cut.between;
  second = cut.second;
  before = step t fits cut.before refl;
  after = cut.after;
  joined = e ∙ ap (kept p) cut.joined ∙ kept-append p cut.first cut.second;
}

pub Decodes-Cut :
    {s r : List ℕ} {ts : List CommPkg} → Decodes s ts r → (b c : List ℕ) → s ≡ b ++ c → Cut b c ts r
Decodes-Cut (stop e none_left same) b c cut =
    Cut-here b c (incomplete-prefix b c (rw cut at e))
      (stop (rw cut at e) none_left (rw cut at same))
Decodes-Cut {s} (step t fits d e) b c cut = elim (Taken-split b c (rw cut at t) fits) [
  | inl cut_short ↦ Cut-here b c cut_short (rw cut at (step t fits d e))
  | inr (mid, taken, same) ↦ Cut-step taken fits e (Decodes-Cut d mid c same)
]
