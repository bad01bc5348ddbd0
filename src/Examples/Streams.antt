-- ===== src/Examples/Streams.antt =====
-- Packages and streams on concrete bytes.
use udpboardcast.Base.{ℕ, ◌≡◌, refl, List, [], ◌∷◌, ◌++◌, arith, take, drop}
use udpboardcast.Proto.{
  CommPkg, pkg_type_common, pkg_type_push, proto_build_package, encode, parsed, view,
  proto_parse_package,
}
use udpboardcast.Proto.Bytes.{le_bytes}
use udpboardcast.Proto.Parse.{proto_parse_package-encode}
use udpboardcast.Stream.{fresh_tcp, out_of_bounds, never_returns, receive}
use udpboardcast.Stream.Reassembly.{
  IsSent, fresh_tcp-IsCache, ReadsAll, receive_each-Decodes, encode_each, encode_each-Decodes,
  proto_build_package-IsSent, receive_each-encode_each,
}
use udpboardcast.Stream.Faults.{receive-out_of_bounds, receive-never_returns}

abbrev question : CommPkg
unfolding proto_build_package
question = proto_build_package (104 ∷ 105 ∷ []) pkg_type_common 7

abbrev notice : CommPkg
unfolding proto_build_package
notice = proto_build_package [] pkg_type_push 8

question-IsSent : IsSent question
unfolding question
question-IsSent =
    proto_build_package-IsSent (104 ∷ 105 ∷ []) pkg_type_common 7 (omega arith) (omega arith)
      (omega arith)

notice-IsSent : IsSent notice
unfolding notice
notice-IsSent =
    proto_build_package-IsSent [] pkg_type_push 8 (omega arith) (omega arith) (omega arith)

abbrev sent : List ℕ
unfolding encode le_bytes question notice
sent = encode_each (question ∷ notice ∷ [])

proto_parse_package-encode_example :
    proto_parse_package (encode question ++ 1 ∷ []) ≡ parsed question (1 ∷ [])
proto_parse_package-encode_example =
    proto_parse_package-encode question (1 ∷ []) question-IsSent.wire

proto_build_package-IsSent_example : IsSent (proto_build_package (104 ∷ []) pkg_type_push 3)
proto_build_package-IsSent_example =
    proto_build_package-IsSent (104 ∷ []) pkg_type_push 3 (omega arith) (omega arith) (omega arith)

receive_each-encode_each_example :
    ReadsAll fresh_tcp (take 5 sent ∷ drop 5 sent ∷ []) (question ∷ notice ∷ []) []
unfolding encode le_bytes question notice
receive_each-encode_each_example =
    receive_each-encode_each (question ∷ notice ∷ []) (take 5 sent ∷ drop 5 sent ∷ [])
      (question-IsSent, (notice-IsSent, tt)) refl

receive_each-Decodes_example : ReadsAll fresh_tcp (sent ∷ []) (question ∷ notice ∷ []) []
unfolding encode le_bytes question notice
receive_each-Decodes_example =
    receive_each-Decodes fresh_tcp (sent ∷ []) fresh_tcp-IsCache
      (encode_each-Decodes (question ∷ notice ∷ []) (question-IsSent, (notice-IsSent, tt)))

-- A header of this protocol whose length field has the bytes `a` and then 255, 255, `b`.
abbrev bad_header : ℕ → ℕ → List ℕ
bad_header a b =
    1 ∷ 0x78 ∷ 0x56 ∷ 0x34 ∷ 0x12 ∷ 0 ∷ 0 ∷ 0 ∷ 0 ∷ 0 ∷ 0 ∷ 0 ∷ 0 ∷ 1 ∷ a ∷ 255 ∷ 255 ∷ b ∷ []

receive-never_returns_example : receive fresh_tcp (bad_header 238 255) ≡ never_returns
unfolding view
receive-never_returns_example =
    receive-never_returns fresh_tcp (bad_header 238 255) (omega arith) refl

receive-out_of_bounds_example : receive fresh_tcp (bad_header 0 200) ≡ out_of_bounds
unfolding view
receive-out_of_bounds_example =
    receive-out_of_bounds fresh_tcp (bad_header 0 200) (omega arith) (omega arith) (omega arith)
